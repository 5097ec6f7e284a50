-- ===== src/Echo/Tests.antt =====
-- A message of three bytes, which the socket takes at once.
use c_exercises.Base.{ℕ, ◌≡◌, refl, some, true, false, List, [], ◌∷◌, pos}
use c_exercises.Text.{codes}
use c_exercises.Net.Wire.{wires, wire, wires_duplex, list_file}
use c_exercises.Sockets.{Address, Host, goes, exits, first_socket}
use c_exercises.Echo.{
  echo_client, echo_loop, hangs_up, gives_up, echoclient_talk, await_answer, print_answer,
  echoserver_start, echoclient_start,
}
use c_exercises.Echo.Serving.{Echoes, echo_client-Echoes}
use c_exercises.Echo.Exchange.{PrintsBack, exchange-PrintsBack}

abbrev hey : List ℕ
hey = codes "hey"

echo_client-Echoes_example :
    Echoes wires wires_duplex (pos 4) (wire hey) (echo_client wires (pos 4) (wire hey))
echo_client-Echoes_example = echo_client-Echoes wires wires_duplex (pos 4) (wire hey)

-- A message of sixteen bytes arrives in pieces of five, and the first is sent back in part.
long_message :
    echo_client wires (pos 4) (wire (codes "sixteen bytes..."))
    ≡ some (gives_up, record { gone = codes "six"; coming = codes "en bytes..." })
unfolding echo_client echo_loop
long_message = refl

served : echo_client wires (pos 4) (wire hey) ≡ some (hangs_up, record { gone = hey; coming = [] })
unfolding echo_client echo_loop
served = refl

exits_well : (echoclient_talk wires list_file (pos 3) hey (wire hey) []).0 ≡ 0
unfolding echoclient_talk await_answer print_answer
exits_well = refl

exchange-PrintsBack_example :
    PrintsBack wires wires wires_duplex wires_duplex list_file hey []
      (echoclient_talk wires list_file (pos 3) hey (wire hey) []).2
exchange-PrintsBack_example =
    exchange-PrintsBack wires wires wires_duplex wires_duplex list_file (pos 3) (pos 4) hey
      (wire hey) (wire hey) [] (hangs_up, record { gone = hey; coming = [] }) served refl refl refl
      exits_well

abbrev two_addresses : List Address
two_addresses =
    record { socket = pos 3; accepts = false } ∷ record { socket = pos 5; accepts = true } ∷ []

abbrev host : Host
host = record { addresses = λ port. some two_addresses; listens = λ backlog. true }

server_starts : echoserver_start ((b'p', codes "2000") ∷ []) host ≡ goes (pos 3 ∷ []) (pos 5)
unfolding echoserver_start first_socket
server_starts = refl

-- 67000 is no port, but 1464 is, to which the client's `unsigned short` wraps it.
client_wraps_port :
    echoclient_start ((b'p', codes "67000") ∷ (b'm', hey) ∷ []) (λ name port. some two_addresses)
    ≡ goes (pos 3 ∷ []) (pos 5, hey)
unfolding echoclient_start first_socket
client_wraps_port = refl

server_refuses_port : echoserver_start ((b'p', codes "67000") ∷ []) host ≡ exits 1 []
unfolding echoserver_start
server_refuses_port = refl
