-- ===== src/Transfer/Tests.antt =====
-- A file of seven bytes, over a socket that takes three bytes at a time and gives five.
use c_exercises.Base.{ℕ, ◌≡◌, refl, some, true, List, [], ◌∷◌, pos}
use c_exercises.Text.{codes}
use c_exercises.Net.Wire.{wires, wire, wires_duplex, list_file}
use c_exercises.Sockets.{Address, goes, first_socket}
use c_exercises.Transfer.{
  serve_file, send_blocks, send_block, receive_file, receive_loop, write_loop, transferserver_start,
  transferclient_start,
}
use c_exercises.Transfer.Whole.{Copies, transfer-Copies}

abbrev seven : List ℕ
seven = codes "file me"

served : serve_file wires (pos 4) seven (wire []) ≡ some (record { gone = seven; coming = [] })
unfolding serve_file send_blocks send_block
served = refl

received :
    receive_file wires list_file (pos 3) (wire seven) []
    ≡ some (0, record { gone = []; coming = [] }, seven)
unfolding receive_file receive_loop write_loop
received = refl

transfer-Copies_example :
    Copies wires wires wires_duplex wires_duplex list_file
      (pos 4)
      seven
      []
      (receive_file wires list_file (pos 3) (wire seven) [])
transfer-Copies_example =
    transfer-Copies wires wires wires_duplex wires_duplex list_file (pos 3) (pos 4) seven
      (wire seven) (wire []) (record { gone = seven; coming = [] }) [] served refl refl

abbrev address : List Address
address = record { socket = pos 5; accepts = true } ∷ []

server_starts :
    transferserver_start
      ((b'f', codes "x") ∷ (b'p', codes " 2000") ∷ [])
      (record { addresses = λ port. some address; listens = λ backlog. true })
    ≡ goes [] (pos 5, codes "x")
unfolding transferserver_start first_socket
server_starts = refl

client_starts :
    transferclient_start [] (λ name port. some address) (λ filename. true) ≡ goes [] (pos 5)
unfolding transferclient_start first_socket
client_starts = refl
