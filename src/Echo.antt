-- ===== src/Echo.antt =====
-- projects/echoProject: echoserver.c, which sends back what it receives, and echoclient.c.
pub mod Serving
pub mod Talking
pub mod Exchange
mod Tests
use c_exercises.Base.{
  ℕ, zero, suc, ◌+◌, Bool, true, false, not, ◌||◌, Option, none, some, List, [], ◌∷◌, ◌==◌, ltb,
  leb, if◌then◌else◌, length, ℤ, pos, negsuc, is_negative,
}
use c_exercises.Text.{codes}
use c_exercises.Text.Integers.{atoi, to_ushort}
use c_exercises.Net.{Net, failed, got}
use c_exercises.Net.Ends.{Sink}
use c_exercises.Sockets.{
  Start, exits, goes, ◌>>=◌, ◌>>◌, require, Choice, sets, quits, read_options, is_port, Host,
  Address, get_socket, listening_socket, Outcome, ended, waits, run_from, close_all,
}

-- The variables that the server's options set.
pub record ServerOptions : Type 0 where
  pub portno : ℤ
  pub maxnpending : ℤ

unfoldable pub server_switch : ℕ → List ℕ → ServerOptions → Choice ServerOptions
unfolding atoi
server_switch char arg o =
    if char == b'm'
    then sets (record o { maxnpending = atoi arg })
    else if char == b'h'
    then quits 0
    else if char == b'p'
    then sets (record o { portno = atoi arg })
    else quits 1

abbrev pub is_positive : ℤ → Bool
is_positive (pos n) = not (ltb n 1)
is_positive (negsuc _) = false

-- echoserver.c up to `listen`.
unfoldable pub echoserver_start : List (ℕ × List ℕ) → Host → Start ℤ
unfolding server_switch read_options listening_socket
echoserver_start options host = do
  o ← read_options server_switch options (record { portno = pos 14757; maxnpending = pos 5 })
  require (is_port o.portno)
  require (is_positive o.maxnpending)
  listening_socket host (to_ushort o.portno) o.maxnpending

-- The variables that the client's options set.
pub record ClientOptions : Type 0 where
  pub portno : ℕ
  pub hostname : List ℕ
  pub message : List ℕ

unfoldable pub client_switch : ℕ → List ℕ → ClientOptions → Choice ClientOptions
unfolding atoi
client_switch char arg o =
    if char == b's'
    then sets (record o { hostname = arg })
    else if char == b'p'
    then sets (record o { portno = to_ushort (atoi arg) })
    else if char == b'm'
    then sets (record o { message = arg })
    else if char == b'h'
    then quits 0
    else quits 1

abbrev pub with_message : List ℕ → ℤ → Start (ℤ × List ℕ)
with_message message fd = goes [] (fd, message)

-- echoclient.c up to the exchange: the socket and the message. `resolve` is `getaddrinfo` with the
-- outcome of `socket` and `connect`, of a host's name and a port.
unfoldable pub echoclient_start :
    List (ℕ × List ℕ) → (List ℕ → ℕ → Option (List Address)) → Start (ℤ × List ℕ)
unfolding client_switch read_options get_socket
echoclient_start options resolve = do
  o ←
      read_options client_switch options
        (record { portno = 14757; hostname = codes "localhost"; message = codes "Hello Spring!!" })
  require (is_port (pos o.portno))
  fd ← get_socket (resolve o.hostname o.portno)
  with_message o.message fd

-- How the exchange with a client ends: the client hangs up, or the server exits.
pub data Ending : Type 0 where
  hangs_up gives_up : Ending

module _ (net : Net) where
  open net use {World, send, recv, incoming, close}

  -- What the server does with `msg` bytes that are not none.
  abbrev pub send_back : ℤ → List ℕ → World → Bool × World
  send_back fd d w =
      if ltb 15 (length d)
      then (false, w)
      else let r = send fd d w in (elim r.0 [ negsuc k ↦ false | pos n ↦ n == length d ], r.1)

  -- The inner loop. The fuel bounds the rounds.
  unfoldable pub echo_loop : ℕ → ℤ → World → Option (Ending × World)
  echo_loop zero fd w = none
  echo_loop (suc fuel) fd w =
      let r = recv fd 16 w in
      elim r.0 [
        | failed ↦ some (gives_up, r.1)
        | got d ↦ elim d [
          | [] ↦ some (hangs_up, r.1)
          | b ∷ bs ↦
              let s = send_back fd (b ∷ bs) r.1 in
              elim s.0 [ false ↦ some (gives_up, s.1) | true ↦ echo_loop fuel fd s.1 ]
        ]
      ]

  -- A client from `accept` on. A round takes a byte of its stream at least.
  unfoldable pub echo_client : ℤ → World → Option (Ending × World)
  unfolding echo_loop
  echo_client fd w = echo_loop (suc (length (incoming w fd))) fd w

  -- The outer loop over what `accept` returns. Behind the last one the server waits in `accept`.
  unfoldable pub echoserver_loop : ℤ → List ℤ → World → Option (Outcome × World)
  unfolding echo_client
  echoserver_loop listenfd [] w = some (waits, w)
  echoserver_loop listenfd (fd ∷ fds) w = elim (is_negative fd) [
    | true ↦ some (ended 1, close listenfd w)
    | false ↦ elim (echo_client fd w) [
      | none ↦ none
      | some (gives_up, w') ↦ some (ended 1, close listenfd (close fd w'))
      | some (hangs_up, w') ↦ echoserver_loop listenfd fds (close fd w')
    ]
  ]

  -- echoserver.c
  unfoldable pub echoserver : List (ℕ × List ℕ) → Host → List ℤ → World → Option (Outcome × World)
  unfolding echoserver_start echoserver_loop run_from
  echoserver options host clients w =
      run_from net (echoserver_start options host) (λ fd. echoserver_loop fd clients) w

  module _ (sink : Sink) where
    open sink use {File, write}

    -- From `write` to the standard output on: the exit code, and what is behind it.
    unfoldable pub print_answer : ℤ → List ℕ → World → File → ℕ × World × File
    print_answer fd d w out =
        let o = write d out in
        elim o.0 [
          | negsuc k ↦ (1, w, o.1)
          | pos m ↦ elim (m == length d) [ false ↦ (1, w, o.1) | true ↦ (0, close fd w, o.1) ]
        ]

    -- From `recv` on.
    unfoldable pub await_answer : ℤ → World → File → ℕ × World × File
    await_answer fd w out =
        let r = recv fd 16 w in
        elim r.0 [
          | failed ↦ (1, r.1, out)
          | got d ↦ elim (leb (length d) 0 || ltb 15 (length d)) [
            | true ↦ (1, r.1, out)
            | false ↦ print_answer fd d r.1 out
          ]
        ]

    -- The client from `strlen` on.
    unfoldable pub echoclient_talk : ℤ → List ℕ → World → File → ℕ × World × File
    echoclient_talk fd message w out = elim (ltb 15 (length message)) [
      | true ↦ (1, w, out)
      | false ↦
          let s = send fd message w in
          elim s.0 [
            | negsuc k ↦ (1, s.1, out)
            | pos n ↦ elim (n == length message) [
              | false ↦ (1, s.1, out)
              | true ↦ await_answer fd s.1 out
            ]
          ]
    ]

    -- echoclient.c; the connection is not closed before an exit with 1.
    unfoldable pub echoclient :
        List (ℕ × List ℕ) → (List ℕ → ℕ → Option (List Address)) → World → File → ℕ × World × File
    unfolding echoclient_start echoclient_talk
    echoclient options resolve w out = elim (echoclient_start options resolve) [
      | exits code closed ↦ (code, close_all net closed w, out)
      | goes closed (fd, message) ↦ echoclient_talk fd message (close_all net closed w) out
    ]
