-- ===== src/Transfer.antt =====
-- projects/transferProject: transferserver.c, which sends a file to each client, and transferclient.c,
-- which writes what it receives to a file.
pub mod Sending
pub mod Blocks
pub mod Writing
pub mod Receiving
pub mod Whole
mod Tests
use c_exercises.Base.{
  ℕ, zero, suc, ◌+◌, Bool, true, false, not, Option, none, some, List, [], ◌∷◌, ◌==◌, ltb,
  if◌then◌else◌, length, take, drop, ℤ, pos, negsuc, is_negative,
}
use c_exercises.Text.{codes}
use c_exercises.Text.Integers.{atoi, to_ushort}
use c_exercises.Net.{Net, failed, got}
use c_exercises.Net.Ends.{Sink}
use c_exercises.Sockets.{
  Start, exits, goes, ◌>>=◌, ◌>>◌, require, Choice, sets, quits, read_options, is_port, Host,
  Address, get_socket, listening_socket, Outcome, ended, waits, run_from, close_all,
}

abbrev pub bufsize : ℕ
bufsize = 512

-- The variables that the server's options set.
pub record ServerOptions : Type 0 where
  pub portno : ℤ
  pub filename : List ℕ

unfoldable pub server_switch : ℕ → List ℕ → ServerOptions → Choice ServerOptions
unfolding atoi
server_switch char arg o =
    if char == b'p'
    then sets (record o { portno = atoi arg })
    else if char == b'f'
    then sets (record o { filename = arg })
    else if char == b'h'
    then quits 0
    else quits 1

abbrev pub with_filename : List ℕ → ℤ → Start (ℤ × List ℕ)
with_filename filename fd = goes [] (fd, filename)

-- transferserver.c up to `listen`: the socket and the file's name.
unfoldable pub transferserver_start : List (ℕ × List ℕ) → Host → Start (ℤ × List ℕ)
unfolding server_switch read_options listening_socket
transferserver_start options host = do
  o ←
      read_options server_switch options
        (record { portno = pos 61321; filename = codes "6200.txt" })
  require (is_port o.portno)
  fd ← listening_socket host (to_ushort o.portno) (pos 5)
  with_filename o.filename fd

-- The variables that the client's options set.
pub record ClientOptions : Type 0 where
  pub hostname : List ℕ
  pub portno : ℕ
  pub filename : List ℕ

unfoldable pub client_switch : ℕ → List ℕ → ClientOptions → Choice ClientOptions
unfolding atoi
client_switch char arg o =
    if char == b's'
    then sets (record o { hostname = arg })
    else if char == b'p'
    then sets (record o { portno = to_ushort (atoi arg) })
    else if char == b'o'
    then sets (record o { filename = arg })
    else if char == b'h'
    then quits 0
    else quits 1

-- `open` of the output file; `opens` says whether it succeeds.
abbrev pub open_output : (List ℕ → Bool) → List ℕ → ℤ → Start ℤ
open_output opens filename fd = if opens filename then goes [] fd else exits 1 (fd ∷ [])

-- transferclient.c up to its loop: the socket.
unfoldable pub transferclient_start :
    List (ℕ × List ℕ) → (List ℕ → ℕ → Option (List Address)) → (List ℕ → Bool) → Start ℤ
unfolding client_switch read_options get_socket
transferclient_start options resolve opens = do
  o ←
      read_options client_switch options
        (record { hostname = codes "localhost"; portno = 61321; filename = codes "cs6200.txt" })
  require (is_port (pos o.portno))
  fd ← get_socket (resolve o.hostname o.portno)
  open_output opens o.filename fd

module _ (net : Net) where
  open net use {World, send, recv, shutdown, close, incoming}

  -- The loop over `send` for one block: what has been sent of it does not matter behind it. The fuel
  -- bounds the rounds.
  unfoldable pub send_block : ℕ → ℤ → List ℕ → ℕ → World → Option World
  send_block zero fd block offset w = none
  send_block (suc fuel) fd block offset w = elim (ltb offset (length block)) [
    | false ↦ some w
    | true ↦
        let r = send fd (drop offset block) w in
        elim r.0 [
          | negsuc k ↦ some r.1
          | pos zero ↦ some r.1
          | pos (suc n) ↦ send_block fuel fd block (offset + suc n) r.1
        ]
  ]

  -- The loop over `fread`, which returns the next 512 bytes of the file, or what is left of it.
  unfoldable pub send_blocks : ℕ → ℤ → List ℕ → World → Option World
  unfolding send_block
  send_blocks zero fd file w = none
  send_blocks (suc fuel) fd file w = elim (take bufsize file) [
    | [] ↦ some w
    | b ∷ bs ↦ elim (send_block (suc (length (b ∷ bs))) fd (b ∷ bs) 0 w) [
      | none ↦ none
      | some w' ↦ send_blocks fuel fd (drop bufsize file) w'
    ]
  ]

  -- A client behind `fopen`.
  unfoldable pub serve_file : ℤ → List ℕ → World → Option World
  unfolding send_blocks
  serve_file fd file w = elim (send_blocks (suc (length file)) fd file w) [
    | none ↦ none
    | some w' ↦ some (close fd (shutdown fd w'))
  ]

  -- The outer loop over what `accept` returns; `fopen` gives the file's bytes.
  unfoldable pub transferserver_loop :
      ℤ → Option (List ℕ) → List ℤ → World → Option (Outcome × World)
  unfolding serve_file
  transferserver_loop listenfd file [] w = some (waits, w)
  transferserver_loop listenfd file (fd ∷ fds) w = elim (is_negative fd) [
    | true ↦ some (ended 1, close listenfd w)
    | false ↦ elim file [
      | none ↦ some (ended 1, close listenfd w)
      | some bytes ↦ elim (serve_file fd bytes w) [
        | none ↦ none
        | some w' ↦ transferserver_loop listenfd file fds w'
      ]
    ]
  ]

  -- transferserver.c
  unfoldable pub transferserver :
      List (ℕ × List ℕ)
      → Host
      → (List ℕ → Option (List ℕ))
      → List ℤ
      → World
      → Option (Outcome × World)
  unfolding transferserver_start transferserver_loop
  transferserver options host fopen clients w = elim (transferserver_start options host) [
    | exits code closed ↦ some (ended code, close_all net closed w)
    | goes closed (fd, filename) ↦
        transferserver_loop fd (fopen filename) clients (close_all net closed w)
  ]

  module _ (sink : Sink) where
    open sink use {File, write}

    -- The loop over `write`: whether the whole piece has been written.
    unfoldable pub write_loop : ℕ → List ℕ → ℕ → File → Option (Bool × File)
    write_loop zero piece offset file = none
    write_loop (suc fuel) piece offset file = elim (ltb offset (length piece)) [
      | false ↦ some (true, file)
      | true ↦
          let r = write (drop offset piece) file in
          elim r.0 [
            | negsuc k ↦ some (false, r.1)
            | pos zero ↦ some (false, r.1)
            | pos (suc n) ↦ write_loop fuel piece (offset + suc n) r.1
          ]
    ]

    -- The loop over `recv`: the exit code, and what is behind it. The fuel bounds the rounds.
    unfoldable pub receive_loop : ℕ → ℤ → World → File → Option (ℕ × World × File)
    unfolding write_loop
    receive_loop zero fd w file = none
    receive_loop (suc fuel) fd w file =
        let r = recv fd bufsize w in
        elim r.0 [
          | failed ↦ some (1, close fd r.1, file)
          | got d ↦ elim d [
            | [] ↦ some (0, r.1, file)
            | b ∷ bs ↦ elim (write_loop (suc (length (b ∷ bs))) (b ∷ bs) 0 file) [
              | none ↦ none
              | some o ↦ elim o.0 [
                | false ↦ some (1, close fd r.1, o.1)
                | true ↦ receive_loop fuel fd r.1 o.1
              ]
            ]
          ]
        ]

    -- A round takes a byte of the stream at least.
    unfoldable pub receive_file : ℤ → World → File → Option (ℕ × World × File)
    unfolding receive_loop
    receive_file fd w file = receive_loop (suc (length (incoming w fd))) fd w file

    -- transferclient.c, on the output file that `open` has made empty.
    unfoldable pub transferclient :
        List (ℕ × List ℕ)
        → (List ℕ → ℕ → Option (List Address))
        → (List ℕ → Bool)
        → World
        → File
        → Option (ℕ × World × File)
    unfolding transferclient_start receive_file
    transferclient options resolve opens w file =
        elim (transferclient_start options resolve opens) [
          | exits code closed ↦ some (code, close_all net closed w, file)
          | goes closed fd ↦ receive_file fd (close_all net closed w) file
        ]
