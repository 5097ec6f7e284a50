-- ===== src/GetFile/Client/Perform.antt =====
-- `gfc_perform` of projects/gflib/gfclient.c.
pub mod Counting
pub mod Complete
use c_exercises.Base.{
  ℕ, zero, suc, ◌+◌, ◌-◌, Bool, true, false, ◌&&◌, not, Option, none, some, List, [], ◌∷◌, ◌++◌,
  ◌==◌, ltb, leb, if◌then◌else◌, length, take, drop, ℤ, pos, minus_one, is_negative,
}
use c_exercises.Net.{Net, failed, got, Effect, pure, ◌>>=◌}
use c_exercises.Text.{codes}
use c_exercises.GetFile.Send.{crlf2, send_loop}
use c_exercises.GetFile.Header.{HeaderRead, found, full, error, closed, buffer_size, read_header}
use c_exercises.GetFile.Client.{Status, Request, malformed, file, refused, cut, parse_response}

-- What `getaddrinfo` answers, and what `socket` and `connect` answer for each address.
pub record Dial : Type 0 where
  pub resolves : Bool
  pub addresses : List (ℤ × Bool)

abbrev pub with_status : Request → Status → Request
with_status r s = record r { status = s }

-- `request->writefunc(...)`, if it is set.
abbrev pub write_out : Request → List ℕ → Request
write_out r d = record r { output = if r.has_writefunc then r.output ++ d else r.output }

abbrev pub body_size : ℕ
body_size = 4096

-- The size that `recv` is asked for.
abbrev pub requested : Request → ℕ
requested r =
    if ltb (r.file_len - r.bytes_received) body_size
    then r.file_len - r.bytes_received
    else body_size

-- The bytes that came along with the header, no more of them than the file has.
abbrev pub leftover : List ℕ → ℕ → Request → List ℕ
leftover buf header_end r = take r.file_len (drop header_end (cut buf header_end))

abbrev pub start_body : List ℕ → ℕ → Request → Request
start_body buf header_end r = record (write_out r (leftover buf header_end r)) {
  bytes_received = length (leftover buf header_end r);
}

-- What `snprintf` prints for the request line.
abbrev pub request_text : List ℕ → List ℕ
request_text path = codes "GETFILE GET " ++ (path ++ crlf2)

module _ (net : Net) where
  open net use {World, send, recv, close}

  -- The loop over the addresses; `sockfd` is the variable's value so far.
  connect_loop : ℤ → List (ℤ × Bool) → World → ℤ × World
  connect_loop sockfd [] w = (sockfd, w)
  connect_loop sockfd ((fd, connects) ∷ rest) w =
      let next =
        connect_loop (if is_negative fd then fd else minus_one) rest
          (if is_negative fd then w else close fd w) in
      if not (is_negative fd) && connects then (fd, w) else next

  -- `close(sockfd); return code;`
  unfoldable pub finish : Request → ℤ → ℤ → Effect World (ℤ × Request)
  finish r fd code w = some ((code, r), close fd w)

  -- The loop that receives the body, with the return behind it.
  unfoldable pub body_loop : ℕ → Request → ℤ → Effect World (ℤ × Request)
  unfolding finish
  body_loop zero r fd w = none
  body_loop (suc fuel) r fd w =
      let a = recv fd (requested r) w in
      elim (ltb r.bytes_received r.file_len) [
        | false ↦ finish r fd (pos 0) w
        | true ↦ (elim a.0 [
          | failed ↦ finish r fd minus_one a.1
          | got d ↦ (elim d [
            | [] ↦ finish r fd minus_one a.1
            | b ∷ bs ↦
                body_loop fuel
                  (record (write_out r (b ∷ bs)) {
                    bytes_received = r.bytes_received + length (b ∷ bs);
                  })
                  fd a.1
          ])
        ])
      ]

  -- From the bytes of the header on: lines 185 to 278.
  unfoldable pub receive_file : Request → ℤ → List ℕ → ℕ → Effect World (ℤ × Request)
  unfolding body_loop finish
  receive_file r fd buf header_end w = elim (parse_response buf header_end) [
    | malformed ↦ finish (with_status r Status.invalid) fd minus_one w
    | refused s ↦ finish (record r { status = s; file_len = 0 }) fd (pos 0) w
    | file n ↦
        body_loop (n + 1)
          (start_body buf header_end (record r { status = Status.ok; file_len = n })) fd w
  ]

  -- How the rest goes on from the end of the header loop.
  unfoldable pub after_header : Request → ℤ → HeaderRead → Effect World (ℤ × Request)
  unfolding receive_file
  after_header r fd (found buf e) = receive_file r fd buf e
  after_header r fd full = finish (with_status r Status.invalid) fd minus_one
  after_header r fd error = finish (with_status r Status.error) fd minus_one
  after_header r fd closed = finish (with_status r Status.invalid) fd minus_one

  -- From the header loop on: lines 158 to 278.
  unfoldable pub receive : Request → ℤ → Effect World (ℤ × Request)
  unfolding after_header
  receive r fd = do header ← read_header net (buffer_size + 1) fd []; after_header r fd header

  after_send : Request → ℤ → ℤ → Effect World (ℤ × Request)
  unfolding receive
  after_send r fd sent_code =
      if is_negative sent_code
      then finish (with_status r Status.error) fd minus_one
      else receive r fd

  exchange : Request → List ℕ → ℤ → Effect World (ℤ × Request)
  unfolding after_send
  exchange r text fd =
      if leb buffer_size (length text)
      then finish (with_status r Status.invalid) fd minus_one
      else do code ← send_loop net (length text + 1) fd text (length text) 0; after_send r fd code

  perform_on : Request → List ℕ → Dial → Effect World (ℤ × Request)
  unfolding connect_loop exchange
  perform_on r path dial w =
      let (sockfd, w') = connect_loop minus_one dial.addresses w in
      let cleared = record r { bytes_received = 0; file_len = 0; status = Status.invalid } in
      if not dial.resolves
      then some ((minus_one, cleared), w)
      else if is_negative sockfd
      then some ((minus_one, cleared), w')
      else exchange cleared (request_text path) sockfd w'

  perform_if :
      Request → Option (List ℕ) → Option (List ℕ) → Bool → Dial → Effect World (ℤ × Request)
  unfolding perform_on
  perform_if r (some server) (some path) true dial = perform_on r path dial
  perform_if r _ _ _ dial = pure (minus_one, with_status r Status.invalid)

  unfoldable pub gfc_perform : Option Request → Dial → Effect World (ℤ × Option Request)
  unfolding perform_if
  gfc_perform none dial w = some ((minus_one, none), w)
  gfc_perform (some r) dial w = elim (perform_if r r.server r.path (not (r.port == 0)) dial w) [
    | none ↦ none
    | some ((code, r'), w') ↦ some ((code, some r'), w')
  ]
