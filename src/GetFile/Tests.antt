-- ===== src/GetFile/Tests.antt =====
-- Both ends of the protocol on a stream that takes three bytes at a time and gives five.
use c_exercises.Base.{
  inl, sym, subst, ℕ, ◌≡◌, refl, true, none, some, List, [], ◌++◌, arith, length, Bool, ℤ, pos,
  negsuc, minus_one, false, ◌∷◌,
}
use c_exercises.Text.{codes}
use c_exercises.Net.Wire.{Wire, wires, wire, recording_wires, recorded}
use c_exercises.GetFile.Send.{
  Context, crlf2, header_text, gf_ok, gf_file_not_found, gfs_send, gfs_sendheader,
}
use c_exercises.GetFile.Send.Delivery.{Delivers, gfs_send-Delivers, gfs_sendheader-Delivers}
use c_exercises.GetFile.Header.{find_header_tail, found, read_header}
use c_exercises.GetFile.Header.Reading.{ReadsHeader, read_header-Reads}
use c_exercises.GetFile.Client.{Status, Request, refused, parse_response}
use c_exercises.GetFile.Client.Perform.{receive, request_text}
use c_exercises.GetFile.Client.Parse.{parse_response-header_text}
use c_exercises.GetFile.Client.Download.{Outcome, receive-Outcome}
use c_exercises.GetFile.Server.{Server, bound, bind_loop, Handler, serve_connection}
use c_exercises.GetFile.Server.Closing.{Keeps-at, gfs_sendheader-Keeps}
use c_exercises.GetFile.Server.Words.{all_space}
use c_exercises.GetFile.Server.Serving.{Host, awaits, gfserver_serve, gfserver_serve-ServesAll}
use c_exercises.GetFile.Server.Request.{IsPath}
use c_exercises.GetFile.Server.Connection.{Answers, Rejects, NoRequest, serve_connection-Rejects}

abbrev hello : List ℕ
hello = codes "hello"

abbrev client : Context
client = record { cont_cfd = pos 4 }

gfs_send-Delivers_example :
    Delivers wires (pos 4) hello (wire []) (gfs_send wires (some client) (some hello) 5 (wire []))
gfs_send-Delivers_example = gfs_send-Delivers wires client hello (wire [])

gfs_sendheader-Delivers_example :
    Delivers wires
      (pos 4)
      (header_text gf_ok 5)
      (wire [])
      (gfs_sendheader wires (some client) gf_ok 5 (wire []))
gfs_sendheader-Delivers_example =
    gfs_sendheader-Delivers wires client gf_ok 5 (wire []) (omega arith)

abbrev reply : Wire
reply = wire (header_text gf_ok 5 ++ hello)

read_header-Reads_example :
    ReadsHeader wires (pos 3) reply (read_header wires 1025 (pos 3) [] reply)
read_header-Reads_example = read_header-Reads wires (pos 3) reply

parse_response-header_text_example :
    (find_header_tail (header_text 400 0 ++ hello) ≡ pos (length (header_text 400 0)))
    × (parse_response (header_text 400 0 ++ hello) (length (header_text 400 0))
        ≡ refused Status.file_not_found)
parse_response-header_text_example = parse_response-header_text 400 0 hello (omega arith)

abbrev asking : Request
asking = record {
  path = some (codes "/a");
  server = some (codes "host");
  port = 80;
  status = Status.invalid;
  bytes_received = 0;
  file_len = 0;
  has_writefunc = true;
  output = [];
}

receive-Outcome_example : Outcome wires [] hello 5 (receive wires asking (pos 3) reply)
receive-Outcome_example = receive-Outcome wires asking (pos 3) 5 hello reply (omega arith) refl refl

short-IsPath : IsPath (codes "/a")
short-IsPath = record {
  rest = codes "a";
  absolute = refl;
  word = refl;
  clean = refl;
  short = omega arith;
}

-- A callback that answers with a header.
abbrev not_found : Handler recording_wires
not_found = some (λ ctx path w.
    elim (gfs_sendheader recording_wires (some ctx) gf_file_not_found 0 w) [
      | none ↦ some (ctx, w)
      | some r ↦ some (ctx, r.1)
    ])

not_found-Answers : Answers recording_wires recorded not_found
not_found-Answers ctx path w =
    let d = gfs_sendheader-Delivers recording_wires ctx gf_file_not_found 0 w (omega arith) in
    let kept =
      Keeps-at recording_wires recorded {w = w}
        (gfs_sendheader recording_wires (some ctx) gf_file_not_found 0 w) d.result d.returns
        (gfs_sendheader-Keeps recording_wires recorded ctx gf_file_not_found 0 w) in
    ((ctx, d.result.1), rw d.returns refl, inl (refl, kept))

-- A header with another first word.
abbrev put : List ℕ
put = codes "PUT /a" ++ crlf2

put_read :
    read_header recording_wires 1025 (pos 4) [] (wire put, []) ≡ some (found put 10, (wire [], []))
unfolding read_header find_header_tail
put_read = refl

first-is : {x y : ℕ} {xs ys : List ℕ} → x ∷ xs ≡ y ∷ ys → x ≡ y
first-is h = cc h

put_first : (lead more : List ℕ) → put ≡ lead ++ 71 ∷ more → ¬ (all_space lead ≡ true)
put_first [] more split spaces = absurd (omega (arith, first-is split))
put_first (c ∷ lead) more split spaces =
    absurd (cc (subst (λ d. all_space (d ∷ lead) ≡ true) (sym (first-is split)) spaces))

put-NoRequest : NoRequest (found put 10)
put-NoRequest path r = put_first r.lead _ r.split r.spaces.0

serve_connection-Rejects_example :
    Rejects recording_wires 4
      (wire [], [])
      (serve_connection recording_wires not_found (pos 4) (wire put, []))
serve_connection-Rejects_example =
    serve_connection-Rejects recording_wires not_found 4 (wire put, []) (wire [], []) (found put 10)
      put_read put-NoRequest

abbrev one_address : Host
one_address = record {
  addresses = λ port. some ((negsuc 0, true) ∷ (pos 3, true) ∷ []);
  listens = λ fd backlog. true;
}

-- A connection, an error of `accept`, and a connection for which there is no memory.
abbrev three_accepts : List (ℤ × Bool)
three_accepts = (pos 4, true) ∷ (negsuc 0, true) ∷ (pos 5, false) ∷ []

binds : bind_loop minus_one ((negsuc 0, true) ∷ (pos 3, true) ∷ []) ≡ bound (pos 3)
unfolding bind_loop
binds = refl

abbrev server : Server
server = record { port = 52507; max_npending = pos 25; file_len = 0; len = 0 }

gfserver_serve-ServesAll_example :
    (contexts : List Context) × (w' : Wire × List ℤ) × (gfserver_serve recording_wires
        (some server)
        one_address
        not_found
        three_accepts
        (wire (request_text (codes "/a")), [])
      ≡ some (awaits (pos 3) contexts, w'))
    × (length contexts ≡ 1)
    × (w'.1 ≡ pos 4 ∷ pos 5 ∷ [])
gfserver_serve-ServesAll_example =
    gfserver_serve-ServesAll recording_wires recorded server one_address not_found
      ((negsuc 0, true) ∷ (pos 3, true) ∷ []) three_accepts 3 (wire (request_text (codes "/a")), [])
      refl binds refl not_found-Answers
