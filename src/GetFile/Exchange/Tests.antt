-- ===== src/GetFile/Exchange/Tests.antt =====
-- A download of five bytes, over streams that take three bytes at a time and give five.
use c_exercises.Base.{ℕ, ◌≡◌, refl, true, Option, none, some, List, [], ◌++◌, arith, pos, minus_one}
use c_exercises.Text.{codes, show_size}
use c_exercises.Net.Wire.{Wire, wires, wire, wires_duplex}
use c_exercises.GetFile.Send.{Context, header_text, gf_ok, gfs_send, gfs_sendheader, send_loop}
use c_exercises.GetFile.Header.{found, read_header}
use c_exercises.GetFile.Client.{Status, Request}
use c_exercises.GetFile.Client.Perform.{request_text, receive}
use c_exercises.GetFile.Client.Download.{Outcome}
use c_exercises.GetFile.Server.{serve_connection}
use c_exercises.GetFile.Server.Request.{IsPath}
use c_exercises.GetFile.Exchange.{exchange-Downloads}

abbrev hello : List ℕ
hello = codes "hello"

abbrev path : List ℕ
path = codes "/a"

-- The callback sends the same file for every path.
abbrev handler : Context → List ℕ → Wire → Option (Context × Wire)
handler ctx asked w = elim (gfs_sendheader wires (some ctx) gf_ok 5 w) [
  | none ↦ none
  | some (code, w') ↦ elim (gfs_send wires (some ctx) (some hello) 5 w') [
    | none ↦ none
    | some (count, w'') ↦ some (ctx, w'')
  ]
]

abbrev asking : Request
asking = record {
  path = some path;
  server = some (codes "host");
  port = 80;
  status = Status.invalid;
  bytes_received = 0;
  file_len = 0;
  has_writefunc = true;
  output = [];
}

path-IsPath : IsPath path
path-IsPath = record {
  rest = codes "a";
  absolute = refl;
  word = refl;
  clean = refl;
  short = omega arith;
}

abbrev answered : Wire
answered = record { gone = header_text gf_ok 5 ++ hello; coming = [] }

asks :
    send_loop wires 19 (pos 3) (request_text path) 18 0 (wire [])
    ≡ some (pos 18, record { gone = request_text path; coming = [] })
asks = unfold send_loop in refl

hears :
    read_header wires 1025 (pos 4) [] (wire (request_text path))
    ≡ some (found (request_text path) 18, wire [])
hears = unfold read_header in refl

answers :
    handler (record { cont_cfd = pos 4 }) path (wire [])
    ≡ some (record { cont_cfd = pos 4 }, answered)
answers = unfold gfs_sendheader gfs_send header_text show_size in refl

exchange-Downloads_example :
    (serve_connection wires (some handler) (pos 4) (wire (request_text path))
      ≡ some (record { cont_cfd = minus_one }, answered))
    × Outcome wires [] hello 5 (receive wires asking (pos 3) (wire (header_text gf_ok 5 ++ hello)))
exchange-Downloads_example =
    exchange-Downloads wires wires wires_duplex asking path hello (request_text path) (pos 3) 4 18
      18 (wire []) (record { gone = request_text path; coming = [] })
      (wire (header_text gf_ok 5 ++ hello)) (wire (request_text path)) (wire []) answered handler
      path-IsPath (omega arith) refl refl asks refl hears answers refl refl
