-- ===== src/GetFile/Server.antt =====
-- projects/gflib/gfserver.c: the server object, the request it reads from a connection, and what it
-- does with it. A `gfserver_t **` is an option, as in the client.
pub mod Request
pub mod Closing
pub mod Words
pub mod Connection
pub mod Serving
pub mod Answering
use c_exercises.Base.{
  ℕ, zero, suc, ◌+◌, ◌-◌, Bool, true, false, ◌&&◌, ◌||◌, not, Option, none, some, List, [], ◌∷◌,
  ◌++◌, ◌==◌, ltb, leb, if◌then◌else◌, length, take, same, ℤ, pos, negsuc, minus_one, is_negative,
}
use c_exercises.Net.{Net, Effect, pure, ◌>>=◌, ◌>>◌}
use c_exercises.Text.{codes, c_string, scan_word}
use c_exercises.GetFile.Send.{Context, gf_error, gf_invalid, gfs_sendheader, abort_context}
use c_exercises.GetFile.Header.{HeaderRead, found, full, error, closed, buffer_size, read_header}

-- The fields of `struct gfserver_t` that the library uses, without the callback and its argument.
pub record Server : Type 0 where
  pub port : ℕ
  pub max_npending : ℤ
  pub file_len : ℕ
  pub len : ℕ

pub gfserver_create : Bool → Option Server
gfserver_create calloc_ok =
    if calloc_ok
    then some (record { port = 0; max_npending = pos 0; file_len = 0; len = 0 })
    else none

pub gfserver_set_port : Option Server → ℕ → Option Server
gfserver_set_port none port = none
gfserver_set_port (some s) port = some (record s { port = port })

pub gfserver_set_maxpending : Option Server → ℤ → Option Server
gfserver_set_maxpending none n = none
gfserver_set_maxpending (some s) n = some (record s { max_npending = n })

-- Where the loop over the addresses in `gfserver_serve` comes to: its end or `break` with this value of
-- `listenfd`, or the return in its body, behind the close of this descriptor.
pub data Binding : Type 0 where
  bound : ℤ → Binding
  unbound : ℤ → Binding

-- The loop, by what `socket` returns and whether `bind` succeeds for each address.
unfoldable pub bind_loop : ℤ → List (ℤ × Bool) → Binding
bind_loop listenfd [] = bound listenfd
bind_loop listenfd ((fd, binds) ∷ rest) = elim (is_negative fd) [
  | true ↦ bind_loop fd rest
  | false ↦ (if binds then bound fd else unbound fd)
]

-- What `sscanf(headerBuffer, "%15s %31s %1023s", ...)` assigns: the words found, three at most.
abbrev pub scan_third : List ℕ → List ℕ → Option (List ℕ × List ℕ) → List (List ℕ)
scan_third a b none = a ∷ b ∷ []
scan_third a b (some (c, rest)) = a ∷ b ∷ c ∷ []

abbrev pub scan_second : List ℕ → Option (List ℕ × List ℕ) → List (List ℕ)
scan_second a none = a ∷ []
scan_second a (some (b, rest)) = scan_third a b (scan_word 1023 rest)

abbrev pub scan_first : Option (List ℕ × List ℕ) → List (List ℕ)
scan_first none = []
scan_first (some (a, rest)) = scan_second a (scan_word 31 rest)

pub scan_request : List ℕ → List (List ℕ)
scan_request s = scan_first (scan_word 15 s)

abbrev pub is_absolute : List ℕ → Bool
is_absolute [] = false
is_absolute (c ∷ s) = c == b'/'

-- The path of a request that passes the four tests.
pub check_request : List (List ℕ) → Option (List ℕ)
check_request (a ∷ b ∷ path ∷ []) =
    if not (same a (codes "GETFILE"))
    then none
    else if not (same b (codes "GET"))
    then none
    else if not (is_absolute path)
    then none
    else some path
check_request _ = none

-- `headerLen`, which leaves room for the NUL.
abbrev pub header_len : ℕ → ℕ
header_len header_end = if leb buffer_size header_end then buffer_size - 1 else header_end

unfoldable pub parse_request : List ℕ → ℕ → Option (List ℕ)
unfolding scan_request check_request
parse_request buf header_end =
    check_request (scan_request (c_string (take (header_len header_end) buf)))

module _ (net : Net) where
  open net use {World, shutdown, close}

  -- The callback: it is given the context and the path, and leaves the context as it is then. `none`
  -- for the whole is a server without a callback.
  abbrev pub Handler : Type 0
  Handler = Option (Context → List ℕ → Effect World Context)

  -- The lines that answer a bad request: the header, and the context given up.
  unfoldable pub reject : ℤ → Effect World Context
  unfolding gfs_sendheader abort_context
  reject fd w = elim (gfs_sendheader net (some (record { cont_cfd = fd })) gf_invalid 0 w) [
    | none ↦ none
    | some (code, w') ↦ some (abort_context net (record { cont_cfd = fd }) w')
  ]

  call_handler : Handler → Context → List ℕ → Effect World Context
  call_handler (some handler) ctx path = handler ctx path
  call_handler none ctx path = do code ← gfs_sendheader net (some ctx) gf_error 0; pure ctx

  -- `if (ctx->contCFD >= 0)` at the end of the loop's body.
  hang_up : Context → Effect World Context
  hang_up ctx w =
      if is_negative ctx.cont_cfd
      then some (ctx, w)
      else some (record { cont_cfd = minus_one }, close ctx.cont_cfd (shutdown ctx.cont_cfd w))

  answer_request : Handler → ℤ → Option (List ℕ) → Effect World Context
  answer_request handler fd none = reject fd
  answer_request handler fd (some path) = do
    ctx ← call_handler handler (record { cont_cfd = fd }) path
    hang_up ctx

  answer : Handler → ℤ → HeaderRead → Effect World Context
  answer handler fd (found buf header_end) =
      answer_request handler fd (parse_request buf header_end)
  answer handler fd full = reject fd
  answer handler fd error = reject fd
  answer handler fd closed = reject fd

  -- The body of the accept loop on a connection `fd`, from the request's header on. The context is
  -- the one that the body then frees.
  unfoldable pub serve_connection : Handler → ℤ → Effect World Context
  unfolding answer answer_request reject call_handler hang_up parse_request read_header
  serve_connection handler fd = do
    header ← read_header net (buffer_size + 1) fd []
    answer handler fd header
