-- ===== src/WebProxy.antt =====
-- The start of the proxy, projects/proxycacheserver/cache/webproxy.c, up to `gfserver_serve`, and its end on
-- a signal.
pub mod Starting
mod Tests
use c_exercises.Base.{
  ℕ, ◌+◌, Bool, true, false, not, ◌||◌, Option, none, some, List, [], ◌∷◌, ◌==◌, ltb, if◌then◌else◌,
  ℤ, pos, negsuc, is_negative,
}
use c_exercises.Text.{codes}
use c_exercises.Text.Integers.{atoi, to_ulong, to_uint, to_ushort}
use c_exercises.Sockets.{
  Start, exits, goes, ◌>>=◌, ◌>>◌, require_or, Choice, sets, quits, read_options,
}
use c_exercises.Shm.Pool.{Segment, Setup, proxy_pool_init, Release, proxy_pool_destroy}

-- The variables that the options set.
pub record ProxyOptions : Type 0 where
  pub server : List ℕ
  pub nsegments : ℕ
  pub port : ℕ
  pub nworkerthreads : ℕ
  pub segsize : ℕ

-- 88 is the `__LINE__` of the default case.
unfoldable pub proxy_switch : ℕ → List ℕ → ProxyOptions → Choice ProxyOptions
unfolding atoi
proxy_switch char arg o =
    if char == b'h'
    then quits 0
    else if char == b'p'
    then sets (record o { port = to_ushort (atoi arg) })
    else if char == b's'
    then sets (record o { server = arg })
    else if char == b'n'
    then sets (record o { nsegments = to_uint (atoi arg) })
    else if char == b'z'
    then sets (record o { segsize = to_ulong (atoi arg) })
    else if char == b't'
    then sets (record o { nworkerthreads = to_ushort (atoi arg) })
    else if char == b'i' || char == b'O' || char == b'A' || char == b'N' || char == b'k'
    then sets o
    else quits 88

-- What the operating system answers to `signal`, to the `calloc` of the pool, and for each segment.
pub record System : Type 0 where
  pub catches_term : Bool
  pub catches_int : Bool
  pub allocates : Bool
  pub setup : ℕ → Setup

-- The tests behind the options, with the `__LINE__` of each; the server is not NULL.
abbrev pub proxy_tests : ProxyOptions → Start ProxyOptions
proxy_tests o = do
  require_or 127 (not (ltb o.segsize 824))
  require_or 132 (not (ltb 65332 o.port))
  require_or 136 (not (ltb o.nworkerthreads 1 || ltb 200 o.nworkerthreads))
  require_or 140 (not (ltb o.nsegments 1))
  goes [] o

-- The proxy before `gfserver_serve`: its options, and the pool that every worker is given.
pub record Proxy : Type 0 where
  pub options : ProxyOptions
  pub g_pool : Option (List Segment)
  pub maxnpending : ℕ

-- SERVER_FAILURE is -1.
abbrev pub with_pool : ProxyOptions → ℤ × Option (List Segment) → Start Proxy
with_pool o (code, segments) =
    if is_negative code
    then exits 255 []
    else goes [] (record { options = o; g_pool = segments; maxnpending = 187 })

abbrev pub start_pool : System → ProxyOptions → Start Proxy
start_pool sys o = with_pool o (proxy_pool_init sys.allocates sys.setup o.nsegments)

unfoldable pub proxy_options : List (ℕ × List ℕ) → Start ProxyOptions
unfolding proxy_switch read_options
proxy_options options = read_options proxy_switch options (record {
  server = codes "https://raw.githubusercontent.com/gt-cs6200/image_data";
  nsegments = 8;
  port = 25362;
  nworkerthreads = 8;
  segsize = 5712;
})

-- `main` up to `gfserver_serve`.
unfoldable pub webproxy_start : List (ℕ × List ℕ) → System → Start Proxy
unfolding proxy_options proxy_pool_init
webproxy_start options sys = do
  require_or 255 sys.catches_term
  require_or 255 sys.catches_int
  o ← proxy_options options
  checked ← proxy_tests o
  start_pool sys checked

-- `_sig_handler` on SIGINT (2) and SIGTERM (15): the exit code, and what it gives back.
unfoldable pub proxy_sig_handler : ℕ → Proxy → Option (ℕ × List Release)
unfolding proxy_pool_destroy
proxy_sig_handler signo p =
    if signo == 15 || signo == 2 then some (signo, proxy_pool_destroy p.g_pool) else none
