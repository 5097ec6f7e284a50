-- ===== src/Proxy/Starting.antt =====
-- The start of the proxy of projects/proxycacheserver/server, webproxy.c, up to `gfserver_serve`.
use c_exercises.Base.{
  ℕ, ◌≤◌, ◌<◌, ◌≡◌, subst, sym, Bool, not, ◌||◌, List, [], ◌==◌, ltb, if◌then◌else◌, arith, length,
  replicate, length-replicate, ℤ,
}
use c_exercises.Text.{codes}
use c_exercises.Text.Integers.{atoi, to_ushort}
use c_exercises.Sockets.{Start, goes, ◌>>=◌, ◌>>◌, require_or, Choice, sets, quits, read_options}
use c_exercises.Sockets.Progress.{bind-goes, require_or-goes, goes-inj, test-le, test-between}

-- The variables that the options set.
pub record CurlOptions : Type 0 where
  pub server : List ℕ
  pub port : ℕ
  pub nworkerthreads : ℕ

unfoldable pub curl_switch : ℕ → List ℕ → CurlOptions → Choice CurlOptions
unfolding atoi
curl_switch char arg o =
    if char == b'a' || char == b'd' || char == b'u'
    then sets o
    else if char == b'p'
    then sets (record o { port = to_ushort (atoi arg) })
    else if char == b's'
    then sets (record o { server = arg })
    else if char == b't'
    then sets (record o { nworkerthreads = to_ushort (atoi arg) })
    else if char == b'h'
    then quits 0
    else quits 1

-- The proxy before `gfserver_serve`: its port and its backlog, and the argument of each worker.
pub record CurlProxy : Type 0 where
  pub port : ℕ
  pub maxnpending : ℕ
  pub worker_args : List (List ℕ)

-- The tests behind the options, with the `__LINE__` of each, and what the library is given. The server is not
-- NULL; `curl_ok` says whether `curl_global_init` succeeds.
abbrev pub curl_tests : Bool → CurlOptions → Start CurlProxy
curl_tests curl_ok o = do
  require_or 89 (not (ltb 61286 o.port))
  require_or 94 (not (ltb o.nworkerthreads 1 || ltb 80 o.nworkerthreads))
  require_or 1 curl_ok
  goes [] (record {
    port = o.port;
    maxnpending = 90;
    worker_args = replicate o.nworkerthreads o.server;
  })

unfoldable pub curl_options : List (ℕ × List ℕ) → Start CurlOptions
unfolding curl_switch read_options
curl_options options = read_options curl_switch options (record {
  server = codes "https://raw.githubusercontent.com/gt-cs6200/image_data";
  port = 16655;
  nworkerthreads = 8;
})

-- `main` up to `gfserver_serve`, by what `signal` answers for SIGINT and for SIGTERM.
unfoldable pub curl_proxy_start : List (ℕ × List ℕ) → Bool → Bool → Bool → Start CurlProxy
unfolding curl_options
curl_proxy_start options catches_int catches_term curl_ok = do
  require_or 255 catches_int
  require_or 255 catches_term
  o ← curl_options options
  curl_tests curl_ok o

-- The bounds of a proxy that comes to serve.
pub record IsWithin (p : CurlProxy) : Type 0 where
  pub most_port : p.port ≤ 61286
  pub some_worker : 0 < length p.worker_args
  pub most_workers : length p.worker_args ≤ 80

tests-IsWithin :
    (curl_ok : Bool) (o : CurlOptions) (closed : List ℤ) (p : CurlProxy)
    → curl_tests curl_ok o ≡ goes closed p
    → IsWithin p
tests-IsWithin curl_ok o closed p h =
    let made : CurlProxy = record {
      port = o.port;
      maxnpending = 90;
      worker_args = replicate o.nworkerthreads o.server;
    } in
    let (port, _, h₁) =
      require_or-goes 89 (not (ltb 61286 o.port))
        (do
          require_or 94 (not (ltb o.nworkerthreads 1 || ltb 80 o.nworkerthreads))
          require_or 1 curl_ok
          goes [] made)
        closed p h in
    let (workers, _, h₂) =
      require_or-goes 94 (not (ltb o.nworkerthreads 1 || ltb 80 o.nworkerthreads))
        (do require_or 1 curl_ok; goes [] made) _ p h₁ in
    let (_, more, h₃) = require_or-goes 1 curl_ok (goes [] made) _ p h₂ in
    let (some_worker, most) = test-between 80 o.nworkerthreads workers in
    let count = length-replicate o.nworkerthreads o.server in
    subst IsWithin (sym (goes-inj [] more made p h₃)) (record {
      most_port = test-le 61286 o.port port;
      some_worker = omega (arith, count, some_worker);
      most_workers = omega (arith, count, most);
    })

-- A proxy that comes to `gfserver_serve` has a port of 61286 at most and one to 80 workers.
pub curl_proxy_start-IsWithin :
    (options : List (ℕ × List ℕ)) (catches_int catches_term curl_ok : Bool) (closed : List ℤ)
    (p : CurlProxy)
    → curl_proxy_start options catches_int catches_term curl_ok ≡ goes closed p
    → IsWithin p
unfolding curl_proxy_start
curl_proxy_start-IsWithin options catches_int catches_term curl_ok closed p h =
    let (_, _, h₁) =
      require_or-goes 255 catches_int
        (do require_or 255 catches_term; o ← curl_options options; curl_tests curl_ok o) closed p
        h in
    let (_, _, h₂) =
      require_or-goes 255 catches_term (do o ← curl_options options; curl_tests curl_ok o) _ p h₁ in
    let (o, _, h₃) = bind-goes (curl_options options) (curl_tests curl_ok) _ p h₂ in
    tests-IsWithin curl_ok o _ p h₃
