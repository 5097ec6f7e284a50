-- ===== src/WebProxy/Starting.antt =====
-- What holds of a proxy that comes to serve, and what a signal then gives back.
use c_exercises.Base.{
  ℕ, ◌≤◌, ◌<◌, ◌≡◌, refl, subst, sym, ap, ◌∙◌, false, not, ◌||◌, Option, some, List, [], ltb, ℤ,
  pos, negsuc, is_negative, length,
}
use c_exercises.Sockets.{Start, exits, goes, ◌>>=◌, ◌>>◌, require_or}
use c_exercises.Sockets.Progress.{
  bind-goes, require_or-goes, after-goes, goes-inj, test-le, test-between,
}
use c_exercises.Shm.Pool.{Segment, proxy_pool_init, proxy_pool_destroy}
use c_exercises.Shm.Pool.Teardown.{all_from, proxy_pool_init-MakesAll}
use c_exercises.WebProxy.{
  ProxyOptions, System, Proxy, proxy_tests, proxy_options, with_pool, start_pool, webproxy_start,
  proxy_sig_handler,
}

-- The options that pass the tests.
record Passes (o : ProxyOptions) : Type 0 where
  segsize_bound : 824 ≤ o.segsize
  port_bound : o.port ≤ 65332
  some_thread : 0 < o.nworkerthreads
  most_threads : o.nworkerthreads ≤ 200
  some_segment : 0 < o.nsegments

proxy_tests-Passes :
    (o o' : ProxyOptions) (closed : List ℤ) → proxy_tests o ≡ goes closed o' → (o' ≡ o) × Passes o
proxy_tests-Passes o o' closed h =
    let (size, _, h₁) =
      require_or-goes 127 (not (ltb o.segsize 824))
        (do
          require_or 132 (not (ltb 65332 o.port))
          require_or 136 (not (ltb o.nworkerthreads 1 || ltb 200 o.nworkerthreads))
          require_or 140 (not (ltb o.nsegments 1))
          goes [] o)
        closed o' h in
    let (port, _, h₂) =
      require_or-goes 132 (not (ltb 65332 o.port))
        (do
          require_or 136 (not (ltb o.nworkerthreads 1 || ltb 200 o.nworkerthreads))
          require_or 140 (not (ltb o.nsegments 1))
          goes [] o)
        _ o' h₁ in
    let (threads, _, h₃) =
      require_or-goes 136 (not (ltb o.nworkerthreads 1 || ltb 200 o.nworkerthreads))
        (do require_or 140 (not (ltb o.nsegments 1)); goes [] o) _ o' h₂ in
    let (segments, _, h₄) = require_or-goes 140 (not (ltb o.nsegments 1)) (goes [] o) _ o' h₃ in
    let (some_thread, most) = test-between 200 o.nworkerthreads threads in
    (
      goes-inj [] _ o o' h₄,
      record {
        segsize_bound = test-le o.segsize 824 size;
        port_bound = test-le 65332 o.port port;
        some_thread = some_thread;
        most_threads = most;
        some_segment = test-le o.nsegments 1 segments;
      },
    )

-- A proxy that comes to `gfserver_serve`: the bounds that the tests promise, a pool with so many segments,
-- and what the signals give back.
pub record Runs (sys : System) (p : Proxy) : Type 0 where
  pub most_port : p.options.port ≤ 65332
  pub some_thread : 0 < p.options.nworkerthreads
  pub most_threads : p.options.nworkerthreads ≤ 200
  pub least_size : 824 ≤ p.options.segsize
  pub some_segment : 0 < p.options.nsegments
  pub segments : List Segment
  pub pool : p.g_pool ≡ some segments
  pub count : length segments ≡ p.options.nsegments
  pub on_int : proxy_sig_handler 2 p ≡ some (2, all_from sys.setup 0 p.options.nsegments)
  pub on_term : proxy_sig_handler 15 p ≡ some (15, all_from sys.setup 0 p.options.nsegments)

pool-Runs :
    (sys : System) (o : ProxyOptions) (segments : List Segment) (n : ℕ)
    → Passes o
    → length segments ≡ o.nsegments
    → proxy_pool_destroy (some segments) ≡ all_from sys.setup 0 o.nsegments
    → Runs sys (record { options = o; g_pool = some segments; maxnpending = n })
unfolding proxy_sig_handler
pool-Runs sys o segments n passes count back = record {
  most_port = passes.port_bound;
  some_thread = passes.some_thread;
  most_threads = passes.most_threads;
  least_size = passes.segsize_bound;
  some_segment = passes.some_segment;
  segments = segments;
  pool = refl;
  count = count;
  on_int = rw back refl;
  on_term = rw back refl;
}

with_pool-Runs :
    (sys : System) (o : ProxyOptions) (code : ℤ) (g_pool : Option (List Segment)) (closed : List ℤ)
    (p : Proxy)
    → Passes o
    → (is_negative code ≡ false
        → (segments : List Segment) × (g_pool ≡ some segments)
          × (length segments ≡ o.nsegments)
          × (proxy_pool_destroy (some segments) ≡ all_from sys.setup 0 o.nsegments))
    → with_pool o (code, g_pool) ≡ goes closed p
    → Runs sys p
with_pool-Runs sys o (negsuc k) g_pool closed p passes makes h = absurd (cc h)
with_pool-Runs sys o (pos k) g_pool closed p passes makes h =
    let (segments, is, count, back) = makes refl in
    subst (Runs sys)
      (ap (λ g. record { options = o; g_pool = g; maxnpending = 187 }) (sym is)
        ∙ sym (goes-inj [] closed (record { options = o; g_pool = g_pool; maxnpending = 187 }) p h))
      (pool-Runs sys o segments 187 passes count back)

tests-Runs :
    (sys : System) (o : ProxyOptions) (tests : Start ProxyOptions) (closed : List ℤ) (p : Proxy)
    → proxy_tests o ≡ tests
    → (tests >>= start_pool sys) ≡ goes closed p
    → Runs sys p
tests-Runs sys o (exits code before) closed p e h = absurd (cc h)
tests-Runs sys o (goes before o') closed p e h =
    let (same, passes) = proxy_tests-Passes o o' before e in
    let (more, h') = after-goes before closed (start_pool sys o') p h in
    with_pool-Runs sys o' (proxy_pool_init sys.allocates sys.setup o'.nsegments).0
      (proxy_pool_init sys.allocates sys.setup o'.nsegments).1 more p
      (subst Passes (sym same) passes)
      (proxy_pool_init-MakesAll sys.allocates sys.setup o'.nsegments) h'

-- A proxy that comes to `gfserver_serve` has one to 200 workers, a port of 65332 at most, segments of 824
-- bytes or more, and a pool with as many segments as its options say, one at least; and on SIGINT or
-- SIGTERM it unmaps, closes and unlinks the resources of all of them, each once and in order.
pub webproxy_start-Runs :
    (options : List (ℕ × List ℕ)) (sys : System) (closed : List ℤ) (p : Proxy)
    → webproxy_start options sys ≡ goes closed p
    → Runs sys p
unfolding webproxy_start
webproxy_start-Runs options sys closed p h =
    let (_, _, h₁) =
      require_or-goes 255 sys.catches_term
        (do
          require_or 255 sys.catches_int
          o ← proxy_options options
          checked ← proxy_tests o
          start_pool sys checked)
        closed p h in
    let (_, _, h₂) =
      require_or-goes 255 sys.catches_int
        (do o ← proxy_options options; checked ← proxy_tests o; start_pool sys checked) _ p h₁ in
    let (o, _, h₃) =
      bind-goes (proxy_options options) (λ o. proxy_tests o >>= start_pool sys) _ p h₂ in
    tests-Runs sys o (proxy_tests o) _ p refl h₃
