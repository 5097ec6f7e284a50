-- ===== src/CacheDaemon/Starting.antt =====
-- The start of the cache daemon and what it then serves, and its end on a signal.
use c_exercises.Base.{
  ℕ, zero, suc, length, replicate, ◌≤◌, ◌<◌, ◌≡◌, refl, subst, sym, ap, ◌∙◌, Bool, true, false, not,
  none, some, List, [], ◌∷◌, ◌&&◌, ◌⊎◌, inl, inr, Bool-cases, map, arith, ltb, ℤ, pos, negsuc,
  minus_one, is_negative,
}
use c_exercises.Text.{codes}
use c_exercises.Sockets.{Start, exits, goes, read_options, ◌>>◌, require_or}
use c_exercises.Sockets.Progress.{bind-goes, require_or-goes, goes-inj}
use c_exercises.Cache.{Item, Loaded, simplecache_init, simplecache_destroy}
use c_exercises.CacheDaemon.{
  DaemonOptions, System, Daemon, daemon_options, daemon_switch, cache_socket_init, daemon_start,
  with_checked, with_items, with_socket, is_pool_size, count_of, daemon_tests, sig_handler,
  cache_socket_cleanup, descriptors,
}
use c_exercises.CacheDaemon.Queue.{cache_worker_job, work_q_init, Move, run, connections}
use c_exercises.Workers.{spawned}
use c_exercises.CacheDaemon.Queue.Served.{IsServed, run-IsServed}

-- The options that pass the tests.
record Passes (o : DaemonOptions) : Type 0 where
  delay_bound : ltb 2500000 o.cache_delay ≡ false
  pool_size : is_pool_size o.nthreads ≡ true

not-true : (b : Bool) → not b ≡ true → b ≡ false
not-true true h = absurd (cc h)
not-true false h = refl

daemon_tests-Passes :
    (sys : System) (o o' : DaemonOptions) (closed : List ℤ)
    → daemon_tests sys o ≡ goes closed o'
    → (o' ≡ o) × Passes o
daemon_tests-Passes sys o o' closed h =
    let (delay, _, h₁) =
      require_or-goes 297 (not (ltb 2500000 o.cache_delay))
        (do
          require_or 302 (is_pool_size o.nthreads)
          require_or 255 sys.catches_int
          require_or 255 sys.catches_term
          goes [] o)
        closed o' h in
    let (size, _, h₂) =
      require_or-goes 302 (is_pool_size o.nthreads)
        (do require_or 255 sys.catches_int; require_or 255 sys.catches_term; goes [] o) _ o' h₁ in
    let (_, _, h₃) =
      require_or-goes 255 sys.catches_int (do require_or 255 sys.catches_term; goes [] o) _ o' h₂ in
    let (_, _, h₄) = require_or-goes 255 sys.catches_term (goes [] o) _ o' h₃ in
    (
      goes-inj [] _ o o' h₄,
      record { delay_bound = not-true (ltb 2500000 o.cache_delay) delay; pool_size = size },
    )

daemon_options-Passes :
    (options : List (ℕ × List ℕ)) (sys : System) (closed : List ℤ) (o : DaemonOptions)
    → daemon_options options sys ≡ goes closed o
    → Passes o
unfolding daemon_options
daemon_options-Passes options sys closed o h =
    let (o', _, h₁) =
      bind-goes
        (read_options daemon_switch options
          (record { nthreads = pos 6; cachedir = codes "locals.txt"; cache_delay = 0 }))
        (daemon_tests sys) closed o h in
    let (same, passes) = daemon_tests-Passes sys o' o _ h₁ in subst Passes (sym same) passes

-- The daemon in its loop: the bounds that the tests promise, the table that `simplecache_init` has loaded,
-- and a socket that listens.
pub record Runs (sys : System) (d : Daemon) : Type 0 where
  pub some_worker : 0 < d.nthreads
  pub most_workers : d.nthreads ≤ 100
  pub most_delay : d.delay ≤ 2500000
  pub list : List ℕ
  pub table : simplecache_init sys.opens (sys.fopen list) ≡ Loaded.loaded d.items
  pub sockfd : d.g_cache_sockfd ≡ sys.socket
  pub is_open : is_negative sys.socket ≡ false
  pub is_listening : (sys.binds && sys.listens) ≡ true

pool_size-bounds : (n : ℤ) → is_pool_size n ≡ true → (0 < count_of n) × (count_of n ≤ 100)
pool_size-bounds (pos n) h = (ground arith, ground arith)
pool_size-bounds (negsuc k) h = absurd (cc h)

delay-bound : (n : ℕ) → ltb 2500000 n ≡ false → n ≤ 2500000
delay-bound n h = ground arith

-- The two results of `cache_socket_init`.
socket-cases :
    (sys : System)
    → ((cache_socket_init sys ≡ (sys.socket, sys.socket))
        × (is_negative sys.socket ≡ false)
        × ((sys.binds && sys.listens) ≡ true))
      ⊎ (cache_socket_init sys ≡ (minus_one, sys.socket))
unfolding cache_socket_init
socket-cases sys = elim (Bool-cases (is_negative sys.socket)) [
  | inl bad ↦ inr (rw (cache_socket_init, bad) refl)
  | inr fine ↦ elim (Bool-cases (sys.binds && sys.listens)) [
    | inl works ↦ inl (rw (cache_socket_init, fine, works) refl, fine, works)
    | inr fails ↦ inr (rw (cache_socket_init, fine, fails) refl)
  ]
]

with_socket-Runs :
    (sys : System) (o : DaemonOptions) (items : List Item) (closed : List ℤ) (d : Daemon)
    → Passes o
    → simplecache_init sys.opens (sys.fopen o.cachedir) ≡ Loaded.loaded items
    → with_socket o items (cache_socket_init sys) ≡ goes closed d
    → Runs sys d
with_socket-Runs sys o items closed d passes table h = elim (socket-cases sys) [
  | inr failed ↦ absurd (cc (rw failed at h))
  | inl works ↦
      let (same, fine, listens) = works in
      let (some_worker, most) = pool_size-bounds o.nthreads passes.pool_size in
      let h' = rw (same, fine) at h in
      subst (Runs sys)
        (sym (
          goes-inj [] closed
            (record {
              items = items;
              nthreads = count_of o.nthreads;
              delay = o.cache_delay;
              g_cache_sockfd = sys.socket;
            })
            d h'))
        (record {
          some_worker = some_worker;
          most_workers = most;
          most_delay = delay-bound o.cache_delay passes.delay_bound;
          list = o.cachedir;
          table = table;
          sockfd = refl;
          is_open = fine;
          is_listening = listens;
        })
]

some-inj : (a b : Start Daemon) → some a ≡ some b → a ≡ b
some-inj a b h = cc h

with_items-Runs :
    (sys : System) (o : DaemonOptions) (l : Loaded) (closed : List ℤ) (d : Daemon)
    → Passes o
    → simplecache_init sys.opens (sys.fopen o.cachedir) ≡ l
    → with_items sys o l ≡ some (goes closed d)
    → Runs sys d
with_items-Runs sys o (Loaded.loaded items) closed d passes table h =
    let (_, more, h') =
      require_or-goes 1 sys.allocates (with_socket o items (cache_socket_init sys)) closed d
        (some-inj _ (goes closed d) h) in
    with_socket-Runs sys o items more d passes table h'
with_items-Runs sys o Loaded.exits closed d passes table h =
    absurd (cc (some-inj _ (goes closed d) h))
with_items-Runs sys o Loaded.overruns closed d passes table h = absurd (cc h)
with_items-Runs sys o Loaded.out_of_fuel closed d passes table h = absurd (cc h)

with_checked-Runs :
    (options : List (ℕ × List ℕ)) (sys : System) (checked : Start DaemonOptions) (closed : List ℤ)
    (d : Daemon)
    → daemon_options options sys ≡ checked
    → with_checked sys checked ≡ some (goes closed d)
    → Runs sys d
with_checked-Runs options sys (exits code _) closed d e h =
    absurd (cc (some-inj _ (goes closed d) h))
with_checked-Runs options sys (goes before o) closed d e h =
    with_items-Runs sys o (simplecache_init sys.opens (sys.fopen o.cachedir)) closed d
      (daemon_options-Passes options sys before o e) refl h

-- A cache daemon that comes to its loop has one to 100 workers, a delay of 2500000 at most, the table
-- that `simplecache_init` loads from a list, and a socket that is bound and listens.
pub daemon_start-Runs :
    (options : List (ℕ × List ℕ)) (sys : System) (closed : List ℤ) (d : Daemon)
    → daemon_start options sys ≡ some (goes closed d)
    → Runs sys d
unfolding daemon_start
daemon_start-Runs options sys closed d h =
    with_checked-Runs options sys (daemon_options options sys) closed d refl h

length-spawned : (n : ℕ) → length (spawned {A = ℤ} (replicate n true)) ≡ n
length-spawned zero = refl
length-spawned (suc n) = ap suc (length-spawned n)

-- A cache daemon that comes to its loop misses no connection, whatever its options: with those of its
-- workers that `pthread_create` could make, after any schedule of connections, worker steps, requests that come
-- to an end, and waits that end with no signal, the connections popped and those in the queue are the
-- ones accepted, each once and in order. If no worker can take a step in its loop then each worker is
-- in `handle_cache_request`, which may never come back, or waits, and if one waits then no connection
-- is left in the queue. If all could be created there is one at least.
pub daemon-IsServed :
    (options : List (ℕ × List ℕ)) (sys : System) (closed : List ℤ) (d : Daemon)
    (creates : List Bool) (ms : List Move)
    → daemon_start options sys ≡ some (goes closed d)
    → ((i : ℕ) → cache_worker_job i (run ms (work_q_init creates)) ≡ none)
    → IsServed (length (spawned {A = ℤ} creates)) (connections ms) (run ms (work_q_init creates))
      × (creates ≡ replicate d.nthreads true → 0 < length (run ms (work_q_init creates)).workers)
daemon-IsServed options sys closed d creates ms started blocked =
    let served = run-IsServed creates ms blocked in
    let runs = daemon_start-Runs options sys closed d started in
    (
      served,
      λ all. omega (
        arith,
        served.count,
        ap (λ c. length (spawned {A = ℤ} c)) all,
        length-spawned d.nthreads,
        runs.some_worker,
      ),
    )

destroy-map : (items : List Item) → simplecache_destroy items ≡ map (λ item. item.fildes) items
unfolding simplecache_destroy
destroy-map [] = refl
destroy-map (a ∷ bs) = ap (λ t. a.fildes ∷ t) (destroy-map bs)

open_cleanup : (fd : ℤ) → is_negative fd ≡ false → cache_socket_cleanup fd ≡ fd ∷ []
unfolding cache_socket_cleanup
open_cleanup fd h = rw (cache_socket_cleanup, h) refl

-- On SIGINT and SIGTERM the daemon closes its socket and then the files of its table, in order, and exits
-- with the signal's number.
pub sig_handler-closes :
    (sys : System) (d : Daemon)
    → Runs sys d
    → (sig_handler 2 d ≡ some (2, sys.socket ∷ descriptors (map (λ item. item.fildes) d.items)))
      × (sig_handler 15 d ≡ some (15, sys.socket ∷ descriptors (map (λ item. item.fildes) d.items)))
unfolding sig_handler
sig_handler-closes sys d runs =
    let files = destroy-map d.items in
    let sock : cache_socket_cleanup d.g_cache_sockfd ≡ sys.socket ∷ [] =
      ap cache_socket_cleanup runs.sockfd ∙ open_cleanup sys.socket runs.is_open in
    (rw (sock, files) refl, rw (sock, files) refl)
