-- ===== src/FileServer/Starting.antt =====
-- The start of the file server, projects/mtgf/gfserver_main.c, up to `gfserver_serve`.
mod Tests
use mathlib.Core.Option.{some-injective}
use c_exercises.Base.{
  ℕ, suc, ◌+◌, ◌<◌, ◌≡◌, refl, subst, sym, ◌∙◌, ap, Bool, true, false, not, Option, none, some,
  List, [], ◌==◌, ltb, if◌then◌else◌, arith, ℤ, pos, negsuc,
}
use c_exercises.Text.{codes}
use c_exercises.Text.Integers.{atoi, to_ulong, to_ushort}
use c_exercises.Sockets.{
  Start, exits, goes, ◌>>=◌, ◌>>◌, require_or, Choice, sets, quits, read_options,
}
use c_exercises.Sockets.Progress.{goes-inj}
use c_exercises.Cache.{Item, Open, Loaded, mtgf_content_init}
use c_exercises.FileServer.Threads.{
  ServerThreads, Made, exits_early, partly, made, init_threads, worker_step, join_step, Move, run,
  accepted_jobs,
}
use c_exercises.FileServer.Threads.AtRest.{IsAtRest, run-IsAtRest}

-- The variables that the options set.
pub record MainOptions : Type 0 where
  pub content_map : List ℕ
  pub nthreads : ℤ
  pub port : ℕ
  pub content_delay : ℕ

unfoldable pub main_switch : ℕ → List ℕ → MainOptions → Choice MainOptions
unfolding atoi
main_switch char arg o =
    if char == b'h'
    then quits 0
    else if char == b'p'
    then sets (record o { port = to_ushort (atoi arg) })
    else if char == b'd'
    then sets (record o { content_delay = to_ulong (atoi arg) })
    else if char == b't'
    then sets (record o { nthreads = atoi arg })
    else if char == b'm'
    then sets (record o { content_map = arg })
    else quits 1

-- `if (nthreads < 1) nthreads = 1;`
abbrev pub one_or_more : ℤ → ℕ
one_or_more (pos n) = if ltb n 1 then 1 else n
one_or_more (negsuc _) = 1

-- What the operating system answers to `signal`, to `fopen` and `open` of the list and its files, and to
-- `malloc`, and to `pthread_create` for each worker.
pub record System : Type 0 where
  pub catches_int : Bool
  pub catches_term : Bool
  pub fopen : List ℕ → Option (List ℕ)
  pub opens : Open
  pub allocates : Bool
  pub creates : ℕ → Bool

-- The server before `gfserver_serve`: its table, its threads, their number, and what the library is given.
pub record Main : Type 0 where
  pub items : List Item
  pub numthreads : ℕ
  pub threads : ServerThreads
  pub port : ℕ
  pub max_npending : ℕ

-- Behind `init_threads`; the behaviour is undefined if it has not made all threads.
abbrev pub with_threads : ℕ → List Item → ℕ → Made → Option (Start Main)
with_threads port items numthreads exits_early = some (exits 1 [])
with_threads port items numthreads partly = none
with_threads port items numthreads (made threads) = some (
    goes [] (record {
      items = items;
      numthreads = numthreads;
      threads = threads;
      port = port;
      max_npending = 24;
    }))

-- Behind `content_init`; the behaviour is undefined where that overruns.
abbrev pub with_table : System → MainOptions → Loaded → Option (Start Main)
with_table sys o (Loaded.loaded items) =
    with_threads o.port items (one_or_more o.nthreads)
      (init_threads sys.allocates sys.creates (one_or_more o.nthreads))
with_table sys o Loaded.exits = some (exits 1 [])
with_table sys o Loaded.overruns = none
with_table sys o Loaded.out_of_fuel = none

unfoldable pub main_options : List (ℕ × List ℕ) → Start MainOptions
unfolding main_switch read_options
main_options options = read_options main_switch options (record {
  content_map = codes "content.txt";
  nthreads = pos 16;
  port = 56726;
  content_delay = 0;
})

-- `main` up to `content_init`; 88 is the `__LINE__` of the test.
abbrev pub checked_options : List (ℕ × List ℕ) → System → Start MainOptions
checked_options options sys = do
  require_or 1 sys.catches_int
  require_or 1 sys.catches_term
  o ← main_options options
  require_or 88 (not (ltb 5000000 o.content_delay))
  goes [] o

abbrev pub with_checked : System → Start MainOptions → Option (Start Main)
with_checked sys (exits code closed) = some (exits code closed)
with_checked sys (goes closed o) =
    with_table sys o (mtgf_content_init sys.opens (sys.fopen o.content_map))

-- `main` up to `gfserver_serve`.
unfoldable pub gfserver_start : List (ℕ × List ℕ) → System → Option (Start Main)
unfolding main_options init_threads mtgf_content_init
gfserver_start options sys = with_checked sys (checked_options options sys)

-- A server in its loop: it has a worker at least, `init_threads` has made its threads, and its table is
-- what `content_init` has loaded from a list.
pub record Runs (sys : System) (m : Main) : Type 0 where
  pub some_worker : 0 < m.numthreads
  pub all_made : init_threads true sys.creates m.numthreads ≡ made m.threads
  pub list : List ℕ
  pub table : mtgf_content_init sys.opens (sys.fopen list) ≡ Loaded.loaded m.items

one_or_more-lt : (n : ℤ) → 0 < one_or_more n
one_or_more-lt (pos n) = ground arith
one_or_more-lt (negsuc k) = omega arith

threads-Runs :
    (sys : System) (port n : ℕ) (list : List ℕ) (items : List Item) (malloc_ok : Bool)
    (closed : List ℤ) (m : Main) (threads : Made)
    → 0 < n
    → mtgf_content_init sys.opens (sys.fopen list) ≡ Loaded.loaded items
    → init_threads malloc_ok sys.creates n ≡ threads
    → with_threads port items n threads ≡ some (goes closed m)
    → Runs sys m
unfolding init_threads
threads-Runs sys port n list items ok closed m exits_early h table i e =
    absurd (cc (some-injective _ (goes closed m) e))
threads-Runs sys port n list items ok closed m partly h table i e = absurd (cc e)
threads-Runs sys port n list items false closed m (made t) h table i e = absurd (cc i)
threads-Runs sys port n list items true closed m (made t) h table i e =
    subst (Runs sys) (sym (goes-inj [] closed _ m (some-injective _ (goes closed m) e)))
      (record { some_worker = h; all_made = i; list = list; table = table })

table-Runs :
    (sys : System) (o : MainOptions) (l : Loaded) (closed : List ℤ) (m : Main)
    → mtgf_content_init sys.opens (sys.fopen o.content_map) ≡ l
    → with_table sys o l ≡ some (goes closed m)
    → Runs sys m
table-Runs sys o (Loaded.loaded items) closed m table h =
    threads-Runs sys o.port (one_or_more o.nthreads) o.content_map items sys.allocates closed m
      (init_threads sys.allocates sys.creates (one_or_more o.nthreads)) (one_or_more-lt o.nthreads)
      table refl h
table-Runs sys o Loaded.exits closed m table h = absurd (cc (some-injective _ (goes closed m) h))
table-Runs sys o Loaded.overruns closed m table h = absurd (cc h)
table-Runs sys o Loaded.out_of_fuel closed m table h = absurd (cc h)

checked-Runs :
    (sys : System) (checked : Start MainOptions) (closed : List ℤ) (m : Main)
    → with_checked sys checked ≡ some (goes closed m)
    → Runs sys m
checked-Runs sys (exits code before) closed m h = absurd (cc (some-injective _ (goes closed m) h))
checked-Runs sys (goes before o) closed m h =
    table-Runs sys o (mtgf_content_init sys.opens (sys.fopen o.content_map)) closed m refl h

gfserver_start-Runs :
    (options : List (ℕ × List ℕ)) (sys : System) (closed : List ℤ) (m : Main)
    → gfserver_start options sys ≡ some (goes closed m)
    → Runs sys m
unfolding gfserver_start
gfserver_start-Runs options sys closed m h =
    checked-Runs sys (checked_options options sys) closed m h

-- The file server of projects/mtgf loses no job, whatever its options: once its `main` has come to
-- `gfserver_serve` with all of its threads made, after any schedule of requests, worker steps, answers that come
-- to an end, waits that end with no signal, the exit on the server's thread and its joins, the jobs popped
-- and those in the queue are the ones handed in before the exit, once and in order. If no worker can
-- take a step in its loop and no join can, then while the server's thread serves each worker is at an
-- answer, or waits and the queue is empty. Behind the exit each worker is at an answer, or has left and
-- the queue is empty, and the joins have come to their end with all workers gone, or wait for one that is
-- at an answer. The only other case is an exit that came while the server's thread held the lock, whose
-- handler waits for ever.
pub gfserver-IsAtRest :
    (options : List (ℕ × List ℕ)) (sys : System) (closed : List ℤ) (m : Main) (ms : List Move)
    → gfserver_start options sys ≡ some (goes closed m)
    → ((i : ℕ) → worker_step i (run ms m.threads) ≡ none)
    → join_step (run ms m.threads) ≡ none
    → IsAtRest m.numthreads (accepted_jobs ms) (run ms m.threads)
gfserver-IsAtRest options sys closed m ms started =
    let runs = gfserver_start-Runs options sys closed m started in
    run-IsAtRest sys.creates m.numthreads m.threads ms runs.all_made
