-- ===== src/FileServer/Threads.antt =====
-- The threads of projects/mtgf/handler.c: the server's thread, which calls `gfs_handler` and, when the
-- program exits, `cleanup_threads`, and the workers, which wait on a condition variable. A step is
-- what a thread does between two waits; any schedule may interleave the steps. Behind its pop a
-- worker is at its answer, which comes to its end at any time, or never. The signal that ends the
-- program is taken to reach the server's thread.
pub mod Invariant
pub mod Schedules
pub mod AtRest
use c_exercises.Base.{
  ℕ, zero, suc, ◌&&◌, Bool, true, false, Option, none, some, List, [], ◌∷◌, if◌then◌else◌,
  get_elem?, set, replicate,
}
use c_exercises.Workers.{
  Worker, pops, sleeps, left, handles, wake, cond_signal, cond_broadcast, all_created,
}
use c_exercises.FileServer.{
  Job, Shared, Pass, takes, server_worker_job, gfs_handler, cleanup_threads,
}

-- Where the server's thread is: in `gfserver_serve`, at the join of a worker, behind the joins, or in a
-- signal handler that waits for the `queue_mtx` that the thread itself holds.
pub data Serving : Type 0 where
  serves over stuck : Serving
  joins : ℕ → Serving

pub record ServerThreads : Type 0 where
  pub shared : Shared
  pub workers : List (Worker Job)
  pub main : Serving

-- Behind the creation of the workers.
abbrev pub first_state : ℕ → ServerThreads
first_state numthreads = record {
  shared = record { queue = []; queueing_done = false; popped = [] };
  workers = replicate numthreads pops;
  main = serves;
}

-- What `init_threads` leaves: an exit for want of memory, all of its threads, or some of them, when the
-- ids of the others, which `cleanup_threads` joins, are not set and the behaviour is undefined.
pub data Made : Type 0 where
  exits_early partly : Made
  made : ServerThreads → Made

-- `creates i` says whether `pthread_create` succeeds for worker `i`; nothing looks at it.
unfoldable pub init_threads : Bool → (ℕ → Bool) → ℕ → Made
init_threads malloc_ok creates numthreads =
    if malloc_ok
    then (if all_created creates numthreads then made (first_state numthreads) else partly)
    else exits_early

-- What a worker does behind the locked part of its loop.
abbrev pub after_lock : Pass → Worker Job
after_lock Pass.sleeps = sleeps
after_lock Pass.leaves = left
after_lock (takes job) = handles job

-- Whether a worker can have `queue_mtx`.
abbrev pub lock_is_free : Serving → Bool
lock_is_free serves = true
lock_is_free over = true
lock_is_free (joins i) = true
lock_is_free stuck = false

-- A step of a worker in its loop; none is possible while it waits, at its answer, and behind its end.
unfoldable pub worker_step : ℕ → ServerThreads → Option ServerThreads
unfolding server_worker_job
worker_step i s = elim (lock_is_free s.main) [
  | false ↦ none
  | true ↦ elim (get_elem? s.workers i) [
    | none ↦ none
    | some w ↦ elim w [
      | pops ↦
          let (pass, shared) = server_worker_job s.shared in
          some (record s { shared = shared; workers = set s.workers i (after_lock pass) })
      | sleeps ↦ none
      | left ↦ none
      | handles job ↦ none
    ]
  ]
]

-- The answer of worker `i` comes to its end, and the worker goes on with its loop.
unfoldable pub answer_returns : ℕ → ServerThreads → Option ServerThreads
answer_returns i s = elim (get_elem? s.workers i) [
  | none ↦ none
  | some w ↦ elim w [
    | pops ↦ none
    | sleeps ↦ none
    | left ↦ none
    | handles job ↦ some (record s { workers = set s.workers i pops })
  ]
]

-- A call of `gfs_handler`, whose signal would choose worker `i`.
unfoldable pub request_step : ℕ → Bool → Job → ServerThreads → ServerThreads
unfolding gfs_handler cond_signal
request_step i calloc_ok job s = elim calloc_ok [
  | true ↦ record s {
    shared = (gfs_handler true job s.shared).1;
    workers = cond_signal i s.workers;
  }
  | false ↦ record s { shared = (gfs_handler false job s.shared).1 }
]

-- `cleanup_threads` up to its joins.
unfoldable pub exit_step : ServerThreads → ServerThreads
unfolding cleanup_threads cond_broadcast
exit_step s = record s {
  shared = cleanup_threads s.shared;
  workers = cond_broadcast s.workers;
  main = joins 0;
}

-- The same while the server's thread holds `queue_mtx` in `gfs_handler`: `cleanup_threads` waits for it.
unfoldable pub exit_inside : ServerThreads → ServerThreads
exit_inside s = record s { main = stuck }

-- A join, or the end of the loop over them.
unfoldable pub join_step : ServerThreads → Option ServerThreads
join_step s = elim s.main [
  | serves ↦ none
  | over ↦ none
  | stuck ↦ none
  | joins i ↦ elim (get_elem? s.workers i) [
    | none ↦ some (record s { main = over })
    | some w ↦ elim w [
      | left ↦ some (record s { main = joins (suc i) })
      | pops ↦ none
      | sleeps ↦ none
      | handles job ↦ none
    ]
  ]
]

-- A schedule: a request comes in, the program exits, in `gfs_handler` or elsewhere, the server's thread
-- joins, a worker takes a step, a wait ends with no signal, or an answer comes to its end. A step that is not possible leaves everything as it is.
pub data Move : Type 0 where
  requests : ℕ → Bool → Job → Move
  works wakes returns : ℕ → Move
  exits exits_inside main_joins : Move

abbrev pub stay_or : ServerThreads → Option ServerThreads → ServerThreads
stay_or s none = s
stay_or s (some s') = s'

abbrev pub wake_at : ℕ → ServerThreads → Option (Worker Job) → ServerThreads
wake_at i s none = s
wake_at i s (some w) = record s { workers = set s.workers i (wake w) }

-- Requests come in and the program exits while the server's thread serves.
abbrev pub while_serving : Serving → ServerThreads → ServerThreads → ServerThreads
while_serving serves s s' = s'
while_serving over s s' = s
while_serving stuck s s' = s
while_serving (joins i) s s' = s

abbrev pub step : Move → ServerThreads → ServerThreads
step (requests i calloc_ok job) s = while_serving s.main s (request_step i calloc_ok job s)
step exits s = while_serving s.main s (exit_step s)
step exits_inside s = while_serving s.main s (exit_inside s)
step (works i) s = stay_or s (worker_step i s)
step (wakes i) s = wake_at i s (get_elem? s.workers i)
step (returns i) s = stay_or s (answer_returns i s)
step main_joins s = stay_or s (join_step s)

unfoldable pub run : List Move → ServerThreads → ServerThreads
run [] s = s
run (m ∷ ms) s = run ms (step m s)

-- The jobs that a schedule hands in before the program exits, in order.
abbrev pub accepted_jobs : List Move → List Job
accepted_jobs [] = []
accepted_jobs (requests i true job ∷ ms) = job ∷ accepted_jobs ms
accepted_jobs (requests i false job ∷ ms) = accepted_jobs ms
accepted_jobs (exits ∷ ms) = []
accepted_jobs (exits_inside ∷ ms) = []
accepted_jobs (main_joins ∷ ms) = accepted_jobs ms
accepted_jobs (works i ∷ ms) = accepted_jobs ms
accepted_jobs (wakes i ∷ ms) = accepted_jobs ms
accepted_jobs (returns i ∷ ms) = accepted_jobs ms
