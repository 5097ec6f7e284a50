-- ===== src/Download/Pool.antt =====
-- The threads of projects/mtgf/gfclient_download.c: main, which queues the requests, sets the flag and
-- joins the workers, and the workers, which wait on a condition variable. A step is what a thread
-- does between two waits; any schedule may interleave the steps. Behind its pop a worker is at its
-- request, which comes to its end at any time, or never.
pub mod Invariant
pub mod Rest
mod Tests
use c_exercises.Base.{
  ℕ, zero, suc, ◌+◌, Bool, true, false, Option, none, some, List, [], ◌∷◌, ◌++◌, leb, if◌then◌else◌,
  length, get_elem?, set, replicate,
}
use c_exercises.Workers.{
  Worker, pops, sleeps, left, handles, wake, cond_signal, cond_broadcast, all_created,
}

-- Where main is: at the loop that queues these paths, at the join of a worker, or at its end.
pub data Main : Type 0 where
  enqueues : List (List ℕ) → Main
  joins : ℕ → Main
  returned : Main

-- The queue and `queueingDone`, the paths popped so far, and whether a worker has called `exit`.
pub record Threads : Type 0 where
  pub main : Main
  pub queue : List (List ℕ)
  pub queueing_done : Bool
  pub popped : List (List ℕ)
  pub workers : List (Worker (List ℕ))
  pub exited : Bool

abbrev pub path_buffer_size : ℕ
path_buffer_size = 512

-- `main` behind the creation of the workers; no step is possible while a join waits.
unfoldable pub main_step : Threads → Option Threads
unfolding cond_broadcast
main_step s = elim s.exited [
  | true ↦ none
  | false ↦ elim s.main [
    | enqueues ps ↦ elim ps [
      | [] ↦
          some
            (record s { main = joins 0; queueing_done = true; workers = cond_broadcast s.workers })
      | p ∷ rest ↦ some (record s {
        main = enqueues rest;
        queue = s.queue ++ p ∷ [];
        workers = cond_broadcast s.workers;
      })
    ]
    | joins i ↦ elim (get_elem? s.workers i) [
      | none ↦ some (record s { main = returned })
      | some w ↦ elim w [
        | left ↦ some (record s { main = joins (suc i) })
        | pops ↦ none
        | sleeps ↦ none
        | handles p ↦ none
      ]
    ]
    | returned ↦ none
  ]
]

-- The locked part of `client_worker_job` in worker `i`, with the signal or the test of the path's length
-- behind it; the signal would choose worker `k`.
unfoldable pub pop_job : ℕ → ℕ → Threads → Threads
unfolding cond_signal
pop_job i k s = elim s.queue [
  | [] ↦
      (if s.queueing_done
        then record s { workers = cond_signal k (set s.workers i left) }
        else record s { workers = set s.workers i sleeps })
  | p ∷ rest ↦ record s {
    queue = rest;
    popped = s.popped ++ p ∷ [];
    workers = set s.workers i (handles p);
    exited = leb path_buffer_size (length p);
  }
]

-- A step of a worker in its loop; none is possible while it waits, at its request, and behind its end.
unfoldable pub client_worker_job : ℕ → ℕ → Threads → Option Threads
unfolding pop_job
client_worker_job i k s = elim s.exited [
  | true ↦ none
  | false ↦ elim (get_elem? s.workers i) [
    | none ↦ none
    | some w ↦ elim w [
      | pops ↦ some (pop_job i k s)
      | sleeps ↦ none
      | left ↦ none
      | handles p ↦ none
    ]
  ]
]

-- The request of worker `i` comes to its end, and the worker goes on with its loop.
unfoldable pub request_returns : ℕ → Threads → Option Threads
request_returns i s = elim s.exited [
  | true ↦ none
  | false ↦ elim (get_elem? s.workers i) [
    | none ↦ none
    | some w ↦ elim w [
      | pops ↦ none
      | sleeps ↦ none
      | left ↦ none
      | handles p ↦ some (record s { workers = set s.workers i pops })
    ]
  ]
]

-- A wait of worker `i` that ends with no signal.
unfoldable pub wake_up : ℕ → Threads → Option Threads
wake_up i s = elim (get_elem? s.workers i) [
  | none ↦ none
  | some w ↦ some (record s { workers = set s.workers i (wake w) })
]

abbrev pub start : List (List ℕ) → ℕ → Threads
start requests nthreads = record {
  main = enqueues requests;
  queue = [];
  queueing_done = false;
  popped = [];
  workers = replicate nthreads pops;
  exited = false;
}

-- The creation of the workers. Nothing looks at what `pthread_create` returns, which `creates i` says for
-- worker `i`; if one call fails then main joins an id that is not set, and the behaviour is undefined.
unfoldable pub create_workers : (ℕ → Bool) → List (List ℕ) → ℕ → Option Threads
create_workers creates requests nthreads =
    if all_created creates nthreads then some (start requests nthreads) else none

-- A schedule: whose step comes next. A step that is not possible leaves everything as it is.
pub data Move : Type 0 where
  main_moves : Move
  works : (i k : ℕ) → Move
  returns wakes : ℕ → Move

abbrev pub step : Move → Threads → Option Threads
step main_moves s = main_step s
step (works i k) s = client_worker_job i k s
step (returns i) s = request_returns i s
step (wakes i) s = wake_up i s

abbrev pub stay_or : Threads → Option Threads → Threads
stay_or s none = s
stay_or s (some s') = s'

unfoldable pub run : List Move → Threads → Threads
run [] s = s
run (m ∷ ms) s = run ms (stay_or s (step m s))
