-- ===== src/CacheDaemon/Queue.antt =====
-- The connections of projects/proxycacheserver/cache/simplecached.c: main, which accepts and queues
-- them, and the workers, which wait on a condition variable. A step is what a thread does between
-- two waits; any schedule may interleave the steps. Behind its pop a worker is in
-- `handle_cache_request`, which comes back at any time, or never.
pub mod Served
pub mod Steps
use c_exercises.Base.{
  ℕ, suc, Bool, true, false, Option, none, some, List, [], ◌∷◌, ◌++◌, get_elem?, set, if◌then◌else◌,
  ℤ, is_negative,
}
use c_exercises.Workers.{Worker, pops, sleeps, left, handles, wake, cond_signal, spawned}

-- The queue, the connections popped so far, and the workers.
pub record WorkQueue : Type 0 where
  pub queue : List ℤ
  pub popped : List ℤ
  pub workers : List (Worker ℤ)

unfoldable pub work_q_push : ℕ → ℤ → WorkQueue → WorkQueue
unfolding cond_signal
work_q_push i clientfd s = record s {
  queue = s.queue ++ clientfd ∷ [];
  workers = cond_signal i s.workers;
}

-- A round of the loop of `main`, by what `accept` returns.
unfoldable pub accept_step : ℕ → ℤ → WorkQueue → WorkQueue
unfolding work_q_push
accept_step i clientfd s = elim (is_negative clientfd) [
  | true ↦ s
  | false ↦ work_q_push i clientfd s
]

-- `work_q_pop` from the test of its loop on.
unfoldable pub work_q_pop : ℕ → WorkQueue → WorkQueue
work_q_pop i s = elim s.queue [
  | [] ↦ record s { workers = set s.workers i sleeps }
  | fd ∷ rest ↦ record s {
    queue = rest;
    popped = s.popped ++ fd ∷ [];
    workers = set s.workers i (handles fd);
  }
]

-- A step of a worker in its loop; none is possible while it waits, and none while it is in
-- `handle_cache_request`.
unfoldable pub cache_worker_job : ℕ → WorkQueue → Option WorkQueue
unfolding work_q_pop
cache_worker_job i s = elim (get_elem? s.workers i) [
  | none ↦ none
  | some w ↦ elim w [
    | pops ↦ some (work_q_pop i s)
    | sleeps ↦ none
    | left ↦ none
    | handles fd ↦ none
  ]
]

-- `handle_cache_request` comes back in worker `i`, which goes on with its loop.
unfoldable pub request_returns : ℕ → WorkQueue → Option WorkQueue
request_returns i s = elim (get_elem? s.workers i) [
  | none ↦ none
  | some w ↦ elim w [
    | pops ↦ none
    | sleeps ↦ none
    | left ↦ none
    | handles fd ↦ some (record s { workers = set s.workers i pops })
  ]
]

-- The creation of the workers, by whether `pthread_create` succeeds for each: its result is ignored, and
-- only the threads that it has made are there.
abbrev pub work_q_init : List Bool → WorkQueue
work_q_init creates = record { queue = []; popped = []; workers = spawned creates }

-- A schedule: `accept` returns, and a signal would choose this worker; a worker takes a step; or its
-- wait ends with no signal; or the request that it is at comes to its end.
pub data Move : Type 0 where
  accepts : ℕ → ℤ → Move
  works : ℕ → Move
  wakes : ℕ → Move
  returns : ℕ → Move

abbrev pub stay_or : WorkQueue → Option WorkQueue → WorkQueue
stay_or s none = s
stay_or s (some s') = s'

abbrev pub wake_at : ℕ → WorkQueue → Option (Worker ℤ) → WorkQueue
wake_at i s none = s
wake_at i s (some w) = record s { workers = set s.workers i (wake w) }

abbrev pub step : Move → WorkQueue → WorkQueue
step (accepts i clientfd) s = accept_step i clientfd s
step (works i) s = stay_or s (cache_worker_job i s)
step (wakes i) s = wake_at i s (get_elem? s.workers i)
step (returns i) s = stay_or s (request_returns i s)

unfoldable pub run : List Move → WorkQueue → WorkQueue
run [] s = s
run (m ∷ ms) s = run ms (step m s)

-- The connections that a schedule accepts, in order.
abbrev pub connections : List Move → List ℤ
connections [] = []
connections (accepts i fd ∷ ms) = if is_negative fd then connections ms else fd ∷ connections ms
connections (works i ∷ ms) = connections ms
connections (wakes i ∷ ms) = connections ms
connections (returns i ∷ ms) = connections ms
