-- ===== src/Handler/Pool.antt =====
-- The worker pool of projects/gflib/handler.c. The mutex makes each critical section one step; what
-- `calloc` and `pthread_create` answer are arguments.
pub mod Run
pub mod Threads
use c_exercises.Base.{
  ℕ, zero, suc, ◌+◌, ◌<◌, ◌≡◌, Bool, true, false, ◌&&◌, not, Option, none, some, List, [], ◌∷◌,
  ◌++◌, ◌==◌, if◌then◌else◌, ℤ, pos, negsuc, minus_one, is_negative,
}
use c_exercises.Handler.Queue.{Queue, queue_push, queue_pop}

-- The globals that the threads share, with the `complete` field of each job.
pub record Shared : Type 0 where
  pub q : Queue
  pub queueing_done : ℕ
  pub complete : ℕ → ℕ

-- One pass of the worker's loop: it sleeps on `worker_cv`, leaves the loop, or takes a job, which
-- the loop then drops. `took none` is a pop that left `job` unset.
pub data Pass : Type 0 where
  sleeps leaves : Pass
  took : Option ℕ → Pass

pub worker_job : Shared → Pass × Shared
worker_job s =
    if s.q.qcount == 0 && not (s.queueing_done == 0)
    then (sleeps, s)
    else if s.q.qcount == 0 && s.queueing_done == 0
    then (leaves, s)
    else (took (queue_pop s.q).1, record s { q = (queue_pop s.q).2 })

-- How `handler_request` gets as far as its wait: the job is in the queue, the queue is full and the
-- loop unlocks, locks and tries again, or `calloc` failed, where GF_ERROR is sent and the connection
-- aborted, and the next line writes through the null pointer.
pub data Request : Type 0 where
  queued : Shared → Request
  retries crashes : Request

pub handler_request : Bool → ℕ → Shared → Request
handler_request calloc_ok job s =
    let cleared : ℕ → ℕ = λ j. if j == job then 0 else s.complete j in
    let (r, q') = queue_push s.q job in
    if calloc_ok
    then (elim r [
      | negsuc n ↦ retries
      | pos n ↦ if n == 0 then queued (record s { q = q'; complete = cleared }) else retries
    ])
    else crashes

-- The wait at its end: true when `handler_request` goes on to return.
pub request_done : ℕ → Shared → Bool
request_done job s = not (s.complete job == 0)

-- The locked part of `handler_shutdown`.
pub handler_shutdown : Shared → Shared
handler_shutdown s = record s { queueing_done = 1 }

-- `threadCount` after `handler_set_threadCount`.
pub handler_set_thread_count : ℤ → ℕ
handler_set_thread_count (pos n) = n
handler_set_thread_count (negsuc n) = 1

-- What `handler_init` did: its result, the slots of `workers` handed to `pthread_create`, the
-- threads joined again, whether `workers` is still allocated, and `queueingDone`.
pub record Started : Type 0 where
  pub result : ℤ
  pub slots : List ℕ
  pub joined : List ℕ
  pub allocated : Bool
  pub queueing_done : ℕ

pub count_from : ℕ → ℕ → List ℕ
count_from i zero = []
count_from i (suc n) = i ∷ count_from (i + 1) n

-- The loop `for (i = ...; i <= threadCount; i++)` with `rounds` rounds to go; `creates i` says
-- whether `pthread_create` succeeds for slot `i`.
pub init_loop : (ℕ → Bool) → ℕ → ℕ → ℕ → Started
unfolding count_from
init_loop creates done zero i = record {
  result = pos 0;
  slots = [];
  joined = [];
  allocated = true;
  queueing_done = done;
}
init_loop creates done (suc rounds) i =
    let rest = init_loop creates done rounds (i + 1) in
    if creates i then record rest { slots = i ∷ rest.slots } else record {
      result = minus_one;
      slots = i ∷ [];
      joined = count_from 0 i;
      allocated = false;
      queueing_done = 1;
    }

-- `calloc_ok` says whether `workers` could be allocated.
pub handler_init : Bool → (ℕ → Bool) → ℕ → ℕ → Started
unfolding init_loop
handler_init calloc_ok creates thread_count done =
    if calloc_ok then init_loop creates done (thread_count + 1) 0 else record {
      result = minus_one;
      slots = [];
      joined = [];
      allocated = false;
      queueing_done = done;
    }

-- The loop of `handler_shutdown` that joins the threads and frees `workers` in its body. The
-- result lists the threads joined; `none` is a read through the pointer after it was set to NULL.
pub join_loop : (rounds i : ℕ) → Bool → Option (List ℕ)
join_loop zero i allocated = some []
join_loop (suc rounds) i allocated =
    let rest = join_loop rounds (i + 1) false in
    if allocated then elim rest [ none ↦ none | some is ↦ some (i ∷ is) ] else none

pub shutdown_joins : ℕ → Bool → Option (List ℕ)
unfolding join_loop
shutdown_joins thread_count allocated = if allocated then join_loop thread_count 0 true else some []
