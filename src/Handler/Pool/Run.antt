-- ===== src/Handler/Pool/Run.antt =====
-- What can happen to a job in projects/gflib/handler.c, over any sequence of steps.
use c_exercises.Base.{ℕ, ◌≡◌, ap, Bool, false, some, List, [], ◌∷◌, arith, ◌==◌}
use c_exercises.Handler.Queue.{IsQueue}
use c_exercises.Handler.Queue.Refine.{queue_pop-cons}
use c_exercises.Handler.Pool.{
  Shared, took, worker_job, queued, handler_request, request_done, handler_shutdown,
}

pub data Event : Type 0 where
  worker shutdown : Event
  request : Bool → ℕ → Event

-- A request that finds the queue full leaves the state as it is, and may be tried again later. One
-- that crashes ends the process; the state is left as it was.
pub step : Event → Shared → Shared
unfolding worker_job handler_request handler_shutdown
step worker s = (worker_job s).1
step shutdown s = handler_shutdown s
step (request ok job) s = elim (handler_request ok job s) [ queued s' ↦ s' | _ ↦ s ]

pub run : List Event → Shared → Shared
unfolding step
run [] s = s
run (e ∷ es) s = run es (step e s)

step-complete :
    (e : Event) (s : Shared) (job : ℕ) → s.complete job ≡ 0 → (step e s).complete job ≡ 0
unfolding step
step-complete worker s job h = ground arith
step-complete shutdown s job h = h
step-complete (request ok j) s job h = ground arith

-- A job that is not complete never becomes so, whatever the workers, the boss and other requests do:
-- the wait at the end of `handler_request` does not end.
run-never-done :
    (es : List Event) (s : Shared) (job : ℕ)
    → s.complete job ≡ 0
    → request_done job (run es s) ≡ false
unfolding run request_done
run-never-done [] s job h = rw h
run-never-done (e ∷ es) s job h = run-never-done es (step e s) job (step-complete e s job h)

-- A worker takes the oldest job and leaves the others in order, whether the queue is shut or not.
pub worker_takes :
    (s : Shared) {x : ℕ} {xs : List ℕ}
    → IsQueue s.q (x ∷ xs)
    → ((worker_job s).0 ≡ took (some x)) × IsQueue (worker_job s).1.q xs
unfolding worker_job
worker_takes s {x} {xs} is =
    let some_jobs : (s.q.qcount == 0) ≡ false = ground (arith, is.count) in
    let popped = queue_pop-cons is in rw some_jobs (ap took popped.1, popped.2)
