-- ===== src/Handler/Tests.antt =====
-- The queue and the threads of projects/gflib/handler.c on small inputs.
use c_exercises.Base.{◌≡◌, some, [], ◌∷◌, arith, pos}
use c_exercises.Handler.Queue.{Queue, empty_queue, queue_push, queue_pop, IsQueue}
use c_exercises.Handler.Queue.Refine.{empty_queue-IsQueue, queue_push-append, queue_pop-cons}
use c_exercises.Handler.Pool.{Shared, took, worker_job}
use c_exercises.Handler.Pool.Run.{worker_takes}

-- The queue with the job 4.
abbrev one_job : Queue
one_job = (queue_push empty_queue 4).1

one_job-IsQueue : IsQueue one_job (4 ∷ [])
one_job-IsQueue = (queue_push-append empty_queue-IsQueue 4 (omega arith)).1

queue_push-append_example :
    ((queue_push one_job 5).0 ≡ pos 0) × IsQueue (queue_push one_job 5).1 (4 ∷ 5 ∷ [])
queue_push-append_example = queue_push-append one_job-IsQueue 5 (omega arith)

queue_pop-cons_example :
    ((queue_pop one_job).0 ≡ pos 0)
    × ((queue_pop one_job).1 ≡ some 4)
    × IsQueue (queue_pop one_job).2 []
queue_pop-cons_example = queue_pop-cons one_job-IsQueue

abbrev idle : Shared
idle = record { q = empty_queue; queueing_done = 0; complete = λ j. 0 }

abbrev busy : Shared
busy = record { q = one_job; queueing_done = 1; complete = λ j. 0 }

idle-empty : idle.q.qcount ≡ 0
idle-empty = empty_queue-IsQueue.count

worker_takes_example : ((worker_job busy).0 ≡ took (some 4)) × IsQueue (worker_job busy).1.q []
worker_takes_example = worker_takes busy one_job-IsQueue
