-- ===== src/CacheDaemon/Queue/Steps.antt =====
-- How many steps the cache daemon's workers take.
use c_exercises.Base.{
  ℕ, zero, suc, ◌+◌, ◌*◌, ◌≤◌, ◌<◌, ◌≡◌, refl, ap, Bool, true, false, Option, none, some, List, [],
  ◌∷◌, arith, length, length-append, get_elem?, set, ℤ, pos, negsuc,
}
use c_exercises.CacheDaemon.Queue.{
  WorkQueue, work_q_push, work_q_pop, accept_step, cache_worker_job, request_returns, work_q_init,
  Move, accepts, works, wakes, returns, stay_or, wake_at, connections,
}
use c_exercises.Workers.{Worker, pops, sleeps, left, handles, wake_first, cond_signal, spawned}

abbrev worker_work : Worker ℤ → ℕ
worker_work sleeps = 0
worker_work left = 0
worker_work pops = 1
worker_work (handles fd) = 2

abbrev workers_work : List (Worker ℤ) → ℕ
workers_work [] = 0
workers_work (w ∷ ws) = worker_work w + workers_work ws

abbrev work : WorkQueue → ℕ
work s = 2 * length s.queue + workers_work s.workers

workers_work-set :
    (ws : List (Worker ℤ)) (i : ℕ) (v w : Worker ℤ)
    → get_elem? ws i ≡ some w
    → workers_work (set ws i v) + worker_work w ≡ workers_work ws + worker_work v
workers_work-set [] i v w h = absurd (cc h)
workers_work-set (x ∷ ws) zero v w h =
    let same : worker_work x ≡ worker_work w = ap (λ o. worker_work o) (cc h) in omega (arith, same)
workers_work-set (x ∷ ws) (suc i) v w h = omega (arith, workers_work-set ws i v w h)

work-wake_first : (ws : List (Worker ℤ)) → workers_work (wake_first ws) ≤ suc (workers_work ws)
work-wake_first [] = omega arith
work-wake_first (sleeps ∷ ws) = omega arith
work-wake_first (pops ∷ ws) = omega (arith, work-wake_first ws)
work-wake_first (left ∷ ws) = omega (arith, work-wake_first ws)
work-wake_first (handles fd ∷ ws) = omega (arith, work-wake_first ws)

work-signal_at :
    (i : ℕ) (ws : List (Worker ℤ)) (w : Option (Worker ℤ))
    → get_elem? ws i ≡ w
    → workers_work (cond_signal i ws) ≤ suc (workers_work ws)
unfolding cond_signal
work-signal_at i ws none e = rw (cond_signal, e) (work-wake_first ws)
work-signal_at i ws (some pops) e = rw (cond_signal, e) (work-wake_first ws)
work-signal_at i ws (some left) e = rw (cond_signal, e) (work-wake_first ws)
work-signal_at i ws (some (handles fd)) e = rw (cond_signal, e) (work-wake_first ws)
work-signal_at i ws (some sleeps) e =
    let more = workers_work-set ws i pops sleeps e in rw (cond_signal, e) (omega (arith, more))

-- A step of a worker that is possible.
abbrev count_step : Option WorkQueue → ℕ
count_step none = 0
count_step (some s) = 1

-- How many steps of workers in a schedule are possible when their turn comes.
unfoldable pub worker_steps : List Move → WorkQueue → ℕ
worker_steps [] s = 0
worker_steps (accepts i fd ∷ ms) s = worker_steps ms (accept_step i fd s)
worker_steps (works i ∷ ms) s =
    count_step (cache_worker_job i s) + worker_steps ms (stay_or s (cache_worker_job i s))
worker_steps (wakes i ∷ ms) s = worker_steps ms (wake_at i s (get_elem? s.workers i))
worker_steps (returns i ∷ ms) s =
    count_step (request_returns i s) + worker_steps ms (stay_or s (request_returns i s))

-- How many waits end with no signal.
abbrev pub wake_moves : List Move → ℕ
wake_moves [] = 0
wake_moves (accepts i fd ∷ ms) = wake_moves ms
wake_moves (works i ∷ ms) = wake_moves ms
wake_moves (wakes i ∷ ms) = suc (wake_moves ms)
wake_moves (returns i ∷ ms) = wake_moves ms

push-le : (i : ℕ) (fd : ℤ) (s : WorkQueue) → work (work_q_push i fd s) ≤ work s + 3
unfolding work_q_push
push-le i fd s = omega (
  arith,
  length-append s.queue (fd ∷ []),
  work-signal_at i s.workers (get_elem? s.workers i) refl,
)

abbrev Falls : WorkQueue → Option WorkQueue → Type 0
Falls s none = Unit
Falls s (some s') = work s' < work s

pop-Falls :
    (i : ℕ) (q popped : List ℤ) (ws : List (Worker ℤ))
    → get_elem? ws i ≡ some pops
    → work (work_q_pop i (record { queue = q; popped = popped; workers = ws }))
      < 2 * length q + workers_work ws
unfolding work_q_pop
pop-Falls i [] popped ws e = omega (arith, workers_work-set ws i sleeps pops e)
pop-Falls i (fd ∷ rest) popped ws e = omega (arith, workers_work-set ws i (handles fd) pops e)

job-Falls :
    (i : ℕ) (s : WorkQueue) (w : Option (Worker ℤ))
    → get_elem? s.workers i ≡ w
    → Falls s (cache_worker_job i s)
unfolding cache_worker_job
job-Falls i s none e = rw (cache_worker_job, e) tt
job-Falls i s (some sleeps) e = rw (cache_worker_job, e) tt
job-Falls i s (some left) e = rw (cache_worker_job, e) tt
job-Falls i s (some (handles fd)) e = rw (cache_worker_job, e) tt
job-Falls i s (some pops) e = rw (cache_worker_job, e) (pop-Falls i s.queue s.popped s.workers e)

return-Falls :
    (i : ℕ) (s : WorkQueue) (w : Option (Worker ℤ))
    → get_elem? s.workers i ≡ w
    → Falls s (request_returns i s)
unfolding request_returns
return-Falls i s none e = rw (request_returns, e) tt
return-Falls i s (some sleeps) e = rw (request_returns, e) tt
return-Falls i s (some left) e = rw (request_returns, e) tt
return-Falls i s (some pops) e = rw (request_returns, e) tt
return-Falls i s (some (handles fd)) e =
    let less = workers_work-set s.workers i pops (handles fd) e in
    rw (request_returns, e) (omega (arith, less))

one_step :
    (s : WorkQueue) (next : Option WorkQueue) (later extra : ℕ)
    → Falls s next
    → later ≤ work (stay_or s next) + extra
    → count_step next + later ≤ work s + extra
one_step s none later extra f h = omega arith
one_step s (some s') later extra f h = omega arith

wake-le :
    (i : ℕ) (s : WorkQueue) (w : Option (Worker ℤ))
    → get_elem? s.workers i ≡ w
    → work (wake_at i s w) ≤ suc (work s)
wake-le i s none e = omega arith
wake-le i s (some sleeps) e = omega (arith, workers_work-set s.workers i pops sleeps e)
wake-le i s (some pops) e = omega (arith, workers_work-set s.workers i pops pops e)
wake-le i s (some left) e = omega (arith, workers_work-set s.workers i left left e)
wake-le i s (some (handles fd)) e =
    omega (arith, workers_work-set s.workers i (handles fd) (handles fd) e)

steps-le :
    (ms : List Move) (s : WorkQueue)
    → worker_steps ms s ≤ work s + (3 * length (connections ms) + wake_moves ms)
unfolding worker_steps accept_step
steps-le [] s = omega arith
steps-le (accepts i (negsuc k) ∷ ms) s = steps-le ms s
steps-le (accepts i (pos k) ∷ ms) s =
    omega (arith, steps-le ms (work_q_push i (pos k) s), push-le i (pos k) s)
steps-le (works i ∷ ms) s =
    one_step s (cache_worker_job i s) (worker_steps ms (stay_or s (cache_worker_job i s)))
      (3 * length (connections ms) + wake_moves ms) (job-Falls i s (get_elem? s.workers i) refl)
      (steps-le ms (stay_or s (cache_worker_job i s)))
steps-le (wakes i ∷ ms) s = omega (
  arith,
  steps-le ms (wake_at i s (get_elem? s.workers i)),
  wake-le i s (get_elem? s.workers i) refl,
)
steps-le (returns i ∷ ms) s =
    one_step s (request_returns i s) (worker_steps ms (stay_or s (request_returns i s)))
      (3 * length (connections ms) + wake_moves ms) (return-Falls i s (get_elem? s.workers i) refl)
      (steps-le ms (stay_or s (request_returns i s)))

work-spawned :
    (creates : List Bool) → workers_work (spawned creates) ≡ length (spawned {A = ℤ} creates)
work-spawned [] = refl
work-spawned (true ∷ creates) = omega (arith, work-spawned creates)
work-spawned (false ∷ creates) = work-spawned creates

-- The cache daemon's workers come to rest between connections: in any schedule their steps that are
-- possible, the ends of their requests included, are no more than one for each worker that was created,
-- three for each connection, and one for each wait that ends with no signal.
pub worker_steps-le_connections :
    (creates : List Bool) (ms : List Move)
    → worker_steps ms (work_q_init creates)
      ≤ length (spawned {A = ℤ} creates) + 3 * length (connections ms) + wake_moves ms
worker_steps-le_connections creates ms =
    omega (arith, steps-le ms (work_q_init creates), work-spawned creates)
