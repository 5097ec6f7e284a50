-- ===== src/Handler/Pool/Threads.antt =====
-- How projects/gflib/handler.c starts and joins its threads.
use c_exercises.Base.{
  ℕ, zero, suc, ◌+◌, ◌<◌, ◌≤◌, ◌≡◌, refl, Bool, true, false, none, some, [], ◌∷◌, arith, ap, ◌∙◌,
  get_elem?, pos, minus_one,
}
use c_exercises.Handler.Pool.{count_from, init_loop, handler_init, shutdown_joins}

init_loop-slots :
    (creates : ℕ → Bool) (done rounds i : ℕ)
    → ((j : ℕ) → creates j ≡ true)
    → ((init_loop creates done rounds i).result ≡ pos 0)
      × ((init_loop creates done rounds i).slots ≡ count_from i rounds)
unfolding init_loop count_from
init_loop-slots creates done zero i all = (refl, refl)
init_loop-slots creates done (suc rounds) i all =
    let (r, s) = init_loop-slots creates done rounds (i + 1) all in
    rw (all i) (r, ap (λ t. i ∷ t) s)

count_from-last : (i n : ℕ) → get_elem? (count_from i (suc n)) n ≡ some (i + n)
unfolding count_from
count_from-last i zero = ap some (omega arith)
count_from-last i (suc n) = count_from-last (i + 1) n ∙ ap some (omega arith)

-- When every `pthread_create` succeeds, `handler_init` succeeds and has handed out the slots from 0
-- up to `threadCount`, the last of which lies behind the array of `threadCount` slots.
pub handler_init_overruns :
    (creates : ℕ → Bool) (thread_count done : ℕ)
    → ((j : ℕ) → creates j ≡ true)
    → let started = handler_init true creates thread_count done in
      (started.result ≡ pos 0) × (get_elem? started.slots thread_count ≡ some thread_count)
unfolding handler_init
handler_init_overruns creates n done all =
    let (r, s) = init_loop-slots creates done (n + 1) 0 all in
    let one_more : n + 1 ≡ suc n = omega arith in
    (r, rw s (rw one_more (count_from-last 0 n ∙ ap some (omega arith))))

init_loop-fails :
    (creates : ℕ → Bool) (done rounds i d : ℕ)
    → d < rounds
    → ((j : ℕ) → j < d → creates (i + j) ≡ true)
    → creates (i + d) ≡ false
    → let started = init_loop creates done rounds i in
      (started.result ≡ minus_one)
      × (started.joined ≡ count_from 0 (i + d))
      × (started.allocated ≡ false)
      × (started.queueing_done ≡ 1)
unfolding init_loop
init_loop-fails creates done zero i d h ok bad = absurd (omega arith)
init_loop-fails creates done (suc rounds) i zero h ok bad =
    let here : i + 0 ≡ i = omega arith in
    let now : creates i ≡ false = rw here at bad in rw (here, now) (refl, refl, refl, refl)
init_loop-fails creates done (suc rounds) i (suc d) h ok bad =
    let here : i + 0 ≡ i = omega arith in
    let next : (j : ℕ) → i + suc j ≡ i + 1 + j = λ j. omega arith in
    let now : creates i ≡ true = rw here at (ok 0 (omega arith)) in
    let later =
      init_loop-fails creates done rounds (i + 1) d (omega arith)
        (λ j l. rw (next j) at (ok (suc j) (omega arith))) (rw (next d) at bad) in
    rw (now, next d) later

-- After the first thread that cannot be created all threads before it are joined, `workers` is freed
-- and the queue is marked as done.
pub handler_init_fails :
    (creates : ℕ → Bool) (thread_count done k : ℕ)
    → k ≤ thread_count
    → ((j : ℕ) → j < k → creates j ≡ true)
    → creates k ≡ false
    → let started = handler_init true creates thread_count done in
      (started.result ≡ minus_one)
      × (started.joined ≡ count_from 0 k)
      × (started.allocated ≡ false)
      × (started.queueing_done ≡ 1)
unfolding handler_init
handler_init_fails creates n done k le ok bad =
    let from : (j : ℕ) → 0 + j ≡ j = λ j. omega arith in
    rw (from k) at (
      init_loop-fails creates done (n + 1) 0 k (omega arith) (λ j l. rw (from j) (ok j l))
        (rw (from k) bad))

-- `handler_shutdown` joins its only thread if there is one, and reads through NULL if there are more.
pub shutdown_joins_cases :
    (n : ℕ) → (shutdown_joins 1 true ≡ some (0 ∷ [])) × (shutdown_joins (suc (suc n)) true ≡ none)
unfolding shutdown_joins
shutdown_joins_cases n = (refl, refl)
