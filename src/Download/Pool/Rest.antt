-- ===== src/Download/Pool/Rest.antt =====
-- Where the download client's threads come to rest.
use c_exercises.Base.{
  ℕ, ◌<◌, ◌≡◌, refl, subst, sym, ◌∙◌, ap, Bool, true, false, Option, none, some, List, [], ◌∷◌,
  ◌++◌, inl, inr, ◌⊎◌, Bool-cases, get_elem?, append-nil,
}
use c_exercises.Workers.{Worker, pops, sleeps, left, handles, all_created}
use c_exercises.Workers.Counting.{sleeper-asleep, leaver-gone}
use c_exercises.Download.Pool.{
  Main, enqueues, joins, returned, Threads, main_step, client_worker_job, start, create_workers,
  Move, run,
}
use c_exercises.Download.Pool.Invariant.{Inv, unqueued, start-Inv, run-Inv}

-- Each worker is at its request, or has left, and then the queue is empty.
abbrev pub AllBusyOrLeft : Threads → Type 0
AllBusyOrLeft s =
    (i : ℕ) (w : Worker (List ℕ))
    → get_elem? s.workers i ≡ some w
    → ((p : List ℕ) × (w ≡ handles p)) ⊎ ((w ≡ left) × (s.queue ≡ []))

-- At rest: main has returned, every worker has left, and the requests have been popped, once and in
-- order; or main joins a worker that is at its request, and each of the others is at its request as
-- well, or has left, and then the queue is empty.
pub record IsFinished (requests : List (List ℕ)) (n : ℕ) (s : Threads) : Type 0 where
  pub order : s.popped ++ s.queue ≡ requests
  pub phase :
      ((s.main ≡ returned)
        × (s.popped ≡ requests)
        × ((i : ℕ) → i < n → get_elem? s.workers i ≡ some left))
      ⊎ ((i : ℕ) × (p : List ℕ) × (s.main ≡ joins i)
          × (get_elem? s.workers i ≡ some (handles p))
          × AllBusyOrLeft s)

module _ (requests : List (List ℕ)) (n : ℕ) (s : Threads) (v : Inv requests n s)
    (runs : s.exited ≡ false) (blocked : (i k : ℕ) → client_worker_job i k s ≡ none) where
  blocked_worker :
      s.queueing_done ≡ true
      → (i : ℕ) (w : Worker (List ℕ)) → get_elem? s.workers i ≡ some w
      → client_worker_job i 0 s ≡ none
      → ((p : List ℕ) × (w ≡ handles p)) ⊎ ((w ≡ left) × (s.queue ≡ []))
  unfolding client_worker_job
  blocked_worker done i (handles p) e h = inl (p, refl)
  blocked_worker done i left e h = inr (refl, (v.gone_last (leaver-gone s.workers i e)).1)
  blocked_worker done i pops e h = absurd (cc (rw (client_worker_job, runs, e) at h))
  blocked_worker done i sleeps e h =
      absurd (cc ((v.none_missed (sleeper-asleep s.workers i e)).1, done))

  all_busy : s.queueing_done ≡ true → AllBusyOrLeft s
  all_busy done i w e = blocked_worker done i w e (blocked i 0)

  -- A join that is no step waits for a worker at its request.
  awaited :
      (i : ℕ) (w : Option (Worker (List ℕ)))
      → s.main ≡ joins i
      → get_elem? s.workers i ≡ w
      → main_step s ≡ none
      → AllBusyOrLeft s
      → (p : List ℕ) × (get_elem? s.workers i ≡ some (handles p))
  unfolding main_step
  awaited i none is e h all = absurd (cc (rw (main_step, runs, is, e) at h))
  awaited i (some left) is e h all = absurd (cc (rw (main_step, runs, is, e) at h))
  awaited i (some (handles p)) is e h all = (p, e)
  awaited i (some pops) is e h all = elim (all i pops e) [
    | inl busy ↦ absurd (cc busy.1)
    | inr gone ↦ absurd (cc gone.0)
  ]
  awaited i (some sleeps) is e h all = elim (all i sleeps e) [
    | inl busy ↦ absurd (cc busy.1)
    | inr gone ↦ absurd (cc gone.0)
  ]

  order_at : unqueued s.main ≡ [] → s.popped ++ s.queue ≡ requests
  order_at none_left =
      sym (append-nil (s.popped ++ s.queue))
      ∙ ap (λ t. (s.popped ++ s.queue) ++ t) (sym none_left)
      ∙ v.conserved

  finished : 0 < n → (m : Main) → s.main ≡ m → main_step s ≡ none → IsFinished requests n s
  unfolding main_step
  finished some_worker (enqueues []) is h = absurd (cc (rw (main_step, runs, is) at h))
  finished some_worker (enqueues (p ∷ ps)) is h = absurd (cc (rw (main_step, runs, is) at h))
  finished some_worker (joins i) is h =
      let done : s.queueing_done ≡ true = rw is at v.flag in
      let all = all_busy done in
      let (p, e) = awaited i (get_elem? s.workers i) is refl h all in
      record { order = order_at (rw is refl); phase = inr (i, p, is, e, all) }
  finished some_worker returned is h =
      let gone_all : (i : ℕ) → i < n → get_elem? s.workers i ≡ some left = rw is at v.joined_left in
      let empty = (v.gone_last (leaver-gone s.workers 0 (gone_all 0 some_worker))).1 in
      let order = order_at (rw is refl) in
      record {
        order = order;
        phase =
            inl (
              is,
              sym (append-nil s.popped) ∙ ap (λ q. s.popped ++ q) (sym empty) ∙ order,
              gone_all,
            );
      }

created_start :
    (creates : ℕ → Bool) (requests : List (List ℕ)) (n : ℕ) (s : Threads)
    → create_workers creates requests n ≡ some s
    → start requests n ≡ s
unfolding create_workers
created_start creates requests n s h = elim (Bool-cases (all_created creates n)) [
  | inl all ↦ cc (rw all at h)
  | inr few ↦ absurd (cc (rw few at h))
]

start-IsFinished :
    (requests : List (List ℕ)) (n : ℕ) (ms : List Move)
    → 0 < n
    → (run ms (start requests n)).exited ≡ false
    → main_step (run ms (start requests n)) ≡ none
    → ((i k : ℕ) → client_worker_job i k (run ms (start requests n)) ≡ none)
    → IsFinished requests n (run ms (start requests n))
start-IsFinished requests n ms some_worker runs h blocked =
    let s = run ms (start requests n) in
    finished requests n s (run-Inv requests n ms (start requests n) (start-Inv requests n)) runs
      blocked some_worker s.main refl h

-- The threads of the download client of projects/mtgf miss no wake-up and lose no request: with a worker at
-- least, and all of them made, after any schedule of steps of main and of the workers, requests that come to
-- an end, and waits that end with no signal, in which no worker has exited the program over a path of
-- 512 bytes or more, if no worker can take a step in its loop and main can take none, then main has
-- returned, every worker has left and each request has been popped, once and in order; or main joins
-- a worker that is at its request, no worker waits, and a request is left in the queue only while all
-- workers are at theirs.
pub run-IsFinished :
    (creates : ℕ → Bool) (requests : List (List ℕ)) (n : ℕ) (s : Threads) (ms : List Move)
    → create_workers creates requests n ≡ some s
    → 0 < n
    → (run ms s).exited ≡ false
    → main_step (run ms s) ≡ none
    → ((i k : ℕ) → client_worker_job i k (run ms s) ≡ none)
    → IsFinished requests n (run ms s)
run-IsFinished creates requests n s ms created some_worker =
    subst
      (λ t.
        (run ms t).exited ≡ false
        → main_step (run ms t) ≡ none
        → ((i k : ℕ) → client_worker_job i k (run ms t) ≡ none)
        → IsFinished requests n (run ms t))
      (created_start creates requests n s created) (start-IsFinished requests n ms some_worker)
