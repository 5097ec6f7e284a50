-- ===== src/FileServer/Threads/AtRest.antt =====
-- Where the threads of projects/mtgf/handler.c come to rest.
use c_exercises.Base.{
  ℕ, ◌≤◌, ◌<◌, ◌≡◌, ◌≢◌, refl, subst, ◌∙◌, ap, Bool, true, false, Option, none, some, List, [], ◌∷◌,
  ◌++◌, inl, inr, ◌⊎◌, arith, length, length-replicate, get_elem?, Bool-cases,
}
use c_exercises.Workers.{Worker, pops, sleeps, left, handles, all_created}
use c_exercises.Workers.Counting.{sleeper-asleep, leaver-gone, none-ready, counts-replicate}
use c_exercises.FileServer.{Job, Shared}
use c_exercises.FileServer.Threads.{
  Serving, serves, over, joins, stuck, ServerThreads, made, init_threads, first_state, lock_is_free,
  worker_step, join_step, Move, run, accepted_jobs,
}
use c_exercises.FileServer.Threads.Invariant.{Inv, is_exiting}
use c_exercises.FileServer.Threads.Schedules.{run-Inv}

abbrev IsBusy : Worker Job → Type 0
IsBusy w = (job : Job) × (w ≡ handles job)

-- Each worker is at an answer, or is `w`, and then the queue is empty.
abbrev pub AllBusyOr : Worker Job → ServerThreads → Type 0
AllBusyOr w s =
    (i : ℕ) (w' : Worker Job)
    → get_elem? s.workers i ≡ some w'
    → IsBusy w' ⊎ ((w' ≡ w) × (s.shared.queue ≡ []))

-- At rest. The jobs popped and those in the queue are the ones handed in, once and in order. While the
-- server's thread serves, a worker that is at no answer waits, and then the queue is empty. Behind the
-- exit a worker that is at no answer has left, and then the queue is empty; the joins are at an end, with all
-- workers gone, or at a worker that is at an answer. Or the exit came while the server's thread held
-- the lock.
pub record IsAtRest (n : ℕ) (accepted : List Job) (s : ServerThreads) : Type 0 where
  pub order : s.shared.popped ++ s.shared.queue ≡ accepted
  pub phase :
      ((s.main ≡ serves) × AllBusyOr sleeps s)
      ⊎ ((i : ℕ) × (job : Job) × (s.main ≡ joins i)
          × (get_elem? s.workers i ≡ some (handles job))
          × AllBusyOr left s)
      ⊎ ((s.main ≡ over) × ((i : ℕ) → i < n → get_elem? s.workers i ≡ some left))
      ⊎ (s.main ≡ stuck)

no_jobs-nil : (q : List Job) → length q ≤ 0 → q ≡ []
no_jobs-nil [] h = refl
no_jobs-nil (x ∷ q) h = absurd (omega arith)

blocked_worker :
    (i : ℕ) (s : ServerThreads) (w : Worker Job)
    → lock_is_free s.main ≡ true
    → worker_step i s ≡ none
    → get_elem? s.workers i ≡ some w
    → IsBusy w ⊎ (w ≡ sleeps) ⊎ (w ≡ left)
unfolding worker_step
blocked_worker i s sleeps free h e = inr (inl refl)
blocked_worker i s left free h e = inr (inr refl)
blocked_worker i s pops free h e = absurd (cc (rw (worker_step, free, e) at h))
blocked_worker i s (handles job) free h e = inl (job, refl)

not_ready : (w : Worker Job) → IsBusy w ⊎ (w ≡ sleeps) ⊎ (w ≡ left) → w ≢ pops
not_ready w (inl (job, is)) at = cc (is, at)
not_ready w (inr (inl is)) at = cc (is, at)
not_ready w (inr (inr is)) at = cc (is, at)

-- A join that is no step waits for a worker that has not left.
blocked_join :
    (i : ℕ) (sh : Shared) (ws : List (Worker Job)) (w : Option (Worker Job))
    → get_elem? ws i ≡ w
    → join_step (record { shared = sh; workers = ws; main = joins i }) ≡ none
    → (w' : Worker Job) × (get_elem? ws i ≡ some w') × (w' ≢ left)
unfolding join_step
blocked_join i sh ws none e h = absurd (cc (rw (join_step, e) at h))
blocked_join i sh ws (some left) e h = absurd (cc (rw (join_step, e) at h))
blocked_join i sh ws (some pops) e h = (pops, e, λ bad. cc bad)
blocked_join i sh ws (some sleeps) e h = (sleeps, e, λ bad. cc bad)
blocked_join i sh ws (some (handles job)) e h = (handles job, e, λ bad. cc bad)

module _ (n : ℕ) (accepted : List Job) (s : ServerThreads) (v : Inv n accepted s)
    (free : lock_is_free s.main ≡ true) (blocked : (i : ℕ) → worker_step i s ≡ none) where
  abbrev at_place :
      (i : ℕ) (w : Worker Job)
      → get_elem? s.workers i ≡ some w
      → IsBusy w ⊎ (w ≡ sleeps) ⊎ (w ≡ left)
  at_place i w e = blocked_worker i s w free (blocked i) e

  serving-AllBusyOr : is_exiting s.main ≡ false → AllBusyOr sleeps s
  serving-AllBusyOr serving i w e = elim (at_place i w e) [
    | inl busy ↦ inl busy
    | inr rest ↦ elim rest [
      | inl is ↦
          let slept = sleeper-asleep s.workers i (e ∙ ap some is) in
          let nobody = none-ready s.workers (λ j u f. not_ready u (at_place j u f)) in
          inr (is, no_jobs-nil s.shared.queue (omega (arith, v.none_missed slept, nobody)))
      | inr is ↦
          let gone_one = leaver-gone s.workers i (e ∙ ap some is) in
          absurd (cc ((v.gone_last gone_one).0, v.flag, serving))
    ]
  ]

  exiting-AllBusyOr : is_exiting s.main ≡ true → AllBusyOr left s
  exiting-AllBusyOr exiting i w e = elim (at_place i w e) [
    | inl busy ↦ inl busy
    | inr rest ↦ elim rest [
      | inl is ↦
          let slept = sleeper-asleep s.workers i (e ∙ ap some is) in
          absurd (omega (arith, slept, v.all_awake (v.flag ∙ exiting)))
      | inr is ↦ inr (is, (v.gone_last (leaver-gone s.workers i (e ∙ ap some is))).1)
    ]
  ]

  -- The worker that a join waits for is at an answer.
  awaited :
      is_exiting s.main ≡ true
      → (i : ℕ) → (w : Worker Job) × (get_elem? s.workers i ≡ some w) × (w ≢ left)
      → (job : Job) × (get_elem? s.workers i ≡ some (handles job))
  awaited exiting i (w, e, stays) = elim (exiting-AllBusyOr exiting i w e) [
    | inl busy ↦ (busy.0, e ∙ ap some busy.1)
    | inr gone ↦ absurd (stays gone.0)
  ]

module _ (n : ℕ) (accepted : List Job) (sh : Shared) (ws : List (Worker Job)) where
  abbrev at : Serving → ServerThreads
  at m = record { shared = sh; workers = ws; main = m }

  blocked-IsAtRest :
      (m : Serving)
      → Inv n accepted (at m)
      → ((i : ℕ) → worker_step i (at m) ≡ none)
      → join_step (at m) ≡ none
      → IsAtRest n accepted (at m)
  blocked-IsAtRest serves v blocked h = record {
    order = v.conserved;
    phase = inl (refl, serving-AllBusyOr n accepted (at serves) v refl blocked refl);
  }
  blocked-IsAtRest over v blocked h = record {
    order = v.conserved;
    phase = inr (inr (inl (refl, v.joined_left)));
  }
  blocked-IsAtRest stuck v blocked h = record { order = v.conserved; phase = inr (inr (inr refl)) }
  blocked-IsAtRest (joins i) v blocked h =
      let (job, e) =
        awaited n accepted (at (joins i)) v refl blocked refl i
          (blocked_join i sh ws (get_elem? ws i) refl h) in
      record {
        order = v.conserved;
        phase = inr (
            inl (i, job, refl, e, exiting-AllBusyOr n accepted (at (joins i)) v refl blocked refl));
      }

first_state-Inv : (n : ℕ) → Inv n [] (first_state n)
first_state-Inv n =
    let (slept, none_gone) = counts-replicate Job n in
    record {
      conserved = refl;
      count = length-replicate n pops;
      none_missed = λ h. omega arith;
      all_awake = λ h. slept;
      gone_last = λ h. absurd (omega (arith, none_gone, h));
      flag = refl;
      joined_left = λ j h. absurd (omega (arith, h));
    }

made_state :
    (creates : ℕ → Bool) (n : ℕ) (s : ServerThreads)
    → init_threads true creates n ≡ made s
    → first_state n ≡ s
unfolding init_threads
made_state creates n s h = elim (Bool-cases (all_created creates n)) [
  | inl all ↦ cc (rw all at h)
  | inr few ↦ absurd (cc (rw few at h))
]

first-IsAtRest :
    (n : ℕ) (ms : List Move)
    → ((i : ℕ) → worker_step i (run ms (first_state n)) ≡ none)
    → join_step (run ms (first_state n)) ≡ none
    → IsAtRest n (accepted_jobs ms) (run ms (first_state n))
first-IsAtRest n ms blocked no_join =
    let s = run ms (first_state n) in
    let start = first_state n in
    blocked-IsAtRest n (accepted_jobs ms) s.shared s.workers s.main
      (run-Inv n ms [] start.shared start.workers serves (first_state-Inv n)) blocked no_join

-- Where the threads that `init_threads` has made come to rest, after any schedule.
pub run-IsAtRest :
    (creates : ℕ → Bool) (n : ℕ) (s : ServerThreads) (ms : List Move)
    → init_threads true creates n ≡ made s
    → ((i : ℕ) → worker_step i (run ms s) ≡ none)
    → join_step (run ms s) ≡ none
    → IsAtRest n (accepted_jobs ms) (run ms s)
run-IsAtRest creates n s ms started =
    subst
      (λ t.
        ((i : ℕ) → worker_step i (run ms t) ≡ none)
        → join_step (run ms t) ≡ none
        → IsAtRest n (accepted_jobs ms) (run ms t))
      (made_state creates n s started) (first-IsAtRest n ms)
