-- ===== src/FileServer/Threads/Schedules.antt =====
-- The invariant of the threads of projects/mtgf/handler.c over a whole schedule.
use c_exercises.Base.{
  ℕ, ◌≡◌, refl, subst, sym, ◌∙◌, ap, true, false, Option, none, some, List, [], ◌∷◌, ◌++◌,
  append_assoc, append-nil, get_elem?, Bool-cases, inl, inr,
}
use c_exercises.Workers.{Worker, pops, sleeps, left, handles}
use c_exercises.FileServer.{Job, Shared, gfs_handler}
use c_exercises.FileServer.Threads.{
  Serving, serves, over, joins, ServerThreads, lock_is_free, stuck, returns, exits_inside,
  exit_inside, answer_returns, worker_step, request_step, exit_step, join_step, Move, requests,
  works, wakes, exits, main_joins, stay_or, wake_at, run, accepted_jobs,
}
use c_exercises.FileServer.Threads.Invariant.{
  Inv, request-Inv, exit-Inv, worker-Inv, wakes-Inv, join-Inv, inside-Inv, returns-Inv,
}

-- The jobs that are still handed in, from where the server's thread is.
abbrev pub handed : Serving → List Move → List Job
handed serves ms = accepted_jobs ms
handed over ms = []
handed stuck ms = []
handed (joins i) ms = []

handed-nil : (m : Serving) → handed m [] ≡ []
handed-nil serves = refl
handed-nil over = refl
handed-nil stuck = refl
handed-nil (joins i) = refl

free_keeps :
    (i : ℕ) (s : ServerThreads) (w : Option (Worker Job))
    → lock_is_free s.main ≡ true
    → get_elem? s.workers i ≡ w
    → (stay_or s (worker_step i s)).main ≡ s.main
unfolding worker_step
free_keeps i s none free e = rw (worker_step, free, e) refl
free_keeps i s (some pops) free e = rw (worker_step, free, e) refl
free_keeps i s (some sleeps) free e = rw (worker_step, free, e) refl
free_keeps i s (some left) free e = rw (worker_step, free, e) refl
free_keeps i s (some (handles job)) free e = rw (worker_step, free, e) refl

worker_keeps : (i : ℕ) (s : ServerThreads) → (stay_or s (worker_step i s)).main ≡ s.main
unfolding worker_step
worker_keeps i s = elim (Bool-cases (lock_is_free s.main)) [
  | inl free ↦ free_keeps i s (get_elem? s.workers i) free refl
  | inr held ↦ rw (worker_step, held) refl
]

return_keeps :
    (i : ℕ) (s : ServerThreads) (w : Option (Worker Job))
    → get_elem? s.workers i ≡ w
    → (stay_or s (answer_returns i s)).main ≡ s.main
unfolding answer_returns
return_keeps i s none e = rw (answer_returns, e) refl
return_keeps i s (some pops) e = rw (answer_returns, e) refl
return_keeps i s (some sleeps) e = rw (answer_returns, e) refl
return_keeps i s (some left) e = rw (answer_returns, e) refl
return_keeps i s (some (handles job)) e = rw (answer_returns, e) refl

wake_keeps : (i : ℕ) (s : ServerThreads) (w : Option (Worker Job)) → (wake_at i s w).main ≡ s.main
wake_keeps i s none = refl
wake_keeps i s (some w) = refl

join_at-handed :
    (i : ℕ) (sh : Shared) (ws : List (Worker Job)) (w : Option (Worker Job)) (ms : List Move)
    → get_elem? ws i ≡ w
    → handed
        (stay_or
          (record { shared = sh; workers = ws; main = joins i })
          (join_step (record { shared = sh; workers = ws; main = joins i }))).main
        ms
      ≡ []
unfolding join_step
join_at-handed i sh ws none ms e = rw (join_step, e) refl
join_at-handed i sh ws (some pops) ms e = rw (join_step, e) refl
join_at-handed i sh ws (some sleeps) ms e = rw (join_step, e) refl
join_at-handed i sh ws (some left) ms e = rw (join_step, e) refl
join_at-handed i sh ws (some (handles job)) ms e = rw (join_step, e) refl

join-handed :
    (sh : Shared) (ws : List (Worker Job)) (m : Serving) (ms : List Move)
    → handed
        (stay_or
          (record { shared = sh; workers = ws; main = m })
          (join_step (record { shared = sh; workers = ws; main = m }))).main
        ms
      ≡ handed m (main_joins ∷ ms)
unfolding join_step
join-handed sh ws serves ms = refl
join-handed sh ws over ms = refl
join-handed sh ws stuck ms = refl
join-handed sh ws (joins i) ms = join_at-handed i sh ws (get_elem? ws i) ms refl

handed-works : (m : Serving) (i : ℕ) (ms : List Move) → handed m ms ≡ handed m (works i ∷ ms)
handed-works serves i ms = refl
handed-works over i ms = refl
handed-works stuck i ms = refl
handed-works (joins j) i ms = refl

handed-wakes : (m : Serving) (i : ℕ) (ms : List Move) → handed m ms ≡ handed m (wakes i ∷ ms)
handed-wakes serves i ms = refl
handed-wakes over i ms = refl
handed-wakes stuck i ms = refl
handed-wakes (joins j) i ms = refl

handed-returns : (m : Serving) (i : ℕ) (ms : List Move) → handed m ms ≡ handed m (returns i ∷ ms)
handed-returns serves i ms = refl
handed-returns over i ms = refl
handed-returns stuck i ms = refl
handed-returns (joins j) i ms = refl

module _ (n : ℕ) where
  -- A step behind which the same jobs are still handed in.
  same_handed :
      (ms : List Move) (accepted later : List Job) (s : ServerThreads)
      → handed s.main ms ≡ later
      → Inv n (accepted ++ handed s.main ms) (run ms s)
      → Inv n (accepted ++ later) (run ms s)
  same_handed ms accepted later s e v = subst (λ t. Inv n (accepted ++ t) (run ms s)) e v

  pub run-Inv :
      (ms : List Move) (accepted : List Job) (sh : Shared) (ws : List (Worker Job)) (m : Serving)
      → Inv n accepted (record { shared = sh; workers = ws; main = m })
      → Inv n (accepted ++ handed m ms) (run ms (record { shared = sh; workers = ws; main = m }))
  unfolding run request_step gfs_handler exit_step exit_inside
  run-Inv [] accepted sh ws m v =
      let s : ServerThreads = record { shared = sh; workers = ws; main = m } in
      subst (λ t. Inv n t s)
        (sym (append-nil accepted) ∙ ap (λ t. accepted ++ t) (sym (handed-nil m))) v
  run-Inv (requests i true job ∷ ms) accepted sh ws serves v =
      let s : ServerThreads = record { shared = sh; workers = ws; main = serves } in
      let s' = request_step i true job s in
      subst (λ t. Inv n t (run ms s')) (append_assoc accepted (job ∷ []) (accepted_jobs ms))
        (run-Inv ms (accepted ++ job ∷ []) s'.shared s'.workers serves
          (request-Inv n accepted i job sh.queue sh.queueing_done sh.popped ws v))
  run-Inv (requests i false job ∷ ms) accepted sh ws serves v = run-Inv ms accepted sh ws serves v
  run-Inv (requests i ok job ∷ ms) accepted sh ws over v = run-Inv ms accepted sh ws over v
  run-Inv (requests i ok job ∷ ms) accepted sh ws stuck v = run-Inv ms accepted sh ws stuck v
  run-Inv (requests i ok job ∷ ms) accepted sh ws (joins j) v =
      run-Inv ms accepted sh ws (joins j) v
  run-Inv (exits ∷ ms) accepted sh ws serves v =
      let s : ServerThreads = record { shared = sh; workers = ws; main = serves } in
      let s' = exit_step s in
      run-Inv ms accepted s'.shared s'.workers (joins 0)
        (exit-Inv n accepted sh.queue sh.queueing_done sh.popped ws v)
  run-Inv (exits ∷ ms) accepted sh ws over v = run-Inv ms accepted sh ws over v
  run-Inv (exits ∷ ms) accepted sh ws stuck v = run-Inv ms accepted sh ws stuck v
  run-Inv (exits ∷ ms) accepted sh ws (joins j) v = run-Inv ms accepted sh ws (joins j) v
  run-Inv (exits_inside ∷ ms) accepted sh ws serves v =
      run-Inv ms accepted sh ws stuck (inside-Inv n accepted sh ws v)
  run-Inv (exits_inside ∷ ms) accepted sh ws over v = run-Inv ms accepted sh ws over v
  run-Inv (exits_inside ∷ ms) accepted sh ws stuck v = run-Inv ms accepted sh ws stuck v
  run-Inv (exits_inside ∷ ms) accepted sh ws (joins j) v = run-Inv ms accepted sh ws (joins j) v
  run-Inv (main_joins ∷ ms) accepted sh ws m v =
      let s : ServerThreads = record { shared = sh; workers = ws; main = m } in
      let s' = stay_or s (join_step s) in
      same_handed ms accepted (handed m (main_joins ∷ ms)) s' (join-handed sh ws m ms)
        (run-Inv ms accepted s'.shared s'.workers s'.main (join-Inv n accepted s v))
  run-Inv (works i ∷ ms) accepted sh ws m v =
      let s : ServerThreads = record { shared = sh; workers = ws; main = m } in
      let s' = stay_or s (worker_step i s) in
      same_handed ms accepted (handed m (works i ∷ ms)) s'
        (ap (λ k. handed k ms) (worker_keeps i s) ∙ handed-works m i ms)
        (run-Inv ms accepted s'.shared s'.workers s'.main (worker-Inv n accepted i s v))
  run-Inv (wakes i ∷ ms) accepted sh ws m v =
      let s : ServerThreads = record { shared = sh; workers = ws; main = m } in
      let s' = wake_at i s (get_elem? ws i) in
      same_handed ms accepted (handed m (wakes i ∷ ms)) s'
        (ap (λ k. handed k ms) (wake_keeps i s (get_elem? ws i)) ∙ handed-wakes m i ms)
        (run-Inv ms accepted s'.shared s'.workers s'.main
          (wakes-Inv n accepted i s (get_elem? ws i) refl v))
  run-Inv (returns i ∷ ms) accepted sh ws m v =
      let s : ServerThreads = record { shared = sh; workers = ws; main = m } in
      let s' = stay_or s (answer_returns i s) in
      same_handed ms accepted (handed m (returns i ∷ ms)) s'
        (ap (λ k. handed k ms) (return_keeps i s (get_elem? ws i) refl) ∙ handed-returns m i ms)
        (run-Inv ms accepted s'.shared s'.workers s'.main
          (returns-Inv n accepted i s (get_elem? ws i) refl v))
