-- ===== src/FileServer/Threads/Invariant.antt =====
-- What holds after every schedule of the threads of projects/mtgf/handler.c.
use c_exercises.Base.{
  ℕ, suc, ◌≤◌, ◌<◌, ◌≡◌, refl, sym, ◌∙◌, ap, Bool, true, false, Option, none, some, List, [], ◌∷◌,
  ◌++◌, arith, length, length-append, length-set, append_assoc, get_elem?, set, ==→eq, ◌==◌,
  Bool-cases, inl, inr, get_elem?-none,
}
use c_exercises.Workers.{Worker, pops, sleeps, left, handles, wake, cond_signal}
use c_exercises.Workers.Counting.{
  asleep, ready, gone, asleep-set, ready-set, gone-set, gone-wake, cond_signal-Signals,
  asleep_before, length-cond_signal, length-cond_broadcast, cond_broadcast-awake,
  gone-cond_broadcast, wake_counts,
}
use c_exercises.Workers.Leaving.{left-stays}
use c_exercises.FileServer.{Shared, Job, server_worker_job, gfs_handler, cleanup_threads}
use c_exercises.FileServer.Threads.{
  Serving, serves, over, joins, ServerThreads, lock_is_free, stuck, worker_step, answer_returns,
  request_step, exit_step, exit_inside, join_step, stay_or, wake_at,
}

abbrev pub is_exiting : Serving → Bool
is_exiting serves = false
is_exiting over = true
is_exiting stuck = false
is_exiting (joins i) = true

-- How many workers have been joined.
abbrev pub joined : ℕ → Serving → ℕ
joined n serves = 0
joined n stuck = 0
joined n (joins i) = i
joined n over = n

-- The jobs popped and those in the queue are the ones handed in, in order; no signal is lost; nobody waits
-- behind the broadcast; a worker leaves only behind that, on an empty queue; who has been joined has left.
pub record Inv (n : ℕ) (accepted : List Job) (s : ServerThreads) : Type 0 where
  pub conserved : s.shared.popped ++ s.shared.queue ≡ accepted
  pub count : length s.workers ≡ n
  pub none_missed : 0 < asleep s.workers → length s.shared.queue ≤ ready s.workers
  pub all_awake : s.shared.queueing_done ≡ true → asleep s.workers ≡ 0
  pub gone_last : 0 < gone s.workers → (s.shared.queueing_done ≡ true) × (s.shared.queue ≡ [])
  pub flag : s.shared.queueing_done ≡ is_exiting s.main
  pub joined_left : (j : ℕ) → j < joined n s.main → get_elem? s.workers j ≡ some left

abbrev state : List Job → Bool → List Job → List (Worker Job) → Serving → ServerThreads
state q done popped ws main = record {
  shared = record { queue = q; queueing_done = done; popped = popped };
  workers = ws;
  main = main;
}

module _ (n : ℕ) (accepted : List Job) where
  pub request-Inv :
      (i : ℕ) (job : Job) (q : List Job) (done : Bool) (popped : List Job) (ws : List (Worker Job))
      → Inv n accepted (state q done popped ws serves)
      → Inv n (accepted ++ job ∷ []) (request_step i true job (state q done popped ws serves))
  unfolding request_step gfs_handler
  request-Inv i job q done popped ws v =
      let signal = cond_signal-Signals i ws in
      record {
        conserved = sym (append_assoc popped q (job ∷ [])) ∙ ap (λ t. t ++ job ∷ []) v.conserved;
        count = length-cond_signal i ws ∙ v.count;
        none_missed = λ h.
            let slept : 0 < asleep ws = asleep_before ws (cond_signal i ws) signal h in
            omega (
              arith,
              v.none_missed slept,
              signal.one_less slept,
              signal.total,
              length-append q (job ∷ []),
            );
        all_awake = λ h. absurd (cc (h, v.flag));
        gone_last = λ h. absurd (cc ((v.gone_last (omega (arith, signal.same_gone, h))).0, v.flag));
        flag = v.flag;
        joined_left = λ j h. absurd (omega (arith, h));
      }

  pub exit-Inv :
      (q : List Job) (done : Bool) (popped : List Job) (ws : List (Worker Job))
      → Inv n accepted (state q done popped ws serves)
      → Inv n accepted (exit_step (state q done popped ws serves))
  unfolding exit_step cleanup_threads
  exit-Inv q done popped ws v =
      let awake = cond_broadcast-awake ws in
      record {
        conserved = v.conserved;
        count = length-cond_broadcast ws ∙ v.count;
        none_missed = λ h. absurd (omega (arith, awake, h));
        all_awake = λ h. awake;
        gone_last = λ h. (refl, (v.gone_last (omega (arith, gone-cond_broadcast ws, h))).1);
        flag = refl;
        joined_left = λ j h. absurd (omega (arith, h));
      }

  pub inside-Inv :
      (sh : Shared) (ws : List (Worker Job))
      → Inv n accepted (record { shared = sh; workers = ws; main = serves })
      → Inv n accepted (exit_inside (record { shared = sh; workers = ws; main = serves }))
  unfolding exit_inside
  inside-Inv sh ws v = record {
    conserved = v.conserved;
    count = v.count;
    none_missed = v.none_missed;
    all_awake = v.all_awake;
    gone_last = v.gone_last;
    flag = v.flag;
    joined_left = λ j h. absurd (omega (arith, h));
  }

  pop-Inv :
      (i : ℕ) (q : List Job) (done : Bool) (popped : List Job) (ws : List (Worker Job))
      (main : Serving)
      → lock_is_free main ≡ true
      → get_elem? ws i ≡ some pops
      → Inv n accepted (state q done popped ws main)
      → Inv n accepted
          (stay_or (state q done popped ws main) (worker_step i (state q done popped ws main)))
  unfolding worker_step server_worker_job
  pop-Inv i [] true popped ws main free e v =
      let same = asleep-set ws i left pops e in
      rw (worker_step, free, e)
        (record {
          conserved = v.conserved;
          count = length-set ws i left ∙ v.count;
          none_missed = λ h. omega arith;
          all_awake = λ h. omega (arith, same, v.all_awake refl);
          gone_last = λ h. (refl, refl);
          flag = v.flag;
          joined_left =
              λ j h. left-stays ws i left pops e (λ bad. absurd (cc bad)) j (v.joined_left j h);
        })
  pop-Inv i [] false popped ws main free e v =
      let same = gone-set ws i sleeps pops e in
      rw (worker_step, free, e)
        (record {
          conserved = v.conserved;
          count = length-set ws i sleeps ∙ v.count;
          none_missed = λ h. omega arith;
          all_awake = λ h. absurd (cc h);
          gone_last = λ h. v.gone_last (omega (arith, same, h));
          flag = v.flag;
          joined_left =
              λ j h. left-stays ws i sleeps pops e (λ bad. absurd (cc bad)) j (v.joined_left j h);
        })
  pop-Inv i (job ∷ rest) done popped ws main free e v =
      let same = asleep-set ws i (handles job) pops e in
      let less = ready-set ws i (handles job) pops e in
      let stay = gone-set ws i (handles job) pops e in
      rw (worker_step, free, e)
        (record {
          conserved = append_assoc popped (job ∷ []) rest ∙ v.conserved;
          count = length-set ws i (handles job) ∙ v.count;
          none_missed = λ h. omega (arith, v.none_missed (omega (arith, same, h)), less);
          all_awake = λ h. omega (arith, same, v.all_awake h);
          gone_last = λ h. absurd (cc ((v.gone_last (omega (arith, stay, h))).1));
          flag = v.flag;
          joined_left = λ j h.
              left-stays ws i (handles job) pops e (λ bad. absurd (cc bad)) j (v.joined_left j h);
        })

  -- A worker that is changed in no way that the counts see, but for being on its way to the lock.
  ready-Inv :
      (i : ℕ) (s : ServerThreads) (w w' : Worker Job)
      → get_elem? s.workers i ≡ some w
      → asleep (set s.workers i w') ≤ asleep s.workers
      → ready s.workers ≤ ready (set s.workers i w')
      → gone (set s.workers i w') ≡ gone s.workers
      → (w ≡ left → w' ≡ left)
      → Inv n accepted s
      → Inv n accepted (record s { workers = set s.workers i w' })
  ready-Inv i s w w' e fewer more stay stays v = record {
    conserved = v.conserved;
    count = length-set s.workers i w' ∙ v.count;
    none_missed = λ h. omega (arith, v.none_missed (omega (arith, fewer, h)), more);
    all_awake = λ h. omega (arith, fewer, v.all_awake h);
    gone_last = λ h. v.gone_last (omega (arith, stay, h));
    flag = v.flag;
    joined_left = λ j h. left-stays s.workers i w' w e stays j (v.joined_left j h);
  }

  free-Inv :
      (i : ℕ) (s : ServerThreads) (w : Option (Worker Job))
      → lock_is_free s.main ≡ true
      → get_elem? s.workers i ≡ w
      → Inv n accepted s
      → Inv n accepted (stay_or s (worker_step i s))
  unfolding worker_step
  free-Inv i s none free e v = rw (worker_step, free, e) v
  free-Inv i s (some sleeps) free e v = rw (worker_step, free, e) v
  free-Inv i s (some left) free e v = rw (worker_step, free, e) v
  free-Inv i s (some (handles job)) free e v = rw (worker_step, free, e) v
  free-Inv i s (some pops) free e v =
      pop-Inv i s.shared.queue s.shared.queueing_done s.shared.popped s.workers s.main free e v

  pub worker-Inv :
      (i : ℕ) (s : ServerThreads) → Inv n accepted s → Inv n accepted (stay_or s (worker_step i s))
  unfolding worker_step
  worker-Inv i s v = elim (Bool-cases (lock_is_free s.main)) [
    | inl free ↦ free-Inv i s (get_elem? s.workers i) free refl v
    | inr held ↦ rw (worker_step, held) v
  ]

  pub returns-Inv :
      (i : ℕ) (s : ServerThreads) (w : Option (Worker Job))
      → get_elem? s.workers i ≡ w
      → Inv n accepted s
      → Inv n accepted (stay_or s (answer_returns i s))
  unfolding answer_returns
  returns-Inv i s none e v = rw (answer_returns, e) v
  returns-Inv i s (some sleeps) e v = rw (answer_returns, e) v
  returns-Inv i s (some left) e v = rw (answer_returns, e) v
  returns-Inv i s (some pops) e v = rw (answer_returns, e) v
  returns-Inv i s (some (handles job)) e v =
      let same = asleep-set s.workers i pops (handles job) e in
      let more = ready-set s.workers i pops (handles job) e in
      let stay = gone-set s.workers i pops (handles job) e in
      rw (answer_returns, e)
        (ready-Inv i s (handles job) pops e (omega (arith, same)) (omega (arith, more))
          (omega (arith, stay)) (λ bad. absurd (cc bad)) v)

  pub wakes-Inv :
      (i : ℕ) (s : ServerThreads) (w : Option (Worker Job))
      → get_elem? s.workers i ≡ w
      → Inv n accepted s
      → Inv n accepted (wake_at i s w)
  wakes-Inv i s none e v = v
  wakes-Inv i s (some w) e v =
      let (fewer, others) = wake_counts w in
      let same = asleep-set s.workers i (wake w) w e in
      let more = ready-set s.workers i (wake w) w e in
      let stay = gone-set s.workers i (wake w) w e in
      ready-Inv i s w (wake w) e (omega (arith, same, fewer)) (omega (arith, more, others))
        (omega (arith, stay, gone-wake w)) (λ is. ap wake is) v

  main-Inv :
      (q : List Job) (done : Bool) (popped : List Job) (ws : List (Worker Job)) {m : Serving}
      (m' : Serving)
      → done ≡ is_exiting m'
      → ((j : ℕ) → j < joined n m' → get_elem? ws j ≡ some left)
      → Inv n accepted (state q done popped ws m)
      → Inv n accepted (state q done popped ws m')
  main-Inv q done popped ws m' flag left_by v = record {
    conserved = v.conserved;
    count = v.count;
    none_missed = v.none_missed;
    all_awake = v.all_awake;
    gone_last = v.gone_last;
    flag = flag;
    joined_left = left_by;
  }

  -- One more worker has been joined.
  joined_next :
      (i : ℕ) (ws : List (Worker Job))
      → get_elem? ws i ≡ some left
      → ((j : ℕ) → j < i → get_elem? ws j ≡ some left)
      → (j : ℕ) → j < suc i
      → get_elem? ws j ≡ some left
  joined_next i ws e before j h = elim (Bool-cases (j == i)) [
    | inl last ↦ ap (get_elem? ws) (==→eq j i last) ∙ e
    | inr other ↦ before j (ground (arith, h, other))
  ]

  join_at-Inv :
      (i : ℕ) (q : List Job) (done : Bool) (popped : List Job) (ws : List (Worker Job))
      (w : Option (Worker Job))
      → get_elem? ws i ≡ w
      → Inv n accepted (state q done popped ws (joins i))
      → Inv n accepted (
          stay_or (state q done popped ws (joins i)) (join_step (state q done popped ws (joins i))))
  unfolding join_step
  join_at-Inv i q done popped ws none e v =
      rw (join_step, e)
        (main-Inv q done popped ws over v.flag
          (λ j h. v.joined_left j (omega (arith, h, v.count, get_elem?-none ws i e))) v)
  join_at-Inv i q done popped ws (some sleeps) e v = rw (join_step, e) v
  join_at-Inv i q done popped ws (some pops) e v = rw (join_step, e) v
  join_at-Inv i q done popped ws (some (handles job)) e v = rw (join_step, e) v
  join_at-Inv i q done popped ws (some left) e v =
      rw (join_step, e)
        (main-Inv q done popped ws (joins (suc i)) v.flag (joined_next i ws e v.joined_left) v)

  pub join-Inv : (s : ServerThreads) → Inv n accepted s → Inv n accepted (stay_or s (join_step s))
  unfolding join_step
  join-Inv s v = at s.main v
    where
      at :
          (m : Serving)
          → Inv n accepted (record s { main = m })
          → Inv n accepted (stay_or (record s { main = m }) (join_step (record s { main = m })))
      at serves v' = v'
      at over v' = v'
      at stuck v' = v'
      at (joins i) v' =
          join_at-Inv i s.shared.queue s.shared.queueing_done s.shared.popped s.workers
            (get_elem? s.workers i) refl v'
