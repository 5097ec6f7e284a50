-- ===== src/Download/Pool/Invariant.antt =====
-- What holds after every schedule of the download client's threads.
use c_exercises.Base.{
  ℕ, zero, suc, ◌<◌, ◌≤◌, ◌≡◌, refl, sym, ◌∙◌, ap, Bool, true, false, not, Option, none, some, List,
  [], ◌∷◌, ◌++◌, arith, ◌==◌, ==→eq, Bool-cases, inl, inr, length, get_elem?, get_elem?-none, set,
  length-set, length-replicate, append_assoc,
}
use c_exercises.Workers.{Worker, pops, sleeps, left, handles, wake}
use c_exercises.Workers.Counting.{
  asleep, gone, asleep-set, gone-set, gone-wake, wake_counts, length-cond_broadcast,
  cond_broadcast-awake, gone-cond_broadcast, counts-replicate,
}
use c_exercises.Workers.Leaving.{left-stays, cond_signal-nobody}
use c_exercises.Download.Pool.{
  Main, enqueues, joins, returned, Threads, main_step, pop_job, client_worker_job, request_returns,
  wake_up, start, Move, main_moves, works, returns, wakes, step, stay_or, run,
}

abbrev pub unqueued : Main → List (List ℕ)
unqueued (enqueues ps) = ps
unqueued (joins i) = []
unqueued returned = []

abbrev pub is_enqueuing : Main → Bool
is_enqueuing (enqueues ps) = true
is_enqueuing (joins i) = false
is_enqueuing returned = false

-- How many workers have been joined.
abbrev pub joined : ℕ → Main → ℕ
joined n (enqueues ps) = 0
joined n (joins i) = i
joined n returned = n

-- The paths popped, those in the queue and those not queued yet are the requests, in order; the flag is
-- set behind the queueing; a worker waits only while the flag is not set and the queue is empty; a
-- worker has left only behind the flag, on an empty queue; who has been joined has left.
pub record Inv (requests : List (List ℕ)) (n : ℕ) (s : Threads) : Type 0 where
  pub conserved : (s.popped ++ s.queue) ++ unqueued s.main ≡ requests
  pub count : length s.workers ≡ n
  pub flag : s.queueing_done ≡ not (is_enqueuing s.main)
  pub none_missed : 0 < asleep s.workers → (s.queue ≡ []) × (s.queueing_done ≡ false)
  pub gone_last : 0 < gone s.workers → (s.queueing_done ≡ true) × (s.queue ≡ [])
  pub joined_left : (j : ℕ) → j < joined n s.main → get_elem? s.workers j ≡ some left

pub start-Inv : (requests : List (List ℕ)) (n : ℕ) → Inv requests n (start requests n)
start-Inv requests n =
    let (slept, none_gone) = counts-replicate (List ℕ) n in
    record {
      conserved = refl;
      count = length-replicate n pops;
      flag = refl;
      none_missed = λ h. (refl, refl);
      gone_last = λ h. absurd (omega (arith, none_gone, h));
      joined_left = λ j h. absurd (omega (arith, h));
    }

-- Whoever waits, nobody waits if the flag is set.
nobody-asleep :
    (k : ℕ) (done : Bool) (q : List (List ℕ))
    → done ≡ true
    → (0 < k → (q ≡ []) × (done ≡ false))
    → k ≡ 0
nobody-asleep zero done q set_flag h = refl
nobody-asleep (suc k) done q set_flag h = absurd (cc ((h (omega arith)).1, set_flag))

module _ (requests : List (List ℕ)) (n : ℕ) where
  abbrev pub Keeps : Option Threads → Type 0
  Keeps none = Unit
  Keeps (some s) = Inv requests n s

  -- The state, field by field, so that the proofs can split on what main is at and on the queue.
  abbrev state :
      Main → List (List ℕ) → Bool → List (List ℕ) → List (Worker (List ℕ)) → Bool → Threads
  state m q done popped ws exited = record {
    main = m;
    queue = q;
    queueing_done = done;
    popped = popped;
    workers = ws;
    exited = exited;
  }

  -- One more worker has been joined.
  joined_next :
      (i : ℕ) (ws : List (Worker (List ℕ)))
      → get_elem? ws i ≡ some left
      → ((j : ℕ) → j < i → get_elem? ws j ≡ some left)
      → (j : ℕ) → j < suc i
      → get_elem? ws j ≡ some left
  joined_next i ws e before j h = elim (Bool-cases (j == i)) [
    | inl last ↦ ap (get_elem? ws) (==→eq j i last) ∙ e
    | inr other ↦ before j (ground (arith, h, other))
  ]

  joins-Inv :
      (i : ℕ) (q : List (List ℕ)) (done : Bool) (popped : List (List ℕ))
      (ws : List (Worker (List ℕ))) (w : Option (Worker (List ℕ)))
      → get_elem? ws i ≡ w
      → Inv requests n (state (joins i) q done popped ws false)
      → Keeps (main_step (state (joins i) q done popped ws false))
  unfolding main_step
  joins-Inv i q done popped ws none e v =
      rw (main_step, e)
        (record {
          conserved = v.conserved;
          count = v.count;
          flag = v.flag;
          none_missed = v.none_missed;
          gone_last = v.gone_last;
          joined_left = λ j h. v.joined_left j (omega (arith, h, v.count, get_elem?-none ws i e));
        })
  joins-Inv i q done popped ws (some left) e v =
      rw (main_step, e)
        (record {
          conserved = v.conserved;
          count = v.count;
          flag = v.flag;
          none_missed = v.none_missed;
          gone_last = v.gone_last;
          joined_left = joined_next i ws e v.joined_left;
        })
  joins-Inv i q done popped ws (some pops) e v = rw (main_step, e) tt
  joins-Inv i q done popped ws (some sleeps) e v = rw (main_step, e) tt
  joins-Inv i q done popped ws (some (handles p)) e v = rw (main_step, e) tt

  main-Inv :
      (m : Main) (q : List (List ℕ)) (done : Bool) (popped : List (List ℕ))
      (ws : List (Worker (List ℕ))) (exited : Bool)
      → Inv requests n (state m q done popped ws exited)
      → Keeps (main_step (state m q done popped ws exited))
  unfolding main_step
  main-Inv m q done popped ws true v = tt
  main-Inv (enqueues []) q done popped ws false v = record {
    conserved = v.conserved;
    count = length-cond_broadcast ws ∙ v.count;
    flag = refl;
    none_missed = λ h. absurd (omega (arith, cond_broadcast-awake ws, h));
    gone_last = λ h. (refl, (v.gone_last (omega (arith, gone-cond_broadcast ws, h))).1);
    joined_left = λ j h. absurd (omega (arith, h));
  }
  main-Inv (enqueues (p ∷ rest)) q done popped ws false v = record {
    conserved =
        ap (λ t. t ++ rest) (sym (append_assoc popped q (p ∷ [])))
        ∙ append_assoc (popped ++ q) (p ∷ []) rest
        ∙ v.conserved;
    count = length-cond_broadcast ws ∙ v.count;
    flag = v.flag;
    none_missed = λ h. absurd (omega (arith, cond_broadcast-awake ws, h));
    gone_last =
        λ h. absurd (cc ((v.gone_last (omega (arith, gone-cond_broadcast ws, h))).0, v.flag));
    joined_left = λ j h. absurd (omega (arith, h));
  }
  main-Inv (joins i) q done popped ws false v = joins-Inv i q done popped ws (get_elem? ws i) refl v
  main-Inv returned q done popped ws false v = tt

  pub main_step-Inv : (s : Threads) → Inv requests n s → Keeps (main_step s)
  main_step-Inv s v = main-Inv s.main s.queue s.queueing_done s.popped s.workers s.exited v

  -- A worker that is changed and neither waits nor leaves by that.
  changed-Inv :
      (s : Threads) (i : ℕ) (w w' : Worker (List ℕ))
      → get_elem? s.workers i ≡ some w
      → asleep (set s.workers i w') ≤ asleep s.workers
      → gone (set s.workers i w') ≡ gone s.workers
      → (w ≡ left → w' ≡ left)
      → Inv requests n s
      → Inv requests n (record s { workers = set s.workers i w' })
  changed-Inv s i w w' e fewer stay stays v = record {
    conserved = v.conserved;
    count = length-set s.workers i w' ∙ v.count;
    flag = v.flag;
    none_missed = λ h. v.none_missed (omega (arith, fewer, h));
    gone_last = λ h. v.gone_last (omega (arith, stay, h));
    joined_left = λ j h. left-stays s.workers i w' w e stays j (v.joined_left j h);
  }

  pop-Inv :
      (i k : ℕ) (m : Main) (q : List (List ℕ)) (done : Bool) (popped : List (List ℕ))
      (ws : List (Worker (List ℕ))) (exited : Bool)
      → get_elem? ws i ≡ some pops
      → Inv requests n (state m q done popped ws exited)
      → Inv requests n (pop_job i k (state m q done popped ws exited))
  unfolding pop_job
  pop-Inv i k m [] true popped ws exited e v =
      let awake = nobody-asleep (asleep ws) true [] refl v.none_missed in
      let same : asleep (set ws i left) ≡ 0 = omega (arith, asleep-set ws i left pops e, awake) in
      rw (cond_signal-nobody k (set ws i left) same) (record {
        conserved = v.conserved;
        count = length-set ws i left ∙ v.count;
        flag = v.flag;
        none_missed = λ h. absurd (omega (arith, same, h));
        gone_last = λ h. (refl, refl);
        joined_left =
            λ j h. left-stays ws i left pops e (λ bad. absurd (cc bad)) j (v.joined_left j h);
      })
  pop-Inv i k m [] false popped ws exited e v = record {
    conserved = v.conserved;
    count = length-set ws i sleeps ∙ v.count;
    flag = v.flag;
    none_missed = λ h. (refl, refl);
    gone_last = λ h. v.gone_last (omega (arith, gone-set ws i sleeps pops e, h));
    joined_left =
        λ j h. left-stays ws i sleeps pops e (λ bad. absurd (cc bad)) j (v.joined_left j h);
  }
  pop-Inv i k m (p ∷ rest) done popped ws exited e v = record {
    conserved = ap (λ t. t ++ unqueued m) (append_assoc popped (p ∷ []) rest) ∙ v.conserved;
    count = length-set ws i (handles p) ∙ v.count;
    flag = v.flag;
    none_missed =
        λ h. absurd (cc ((v.none_missed (omega (arith, asleep-set ws i (handles p) pops e, h))).0));
    gone_last =
        λ h. absurd (cc ((v.gone_last (omega (arith, gone-set ws i (handles p) pops e, h))).1));
    joined_left =
        λ j h. left-stays ws i (handles p) pops e (λ bad. absurd (cc bad)) j (v.joined_left j h);
  }

  worker-Inv :
      (i k : ℕ) (s : Threads) (w : Option (Worker (List ℕ)))
      → get_elem? s.workers i ≡ w
      → Inv requests n s
      → s.exited ≡ false
      → Keeps (client_worker_job i k s)
  unfolding client_worker_job
  worker-Inv i k s none e v runs = rw (client_worker_job, runs, e) tt
  worker-Inv i k s (some left) e v runs = rw (client_worker_job, runs, e) tt
  worker-Inv i k s (some sleeps) e v runs = rw (client_worker_job, runs, e) tt
  worker-Inv i k s (some (handles p)) e v runs = rw (client_worker_job, runs, e) tt
  worker-Inv i k s (some pops) e v runs =
      rw (client_worker_job, runs, e)
        (pop-Inv i k s.main s.queue s.queueing_done s.popped s.workers s.exited e v)

  pub client_worker_job-Inv :
      (i k : ℕ) (s : Threads) → Inv requests n s → Keeps (client_worker_job i k s)
  unfolding client_worker_job
  client_worker_job-Inv i k s v = elim (Bool-cases s.exited) [
    | inl over ↦ rw (client_worker_job, over) tt
    | inr runs ↦ worker-Inv i k s (get_elem? s.workers i) refl v runs
  ]

  returned-Inv :
      (i : ℕ) (s : Threads) (w : Option (Worker (List ℕ)))
      → get_elem? s.workers i ≡ w
      → Inv requests n s
      → s.exited ≡ false
      → Keeps (request_returns i s)
  unfolding request_returns
  returned-Inv i s none e v runs = rw (request_returns, runs, e) tt
  returned-Inv i s (some left) e v runs = rw (request_returns, runs, e) tt
  returned-Inv i s (some sleeps) e v runs = rw (request_returns, runs, e) tt
  returned-Inv i s (some pops) e v runs = rw (request_returns, runs, e) tt
  returned-Inv i s (some (handles p)) e v runs =
      let same = asleep-set s.workers i pops (handles p) e in
      let stay = gone-set s.workers i pops (handles p) e in
      rw (request_returns, runs, e)
        (changed-Inv s i (handles p) pops e (omega (arith, same)) (omega (arith, stay))
          (λ bad. absurd (cc bad)) v)

  request_returns-Inv : (i : ℕ) (s : Threads) → Inv requests n s → Keeps (request_returns i s)
  unfolding request_returns
  request_returns-Inv i s v = elim (Bool-cases s.exited) [
    | inl over ↦ rw (request_returns, over) tt
    | inr runs ↦ returned-Inv i s (get_elem? s.workers i) refl v runs
  ]

  wakes-Inv :
      (i : ℕ) (s : Threads) (w : Option (Worker (List ℕ)))
      → get_elem? s.workers i ≡ w
      → Inv requests n s
      → Keeps (wake_up i s)
  unfolding wake_up
  wakes-Inv i s none e v = rw (wake_up, e) tt
  wakes-Inv i s (some w) e v =
      let same = asleep-set s.workers i (wake w) w e in
      let stay = gone-set s.workers i (wake w) w e in
      rw (wake_up, e)
        (changed-Inv s i w (wake w) e (omega (arith, same, (wake_counts w).0))
          (omega (arith, stay, gone-wake w)) (λ is. ap wake is) v)

  step-Inv : (m : Move) (s : Threads) → Inv requests n s → Keeps (step m s)
  step-Inv main_moves s v = main_step-Inv s v
  step-Inv (works i k) s v = client_worker_job-Inv i k s v
  step-Inv (returns i) s v = request_returns-Inv i s v
  step-Inv (wakes i) s v = wakes-Inv i s (get_elem? s.workers i) refl v

  stay-Inv :
      (s : Threads) (next : Option Threads)
      → Inv requests n s
      → Keeps next
      → Inv requests n (stay_or s next)
  stay-Inv s none v k = v
  stay-Inv s (some s') v k = k

  pub run-Inv : (ms : List Move) (s : Threads) → Inv requests n s → Inv requests n (run ms s)
  unfolding run
  run-Inv [] s v = v
  run-Inv (m ∷ ms) s v =
      run-Inv ms (stay_or s (step m s)) (stay-Inv s (step m s) v (step-Inv m s v))
