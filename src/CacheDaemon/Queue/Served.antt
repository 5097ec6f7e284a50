-- ===== src/CacheDaemon/Queue/Served.antt =====
-- Where the cache daemon's workers come to rest.
use c_exercises.Base.{
  ℕ, ◌≤◌, ◌<◌, ◌≡◌, ◌≢◌, ◌⊎◌, inl, inr, Bool, refl, subst, sym, ◌∙◌, ap, Option, none, some, List,
  [], ◌∷◌, ◌++◌, arith, length, length-append, length-set, append_assoc, append-nil, get_elem?, set,
  ℤ, pos, negsuc,
}
use c_exercises.CacheDaemon.Queue.{
  WorkQueue, work_q_push, work_q_pop, accept_step, cache_worker_job, request_returns, work_q_init,
  Move, accepts, works, wakes, returns, stay_or, wake_at, run, connections,
}
use c_exercises.Workers.{Worker, pops, sleeps, left, handles, wake, cond_signal, spawned}
use c_exercises.Workers.Counting.{
  asleep, ready, gone, gone-set, gone-wake, leaver-gone, counts-spawned, sleeper-asleep, none-ready,
  asleep-set, ready-set, cond_signal-Signals, asleep_before, length-cond_signal, wake_counts,
}

-- While a worker waits, the queue has no more connections than there are workers on their way to it.
abbrev pub NoneMissed : WorkQueue → Type 0
NoneMissed s = 0 < asleep s.workers → length s.queue ≤ ready s.workers

-- The connections popped and those in the queue are the ones accepted, in order, and no signal is lost.
pub record Inv (n : ℕ) (accepted : List ℤ) (s : WorkQueue) : Type 0 where
  pub conserved : s.popped ++ s.queue ≡ accepted
  pub count : length s.workers ≡ n
  pub none_missed : NoneMissed s
  pub none_gone : gone s.workers ≡ 0

module _ (n : ℕ) (accepted : List ℤ) where
  push-Inv :
      (i : ℕ) (fd : ℤ) (s : WorkQueue)
      → Inv n accepted s
      → Inv n (accepted ++ fd ∷ []) (work_q_push i fd s)
  unfolding work_q_push
  push-Inv i fd s v =
      let signal = cond_signal-Signals i s.workers in
      record {
        conserved =
            sym (append_assoc s.popped s.queue (fd ∷ [])) ∙ ap (λ t. t ++ fd ∷ []) v.conserved;
        count = length-cond_signal i s.workers ∙ v.count;
        none_missed = λ h.
            let some_slept : 0 < asleep s.workers =
              asleep_before s.workers (cond_signal i s.workers) signal h in
            omega (
              arith,
              v.none_missed some_slept,
              signal.one_less some_slept,
              signal.total,
              length-append s.queue (fd ∷ []),
            );
        none_gone = signal.same_gone ∙ v.none_gone;
      }

  pop-Inv :
      (i : ℕ) (q popped : List ℤ) (ws : List (Worker ℤ))
      → get_elem? ws i ≡ some pops
      → Inv n accepted (record { queue = q; popped = popped; workers = ws })
      → Inv n accepted (work_q_pop i (record { queue = q; popped = popped; workers = ws }))
  unfolding work_q_pop
  pop-Inv i [] popped ws e v = record {
    conserved = v.conserved;
    count = length-set ws i sleeps ∙ v.count;
    none_missed = λ h. omega arith;
    none_gone = omega (arith, gone-set ws i sleeps pops e, v.none_gone);
  }
  pop-Inv i (fd ∷ rest) popped ws e v = record {
    conserved = append_assoc popped (fd ∷ []) rest ∙ v.conserved;
    count = length-set ws i (handles fd) ∙ v.count;
    none_missed = λ h.
        let same = asleep-set ws i (handles fd) pops e in
        let less = ready-set ws i (handles fd) pops e in
        omega (arith, v.none_missed (omega (arith, same, h)), less);
    none_gone = omega (arith, gone-set ws i (handles fd) pops e, v.none_gone);
  }

  handled-Inv :
      (i : ℕ) (fd : ℤ) (s : WorkQueue)
      → get_elem? s.workers i ≡ some (handles fd)
      → Inv n accepted s
      → Inv n accepted (record s { workers = set s.workers i pops })
  handled-Inv i fd s e v = record {
    conserved = v.conserved;
    count = length-set s.workers i pops ∙ v.count;
    none_missed = λ h.
        let same = asleep-set s.workers i pops (handles fd) e in
        let more = ready-set s.workers i pops (handles fd) e in
        omega (arith, v.none_missed (omega (arith, same, h)), more);
    none_gone = omega (arith, gone-set s.workers i pops (handles fd) e, v.none_gone);
  }

  job-Inv :
      (i : ℕ) (s : WorkQueue) (w : Option (Worker ℤ))
      → get_elem? s.workers i ≡ w
      → Inv n accepted s
      → Inv n accepted (stay_or s (cache_worker_job i s))
  unfolding cache_worker_job
  job-Inv i s none e v = rw (cache_worker_job, e) v
  job-Inv i s (some sleeps) e v = rw (cache_worker_job, e) v
  job-Inv i s (some left) e v = rw (cache_worker_job, e) v
  job-Inv i s (some (handles fd)) e v = rw (cache_worker_job, e) v
  job-Inv i s (some pops) e v = rw (cache_worker_job, e) (pop-Inv i s.queue s.popped s.workers e v)

  returns-Inv :
      (i : ℕ) (s : WorkQueue) (w : Option (Worker ℤ))
      → get_elem? s.workers i ≡ w
      → Inv n accepted s
      → Inv n accepted (stay_or s (request_returns i s))
  unfolding request_returns
  returns-Inv i s none e v = rw (request_returns, e) v
  returns-Inv i s (some sleeps) e v = rw (request_returns, e) v
  returns-Inv i s (some left) e v = rw (request_returns, e) v
  returns-Inv i s (some (handles fd)) e v = rw (request_returns, e) (handled-Inv i fd s e v)
  returns-Inv i s (some pops) e v = rw (request_returns, e) v

  -- A wait that ends with no signal.
  wake-Inv :
      (i : ℕ) (s : WorkQueue) (w : Worker ℤ)
      → get_elem? s.workers i ≡ some w
      → Inv n accepted s
      → Inv n accepted (record s { workers = set s.workers i (wake w) })
  wake-Inv i s w e v = record {
    conserved = v.conserved;
    count = length-set s.workers i (wake w) ∙ v.count;
    none_missed = λ h.
        let less = asleep-set s.workers i (wake w) w e in
        let more = ready-set s.workers i (wake w) w e in
        let (fewer, others) = wake_counts w in
        omega (arith, v.none_missed (omega (arith, less, fewer, h)), more, others);
    none_gone = omega (arith, gone-set s.workers i (wake w) w e, gone-wake w, v.none_gone);
  }

  wakes-Inv :
      (i : ℕ) (s : WorkQueue) (w : Option (Worker ℤ))
      → get_elem? s.workers i ≡ w
      → Inv n accepted s
      → Inv n accepted (wake_at i s w)
  wakes-Inv i s none e v = v
  wakes-Inv i s (some w) e v = wake-Inv i s w e v

accept-Inv :
    (n : ℕ) (accepted : List ℤ) (i : ℕ) (fd : ℤ) (ms : List Move) (s : WorkQueue)
    → Inv n accepted s
    → (later : List ℤ) × (Inv n later (accept_step i fd s))
      × (later ++ connections ms ≡ accepted ++ connections (accepts i fd ∷ ms))
unfolding accept_step
accept-Inv n accepted i (negsuc k) ms s v = (accepted, v, refl)
accept-Inv n accepted i (pos k) ms s v = (
  accepted ++ pos k ∷ [],
  push-Inv n accepted i (pos k) s v,
  append_assoc accepted (pos k ∷ []) (connections ms),
)

run-Inv :
    (n : ℕ) (ms : List Move) (accepted : List ℤ) (s : WorkQueue)
    → Inv n accepted s
    → Inv n (accepted ++ connections ms) (run ms s)
unfolding run
run-Inv n [] accepted s v = subst (λ t. Inv n t s) (sym (append-nil accepted)) v
run-Inv n (accepts i fd ∷ ms) accepted s v =
    let (later, v', same) = accept-Inv n accepted i fd ms s v in
    subst (λ t. Inv n t (run ms (accept_step i fd s))) same
      (run-Inv n ms later (accept_step i fd s) v')
run-Inv n (works i ∷ ms) accepted s v =
    run-Inv n ms accepted (stay_or s (cache_worker_job i s))
      (job-Inv n accepted i s (get_elem? s.workers i) refl v)
run-Inv n (wakes i ∷ ms) accepted s v =
    run-Inv n ms accepted (wake_at i s (get_elem? s.workers i))
      (wakes-Inv n accepted i s (get_elem? s.workers i) refl v)
run-Inv n (returns i ∷ ms) accepted s v =
    run-Inv n ms accepted (stay_or s (request_returns i s))
      (returns-Inv n accepted i s (get_elem? s.workers i) refl v)

work_q_init-Inv :
    (creates : List Bool) → Inv (length (spawned {A = ℤ} creates)) [] (work_q_init creates)
work_q_init-Inv creates = record {
  conserved = refl;
  count = refl;
  none_missed = λ h. absurd (omega (arith, (counts-spawned ℤ creates).0, h));
  none_gone = (counts-spawned ℤ creates).1;
}

-- There are `n` workers. The connections popped and those in the queue are the ones accepted, in order.
-- Each worker is in
-- `handle_cache_request` with a connection, or waits, and then the queue is empty.
pub record IsServed (n : ℕ) (accepted : List ℤ) (s : WorkQueue) : Type 0 where
  pub count : length s.workers ≡ n
  pub order : s.popped ++ s.queue ≡ accepted
  pub each :
      (i : ℕ) (w : Worker ℤ)
      → get_elem? s.workers i ≡ some w
      → ((fd : ℤ) × (w ≡ handles fd)) ⊎ ((w ≡ sleeps) × (s.queue ≡ []))

no_elems : (q : List ℤ) → length q ≤ 0 → q ≡ []
no_elems [] h = refl
no_elems (x ∷ q) h = absurd (omega arith)

blocked_worker :
    (i : ℕ) (s : WorkQueue) (w : Worker ℤ)
    → cache_worker_job i s ≡ none
    → get_elem? s.workers i ≡ some w
    → gone s.workers ≡ 0
    → ((fd : ℤ) × (w ≡ handles fd)) ⊎ (w ≡ sleeps)
unfolding cache_worker_job
blocked_worker i s sleeps h e n = inr refl
blocked_worker i s left h e n = absurd (omega (arith, leaver-gone s.workers i e, n))
blocked_worker i s pops h e n = absurd (cc (rw (cache_worker_job, e) at h))
blocked_worker i s (handles fd) h e n = inl (fd, refl)

not_ready : (w : Worker ℤ) → ((fd : ℤ) × (w ≡ handles fd)) ⊎ (w ≡ sleeps) → w ≢ pops
not_ready w (inl (fd, is)) at = cc (is, at)
not_ready w (inr is) at = cc (is, at)

blocked-IsServed :
    (n : ℕ) (accepted : List ℤ) (s : WorkQueue)
    → Inv n accepted s
    → ((i : ℕ) → cache_worker_job i s ≡ none)
    → IsServed n accepted s
blocked-IsServed n accepted s v blocked = record {
  count = v.count;
  order = v.conserved;
  each = λ i w e. elim (blocked_worker i s w (blocked i) e v.none_gone) [
    | inl busy ↦ inl busy
    | inr is ↦
        let slept = sleeper-asleep s.workers i (e ∙ ap some is) in
        let none_ready =
          none-ready s.workers
            (λ j u f. not_ready u (blocked_worker j s u (blocked j) f v.none_gone)) in
        inr (is, no_elems s.queue (omega (arith, v.none_missed slept, none_ready)))
  ];
}

-- The cache daemon misses no connection: whichever of its workers could be created, after any schedule of
-- connections, worker steps, requests that come to an end, and waits that end with no signal, the
-- connections popped and those in the queue are the ones accepted, each once and in order. If no
-- worker can take a step in its loop then each is in `handle_cache_request`, or waits; and if one
-- waits, no connection is left in the queue.
pub run-IsServed :
    (creates : List Bool) (ms : List Move)
    → ((i : ℕ) → cache_worker_job i (run ms (work_q_init creates)) ≡ none)
    → IsServed (length (spawned {A = ℤ} creates)) (connections ms) (run ms (work_q_init creates))
run-IsServed creates ms blocked =
    blocked-IsServed (length (spawned {A = ℤ} creates)) (connections ms)
      (run ms (work_q_init creates))
      (run-Inv (length (spawned {A = ℤ} creates)) ms [] (work_q_init creates)
        (work_q_init-Inv creates))
      blocked
