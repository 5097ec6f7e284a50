-- ===== src/Workers/Counting.antt =====
-- How many workers wait and how many are on their way to the lock.
use c_exercises.Base.{
  ℕ, zero, suc, ◌+◌, ◌≤◌, ◌<◌, ◌≡◌, ◌≢◌, refl, ap, Bool, true, false, Option, none, some, List, [],
  ◌∷◌, arith, length, length-set, get_elem?, set, replicate,
}
use c_exercises.Workers.{
  Worker, pops, sleeps, left, handles, wake, wake_first, cond_signal, cond_broadcast, spawned,
}

module _ {A : Type 0} where
  abbrev pub one_asleep : Worker A → ℕ
  one_asleep sleeps = 1
  one_asleep pops = 0
  one_asleep left = 0
  one_asleep (handles job) = 0

  abbrev pub one_ready : Worker A → ℕ
  one_ready sleeps = 0
  one_ready pops = 1
  one_ready left = 0
  one_ready (handles job) = 0

  abbrev pub one_gone : Worker A → ℕ
  one_gone sleeps = 0
  one_gone pops = 0
  one_gone left = 1
  one_gone (handles job) = 0

  abbrev pub asleep : List (Worker A) → ℕ
  asleep [] = 0
  asleep (w ∷ ws) = one_asleep w + asleep ws

  abbrev pub ready : List (Worker A) → ℕ
  ready [] = 0
  ready (w ∷ ws) = one_ready w + ready ws

  abbrev pub gone : List (Worker A) → ℕ
  gone [] = 0
  gone (w ∷ ws) = one_gone w + gone ws

  pub asleep-set :
      (ws : List (Worker A)) (i : ℕ) (v w : Worker A)
      → get_elem? ws i ≡ some w
      → asleep (set ws i v) + one_asleep w ≡ asleep ws + one_asleep v
  asleep-set [] i v w h = absurd (cc h)
  asleep-set (x ∷ ws) zero v w h =
      let same : one_asleep x ≡ one_asleep w = ap (λ o. one_asleep o) (cc h) in omega (arith, same)
  asleep-set (x ∷ ws) (suc i) v w h = omega (arith, asleep-set ws i v w h)

  pub ready-set :
      (ws : List (Worker A)) (i : ℕ) (v w : Worker A)
      → get_elem? ws i ≡ some w
      → ready (set ws i v) + one_ready w ≡ ready ws + one_ready v
  ready-set [] i v w h = absurd (cc h)
  ready-set (x ∷ ws) zero v w h =
      let same : one_ready x ≡ one_ready w = ap (λ o. one_ready o) (cc h) in omega (arith, same)
  ready-set (x ∷ ws) (suc i) v w h = omega (arith, ready-set ws i v w h)

  pub gone-set :
      (ws : List (Worker A)) (i : ℕ) (v w : Worker A)
      → get_elem? ws i ≡ some w
      → gone (set ws i v) + one_gone w ≡ gone ws + one_gone v
  gone-set [] i v w h = absurd (cc h)
  gone-set (x ∷ ws) zero v w h =
      let same : one_gone x ≡ one_gone w = ap (λ o. one_gone o) (cc h) in omega (arith, same)
  gone-set (x ∷ ws) (suc i) v w h = omega (arith, gone-set ws i v w h)

  -- A signal wakes one of the workers that wait, if there is one.
  pub record Signals (before behind : List (Worker A)) : Type 0 where
    pub total : asleep behind + ready behind ≡ asleep before + ready before
    pub one_less : 0 < asleep before → suc (asleep behind) ≡ asleep before
    pub none_left : asleep before ≡ 0 → ready behind ≡ ready before
    pub same_gone : gone behind ≡ gone before

  wake_first-Signals : (ws : List (Worker A)) → Signals ws (wake_first ws)
  wake_first-Signals [] = record {
    total = refl;
    one_less = λ h. absurd (omega arith);
    none_left = λ h. refl;
    same_gone = refl;
  }
  wake_first-Signals (sleeps ∷ ws) = record {
    total = omega arith;
    one_less = λ h. omega arith;
    none_left = λ h. absurd (omega arith);
    same_gone = omega arith;
  }
  wake_first-Signals (pops ∷ ws) =
      let rest = wake_first-Signals ws in
      record {
        total = omega (arith, rest.total);
        one_less = λ h. omega (arith, rest.one_less (omega (arith, h)));
        none_left = λ h. omega (arith, rest.none_left (omega (arith, h)));
        same_gone = omega (arith, rest.same_gone);
      }
  wake_first-Signals (left ∷ ws) =
      let rest = wake_first-Signals ws in
      record {
        total = omega (arith, rest.total);
        one_less = λ h. omega (arith, rest.one_less (omega (arith, h)));
        none_left = λ h. omega (arith, rest.none_left (omega (arith, h)));
        same_gone = omega (arith, rest.same_gone);
      }
  wake_first-Signals (handles job ∷ ws) =
      let rest = wake_first-Signals ws in
      record {
        total = omega (arith, rest.total);
        one_less = λ h. omega (arith, rest.one_less (omega (arith, h)));
        none_left = λ h. omega (arith, rest.none_left (omega (arith, h)));
        same_gone = omega (arith, rest.same_gone);
      }

  cond_signal-at :
      (i : ℕ) (ws : List (Worker A)) (w : Option (Worker A))
      → get_elem? ws i ≡ w
      → Signals ws (cond_signal i ws)
  unfolding cond_signal
  cond_signal-at i ws none e = rw (cond_signal, e) (wake_first-Signals ws)
  cond_signal-at i ws (some pops) e = rw (cond_signal, e) (wake_first-Signals ws)
  cond_signal-at i ws (some left) e = rw (cond_signal, e) (wake_first-Signals ws)
  cond_signal-at i ws (some (handles job)) e = rw (cond_signal, e) (wake_first-Signals ws)
  cond_signal-at i ws (some sleeps) e =
      let less = asleep-set ws i pops sleeps e in
      let more = ready-set ws i pops sleeps e in
      rw (cond_signal, e)
        (record {
          total = omega (arith, less, more);
          one_less = λ h. omega (arith, less);
          none_left = λ h. absurd (omega (arith, less, h));
          same_gone = omega (arith, gone-set ws i pops sleeps e);
        })

  pub cond_signal-Signals : (i : ℕ) (ws : List (Worker A)) → Signals ws (cond_signal i ws)
  cond_signal-Signals i ws = cond_signal-at i ws (get_elem? ws i) refl

  some_before :
      (k : ℕ) (ws ws' : List (Worker A)) → asleep ws ≡ k → Signals ws ws' → 0 < asleep ws' → 0 < k
  some_before zero ws ws' e signal h = omega (arith, signal.total, signal.none_left e)
  some_before (suc k) ws ws' e signal h = omega arith

  -- Who waits behind a signal has waited before it.
  pub asleep_before : (ws ws' : List (Worker A)) → Signals ws ws' → 0 < asleep ws' → 0 < asleep ws
  asleep_before ws ws' signal h = some_before (asleep ws) ws ws' refl signal h

  length-wake_first : (ws : List (Worker A)) → length (wake_first ws) ≡ length ws
  length-wake_first [] = refl
  length-wake_first (sleeps ∷ ws) = refl
  length-wake_first (pops ∷ ws) = ap suc (length-wake_first ws)
  length-wake_first (left ∷ ws) = ap suc (length-wake_first ws)
  length-wake_first (handles job ∷ ws) = ap suc (length-wake_first ws)

  length-signal_at :
      (i : ℕ) (ws : List (Worker A)) (w : Option (Worker A))
      → get_elem? ws i ≡ w
      → length (cond_signal i ws) ≡ length ws
  unfolding cond_signal
  length-signal_at i ws none e = rw (cond_signal, e) (length-wake_first ws)
  length-signal_at i ws (some pops) e = rw (cond_signal, e) (length-wake_first ws)
  length-signal_at i ws (some left) e = rw (cond_signal, e) (length-wake_first ws)
  length-signal_at i ws (some (handles job)) e = rw (cond_signal, e) (length-wake_first ws)
  length-signal_at i ws (some sleeps) e = rw (cond_signal, e) (length-set ws i pops)

  pub length-cond_signal : (i : ℕ) (ws : List (Worker A)) → length (cond_signal i ws) ≡ length ws
  length-cond_signal i ws = length-signal_at i ws (get_elem? ws i) refl

  pub wake_counts :
      (w : Worker A) → (one_asleep (wake w) ≤ one_asleep w) × (one_ready w ≤ one_ready (wake w))
  wake_counts pops = (omega arith, omega arith)
  wake_counts sleeps = (omega arith, omega arith)
  wake_counts left = (omega arith, omega arith)
  wake_counts (handles job) = (omega arith, omega arith)

  pub length-cond_broadcast : (ws : List (Worker A)) → length (cond_broadcast ws) ≡ length ws
  unfolding cond_broadcast
  length-cond_broadcast [] = refl
  length-cond_broadcast (w ∷ ws) = ap suc (length-cond_broadcast ws)

  pub cond_broadcast-awake : (ws : List (Worker A)) → asleep (cond_broadcast ws) ≡ 0
  unfolding cond_broadcast
  cond_broadcast-awake [] = refl
  cond_broadcast-awake (pops ∷ ws) = omega (arith, cond_broadcast-awake ws)
  cond_broadcast-awake (sleeps ∷ ws) = omega (arith, cond_broadcast-awake ws)
  cond_broadcast-awake (left ∷ ws) = omega (arith, cond_broadcast-awake ws)
  cond_broadcast-awake (handles job ∷ ws) = omega (arith, cond_broadcast-awake ws)

  -- A worker that sleeps is counted.
  pub sleeper-asleep : (ws : List (Worker A)) (i : ℕ) → get_elem? ws i ≡ some sleeps → 0 < asleep ws
  sleeper-asleep [] i h = absurd (cc h)
  sleeper-asleep (w ∷ ws) zero h = let is : w ≡ sleeps = cc h in omega (arith, ap one_asleep is)
  sleeper-asleep (w ∷ ws) (suc i) h = omega (arith, sleeper-asleep ws i h)

  -- Nobody is on the way to the lock if no place says so.
  pub none-ready :
      (ws : List (Worker A))
      → ((i : ℕ) (w : Worker A) → get_elem? ws i ≡ some w → w ≢ pops)
      → ready ws ≡ 0
  none-ready [] others = refl
  none-ready (pops ∷ ws) others = absurd (others 0 pops refl refl)
  none-ready (sleeps ∷ ws) others = omega (arith, none-ready ws (λ i. others (suc i)))
  none-ready (left ∷ ws) others = omega (arith, none-ready ws (λ i. others (suc i)))
  none-ready (handles job ∷ ws) others = omega (arith, none-ready ws (λ i. others (suc i)))

  -- A worker that has left is counted.
  pub leaver-gone : (ws : List (Worker A)) (i : ℕ) → get_elem? ws i ≡ some left → 0 < gone ws
  leaver-gone [] i h = absurd (cc h)
  leaver-gone (w ∷ ws) zero h = let is : w ≡ left = cc h in omega (arith, ap one_gone is)
  leaver-gone (w ∷ ws) (suc i) h = omega (arith, leaver-gone ws i h)

  pub gone-wake : (w : Worker A) → one_gone (wake w) ≡ one_gone w
  gone-wake pops = refl
  gone-wake sleeps = refl
  gone-wake left = refl
  gone-wake (handles job) = refl

  pub gone-cond_broadcast : (ws : List (Worker A)) → gone (cond_broadcast ws) ≡ gone ws
  unfolding cond_broadcast
  gone-cond_broadcast [] = refl
  gone-cond_broadcast (w ∷ ws) = omega (arith, gone-wake w, gone-cond_broadcast ws)

pub counts-spawned :
    (A : Type 0) (creates : List Bool)
    → (asleep (spawned {A = A} creates) ≡ 0) × (gone (spawned {A = A} creates) ≡ 0)
counts-spawned A [] = (refl, refl)
counts-spawned A (true ∷ creates) =
    let (slept, left_none) = counts-spawned A creates in
    (omega (arith, slept), omega (arith, left_none))
counts-spawned A (false ∷ creates) = counts-spawned A creates

pub counts-replicate :
    (A : Type 0) (n : ℕ)
    → (asleep (replicate {A = Worker A} n pops) ≡ 0) × (gone (replicate {A = Worker A} n pops) ≡ 0)
counts-replicate A zero = (refl, refl)
counts-replicate A (suc n) =
    let (slept, left_none) = counts-replicate A n in
    (omega (arith, slept), omega (arith, left_none))
