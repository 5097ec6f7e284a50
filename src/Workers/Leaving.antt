-- ===== src/Workers/Leaving.antt =====
-- Workers that have left, and signals for which nobody waits.
use mathlib.Core.Option.{some-injective}
use c_exercises.Base.{
  ℕ, zero, suc, ◌≡◌, refl, sym, ◌∙◌, ap, Option, none, some, List, [], ◌∷◌, arith, get_elem?, set,
}
use c_exercises.Workers.{Worker, pops, sleeps, left, handles, wake_first, cond_signal}
use c_exercises.Workers.Counting.{asleep, asleep-set}

module _ {A : Type 0} where
  -- A worker that has left stays so while another one changes.
  pub left-stays :
      (ws : List (Worker A)) (i : ℕ) (v w : Worker A)
      → get_elem? ws i ≡ some w
      → (w ≡ left → v ≡ left)
      → (j : ℕ) → get_elem? ws j ≡ some left
      → get_elem? (set ws i v) j ≡ some left
  left-stays [] i v w e stays j h = absurd (cc h)
  left-stays (x ∷ ws) zero v w e stays zero h = ap some (stays (some-injective w left (sym e ∙ h)))
  left-stays (x ∷ ws) zero v w e stays (suc j) h = h
  left-stays (x ∷ ws) (suc i) v w e stays zero h = h
  left-stays (x ∷ ws) (suc i) v w e stays (suc j) h = left-stays ws i v w e stays j h

  wake_first-nobody : (ws : List (Worker A)) → asleep ws ≡ 0 → wake_first ws ≡ ws
  wake_first-nobody [] h = refl
  wake_first-nobody (sleeps ∷ ws) h = absurd (omega (arith, h))
  wake_first-nobody (pops ∷ ws) h = ap (λ t. pops ∷ t) (wake_first-nobody ws (omega (arith, h)))
  wake_first-nobody (left ∷ ws) h = ap (λ t. left ∷ t) (wake_first-nobody ws (omega (arith, h)))
  wake_first-nobody (handles job ∷ ws) h =
      ap (λ t. handles job ∷ t) (wake_first-nobody ws (omega (arith, h)))

  nobody_at :
      (i : ℕ) (ws : List (Worker A)) (w : Option (Worker A))
      → get_elem? ws i ≡ w
      → asleep ws ≡ 0
      → cond_signal i ws ≡ ws
  unfolding cond_signal
  nobody_at i ws none e h = rw (cond_signal, e) (wake_first-nobody ws h)
  nobody_at i ws (some pops) e h = rw (cond_signal, e) (wake_first-nobody ws h)
  nobody_at i ws (some left) e h = rw (cond_signal, e) (wake_first-nobody ws h)
  nobody_at i ws (some (handles job)) e h = rw (cond_signal, e) (wake_first-nobody ws h)
  nobody_at i ws (some sleeps) e h = absurd (omega (arith, asleep-set ws i pops sleeps e, h))

  -- A signal for which nobody waits changes nothing.
  pub cond_signal-nobody : (i : ℕ) (ws : List (Worker A)) → asleep ws ≡ 0 → cond_signal i ws ≡ ws
  cond_signal-nobody i ws h = nobody_at i ws (get_elem? ws i) refl h
