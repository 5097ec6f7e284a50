-- ===== src/Shm/Pool/Owners.antt =====
-- Who holds which segment, over any sequence of requests.
use c_exercises.Base.{
  ℕ, zero, suc, ◌<◌, ◌≡◌, refl, sym, ◌∙◌, ap, ◌≢◌, inl, inr, Bool, true, false, not, Option, none,
  some, List, [], ◌∷◌, arith, ◌==◌, if◌then◌else◌, Bool-cases, if-cases, ==→eq, ◌-◌, length,
}
use mathlib.Core.Bool.{false≢true}
use c_exercises.Shm.Pool.{Segment, proxy_seg_acq, proxy_seg_release}

-- Whether segment `i` is in use; one that is not there is not.
abbrev pub in_use_at : List Segment → ℕ → Bool
in_use_at [] i = false
in_use_at (s ∷ rest) zero = s.in_use
in_use_at (s ∷ rest) (suc i) = in_use_at rest i

not-true : (b : Bool) → not b ≡ true → b ≡ false
not-true true h = absurd (false≢true h)
not-true false h = refl

not-false : (b : Bool) → not b ≡ false → b ≡ true
not-false true h = refl
not-false false h = absurd (false≢true (sym h))

-- What an acquisition does to the flags: it takes a segment that was free, the first one, and
-- changes no other flag; without a free segment it waits.
pub data Acquires (segments : List Segment) : Option (ℕ × List Segment) → Type 0 where
  takes :
      {i : ℕ} {after : List Segment}
      → i < length segments
      → in_use_at segments i ≡ false
      → ((j : ℕ) → j < i → in_use_at segments j ≡ true)
      → in_use_at after i ≡ true
      → ((j : ℕ) → j ≢ i → in_use_at after j ≡ in_use_at segments j)
      → Acquires segments (some (i, after))
  waits : ((j : ℕ) → j < length segments → in_use_at segments j ≡ true) → Acquires segments none

before-suc :
    (s : Segment) (rest : List Segment) (i : ℕ)
    → s.in_use ≡ true
    → ((j : ℕ) → j < i → in_use_at rest j ≡ true)
    → (j : ℕ) → j < suc i
    → in_use_at (s ∷ rest) j ≡ true
before-suc s rest i used before zero h = used
before-suc s rest i used before (suc j) h = before j (omega arith)

others-suc :
    (s : Segment) (rest after : List Segment) (i : ℕ)
    → ((j : ℕ) → j ≢ i → in_use_at after j ≡ in_use_at rest j)
    → (j : ℕ) → j ≢ suc i
    → in_use_at (s ∷ after) j ≡ in_use_at (s ∷ rest) j
others-suc s rest after i same zero h = refl
others-suc s rest after i same (suc j) h = same j (λ e. h (ap suc e))

others-zero :
    (s t : Segment) (rest : List Segment) (j : ℕ)
    → j ≢ 0
    → in_use_at (t ∷ rest) j ≡ in_use_at (s ∷ rest) j
others-zero s t rest zero h = absurd (h refl)
others-zero s t rest (suc j) h = refl

behind-Acquires :
    (s : Segment) (rest : List Segment)
    → s.in_use ≡ true
    → (r : Option (ℕ × List Segment)) → Acquires rest r
    → Acquires (s ∷ rest) (elim r [ none ↦ none | some (i, after) ↦ some (suc i, s ∷ after) ])
behind-Acquires s rest used (some (i, after)) (Acquires.takes in_range free before taken same) =
    Acquires.takes (omega arith) free (before-suc s rest i used before) taken
      (others-suc s rest after i same)
behind-Acquires s rest used none (Acquires.waits full) =
    Acquires.waits (before-suc s rest (length rest) used full)

-- `proxy_seg_acq` takes the first segment that is not in use and marks it, and sleeps exactly when all
-- segments are in use.
proxy_seg_acq-Acquires : (segments : List Segment) → Acquires segments (proxy_seg_acq segments)
unfolding proxy_seg_acq
proxy_seg_acq-Acquires [] = Acquires.waits (λ j h. absurd (omega arith))
proxy_seg_acq-Acquires (s ∷ rest) =
    if-cases (Acquires (s ∷ rest)) (not s.in_use)
      (λ free.
        Acquires.takes (omega arith) (not-true s.in_use free) (λ j h. absurd (omega arith)) refl
          (others-zero s (record s { in_use = true }) rest))
      (λ used.
        behind-Acquires s rest (not-false s.in_use used) (proxy_seg_acq rest)
          (proxy_seg_acq-Acquires rest))

-- The pool, and the segments that requests hold.
pub record Pool : Type 0 where
  pub segments : List Segment
  pub held : List ℕ

-- A request comes and acquires, or the holder of a segment releases it.
pub data Event : Type 0 where
  acquire : Event
  release : ℕ → Event

abbrev pub count : ℕ → List ℕ → ℕ
count i [] = 0
count i (j ∷ js) = if i == j then suc (count i js) else count i js

abbrev remove : ℕ → List ℕ → List ℕ
remove i [] = []
remove i (j ∷ js) = if i == j then js else j ∷ remove i js

abbrev acquired : Pool → Option (ℕ × List Segment) → Pool
acquired p none = p
acquired p (some (i, after)) = record { segments = after; held = i ∷ p.held }

pub happens : Event → Pool → Pool
happens Event.acquire p = acquired p (proxy_seg_acq p.segments)
happens (Event.release i) p =
    if count i p.held == 0
    then p
    else record { segments = proxy_seg_release p.segments i; held = remove i p.held }

pub history : List Event → Pool → Pool
history [] p = p
history (e ∷ es) p = history es (happens e p)

-- A segment that is in use has one holder, and one that is not has none.
unfoldable pub IsOwned : Pool → Type 0
IsOwned p = (i : ℕ) → count i p.held ≡ (if in_use_at p.segments i then 1 else 0)

acquired-IsOwned :
    (p : Pool) (r : Option (ℕ × List Segment))
    → IsOwned p
    → Acquires p.segments r
    → IsOwned (acquired p r)
unfolding IsOwned
acquired-IsOwned p none owned (Acquires.waits full) j = owned j
acquired-IsOwned p (some (i, after)) owned (Acquires.takes in_range free before taken same) j =
    elim (Bool-cases (j == i)) [
      | inl here ↦
          let at : j ≡ i = ==→eq j i here in
          let was : count j p.held ≡ 0 = rw at (owned i ∙ rw free refl) in
          rw (here, was, at, taken) refl
      | inr other ↦ let ne : j ≢ i = ground arith in rw (other, same j ne) (owned j)
    ]

released-flag :
    (segments : List Segment) (i j : ℕ)
    → in_use_at (proxy_seg_release segments i) j ≡ (if j == i then false else in_use_at segments j)
unfolding proxy_seg_release
released-flag [] i j = ground arith
released-flag (s ∷ rest) zero zero = refl
released-flag (s ∷ rest) zero (suc j) = ground arith
released-flag (s ∷ rest) (suc i) zero = ground arith
released-flag (s ∷ rest) (suc i) (suc j) = ground (arith, released-flag rest i j)

count-remove :
    (i j : ℕ) (js : List ℕ)
    → (count i js == 0) ≡ false
    → count j (remove i js) ≡ (if j == i then count j js - 1 else count j js)
count-remove i j [] h = cc
count-remove i j (k ∷ js) h = ground (arith, count-remove i j js)

released-IsOwned :
    (p : Pool) (i : ℕ)
    → IsOwned p
    → (count i p.held == 0) ≡ false
    → IsOwned (record { segments = proxy_seg_release p.segments i; held = remove i p.held })
unfolding IsOwned
released-IsOwned p i owned some_holder j =
    rw (count-remove i j p.held some_holder, released-flag p.segments i j) (ground (arith, owned j))

happens-IsOwned : (e : Event) (p : Pool) → IsOwned p → IsOwned (happens e p)
unfolding happens
happens-IsOwned Event.acquire p owned =
    acquired-IsOwned p (proxy_seg_acq p.segments) owned (proxy_seg_acq-Acquires p.segments)
happens-IsOwned (Event.release i) p owned =
    if-cases IsOwned (count i p.held == 0) (λ _. owned) (λ h. released-IsOwned p i owned h)

-- After any sequence of acquisitions and releases by holders, a segment that is in use has exactly
-- one holder, and one that is not in use has none, if this was so before.
pub history-IsOwned : (es : List Event) (p : Pool) → IsOwned p → IsOwned (history es p)
unfolding history
history-IsOwned [] p owned = owned
history-IsOwned (e ∷ es) p owned = history-IsOwned es (happens e p) (happens-IsOwned e p owned)
