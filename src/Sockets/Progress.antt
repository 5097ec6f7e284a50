-- ===== src/Sockets/Progress.antt =====
-- What a program that goes on has gone through.
use c_exercises.Base.{
  ℕ, ◌≤◌, ◌<◌, not, ◌||◌, ltb, arith, ◌≡◌, refl, ap, Bool, true, false, List, [], ℤ,
}
use c_exercises.Sockets.{Start, exits, goes, after, ◌>>=◌, ◌>>◌, require_or}

pub after-goes :
    {A : Type 0} (closed all : List ℤ) (m : Start A) (a : A)
    → after closed m ≡ goes all a
    → (more : List ℤ) × (m ≡ goes more a)
after-goes closed all (exits code more) a h = absurd (cc h)
after-goes closed all (goes more b) a h = (more, ap (goes more) (cc h))

pub goes-inj : {A : Type 0} (c d : List ℤ) (a b : A) → goes c a ≡ goes d b → b ≡ a
goes-inj c d a b h = cc h

-- What goes on behind a step has gone on in it.
pub bind-goes :
    {A B : Type 0} (m : Start A) (f : A → Start B) (all : List ℤ) (b : B)
    → (m >>= f) ≡ goes all b
    → (a : A) × (more : List ℤ) × (f a ≡ goes more b)
bind-goes (exits code closed) f all b h = absurd (cc h)
bind-goes (goes closed a) f all b h =
    let (more, e) = after-goes closed all (f a) b h in (a, more, e)

pub require_or-goes :
    {B : Type 0} (code : ℕ) (test : Bool) (n : Start B) (all : List ℤ) (b : B)
    → (require_or code test >> n) ≡ goes all b
    → (test ≡ true) × (more : List ℤ) × (n ≡ goes more b)
require_or-goes code true n all b h = let (more, e) = after-goes [] all n b h in (refl, more, e)
require_or-goes code false n all b h = absurd (cc h)

-- Tests of a bound that a program goes on from.
pub test-le : (a b : ℕ) → not (ltb a b) ≡ true → b ≤ a
test-le a b h = ground arith

pub test-between : (m n : ℕ) → not (ltb n 1 || ltb m n) ≡ true → (0 < n) × (n ≤ m)
test-between m n h = (ground arith, ground arith)
