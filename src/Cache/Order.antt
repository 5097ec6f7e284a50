-- ===== src/Cache/Order.antt =====
-- `strcmp` orders the byte strings.
use Prim.Native.Nat.{Ordering}
use c_exercises.Base.{ℕ, ◌≡◌, refl, ◌≢◌, List, [], ◌∷◌, arith}
use c_exercises.Cache.{strcmp}

pub strcmp-eq : (a b : List ℕ) → strcmp a b ≡ Ordering.eq → a ≡ b
unfolding strcmp
strcmp-eq [] [] h = refl
strcmp-eq [] (y ∷ b) h = cc
strcmp-eq (x ∷ a) [] h = cc
strcmp-eq (x ∷ a) (y ∷ b) h =
    let ih : strcmp a b ≡ Ordering.eq → a ≡ b = strcmp-eq a b in ground arith

pub strcmp-gt_le :
    (a b c : List ℕ)
    → strcmp a b ≡ Ordering.gt
    → strcmp c b ≢ Ordering.gt
    → strcmp a c ≡ Ordering.gt
unfolding strcmp
strcmp-gt_le [] [] c h k = cc
strcmp-gt_le [] (y ∷ b) c h k = cc
strcmp-gt_le (x ∷ a) [] [] h k = refl
strcmp-gt_le (x ∷ a) [] (z ∷ c) h k = absurd (k refl)
strcmp-gt_le (x ∷ a) (y ∷ b) [] h k = refl
strcmp-gt_le (x ∷ a) (y ∷ b) (z ∷ c) h k = let ih = strcmp-gt_le a b c in ground arith

pub strcmp-lt_le :
    (a b c : List ℕ)
    → strcmp a b ≡ Ordering.lt
    → strcmp b c ≢ Ordering.gt
    → strcmp a c ≡ Ordering.lt
unfolding strcmp
strcmp-lt_le [] [] c h k = cc
strcmp-lt_le [] (y ∷ b) [] h k = absurd (k refl)
strcmp-lt_le [] (y ∷ b) (z ∷ c) h k = refl
strcmp-lt_le (x ∷ a) [] c h k = cc
strcmp-lt_le (x ∷ a) (y ∷ b) [] h k = absurd (k refl)
strcmp-lt_le (x ∷ a) (y ∷ b) (z ∷ c) h k = let ih = strcmp-lt_le a b c in ground arith

pub strcmp-gt : (a b : List ℕ) → strcmp a b ≡ Ordering.gt → strcmp b a ≡ Ordering.lt
unfolding strcmp
strcmp-gt [] [] h = cc
strcmp-gt [] (y ∷ b) h = cc
strcmp-gt (x ∷ a) [] h = refl
strcmp-gt (x ∷ a) (y ∷ b) h = let ih = strcmp-gt a b in ground arith

pub strcmp_refl : (a : List ℕ) → strcmp a a ≡ Ordering.eq
unfolding strcmp
strcmp_refl [] = refl
strcmp_refl (x ∷ a) = let ih = strcmp_refl a in ground arith

pub strcmp-le_trans :
    (a b c : List ℕ)
    → strcmp a b ≢ Ordering.gt
    → strcmp b c ≢ Ordering.gt
    → strcmp a c ≢ Ordering.gt
unfolding strcmp
strcmp-le_trans [] b [] h k e = cc
strcmp-le_trans [] b (z ∷ c) h k e = cc
strcmp-le_trans (x ∷ a) [] c h k e = absurd (h refl)
strcmp-le_trans (x ∷ a) (y ∷ b) [] h k e = absurd (k refl)
strcmp-le_trans (x ∷ a) (y ∷ b) (z ∷ c) h k e = let ih = strcmp-le_trans a b c in ground arith
