-- ===== src/Cache/Sort.antt =====
-- `qsort` leaves a sorted table with the same items.
use Prim.Native.Nat.{Ordering}
use mathlib.Core.List.{Permᴰ}
use mathlib.Core.List.Permᴰ
use mathlib.Core.Option.{some-injective, some-ne-none}
use c_exercises.Base.{
  ℕ, zero, suc, ◌≡◌, refl, sym, subst, ◌≢◌, some, List, [], ◌∷◌, arith, get_elem?,
}
use c_exercises.Cache.{Item, strcmp, insert, qsort}
use c_exercises.Cache.Order.{strcmp-gt, strcmp-le_trans}
use c_exercises.Cache.Search.{IsSorted}

-- Every item of the table satisfies `P`.
All : (Item → Type 0) → List Item → Type 0
All P [] = Unit
All P (a ∷ bs) = P a × All P bs

-- A sorted table, by its links.
Ascends : List Item → Type 0
Ascends [] = Unit
Ascends (a ∷ bs) = All (λ b. strcmp a.key b.key ≢ Ordering.gt) bs × Ascends bs

All-map : (P Q : Item → Type 0) → ((b : Item) → P b → Q b) → (bs : List Item) → All P bs → All Q bs
unfolding All
All-map P Q f [] t = t
All-map P Q f (b ∷ bs) t = (f b t.0, All-map P Q f bs t.1)

All-insert : (P : Item → Type 0) (a : Item) (bs : List Item) → P a → All P bs → All P (insert a bs)
unfolding All insert
All-insert P a [] p t = (p, tt)
All-insert P a (b ∷ bs) p t = go (All-insert P a bs p t.1) (strcmp a.key b.key) refl
  where
    go : All P (insert a bs) → (o : Ordering) → strcmp a.key b.key ≡ o → All P (insert a (b ∷ bs))
    go rest Ordering.gt e = rw (e, insert) (t.0, rest)
    go rest Ordering.lt e = rw (e, insert) (p, t)
    go rest Ordering.eq e = rw (e, insert) (p, t)

insert-Ascends : (a : Item) (bs : List Item) → Ascends bs → Ascends (insert a bs)
unfolding Ascends All insert
insert-Ascends a [] t = (tt, tt)
insert-Ascends a (b ∷ bs) t = go (insert-Ascends a bs t.1) (strcmp a.key b.key) refl
  where
    above : strcmp a.key b.key ≢ Ordering.gt → All (λ c. strcmp a.key c.key ≢ Ordering.gt) bs
    above le =
        All-map (λ c. strcmp b.key c.key ≢ Ordering.gt) (λ c. strcmp a.key c.key ≢ Ordering.gt)
          (λ c. strcmp-le_trans a.key b.key c.key le) bs t.0

    first : strcmp a.key b.key ≢ Ordering.gt → Ascends (a ∷ b ∷ bs)
    first le = ((le, above le), t)

    go :
        Ascends (insert a bs)
        → (o : Ordering) → strcmp a.key b.key ≡ o
        → Ascends (insert a (b ∷ bs))
    go rest Ordering.gt e =
        let le : strcmp b.key a.key ≢ Ordering.gt =
          λ gt. (let lt = strcmp-gt a.key b.key e in cc) in
        rw (e, insert) (All-insert (λ c. strcmp b.key c.key ≢ Ordering.gt) a bs le t.0, rest)
    go rest Ordering.lt e = rw (e, insert) (first (λ gt. cc))
    go rest Ordering.eq e = rw (e, insert) (first (λ gt. cc))

qsort-Ascends : (bs : List Item) → Ascends (qsort bs)
unfolding Ascends qsort
qsort-Ascends [] = tt
qsort-Ascends (b ∷ bs) = insert-Ascends b (qsort bs) (qsort-Ascends bs)

All-get :
    (P : Item → Type 0) (bs : List Item) (i : ℕ) (b : Item)
    → All P bs
    → get_elem? bs i ≡ some b
    → P b
unfolding All
All-get P [] i b t e = absurd (some-ne-none b (sym e))
All-get P (x ∷ bs) zero b t e = subst P (some-injective x b e) t.0
All-get P (x ∷ bs) (suc i) b t e = All-get P bs i b t.1 e

Ascends-IsSorted : (bs : List Item) → Ascends bs → IsSorted bs
unfolding Ascends IsSorted
Ascends-IsSorted [] t i j a b less e f = absurd (some-ne-none a (sym e))
Ascends-IsSorted (x ∷ bs) t zero zero a b less e f = absurd (omega arith)
Ascends-IsSorted (x ∷ bs) t zero (suc j) a b less e f =
    subst (λ y. strcmp y.key b.key ≢ Ordering.gt) (some-injective x a e)
      (All-get (λ c. strcmp x.key c.key ≢ Ordering.gt) bs j b t.0 f)
Ascends-IsSorted (x ∷ bs) t (suc i) zero a b less e f = absurd (omega arith)
Ascends-IsSorted (x ∷ bs) t (suc i) (suc j) a b less e f =
    Ascends-IsSorted bs t.1 i j a b (omega arith) e f

insert-Perm : (a : Item) (bs : List Item) → Permᴰ (insert a bs) (a ∷ bs)
unfolding insert
insert-Perm a [] = Permᴰ.refl (a ∷ [])
insert-Perm a (b ∷ bs) = go (insert-Perm a bs) (strcmp a.key b.key) refl
  where
    go :
        Permᴰ (insert a bs) (a ∷ bs)
        → (o : Ordering) → strcmp a.key b.key ≡ o
        → Permᴰ (insert a (b ∷ bs)) (a ∷ b ∷ bs)
    go rest Ordering.gt e =
        rw (e, insert) (Permᴰ.trans (Permᴰ.cons refl rest) (Permᴰ.swap refl refl))
    go rest Ordering.lt e = rw (e, insert) (Permᴰ.refl (a ∷ b ∷ bs))
    go rest Ordering.eq e = rw (e, insert) (Permᴰ.refl (a ∷ b ∷ bs))

qsort-Perm : (items : List Item) → Permᴰ (qsort items) items
unfolding qsort
qsort-Perm [] = Permᴰ.refl []
qsort-Perm (a ∷ bs) = Permᴰ.trans (insert-Perm a (qsort bs)) (Permᴰ.cons refl (qsort-Perm bs))

-- The sorted table has its keys in the order of `strcmp`, and it holds the items that were read,
-- each as often.
pub qsort-sorts : (items : List Item) → IsSorted (qsort items) × Permᴰ (qsort items) items
qsort-sorts items = (Ascends-IsSorted (qsort items) (qsort-Ascends items), qsort-Perm items)
