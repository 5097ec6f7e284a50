-- ===== src/Cache/Listed.antt =====
-- A file that is listed is found under its key.
use Prim.Native.Nat.{Ordering}
use mathlib.Core.Option.{some-injective}
use c_exercises.Base.{ℕ, zero, suc, ◌≡◌, refl, subst, some, List, [], ◌∷◌, length, ℤ, pos}
use c_exercises.Cache.{
  Item, strcmp, Cache, insert, qsort, simplecache_get, Open, Loaded, simplecache_init, Lookup,
  fetch, descriptor, mtgf_content_get, search_loop,
}
use c_exercises.Cache.Search.{Holds, Gets, simplecache_get-Gets}
use c_exercises.Cache.Sort.{qsort-sorts}
use c_exercises.Cache.Load.{Entry, list_text, Opens, load_table-list_text}

Holds-suc : (b a : Item) (bs : List Item) → Holds bs a → Holds (b ∷ bs) a
unfolding Holds
Holds-suc b a bs (i, e) = (suc i, e)

insert-Holds_self : (a : Item) (bs : List Item) → Holds (insert a bs) a
unfolding insert Holds
insert-Holds_self a [] = (0, refl)
insert-Holds_self a (b ∷ bs) = go (insert-Holds_self a bs) (strcmp a.key b.key) refl
  where
    go :
        Holds (insert a bs) a
        → (o : Ordering) → strcmp a.key b.key ≡ o
        → Holds (insert a (b ∷ bs)) a
    go rest Ordering.gt e = rw (e, insert) (Holds-suc b a (insert a bs) rest)
    go rest Ordering.lt e = rw (e, insert) (0, refl)
    go rest Ordering.eq e = rw (e, insert) (0, refl)

insert-Holds_other : (a c : Item) (bs : List Item) → Holds bs c → Holds (insert a bs) c
unfolding insert Holds
insert-Holds_other a c [] (i, e) = (suc i, e)
insert-Holds_other a c (b ∷ bs) at = go (insert-Holds_other a c bs) at (strcmp a.key b.key) refl
  where
    go :
        (Holds bs c → Holds (insert a bs) c)
        → Holds (b ∷ bs) c
        → (o : Ordering) → strcmp a.key b.key ≡ o
        → Holds (insert a (b ∷ bs)) c
    go ih (zero, e') Ordering.gt e = rw (e, insert) (0, e')
    go ih (suc i, e') Ordering.gt e = rw (e, insert) (Holds-suc b c (insert a bs) (ih (i, e')))
    go ih at Ordering.lt e = rw (e, insert) (Holds-suc a c (b ∷ bs) at)
    go ih at Ordering.eq e = rw (e, insert) (Holds-suc a c (b ∷ bs) at)

qsort-Holds : (c : Item) (bs : List Item) → Holds bs c → Holds (qsort bs) c
unfolding qsort Holds
qsort-Holds c [] at = at
qsort-Holds c (b ∷ bs) (zero, e) =
    subst (Holds (insert b (qsort bs))) (some-injective b c e) (insert-Holds_self b (qsort bs))
qsort-Holds c (b ∷ bs) (suc i, e) = insert-Holds_other b c (qsort bs) (qsort-Holds c bs (i, e))

-- `simplecache_init` makes a table from the text, in which `simplecache_get` finds an item with the key.
pub data Finds (opens : Open) (text : List ℕ) (key : List ℕ) (offsets : ℕ → ℕ) : Type 0 where
  finds :
      {items : List Item} {b : Item}
      → simplecache_init opens (some text) ≡ Loaded.loaded items
      → Holds items b
      → b.key ≡ key
      → (simplecache_get (record { items = items; offsets = offsets }) key).0 ≡ pos b.fildes
      → Finds opens text key offsets

got :
    (c : Cache) (key : List ℕ) (a : Item) (r : ℤ × Cache)
    → Holds c.items a
    → a.key ≡ key
    → Gets c key r
    → (b : Item) × Holds c.items b × (b.key ≡ key) × (r.0 ≡ pos b.fildes)
got c key a (z, d) at same (Gets.hit {a = b} at' same') = (b, at', same', refl)
got c key a (z, d) at same (Gets.miss no_item) = absurd (no_item a at same)

-- After `simplecache_init` has read a list of lines "key path" whose words are plain and whose files
-- open, for the key of every file that was opened `simplecache_get` returns the descriptor of an item with
-- that key.
pub simplecache_get-init :
    (opens : Open) (es : List Entry) (items : List Item) (a : Item) (offsets : ℕ → ℕ)
    → Opens 1020 opens 0 es items
    → Holds items a
    → Finds opens (list_text es) a.key offsets
unfolding simplecache_init
simplecache_get-init opens es items a offsets are at =
    let c : Cache = record { items = qsort items; offsets = offsets } in
    let (b, there, same, e) =
      got c a.key a (simplecache_get c a.key) (qsort-Holds a items at) refl
        (simplecache_get-Gets c a.key (qsort-sorts items).0) in
    Finds.finds (load_table-list_text 1020 opens es items are) there same e

same_descriptor : (c : Cache) (l : Lookup) → descriptor l ≡ (fetch c l).0
same_descriptor c (Lookup.found item) = refl
same_descriptor c Lookup.absent = refl
same_descriptor c Lookup.out_of_bounds = refl
same_descriptor c Lookup.out_of_fuel = refl

-- `content_get` of projects/mtgf returns what `simplecache_get` returns on the same table.
mtgf_content_get-simplecache_get :
    (c : Cache) (key : List ℕ) → mtgf_content_get c.items key ≡ (simplecache_get c key).0
unfolding mtgf_content_get simplecache_get
mtgf_content_get-simplecache_get c key =
    same_descriptor c (search_loop (suc (length c.items)) c.items key 0 (length c.items))
