-- ===== src/Cache/Search.antt =====
-- `simplecache_get` finds a key in a sorted table exactly when it is there.
use Prim.Native.Nat.{Ordering}
use c_exercises.Base.{
  ℕ, zero, suc, ◌+◌, ◌-◌, ◌/◌, ◌≤◌, ◌<◌, ◌≡◌, refl, sym, ◌∙◌, subst, ◌≢◌, inl, inr, Option, none,
  some, List, arith, ltb, Bool-cases, ltb→lt, ltb→le, lt→ltb, le→ltb, length, get_elem?,
  get_elem?-none, get_elem?-some, ℤ, pos, minus_one,
}
use mathlib.Core.Option.{some-injective}
use c_exercises.Cache.{Item, strcmp, Lookup, search_loop, Cache, rewind, fetch, simplecache_get}
use c_exercises.Cache.Order.{strcmp-eq, strcmp-gt_le, strcmp-lt_le, strcmp_refl}

-- The keys do not descend.
unfoldable pub IsSorted : List Item → Type 0
IsSorted items =
    (i j : ℕ) (a b : Item)
    → i < j
    → get_elem? items i ≡ some a
    → get_elem? items j ≡ some b
    → strcmp a.key b.key ≢ Ordering.gt

-- The item stands in the table.
unfoldable pub Holds : List Item → Item → Type 0
Holds items a = (i : ℕ) × (get_elem? items i ≡ some a)

-- What a search promises.
pub data Finds (items : List Item) (key : List ℕ) : Lookup → Type 0 where
  found : {a : Item} → Holds items a → a.key ≡ key → Finds items key (Lookup.found a)
  absent : ((a : Item) → Holds items a → a.key ≢ key) → Finds items key Lookup.absent

module _ (items : List Item) (key : List ℕ) (sorted : IsSorted items) where
  -- The key is behind the items before `lo`, and before those from `top` on.
  Behind : ℕ → Type 0
  Behind lo =
      (i : ℕ) (a : Item) → i < lo → get_elem? items i ≡ some a → strcmp key a.key ≡ Ordering.gt

  Before : ℕ → Type 0
  Before top =
      (i : ℕ) (a : Item) → top ≤ i → get_elem? items i ≡ some a → strcmp key a.key ≡ Ordering.lt

  nowhere :
      (lo top : ℕ) → top ≤ lo → Behind lo → Before top → (a : Item) → Holds items a → a.key ≢ key
  unfolding Behind Before Holds
  nowhere lo top past behind before a (i, e) same =
      let eq : strcmp key a.key ≡ Ordering.eq = rw same (strcmp_refl key) in
      elim (Bool-cases (ltb i lo)) [
        | inl low ↦ let gt = behind i a (ltb→lt i lo low) e in cc
        | inr high ↦ let lt = before i a (omega (arith, ltb→le i lo high)) e in cc
      ]

  mid-Behind :
      (mid : ℕ) (m : Item)
      → get_elem? items mid ≡ some m
      → strcmp key m.key ≡ Ordering.gt
      → Behind (mid + 1)
  unfolding Behind IsSorted
  mid-Behind mid m e gt i a low f = elim (Bool-cases (ltb i mid)) [
    | inl less ↦ strcmp-gt_le key m.key a.key gt (sorted i mid a m (ltb→lt i mid less) f e)
    | inr last ↦
        let at_mid : i ≡ mid = omega (arith, ltb→le i mid last) in
        let same : some a ≡ some m = sym f ∙ (rw at_mid e) in
        subst (λ x. strcmp key x.key ≡ Ordering.gt) (sym (some-injective a m same)) gt
  ]

  mid-Before :
      (mid : ℕ) (m : Item)
      → get_elem? items mid ≡ some m
      → strcmp key m.key ≡ Ordering.lt
      → Before mid
  unfolding Before IsSorted
  mid-Before mid m e lt i a high f = elim (Bool-cases (ltb mid i)) [
    | inl more ↦ strcmp-lt_le key m.key a.key lt (sorted mid i m a (ltb→lt mid i more) e f)
    | inr first ↦
        let at_mid : i ≡ mid = omega (arith, ltb→le mid i first) in
        let same : some a ≡ some m = sym f ∙ (rw at_mid e) in
        subst (λ x. strcmp key x.key ≡ Ordering.lt) (sym (some-injective a m same)) lt
  ]

  Searches : ℕ → Type 0
  Searches fuel =
      (lo top : ℕ)
      → top ≤ length items
      → top ≤ fuel + lo
      → Behind lo
      → Before top
      → Finds items key (search_loop (suc fuel) items key lo top)

  -- A round with items left to search.
  round-Finds :
      (fuel lo top : ℕ)
      → lo < top
      → top ≤ length items
      → top ≤ suc fuel + lo
      → Behind lo
      → Before top
      → ((lo top : ℕ)
          → top ≤ length items
          → top ≤ fuel + lo
          → Behind lo
          → Before top
          → Finds items key (search_loop (suc fuel) items key lo top))
      → (r : Option Item) → get_elem? items (lo + (top - 1 - lo) / 2) ≡ r
      → Finds items key (search_loop (suc (suc fuel)) items key lo top)
  unfolding search_loop Holds
  round-Finds fuel lo top more in_table enough behind before ih none e =
      absurd (omega (arith, get_elem?-none items (lo + (top - 1 - lo) / 2) e))
  round-Finds fuel lo top more in_table enough behind before ih (some m) e =
      probe (strcmp key m.key) refl
    where
      probe :
          (o : Ordering)
          → strcmp key m.key ≡ o
          → Finds items key (search_loop (suc (suc fuel)) items key lo top)
      probe Ordering.lt o =
          rw (lt→ltb lo top more, e, o, search_loop)
            (ih lo (lo + (top - 1 - lo) / 2) (omega arith) (omega arith) behind
              (mid-Before (lo + (top - 1 - lo) / 2) m e o))
      probe Ordering.gt o =
          rw (lt→ltb lo top more, e, o, search_loop)
            (ih (lo + (top - 1 - lo) / 2 + 1) top in_table (omega arith)
              (mid-Behind (lo + (top - 1 - lo) / 2) m e o) before)
      probe Ordering.eq o =
          rw (lt→ltb lo top more, e, o, search_loop)
            (Finds.found (lo + (top - 1 - lo) / 2, e) (sym (strcmp-eq key m.key o)))

  search_loop-Finds : (fuel : ℕ) → Searches fuel
  unfolding Searches search_loop
  search_loop-Finds zero lo top in_table enough behind before =
      rw (le→ltb lo top (omega arith), search_loop)
        (Finds.absent (nowhere lo top (omega arith) behind before))
  search_loop-Finds (suc fuel) lo top in_table enough behind before =
      elim (Bool-cases (ltb lo top)) [
        | inl more ↦
            round-Finds fuel lo top (ltb→lt lo top more) in_table enough behind before
              (search_loop-Finds fuel) (get_elem? items (lo + (top - 1 - lo) / 2)) refl
        | inr over ↦
            rw (over, search_loop)
              (Finds.absent (nowhere lo top (ltb→le lo top over) behind before))
      ]

-- What a call returns, and what becomes of the cache.
pub data Gets (c : Cache) (key : List ℕ) : ℤ × Cache → Type 0 where
  hit :
      {a : Item}
      → Holds c.items a
      → a.key ≡ key
      → Gets c key (pos a.fildes, record c { offsets = rewind a.fildes c.offsets })
  miss : ((a : Item) → Holds c.items a → a.key ≢ key) → Gets c key (minus_one, c)

fetch-Gets : (c : Cache) (key : List ℕ) (r : Lookup) → Finds c.items key r → Gets c key (fetch c r)
fetch-Gets c key (Lookup.found a) (Finds.found at same) = Gets.hit at same
fetch-Gets c key Lookup.absent (Finds.absent missing) = Gets.miss missing
fetch-Gets c key Lookup.out_of_bounds f = elim f [ ]
fetch-Gets c key Lookup.out_of_fuel f = elim f [ ]

-- On a table sorted by key, `simplecache_get` returns: the descriptor of an item with that key,
-- which it rewinds, or, when no item has the key, -1, and then it changes nothing.
pub simplecache_get-Gets :
    (c : Cache) (key : List ℕ) → IsSorted c.items → Gets c key (simplecache_get c key)
unfolding simplecache_get Searches Behind Before
simplecache_get-Gets c key sorted =
    fetch-Gets c key (search_loop (suc (length c.items)) c.items key 0 (length c.items)) (
      search_loop-Finds c.items key sorted (length c.items) 0 (length c.items) (omega arith)
        (omega arith) (λ i a low e. absurd (omega arith))
        (λ i a high e. absurd (omega (arith, get_elem?-some c.items i a e))))
