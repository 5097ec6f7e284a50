-- ===== src/ListExercise/Finding.antt =====
-- `search_in_list` and `delete_from_list` of exercises/test.c.
use c_exercises.Base.{
  ℕ, zero, suc, ◌<◌, ◌≡◌, refl, true, false, Option, none, some, [], ◌∷◌, arith, ◌==◌, Bool-cases,
  eq→==, inl, inr, length, pos,
}
use c_exercises.Memory.{visit-ok, release}
use c_exercises.Steque.Memory.{Ptr, null, Heap, write, ok, ◌>>=◌, not_null}
use c_exercises.Steque.Links.{Cells, Chain, nil, cons}
use c_exercises.ListExercise.{
  Globals, globals, IsList, search_loop, search_in_list, delete_found, delete_from_list,
}

-- The first node with the value, and the one before it.
abbrev pub first_with : ℕ → Ptr → Cells → Option (Ptr × Ptr)
first_with val prev [] = none
first_with val prev ((p, v) ∷ xs) = elim (v == val) [
  | true ↦ some (p, prev)
  | false ↦ first_with val p xs
]

search_loop-first :
    {h : Heap} {p : Ptr} {xs : Cells} (fuel val : ℕ) (prev : Ptr)
    → Chain h null p xs
    → length xs < fuel
    → search_loop fuel val p prev h ≡ ok (first_with val prev xs) h
unfolding search_loop
search_loop-first zero val prev s enough = absurd (omega arith)
search_loop-first (suc fuel) val prev nil enough = refl
search_loop-first {h} (suc fuel) val prev (cons {p} {q} {v} {xs} e out s) enough =
    elim (Bool-cases (v == val)) [
      | inl here ↦ rw (not_null e, search_loop, visit-ok _ e, first_with, here) refl
      | inr other ↦
          rw (not_null e, search_loop, visit-ok _ e, first_with, other)
            (search_loop-first fuel val p s (omega arith))
    ]

-- `search_in_list` ends and changes nothing; it finds the first node with the value and the node before
-- it, and NULL when there is none.
pub search_in_list-first :
    {h : Heap} {g : Globals} {xs : Cells} (fuel val : ℕ)
    → IsList h g xs
    → length xs < fuel
    → search_in_list fuel val g h ≡ ok (first_with val null xs) h
unfolding search_in_list
search_in_list-first fuel val is enough = search_loop-first fuel val null is.chain enough

same-eq : (a : ℕ) → (a == a) ≡ true
same-eq a = eq→== a a refl

only-found :
    {h : Heap} {p q c : Ptr} {v : ℕ}
    → Chain h null q ((p, v) ∷ [])
    → c ≡ p
    → delete_found (some (p, null)) (globals q c) h ≡ ok (pos 0, globals p null) (write h p none)
unfolding delete_found
only-found {p} (cons e out nil) last = rw (last, same-eq p, visit-ok (λ d. release p) e) refl

-- On a list whose only node has the value, `delete_from_list` reports success, frees the node, sets
-- `curr` to NULL, and leaves `head` pointing to the freed node.
delete_from_list-only :
    {h : Heap} {g : Globals} {p : Ptr} {v : ℕ} (fuel : ℕ)
    → IsList h g ((p, v) ∷ [])
    → 1 < fuel
    → delete_from_list fuel v g h ≡ ok (pos 0, globals p null) (write h p none)
unfolding delete_from_list
delete_from_list-only {h} {g} {p} {v} fuel is enough =
    let found : search_in_list fuel v g h ≡ ok (some (p, null)) h =
      rw (first_with, same-eq v) at (search_in_list-first fuel v is enough) in
    rw (found, ◌>>=◌) (only-found is.chain is.last)
