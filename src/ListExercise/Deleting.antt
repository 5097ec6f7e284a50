-- ===== src/ListExercise/Deleting.antt =====
-- `delete_from_list` of exercises/test.c on a list with other nodes.
use mathlib.Core.Option.{some-ne-none}
use c_exercises.Base.{
  ℕ, ◌<◌, ◌≡◌, refl, ◌≢◌, sym, ◌∙◌, ap, false, Option, none, some, [], ◌∷◌, ◌++◌, arith, ◌==◌,
  Bool-cases, inl, inr, eq→==, length, ℤ, pos,
}
use c_exercises.Memory.{visit-ok, assign, release}
use c_exercises.Steque.Memory.{
  Ptr, null, Node, node, Heap, write, Run, ok, ◌>>=◌, Points-write_ne, not_null,
}
use c_exercises.Steque.Links.{Cells, last_ptr, last-apart}
use c_exercises.ListExercise.{
  Globals, globals, IsList, search_in_list, unlink_node, move_globals, delete_found,
  delete_from_list,
}
use c_exercises.ListExercise.Finding.{first_with, search_in_list-first}
use c_exercises.ListExercise.Cutting.{Cut, Chain-Cut, back_of-suffix}

-- A run on `h` that reports success, leaves the list `xs`, frees the node at `p`, and writes to no other
-- node than the one at `prev`.
pub record Deletes (h : Heap) (prev p : Ptr) (xs : Cells) (run : Run Node (ℤ × Globals))
    : Type 0 where
  pub after : Globals
  pub heap : Heap
  pub runs : run ≡ ok (pos 0, after) heap
  pub is : IsList heap after xs
  pub freed : heap p ≡ none
  pub kept : (a : Ptr) → a ≢ prev → a ≢ p → heap a ≡ h a

write_self : (h : Heap) (p : Ptr) (c : Option Node) → write h p c p ≡ c
unfolding write
write_self h p c = rw (eq→== p p refl) refl

written_twice :
    (h : Heap) {p q : Ptr} (c d : Option Node) (a : Ptr)
    → a ≢ p
    → a ≢ q
    → write (write h p c) q d a ≡ h a
unfolding write
written_twice h c d a ne_p ne_q = ground (arith, ne_p, ne_q)

-- The value is behind the nodes `ys` and `prev`, none of which has it.
first_with-inside :
    (val before prev p : ℕ) (u : ℕ) (ys zs : Cells)
    → first_with val before (ys ++ (prev, u) ∷ []) ≡ none
    → first_with val before (ys ++ (prev, u) ∷ (p, val) ∷ zs) ≡ some (p, prev)
first_with-inside val before prev p u [] zs h = elim (Bool-cases (u == val)) [
  | inl same ↦ absurd (some-ne-none _ (rw (first_with, same) at h))
  | inr other ↦ rw (first_with, other, eq→== val val refl) refl
]
first_with-inside val before prev p u ((q, w) ∷ ys) zs h = elim (Bool-cases (w == val)) [
  | inl same ↦ absurd (some-ne-none _ (rw (first_with, same) at h))
  | inr other ↦
      rw (first_with, other) (first_with-inside val q prev p u ys zs (rw (first_with, other) at h))
]

unlink-run :
    {h : Heap} {q prev p : Ptr} {u v : ℕ} {ys zs : Cells}
    → (cut : Cut h q prev p u v ys zs)
    → unlink_node p prev h ≡ ok tt (write h prev (some (node u cut.next)))
unlink-run {prev} cut =
    rw (not_null cut.before, visit-ok _ cut.there)
      (visit-ok (λ n. assign prev (node n.item cut.next)) cut.before)

-- The rest is decided by what becomes of the globals.
delete_found-run :
    {h : Heap} {q prev p : Ptr} {u v : ℕ} {ys zs : Cells} (g g' : Globals)
    → (cut : Cut h q prev p u v ys zs)
    → move_globals p prev g (write h prev (some (node u cut.next)))
      ≡ ok g' (write h prev (some (node u cut.next)))
    → delete_found (some (p, prev)) g h
      ≡ ok (pos 0, g') (write (write h prev (some (node u cut.next))) p none)
unfolding delete_found
delete_found-run {prev} {p} {u} g g' cut moved =
    rw
      (
        unlink-run cut,
        moved,
        visit-ok (λ d. release p) (Points-write_ne cut.there prev (some (node u cut.next)) cut.ne),
      )
      refl

delete_found-Deletes :
    {h : Heap} {q c prev p : Ptr} {u v : ℕ} (ys zs : Cells)
    → Cut h q prev p u v ys zs
    → c ≡ last_ptr (p, v) zs
    → Deletes h prev p (ys ++ (prev, u) ∷ zs) (delete_found (some (p, prev)) (globals q c) h)
unfolding delete_found
delete_found-Deletes {h} {q} {c} {prev} {p} {u} {v} ys [] cut last = record {
  after = globals q prev;
  heap = write (write h prev (some (node u cut.next))) p none;
  runs = delete_found-run (globals q c) (globals q prev) cut (rw (last, eq→== p p refl) refl);
  is = record { chain = cut.chain; last = sym (back_of-suffix ys (prev, u) []) };
  freed = write_self (write h prev (some (node u cut.next))) p none;
  kept = λ a ne_prev ne_p. written_twice h (some (node u cut.next)) none a ne_prev ne_p;
}
delete_found-Deletes {h} {q} {c} {prev} {p} {u} {v} ys (z ∷ zs) cut last = record {
  after = globals q c;
  heap = write (write h prev (some (node u cut.next))) p none;
  runs = delete_found-run (globals q c) (globals q c) cut (
      let not_first : (p == q) ≡ false = ground (arith, cut.not_first) in
      rw (last, last-apart p z zs cut.gone, not_first) refl);
  is = record { chain = cut.chain; last = last ∙ sym (back_of-suffix ys (prev, u) (z ∷ zs)) };
  freed = write_self (write h prev (some (node u cut.next))) p none;
  kept = λ a ne_prev ne_p. written_twice h (some (node u cut.next)) none a ne_prev ne_p;
}

-- When the first node with the value stands behind another one, `delete_from_list` takes it out of the
-- list, frees it and keeps all others in order, and `curr` points to the last node again. Nothing else
-- of the memory changes, but for the node in front of it.
pub delete_from_list-Deletes :
    {h : Heap} {g : Globals} (fuel val prev p u : ℕ) (ys zs : Cells)
    → IsList h g (ys ++ (prev, u) ∷ (p, val) ∷ zs)
    → first_with val null (ys ++ (prev, u) ∷ []) ≡ none
    → length (ys ++ (prev, u) ∷ (p, val) ∷ zs) < fuel
    → Deletes h prev p (ys ++ (prev, u) ∷ zs) (delete_from_list fuel val g h)
unfolding delete_from_list
delete_from_list-Deletes {h} {g} fuel val prev p u ys zs is new enough =
    let found : search_in_list fuel val g h ≡ ok (some (p, prev)) h =
      search_in_list-first fuel val is enough
      ∙ ap (λ r. ok r h) (first_with-inside val null prev p u ys zs new) in
    rw (found, ◌>>=◌)
      (delete_found-Deletes ys zs (Chain-Cut ys is.chain)
        (is.last ∙ back_of-suffix ys (prev, u) ((p, val) ∷ zs)))
