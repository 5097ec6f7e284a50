-- ===== src/ListExercise.antt =====
-- The linked list of exercises/test.c, with its two globals `head` and `curr`, on the memory of the
-- queues: a `struct test_struct` has the shape of their node, and `val` is its item. What `malloc`
-- returns is the argument `fresh`, which may be NULL. Printing is left out.
pub mod Growing
pub mod Finding
pub mod Cutting
pub mod Deleting
mod Tests
use c_exercises.Base.{
  ℕ, zero, suc, ◌+◌, Bool, true, false, Option, none, some, ◌==◌, if◌then◌else◌, ℤ, pos, minus_one,
  ◌≡◌, List, length,
}
use c_exercises.Memory.{visit, assign, release}
use c_exercises.Steque.Memory.{Ptr, null, Node, node, Heap, Cmd, pure, ◌>>=◌, ◌>>◌, out_of_fuel}
use c_exercises.Steque.Links.{Cells, Chain, back_of}

pub record Globals : Type 0 where
  pub head : Ptr
  pub curr : Ptr

abbrev pub globals : Ptr → Ptr → Globals
globals h c = record { head = h; curr = c }

-- The nodes from `head` on, in order; `curr` points to the last one.
pub record IsList (h : Heap) (g : Globals) (xs : Cells) : Type 0 where
  pub chain : Chain h null g.head xs
  pub last : g.curr ≡ back_of xs

unfoldable pub create_list : Ptr → ℕ → Globals → Cmd (Ptr × Globals)
create_list fresh val g =
    if fresh == null
    then pure (null, g)
    else do assign fresh (node val null); pure (fresh, globals fresh fresh)

unfoldable pub add_to_list : Ptr → ℕ → Bool → Globals → Cmd (Ptr × Globals)
add_to_list fresh val add_to_end g =
    if g.head == null
    then create_list fresh val g
    else if fresh == null
    then pure (null, g)
    else if add_to_end
    then (do
      assign fresh (node val null)
      visit g.curr (λ n. assign g.curr (node n.item fresh))
      pure (fresh, globals g.head fresh))
    else (do assign fresh (node val g.head); pure (fresh, globals fresh g.curr))

-- The loop of `search_in_list` at `ptr`, with `tmp` before it: the node found and the one before it.
-- The fuel bounds the nodes.
unfoldable pub search_loop : ℕ → ℕ → Ptr → Ptr → Cmd (Option (Ptr × Ptr))
search_loop zero val ptr tmp = out_of_fuel
search_loop (suc fuel) val ptr tmp = elim (ptr == null) [
  | true ↦ pure none
  | false ↦ visit ptr (λ n. elim (n.item == val) [
    | true ↦ pure (some (ptr, tmp))
    | false ↦ search_loop fuel val n.next ptr
  ])
]

unfoldable pub search_in_list : ℕ → ℕ → Globals → Cmd (Option (Ptr × Ptr))
search_in_list fuel val g = search_loop fuel val g.head null

-- `if (prev != NULL) prev->next = del->next;`
abbrev pub unlink_node : Ptr → Ptr → Cmd (Unit {0})
unlink_node del prev =
    if prev == null
    then pure tt
    else visit del (λ d. visit prev (λ p. assign prev (node p.item d.next)))

-- The globals behind it: `curr` moves back, or else `head` moves on.
abbrev pub move_globals : Ptr → Ptr → Globals → Cmd Globals
move_globals del prev g =
    if del == g.curr
    then pure (globals g.head prev)
    else if del == g.head
    then visit del (λ d. pure (globals d.next g.curr))
    else pure g

unfoldable pub delete_found : Option (Ptr × Ptr) → Globals → Cmd (ℤ × Globals)
delete_found none g = pure (minus_one, g)
delete_found (some (del, prev)) g = do
  unlink_node del prev
  g' ← move_globals del prev g
  visit del (λ d. release del)
  pure (pos 0, g')

unfoldable pub delete_from_list : ℕ → ℕ → Globals → Cmd (ℤ × Globals)
delete_from_list fuel val g = do found ← search_in_list fuel val g; delete_found found g
