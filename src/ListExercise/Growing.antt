-- ===== src/ListExercise/Growing.antt =====
-- `add_to_list` of exercises/test.c against the list of nodes.
use c_exercises.Base.{
  ℕ, ◌≡◌, refl, sym, ◌≢◌, Bool, true, false, none, some, [], ◌∷◌, ◌++◌, arith, ◌==◌,
}
use c_exercises.Memory.{visit-ok, assign}
use c_exercises.Steque.Memory.{Ptr, null, Node, node, Heap, write, Run, ok, Points, Points-new}
use c_exercises.Steque.Links.{
  Cells, Chain, nil, cons, back_of, back_of-append, last_ptr, last_item, last-Points, frame-write,
  fresh-not-occurs, head-ne-null,
}
use c_exercises.Steque.Ends.{appended-Chain}
use c_exercises.ListExercise.{Globals, globals, IsList, create_list, add_to_list}

-- A run that returns the new node and leaves the list `xs`.
pub record Adds (fresh : Ptr) (xs : Cells) (run : Run Node (Ptr × Globals)) : Type 0 where
  pub after : Globals
  pub heap : Heap
  pub runs : run ≡ ok (fresh, after) heap
  pub is : IsList heap after xs

abbrev placed : Bool → Ptr × ℕ → Cells → Cells
placed true c xs = xs ++ c ∷ []
placed false c xs = c ∷ xs

module _ (h : Heap) (fresh : Ptr) (val : ℕ) (ne : fresh ≢ null) (unused : h fresh ≡ none) where
  there : (fresh == null) ≡ false
  there = ground (arith, ne)

  add-nil :
      (at_end : Bool) (p q : Ptr)
      → p ≡ null
      → Adds fresh ((fresh, val) ∷ []) (add_to_list fresh val at_end (globals p q) h)
  unfolding add_to_list create_list
  add-nil at_end p q e = record {
    after = globals fresh fresh;
    heap = write h fresh (some (node val null));
    runs = rw (e, there) refl;
    is = record { chain = cons (Points-new h fresh val null ne) refl nil; last = refl };
  }

  add-end :
      {p q : Ptr} {c : Ptr × ℕ} {xs : Cells}
      → Chain h null p (c ∷ xs)
      → q ≡ back_of (c ∷ xs)
      → Adds fresh (c ∷ xs ++ (fresh, val) ∷ []) (add_to_list fresh val true (globals p q) h)
  unfolding add_to_list
  add-end {p} {q} {c} {xs} s last =
      let head_there : (p == null) ≡ false = ground (arith, head-ne-null s) in
      let tail : Points (write h fresh (some (node val null))) (last_ptr c xs) (last_item c xs)
          null =
        last-Points
          (frame-write fresh (some (node val null)) s (fresh-not-occurs fresh s unused)) in
      record {
        after = globals p fresh;
        heap =
            write (write h fresh (some (node val null))) (last_ptr c xs)
              (some (node (last_item c xs) fresh));
        runs =
            rw
              (
                head_there,
                there,
                last,
                visit-ok (λ n. assign (last_ptr c xs) (node n.item fresh)) tail,
              )
              refl;
        is = record {
          chain = appended-Chain fresh val ne unused s;
          last = sym (back_of-append (c ∷ xs) fresh val);
        };
      }

  add-front :
      {p q : Ptr} {c : Ptr × ℕ} {xs : Cells}
      → Chain h null p (c ∷ xs)
      → q ≡ back_of (c ∷ xs)
      → Adds fresh ((fresh, val) ∷ c ∷ xs) (add_to_list fresh val false (globals p q) h)
  unfolding add_to_list
  add-front {p} {q} {c} {xs} s last =
      let head_there : (p == null) ≡ false = ground (arith, head-ne-null s) in
      let out = fresh-not-occurs fresh s unused in
      record {
        after = globals fresh q;
        heap = write h fresh (some (node val p));
        runs = rw (head_there, there) refl;
        is = record {
          chain = cons (Points-new h fresh val p ne) out (frame-write fresh _ s out);
          last = last;
        };
      }

  add-Chain :
      {p q : Ptr} (xs : Cells) (at_end : Bool)
      → Chain h null p xs
      → q ≡ back_of xs
      → Adds fresh (placed at_end (fresh, val) xs) (add_to_list fresh val at_end (globals p q) h)
  add-Chain {p} {q} [] true nil last = add-nil true p q refl
  add-Chain {p} {q} [] false nil last = add-nil false p q refl
  add-Chain (c ∷ xs) true s last = add-end s last
  add-Chain (c ∷ xs) false s last = add-front s last

  -- Given an unused address, `add_to_list` returns the new node and puts it behind all others or in front
  -- of them, as asked for.
  pub add_to_list-Adds :
      {g : Globals} {xs : Cells} (at_end : Bool)
      → IsList h g xs
      → Adds fresh (placed at_end (fresh, val) xs) (add_to_list fresh val at_end g h)
  add_to_list-Adds {g} {xs} at_end is = add-Chain xs at_end is.chain is.last
