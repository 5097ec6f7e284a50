-- ===== src/Steque/Tests.antt =====
-- Steques of one and two nodes.
use c_exercises.Base.{◌≡◌, refl, none, some, [], ◌∷◌, ◌++◌, arith, ◌==◌, if◌then◌else◌}
use c_exercises.Steque.Memory.{null, node, Heap, ok}
use c_exercises.Steque.Links.{Cells, nil, cons}
use c_exercises.Steque.{Steque, steque, IsSteque, enqueue, peek, destroy}
use c_exercises.Steque.Ends.{Leaves, Pops, enqueue-append, pop-cons, peek-cons}
use c_exercises.Steque.Rotate.{Empties, destroy-Empties}

-- The nodes 7 at address 1 and 8 at address 2.
abbrev memory : Heap
memory a = if a == 1 then some (node 7 2) else if a == 2 then some (node 8 null) else none

abbrev cells : Cells
cells = (1, 7) ∷ (2, 8) ∷ []

abbrev two : Steque
two = steque 1 2 2

abbrev none_at_all : Steque
none_at_all = steque null null 0

two-IsSteque : IsSteque memory two cells
two-IsSteque = record {
  chain =
      cons (record { ne_null = omega arith; holds = refl }) refl
        (cons (record { ne_null = omega arith; holds = refl }) refl nil);
  last = refl;
  count = refl;
}

empty-IsSteque : IsSteque memory none_at_all []
empty-IsSteque = record { chain = nil; last = refl; count = refl }

enqueue-append_example : Leaves memory (enqueue 3 two 9) ((3, 9) ∷ cells) (cells ++ (3, 9) ∷ [])
enqueue-append_example = enqueue-append 3 9 (omega arith) refl two-IsSteque

pop-cons_example : Pops memory two 1 7 ((2, 8) ∷ [])
pop-cons_example = pop-cons two-IsSteque

peek-cons_example : peek two memory ≡ ok 7 memory
peek-cons_example = peek-cons two-IsSteque

destroy-Empties_example : Empties memory (destroy two) cells
destroy-Empties_example = destroy-Empties two-IsSteque
