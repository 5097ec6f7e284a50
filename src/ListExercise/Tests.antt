-- ===== src/ListExercise/Tests.antt =====
-- A list of one node, with 7 at address 1.
use c_exercises.Base.{refl, true, none, some, [], ◌∷◌, arith, ◌==◌, if◌then◌else◌}
use c_exercises.Steque.Memory.{null, node, Heap}
use c_exercises.Steque.Links.{nil, cons}
use c_exercises.ListExercise.{Globals, globals, IsList, add_to_list, delete_from_list}
use c_exercises.ListExercise.Growing.{Adds, add_to_list-Adds}
use c_exercises.ListExercise.Deleting.{Deletes, delete_from_list-Deletes}

abbrev memory : Heap
memory a = if a == 1 then some (node 7 null) else none

abbrev single : Globals
single = globals 1 1

single-IsList : IsList memory single ((1, 7) ∷ [])
single-IsList = record {
  chain = cons (record { ne_null = omega arith; holds = refl }) refl nil;
  last = refl;
}

add_to_list-Adds_example : Adds 2 ((1, 7) ∷ (2, 9) ∷ []) (add_to_list 2 9 true single memory)
add_to_list-Adds_example = add_to_list-Adds memory 2 9 (omega arith) refl true single-IsList

-- A list of 7, 8 and 9 at the addresses 1, 2 and 3.
abbrev three_nodes : Heap
three_nodes a =
    if a == 1
    then some (node 7 2)
    else if a == 2
    then some (node 8 3)
    else if a == 3
    then some (node 9 null)
    else none

abbrev three : Globals
three = globals 1 3

three-IsList : IsList three_nodes three ((1, 7) ∷ (2, 8) ∷ (3, 9) ∷ [])
three-IsList = record {
  chain =
      cons (record { ne_null = omega arith; holds = refl }) refl
        (cons (record { ne_null = omega arith; holds = refl }) refl
          (cons (record { ne_null = omega arith; holds = refl }) refl nil));
  last = refl;
}

delete_from_list-Deletes_example :
    Deletes three_nodes 1 2 ((1, 7) ∷ (3, 9) ∷ []) (delete_from_list 4 8 three three_nodes)
delete_from_list-Deletes_example =
    delete_from_list-Deletes 4 8 1 2 7 [] ((3, 9) ∷ []) three-IsList refl (omega arith)
