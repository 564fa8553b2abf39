-- ===== src/Types/TypeGraph/Tests.antt =====
-- compiler/src/types/type_graph.rs on three constraints.
use live_programming_prototy.Prelude.{◌≡◌, refl, true, false, ◌||◌, List, [], ◌∷◌}
use live_programming_prototy.Common.{codes, text_eq, text_instance}
use live_programming_prototy.Types.Constraints.{Constraint, equivalent, function, symbol_reference}
use live_programming_prototy.Types.TypeGraph.{find_boundary_constraints, new_graph}
use live_programming_prototy.Types.TypeGraph.Boundary.{
  holds, slots_touch, symbols_touch, later_graph, find_boundary_constraints-holds,
}

abbrev three : List Constraint
three =
    record { id = 20; content = equivalent 1 2 }
    ∷ record { id = 21; content = function 3 (1 ∷ []) 4 }
    ∷ record { id = 22; content = symbol_reference 9 (codes "f") 5 }
    ∷ []

only_the_call_and_the_name :
    (holds (find_boundary_constraints (later_graph three [] (4 ∷ []) ((codes "f") ∷ [])) []).1 20
      ≡ false)
    × (holds (find_boundary_constraints (later_graph three [] (4 ∷ []) ((codes "f") ∷ [])) []).1 21
        ≡ true)
    × (holds (find_boundary_constraints (later_graph three [] (4 ∷ []) ((codes "f") ∷ [])) []).1 22
        ≡ true)
unfolding find_boundary_constraints new_graph text_eq
only_the_call_and_the_name = (refl, refl, refl)

find_boundary_constraints-holds_example :
    (holds (find_boundary_constraints (later_graph three [] (4 ∷ []) ((codes "f") ∷ [])) []).1 21
      ≡ (holds [] 21
          || (slots_touch three (4 ∷ []) 21 || symbols_touch three ((codes "f") ∷ []) 21)))
    × ((find_boundary_constraints (later_graph three [] (4 ∷ []) ((codes "f") ∷ [])) []).0
        ≡ later_graph three [] [] [])
find_boundary_constraints-holds_example =
    find_boundary_constraints-holds three [] (4 ∷ []) ((codes "f") ∷ []) [] 21
