-- ===== src/Types/Solver/Infer/Tests.antt =====
-- compiler/src/types/solver.rs, `infer` on two nodes.
use live_programming_prototy.Prelude.{ok, ◌≡◌, refl, [], ◌∷◌}
use live_programming_prototy.Types.{
  Ty, node, nil, prim, i64, abstract, integer, ptr, def, cons, content_eq, length,
}
use live_programming_prototy.Types.Kinds.{
  any_type, try_harden_literal, is_concrete, is_float, is_int, signed_int, unsigned_int,
  contains_type,
}
use live_programming_prototy.Common.{Text, text_eq, text_instance}
use live_programming_prototy.Nodes.{struct_kind}
use live_programming_prototy.Types.Instances.{find_type_def}
use live_programming_prototy.Types.Directory.{TypeDirectory, find_type_def_in, first_type_def}
use live_programming_prototy.Types.Unify.{incremental_unify, unify_top, unify_next}
use live_programming_prototy.Types.Constraints.{equivalent}
use live_programming_prototy.Types.TypeGraph.{
  empty_graph, type_updated, new_graph, populate_all, populate, add_slot, insert_all,
  find_boundary_constraints, drain_symbols, drain_slots, slot_constraints,
}
use live_programming_prototy.Types.Slots.{update_type, unify_slot, find_all_unresolved_constraints}
use live_programming_prototy.Types.Solver.{Solving, update, force_equivalence, try_harden_slot}
use live_programming_prototy.Types.Solver.Process.{process, process_constraint, process_all}
use live_programming_prototy.Types.Solver.Infer.{
  Constraints, assert_type, no_errors, literal_slots, process_assertions, process_assertion,
  resolve_abstract_defs, resolve_def, resolve_top, solve, boundary,
}
use live_programming_prototy.Types.Solver.Infer.Assign.{
  infer, find_unresolved, unresolved_errors, reference_errors, unresolved_errors, reference_errors,
  reference_error, assign_types, find_instances, if_no_errors,
}
use live_programming_prototy.Types.Solver.Infer.Resolved.{HasDefs, resolve_abstract_defs-HasDefs}

abbrev int : Ty
int = node (prim i64) nil

abbrev empty : Solving
empty = record {
  slots = record { located = []; types = []; graph = empty_graph; errors = [] };
  directory = record { imports = []; new_unit_id = 1; types = [] };
  mapping = record {
    node_type = [];
    sizeof_info = [];
    symbol_references = [];
    polymorphic_references = [];
    symbol_def_nodes = [];
    type_def_nodes = [];
  };
  failures = [];
  failed_constraint_ids = [];
}

-- Node 7 has slot 1, which is said to be an integer and equivalent to the slot 2 of node 8.
abbrev two_nodes : Constraints
two_nodes = record {
  slots = 1 ∷ 2 ∷ [];
  node_slots = (7, 1) ∷ (8, 2) ∷ [];
  literals = 8 ∷ [];
  constraints = record { id = 20; content = equivalent 1 2 } ∷ [];
  assertions = assert_type 1 int ∷ assert_type 2 (node (abstract integer) nil) ∷ [];
}

abbrev last : Solving
last = record empty {
  slots = record {
    located = two_nodes.slots;
    types = (1, int) ∷ (2, int) ∷ [];
    graph = record (new_graph two_nodes.constraints) { dirty_slots = []; dirty_symbols = [] };
    errors = [];
  };
  mapping = record (empty.mapping) { node_type = (7, int) ∷ (8, int) ∷ [] };
}

returns : infer 0 8 two_nodes empty ≡ ok last
unfolding infer literal_slots process_assertions process_assertion resolve_abstract_defs resolve_top
    update update_type incremental_unify unify_top unify_next content_eq length contains_type is_int
    is_float signed_int unsigned_int type_updated new_graph populate_all populate add_slot
    insert_all solve boundary find_boundary_constraints drain_symbols drain_slots slot_constraints
    process_all process_constraint process force_equivalence no_errors find_unresolved
    find_all_unresolved_constraints is_concrete assign_types find_instances if_no_errors
    reference_error try_harden_slot try_harden_literal unify_slot unresolved_errors reference_errors
returns = refl

-- A unit that defines `box` with one type variable
abbrev box : Text
box = 98 ∷ []

abbrev boxes : TypeDirectory
boxes = record {
  imports = [];
  new_unit_id = 1;
  types =
      (
        1,
        record {
          type_defs =
              (
                box,
                record {
                  name = box;
                  unit_id = 1;
                  kind = struct_kind;
                  fields = [];
                  type_vars = (97 ∷ []) ∷ [];
                },
              )
              ∷ [];
          symbols = [];
          unit_id = 1;
        },
      )
      ∷ [];
}

abbrev bare : Ty
bare = node ptr (cons (node (abstract (def box)) nil) nil)

abbrev found_box : Ty
found_box = node ptr (cons (node (def box 1) (cons any_type nil)) nil)

finds_box : resolve_abstract_defs boxes bare ≡ ok found_box
unfolding resolve_abstract_defs resolve_top resolve_def find_type_def_in first_type_def
    find_type_def length text_eq
finds_box = refl

resolve_abstract_defs-HasDefs_example : HasDefs found_box
resolve_abstract_defs-HasDefs_example = resolve_abstract_defs-HasDefs boxes bare found_box finds_box
