-- ===== src/Types/Solver/Tests.antt =====
-- compiler/src/types/solver.rs on a call and an equivalence.
use live_programming_prototy.Prelude.{
  arith, true, ◌≡◌, refl, List, [], ◌∷◌, some, ok, Outcome, Option, nat_eq,
}
use live_programming_prototy.Types.{
  Ty, node, nil, cons, prim, fun, i64, abstract, integer, content_eq, length,
}
use live_programming_prototy.Types.Kinds.{is_float, is_int, signed_int, unsigned_int, contains_type}
use live_programming_prototy.Types.Unify.{incremental_unify, unify_top, unify_next}
use live_programming_prototy.Types.Unify.Order.{is_mono}
use live_programming_prototy.Types.Solver.Equivalence.{force_equivalence-settles}
use live_programming_prototy.Types.Constraints.{Constraint, equivalent, function}
use live_programming_prototy.Types.TypeGraph.{empty_graph, type_updated}
use live_programming_prototy.Types.Slots.{
  update_type, unify_slot, back_into, update_type_mut, unify_back,
}
use live_programming_prototy.Types.Solver.{
  Solving, update, update_mut, force_equivalence, update_args, type_of,
}
use live_programming_prototy.Types.Solver.Process.{
  call_function, process, process_constraint, process_all,
}
use live_programming_prototy.Types.Solver.Tracks.{Keeps, self}
use live_programming_prototy.Types.Solver.Tracks.Kinds.{process_all-Keeps}

abbrev int : Ty
int = node (prim i64) nil

-- Slot 1 holds a function from integers to integers, slot 2 an integer literal.
abbrev before : Solving
before = record {
  slots = record {
    located = 1 ∷ 2 ∷ 3 ∷ 4 ∷ [];
    types = (1, node fun (cons int (cons int nil))) ∷ (2, node (abstract integer) nil) ∷ [];
    graph = empty_graph;
    errors = [];
  };
  directory = record { imports = []; new_unit_id = 1; types = [] };
  mapping = record {
    node_type = [];
    sizeof_info = [];
    symbol_references = [];
    polymorphic_references = [];
    symbol_def_nodes = [];
    type_def_nodes = [];
  };
  failures = [];
  failed_constraint_ids = [];
}

-- The call gives slot 3 its type, which slot 4 then takes.
abbrev calls : List Constraint
calls =
    record { id = 20; content = function 1 (2 ∷ []) 3 }
    ∷ record { id = 21; content = equivalent 3 4 }
    ∷ []

abbrev slot_four : Outcome ⊥ Solving → Option Ty
slot_four (ok s) = type_of s 4
slot_four _ = Option.none

four_is_int : slot_four (process_all 0 calls before) ≡ some int
unfolding process_all process_constraint process unify_slot back_into call_function update_args
    force_equivalence update update_mut update_type update_type_mut unify_back type_updated
    incremental_unify unify_top unify_next content_eq contains_type is_int is_float signed_int
    unsigned_int length
four_is_int = refl

process_all-Keeps_example : Keeps self before (process_all 0 calls before)
process_all-Keeps_example = process_all-Keeps 0 calls before

-- Slot 2 holds an integer literal and slot 3 a 64-bit integer.
abbrev literal : Ty
literal = node (abstract integer) nil

abbrev two_slots : Solving
two_slots = record before { slots = record (before.slots) { types = (2, literal) ∷ (3, int) ∷ [] } }

literal_mono : is_mono literal ≡ true
unfolding is_mono
literal_mono = refl

int_mono : is_mono int ≡ true
unfolding is_mono
int_mono = refl

literal_fits : (incremental_unify literal int).1.unify_success ≡ true
unfolding incremental_unify unify_top unify_next content_eq contains_type is_int is_float signed_int
    unsigned_int length
literal_fits = refl

force_equivalence-settles_example :
    (s' : Solving) × (force_equivalence 2 3 two_slots ≡ ok s')
    × (type_of s' 2 ≡ some (incremental_unify literal int).0)
    × (type_of s' 3 ≡ some (incremental_unify literal int).0)
    × (s'.slots.errors ≡ two_slots.slots.errors)
    × (s'.failures ≡ two_slots.failures)
force_equivalence-settles_example =
    force_equivalence-settles 2 3 two_slots literal (omega arith) refl literal_mono int_mono
      literal_fits
