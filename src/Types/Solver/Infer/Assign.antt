-- ===== src/Types/Solver/Infer/Assign.antt =====
-- compiler/src/types/solver.rs: what `infer` does behind its loop. The order of the errors is left out.
use live_programming_prototy.Prelude.{
  ℕ, List, [], ◌∷◌, none, some, Bool, true, false, not, ◌&&◌, if◌then◌else◌, lookup, insert,
  insert_key, nat_eq, Eq, ◌≡◌, ◌↔◌, ok, panicked, ◌>>=◌, arith,
}
use live_programming_prototy.Types.{Ty}
use live_programming_prototy.Types.Kinds.{is_concrete}
use live_programming_prototy.Types.Equality.{type_eq, type_eq_iff}
use live_programming_prototy.Types.Instances.{
  SymbolId, symbol_instance, symbol_eq, symbol_eq_iff, SymbolInit, function, is_polymorphic,
}
use live_programming_prototy.Types.Constraints.{Constraint, ConstraintContent, symbol_reference}
use live_programming_prototy.Types.TypeGraph.{new_graph, insert_all}
use live_programming_prototy.Types.Slots.{find_all_unresolved_constraints}
use live_programming_prototy.Types.Directory.{unwrap, get_symbol}
use live_programming_prototy.Types.Solver.{Solving, Solved, type_of}
use live_programming_prototy.Types.Solver.Process.{unresolved_constraint_error}
use live_programming_prototy.Types.Solver.Infer.{
  Constraints, is_nil, no_errors, literal_slots, edge_constraints, process_assertions, solve,
}

-- The errors for the constraints that are not resolved
unfoldable pub unresolved_errors : ℕ → List Constraint → Solving → Solved
unresolved_errors depth [] s = ok s
unresolved_errors depth (c ∷ cs) s = do
  s' ← unresolved_constraint_error depth c s
  unresolved_errors depth cs s'

-- The errors for the references that are not resolved
unfoldable pub reference_error : ℕ → Constraint → ConstraintContent → Solving → Solved
reference_error depth c (symbol_reference n name result) s =
    elim (lookup n s.mapping.symbol_references) [
      | some id ↦ ok s
      | none ↦ unresolved_constraint_error depth c s
    ]
reference_error depth c content s = ok s

unfoldable pub reference_errors : ℕ → List Constraint → Solving → Solved
reference_errors depth [] s = ok s
reference_errors depth (c ∷ cs) s = do
  s' ← reference_error depth c c.content s
  reference_errors depth cs s'

-- The panic is "Unresolved types found, but no errors generated!".
unfoldable pub find_unresolved : ℕ → Constraints → Solving → Solved
find_unresolved depth c s = do
  let edges = find_all_unresolved_constraints s.slots c.slots []
  s1 ← unresolved_errors depth (edge_constraints edges) s
  s2 ← reference_errors depth c.constraints s1
  if no_errors s2 && not (is_nil edges) then panicked else ok s2

-- The types of the nodes; the panics are those of `unwrap` and "abstract type but no error".
abbrev pub give_type : ℕ → Ty → Solving → Solving
give_type n t s = record s {
  mapping = record (s.mapping) { node_type = insert n t s.mapping.node_type };
}

unfoldable pub assign_types : List (ℕ × ℕ) → Solving → Solved
assign_types [] s = ok s
assign_types ((n, slot) ∷ rest) s = do
  t ← unwrap (type_of s slot)
  if is_concrete t then assign_types rest (give_type n t s) else panicked

-- The instances of polymorphic functions that the nodes refer to, a set
abbrev pub instance_eq : SymbolId × Ty → SymbolId × Ty → Bool
instance_eq (a, t) (b, u) = symbol_eq a b && type_eq t u

pub instance_eq_iff : (p q : SymbolId × Ty) → (instance_eq p q ≡ true) ↔ (p ≡ q)
instance_eq_iff (a, t) (b, u) = ground (arith, symbol_eq_iff a b, type_eq_iff t u)

instance abbrev pub instance_instance : Eq (SymbolId × Ty)
instance_instance = record { same = instance_eq; same_iff = instance_eq_iff }

abbrev pub is_function : SymbolInit → Bool
is_function (function f) = true
is_function init = false

abbrev pub refer_to_instance : SymbolId → Ty → Solving → Solving
refer_to_instance id t s = record s {
  mapping = record (s.mapping) {
    polymorphic_references = insert_key (id, t) s.mapping.polymorphic_references;
  };
}

unfoldable pub find_instances : List (ℕ × SymbolId) → Solving → Solved
find_instances [] s = ok s
find_instances ((n, id) ∷ rest) s = do
  d ← get_symbol s.directory id
  if is_polymorphic d.type_vars && is_function d.initialiser
      then (do
        t ← unwrap (lookup n s.mapping.node_type)
        find_instances rest (refer_to_instance id t s))
      else find_instances rest s

unfoldable pub if_no_errors : (Solving → Solved) → Solving → Solved
if_no_errors f s = if no_errors s then f s else ok s

abbrev pub instances_of : Solving → Solved
instances_of s = find_instances s.mapping.symbol_references s

-- The steps after the loop
abbrev pub assign : Constraints → Solving → Solved
assign c s = if_no_errors (assign_types c.node_slots) s >>= if_no_errors instances_of

abbrev pub finish : ℕ → Constraints → Solving → Solved
finish depth c s = if_no_errors (find_unresolved depth c) s >>= assign c

abbrev pub solve_all : ℕ → ℕ → Constraints → List ℕ → Solving → Solved
solve_all depth fuel c literals s =
    solve depth fuel (insert_all [] c.constraints) literals s >>= finish depth c

abbrev pub prepare : ℕ → ℕ → Constraints → Solving → List ℕ → Solved
prepare depth fuel c s literals =
    process_assertions c.assertions s >>= solve_all depth fuel c literals

-- The slots and the graph that `infer` starts from
abbrev pub start : Constraints → Solving → Solving
start c s = record s {
  slots = record {
    located = c.slots;
    types = [];
    graph = new_graph c.constraints;
    errors = s.slots.errors;
  };
}

-- `infer`; the fuel is that of the loop, and `depth` that of polymorphic instances.
unfoldable pub infer : ℕ → ℕ → Constraints → Solving → Solved
infer depth fuel c s = literal_slots c.node_slots c.literals >>= prepare depth fuel c (start c s)
