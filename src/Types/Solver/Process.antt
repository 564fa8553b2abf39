-- ===== src/Types/Solver/Process.antt =====
-- compiler/src/types/solver.rs: `process_constraint`. The places of nodes, which errors look up, are left out.
use live_programming_prototy.Prelude.{
  ℕ, ◌==◌, List, [], ◌∷◌, length, Option, none, some, Bool, not, if◌then◌else◌, contains, lookup,
  ◌&&◌, insert, nat_eq, Outcome, ok, panicked, ◌>>=◌,
}
use live_programming_prototy.Common.{Text, text_eq}
use live_programming_prototy.Nodes.{Reference, TypeKind, struct_kind, union_kind}
use live_programming_prototy.Types.{
  fun, def, ptr, Ty, Tys, node, nil, cons, content, length as type_count,
}
use live_programming_prototy.Types.Kinds.{is_concrete, displays}
use live_programming_prototy.Types.Unify.{type_intersection}
use live_programming_prototy.Types.Instances.{
  SymbolId, symbol_instance, TypeDefinition, ResolvedSymbol, instance_type, field_named,
  instanced_field_type,
}
use live_programming_prototy.Types.Constraints.{
  Constraint, ConstraintContent, equivalent, branch, type_parameter, convert, size_of, field_access,
  constructor, function, symbol_def, symbol_reference,
}
use live_programming_prototy.Types.Slots.{get_or_any}
use live_programming_prototy.Types.Directory.{unwrap, get_symbol, get_type_def, find_symbol_in}
use live_programming_prototy.Types.Solver.{
  Failure, incorrect_field_name, incorrect_struct_arguments, incorrect_union_arguments,
  not_in_union, has_no_field, definition_unresolved, reference_unresolved, access_unresolved,
  parameter_unresolved, size_unresolved, Solving, Solved, update, update_mut, fail, require, report,
  is_located, type_of, register, force_equivalence, branch as solve_branch, update_args,
  convert_slots, type_parameters, note_size, define_symbol,
}

-- A vector of types, as a list
abbrev pub listed : Tys → List Ty
listed nil = []
listed (cons t ts) = t ∷ listed ts

-- The constraint `Function`; a function type without a return type is a slice out of range.
abbrev pub resize : Tys → List ℕ → Bool
resize ts slots = type_count ts == length slots

unfoldable pub call_function : ℕ → List ℕ → ℕ → Option Ty → Solving → Solved
call_function slot args return_type (some (node fun nil)) s = panicked
call_function slot args return_type (some (node fun (cons r ts))) s =
    if resize ts args
    then (do
      (ts', s') ← update_args ts args s
      (r', changed, s'') ← update_mut return_type r s'
      update slot (node fun (cons r' ts')) s'')
    else ok s
call_function slot args return_type _ s = ok s

-- The constraint `Constructor`: the types of the fields of a struct, with the check of their names
abbrev pub check_name : Option Text → Text → Solving → Solving
check_name none field s = s
check_name (some name) field s =
    if not (text_eq name field) then fail (incorrect_field_name name) s else s

unfoldable pub struct_fields :
    ℕ
    → List Text
    → List Ty
    → List (Option Text × ℕ)
    → List (Reference × Ty)
    → Solving
    → Outcome ⊥ (List (ℕ × Ty) × Solving)
struct_fields fuel vars ts [] fields s = ok ([], s)
struct_fields fuel vars ts (arg ∷ args) [] s = ok ([], s)
struct_fields fuel vars ts ((name, slot) ∷ args) ((r, t) ∷ fields) s = do
  u ← instance_type fuel vars ts t
  (rest, s') ← struct_fields fuel vars ts args fields (check_name name r.name s)
  ok ((slot, u) ∷ rest, s')

abbrev pub update_all : List (ℕ × Ty) → Solving → Solved
update_all [] s = ok s
update_all ((slot, t) ∷ rest) s = do s' ← update slot t s; update_all rest s'

unfoldable pub construct_struct :
    ℕ → ℕ → Tys → List (Option Text × ℕ) → TypeDefinition → Solving → Solved
construct_struct fuel def_slot ts args d s =
    if length args == length d.fields
    then (do
      (field_types, s') ← struct_fields fuel d.type_vars (listed ts) args d.fields s
      update_all field_types s')
    else report (is_located def_slot s) (incorrect_struct_arguments def_slot) s

abbrev pub give_field : Text → ℕ → Option Ty → Solving → Solved
give_field name slot none s = ok (fail (not_in_union name) s)
give_field name slot (some t) s = update slot t s

unfoldable pub construct_union : ℕ → List (Option Text × ℕ) → TypeDefinition → Solving → Solved
construct_union def_slot ((some name, slot) ∷ []) d s =
    give_field name slot (field_named name d.fields) s
construct_union def_slot args d s =
    report (is_located def_slot s) (incorrect_union_arguments def_slot) s

abbrev pub construct_of :
    ℕ → TypeKind → ℕ → Tys → List (Option Text × ℕ) → TypeDefinition → Solving → Solved
construct_of fuel struct_kind def_slot ts args d s = construct_struct fuel def_slot ts args d s
construct_of fuel union_kind def_slot ts args d s = construct_union def_slot args d s

unfoldable pub construct :
    ℕ → Constraint → ℕ → List (Option Text × ℕ) → Option Ty → Solving → Solved
construct fuel c def_slot args (some (node (def name unit_id) ts)) s = do
  d ← get_type_def s.directory name unit_id
  construct_of fuel d.kind def_slot ts args d (register name c s)
construct fuel c def_slot args _ s = ok s

-- The constraint `FieldAccess`, behind any pointers
abbrev pub behind_pointers : Ty → Ty
behind_pointers (node ptr (cons t nil)) = behind_pointers t
behind_pointers t = t

abbrev pub no_field : Ty → Text → Solving → Solved
no_field t field s = if is_concrete t then report (displays t) (has_no_field t field) s else ok s

abbrev pub give_result : Ty → Text → ℕ → Option Ty → Solving → Solved
give_result t field result none s = no_field t field s
give_result t field result (some u) s = update result u s

unfoldable pub access_field : ℕ → Constraint → Text → ℕ → Ty → Solving → Solved
access_field fuel c field result (node (def name unit_id) ts) s = do
  d ← get_type_def s.directory name unit_id
  u ← instanced_field_type fuel d field (listed ts)
  give_result (node (def name unit_id) ts) field result u (register name c s)
access_field fuel c field result t s = no_field t field s

abbrev pub access : ℕ → Constraint → Text → ℕ → Option Ty → Solving → Solved
access fuel c field result none s = ok s
access fuel c field result (some t) s = access_field fuel c field result (behind_pointers t) s

-- The texts and places that `unresolved_constraint_error` looks up, the place of a node left out
unfoldable pub show_symbols : List ResolvedSymbol → Solving → Outcome ⊥ (Unit {0})
show_symbols [] s = ok tt
show_symbols (r ∷ rs) s = do
  d ← get_symbol s.directory r.id
  u ← require (displays r.resolved_type)
  show_symbols rs s

unfoldable pub show_constraint : ℕ → ConstraintContent → Solving → Outcome ⊥ (Unit {0})
show_constraint fuel (symbol_def symbol_id slot) s = do
  d ← get_symbol s.directory symbol_id
  n ← unwrap (lookup symbol_id s.mapping.symbol_def_nodes)
  require (displays d.type_tag)
show_constraint fuel (symbol_reference n name result) s = do
  rs ← find_symbol_in fuel s.directory name (get_or_any s.slots result)
  u ← show_symbols rs s
  require (is_located result s && displays (get_or_any s.slots result))
show_constraint fuel (type_parameter parent parameter) s = require (
    is_located parent s
    && displays (get_or_any s.slots parent)
    && displays (get_or_any s.slots parameter))
show_constraint fuel (size_of n slot) s = require (is_located slot s)
show_constraint fuel content s = ok tt

-- `unresolved_constraint_error`
unfoldable pub unresolved_failure : ConstraintContent → Option Failure
unresolved_failure (symbol_def symbol_id slot) = some (definition_unresolved symbol_id)
unresolved_failure (symbol_reference n name result) = some (reference_unresolved name)
unresolved_failure (field_access container field result) = some (access_unresolved field)
unresolved_failure (type_parameter parent parameter) = some (parameter_unresolved parent)
unresolved_failure (size_of n slot) = some (size_unresolved slot)
unresolved_failure content = none

abbrev pub fail_with : Option Failure → Solving → Solving
fail_with none s = s
fail_with (some f) s = fail f s

abbrev pub mark_failed : ℕ → Solving → Solving
mark_failed id s = record s { failed_constraint_ids = id ∷ s.failed_constraint_ids }

unfoldable pub unresolved_constraint_error : ℕ → Constraint → Solving → Solved
unresolved_constraint_error fuel c s = if contains s.failed_constraint_ids c.id then ok s else (do
  u ← show_constraint fuel c.content s
  ok (fail_with (unresolved_failure c.content) (mark_failed c.id s)))

-- The constraint `SymbolReference`
unfoldable pub intersect_all : Ty → List ResolvedSymbol → Ty
intersect_all t [] = t
intersect_all t (r ∷ rs) = intersect_all (type_intersection t r.resolved_type) rs

-- `register_def`
abbrev pub register_def : ℕ → SymbolId → Solving → Solving
register_def n id s = record s {
  mapping = record (s.mapping) { symbol_references = insert n id s.mapping.symbol_references };
}

unfoldable pub refer : ℕ → Constraint → ℕ → ℕ → List ResolvedSymbol → Solving → Solved
refer fuel c n result [] s = unresolved_constraint_error fuel c s
refer fuel c n result (r ∷ []) s = update result r.resolved_type (register_def n r.id s)
refer fuel c n result (r ∷ q ∷ rs) s =
    update result (intersect_all (type_intersection r.resolved_type q.resolved_type) rs) s

unfoldable pub refer_to : ℕ → Constraint → ℕ → Text → ℕ → Solving → Solved
refer_to fuel c n name result s = do
  resolved ← find_symbol_in fuel s.directory name (get_or_any s.slots result)
  refer fuel c n result resolved s

-- `process_constraint`; the fuel is that of polymorphic instances.
unfoldable pub process : ℕ → Constraint → ConstraintContent → Solving → Solved
process fuel c (equivalent a b) s = force_equivalence a b s
process fuel c (branch output cases) s = solve_branch output cases s
process fuel c (function slot args return_type) s =
    call_function slot args return_type (type_of s slot) s
process fuel c (constructor def_slot args) s = construct fuel c def_slot args (type_of s def_slot) s
process fuel c (convert val into_type_slot) s = convert_slots val into_type_slot s
process fuel c (symbol_def symbol_id slot) s = define_symbol symbol_id slot s
process fuel c (symbol_reference n name result) s = refer_to fuel c n name result s
process fuel c (field_access container field result) s =
    access fuel c field result (type_of s container) s
process fuel c (type_parameter parent parameter) s = type_parameters parent parameter s
process fuel c (size_of n slot) s = ok (note_size n (type_of s slot) s)

unfoldable pub process_constraint : ℕ → Constraint → Solving → Solved
process_constraint fuel c s = process fuel c c.content s

-- The loop over the active constraints
unfoldable pub process_all : ℕ → List Constraint → Solving → Solved
process_all fuel [] s = ok s
process_all fuel (c ∷ cs) s = do s' ← process_constraint fuel c s; process_all fuel cs s'
