-- ===== src/Types/Solver/Infer.antt =====
-- compiler/src/types/solver.rs: assertions, and `infer`.
pub mod Assign
pub mod Resolved
mod Tests
use live_programming_prototy.Prelude.{
  ℕ, zero, suc, ◌==◌, List, [], ◌∷◌, ◌++◌, length, Option, none, some, Bool, true, false, not, ◌&&◌,
  ◌||◌, if◌then◌else◌, contains, lookup, insert, insert_key, nat_eq, Outcome, ok, err, panicked,
  out_of_fuel, ◌>>=◌, set, get_elem?,
}
use live_programming_prototy.Common.{Text, text_eq, text_instance}
use live_programming_prototy.Nodes.{Reference}
use live_programming_prototy.Types.{
  TypeContent, prim, fun, def, ptr, abstract, polytype, AbstractType, float, integer, any, Ty, Tys,
  node, nil, cons, content, children, length as type_count,
}
use live_programming_prototy.Types.Kinds.{any_type, is_concrete}
use live_programming_prototy.Types.Instances.{
  SymbolId, symbol_instance, TypeDefinition, SymbolDefinition, SymbolInit,
  function as function_init, TypeInfo, TypeMapping, is_polymorphic,
}
use live_programming_prototy.Types.Equality.{type_instance}
use live_programming_prototy.Types.Constraints.{Constraint, ConstraintContent, symbol_reference}
use live_programming_prototy.Types.TypeGraph.{EdgeSet, new_graph, find_boundary_constraints}
use live_programming_prototy.Types.Slots.{Inferring, find_all_unresolved_constraints}
use live_programming_prototy.Types.Directory.{TypeDirectory, unwrap, get_symbol, find_type_def_in}
use live_programming_prototy.Types.Solver.{
  Failure, incorrect_type_arguments, type_not_found, Solving, Solved, update, fail, require,
  is_located, type_of, try_harden_slot,
}
use live_programming_prototy.Types.Solver.Process.{unresolved_constraint_error, process_all}

-- A lookup that can only panic, among routines with errors
abbrev pub lift : {A : Type 0} → Outcome ⊥ A → Outcome Failure A
lift (ok a) = ok a
lift (err e) = panicked
lift panicked = panicked
lift out_of_fuel = out_of_fuel

-- `resolve_abstract_defs`
abbrev pub anys : List Text → Tys
anys [] = nil
anys (v ∷ vs) = cons any_type (anys vs)

abbrev pub type_arguments : List Text → Tys → Outcome Failure Tys → Outcome Failure Tys
type_arguments vars nil below = ok (anys vars)
type_arguments vars (cons t ts) below = below

unfoldable pub resolve_def :
    Text → Tys → Outcome Failure Tys → Option TypeDefinition → Outcome Failure Ty
resolve_def name ts below none = err (type_not_found name)
resolve_def name ts below (some d) =
    if type_count ts == length d.type_vars || type_count ts == 0
    then (do us ← type_arguments d.type_vars ts below; ok (node (def name d.unit_id) us))
    else err (incorrect_type_arguments name)

unfoldable pub resolve_top :
    TypeDirectory → TypeContent → Tys → Outcome Failure Tys → Outcome Failure Ty
resolve_top d (abstract (def name)) ts below = do
  found ← lift (find_type_def_in d name)
  resolve_def name ts below found
resolve_top d c ts below = do us ← below; ok (node c us)

unfoldable mutual
  pub resolve_abstract_defs : TypeDirectory → Ty → Outcome Failure Ty
  resolve_abstract_defs d (node c ts) = let below = resolve_all d ts in resolve_top d c ts below

  pub resolve_all : TypeDirectory → Tys → Outcome Failure Tys
  resolve_all d nil = ok nil
  resolve_all d (cons t ts) = do
    u ← resolve_abstract_defs d t
    us ← resolve_all d ts
    ok (cons u us)

-- `Assertion` of compiler/src/types/constraints.rs, without locations
pub data Assertion : Type 0 where
  assert_type : ℕ → Ty → Assertion
  assert_type_def : Text → List (Option Ty) → Assertion

-- `process_assertion`
abbrev pub assert_resolved : ℕ → Outcome Failure Ty → Solving → Solved
assert_resolved slot (ok t) s = update slot t s
assert_resolved slot (err e) s = ok (fail e s)
assert_resolved slot panicked s = panicked
assert_resolved slot out_of_fuel s = out_of_fuel

-- `to_resolved`
abbrev pub resolved_or_any : Outcome Failure Ty → Solving → Outcome ⊥ (Ty × Solving)
resolved_or_any (ok t) s = ok (t, s)
resolved_or_any (err e) s = ok (any_type, fail e s)
resolved_or_any panicked s = panicked
resolved_or_any out_of_fuel s = out_of_fuel

abbrev pub to_resolved : Option Ty → Solving → Outcome ⊥ (Ty × Solving)
to_resolved none s = ok (any_type, s)
to_resolved (some t) s = resolved_or_any (resolve_abstract_defs s.directory t) s

unfoldable pub to_resolved_all : List (Option Ty) → Solving → Outcome ⊥ (List Ty × Solving)
to_resolved_all [] s = ok ([], s)
to_resolved_all (f ∷ fs) s = do
  (t, s') ← to_resolved f s
  (ts, s'') ← to_resolved_all fs s'
  ok (t ∷ ts, s'')

-- The writes to the fields of a definition; more types than fields are an index out of range.
unfoldable pub retype_fields : List (Reference × Ty) → List Ty → Outcome ⊥ (List (Reference × Ty))
retype_fields fields [] = ok fields
retype_fields [] (t ∷ ts) = panicked
retype_fields ((r, old) ∷ fields) (t ∷ ts) = do rest ← retype_fields fields ts; ok ((r, t) ∷ rest)

unfoldable pub define_type : Text → List Ty → TypeDirectory → Outcome ⊥ TypeDirectory
define_type name ts d = do
  info ← unwrap (lookup d.new_unit_id d.types)
  definition ← unwrap (lookup name info.type_defs)
  fields ← retype_fields definition.fields ts
  let new : TypeInfo = record info {
    type_defs = insert name (record definition { fields = fields }) info.type_defs;
  }
  ok (record d { types = insert d.new_unit_id new d.types })

unfoldable pub process_assertion : Assertion → Solving → Solved
process_assertion (assert_type slot t) s = do
  u ← require (is_located slot s)
  assert_resolved slot (resolve_abstract_defs s.directory t) s
process_assertion (assert_type_def name fields) s = do
  (ts, s') ← to_resolved_all fields s
  directory ← define_type name ts s'.directory
  ok (record s' { directory = directory })

unfoldable pub process_assertions : List Assertion → Solving → Solved
process_assertions [] s = ok s
process_assertions (a ∷ as') s = do s' ← process_assertion a s; process_assertions as' s'

-- `Constraints` of compiler/src/types/constraints.rs, as `infer` reads it
pub record Constraints : Type 0 where
  pub slots : List ℕ
  pub node_slots : List (ℕ × ℕ)
  pub literals : List ℕ
  pub constraints : List Constraint
  pub assertions : List Assertion

-- `errors.is_empty()`
abbrev pub is_nil : {A : Type 0} → List A → Bool
is_nil [] = true
is_nil (x ∷ xs) = false

unfoldable pub no_errors : Solving → Bool
no_errors s = is_nil s.slots.errors && is_nil s.failures

-- `node_slots.get(lit).unwrap()` of each literal
unfoldable pub literal_slots : List (ℕ × ℕ) → List ℕ → Outcome ⊥ (List ℕ)
literal_slots node_slots [] = ok []
literal_slots node_slots (l ∷ ls) = do
  slot ← unwrap (lookup l node_slots)
  rest ← literal_slots node_slots ls
  ok (slot ∷ rest)

-- `g.find_boundary_constraints(&mut next_edge_set)`
unfoldable pub boundary : Solving → EdgeSet → Solving × EdgeSet
boundary s edges =
    let (g, edges') = find_boundary_constraints s.slots.graph edges in
    (record s { slots = record (s.slots) { graph = g } }, edges')

abbrev pub edge_constraints : EdgeSet → List Constraint
edge_constraints [] = []
edge_constraints ((i, c) ∷ edges) = c ∷ edge_constraints edges

-- The hardening of a literal where nothing was resolved
abbrev pub harden_one : EdgeSet → List ℕ → Solving → Outcome ⊥ (List ℕ × Solving)
harden_one [] (slot ∷ literals) s = do s' ← try_harden_slot slot s; ok (literals, s')
harden_one edges literals s = ok (literals, s)

-- The loop of `infer`; the fuel bounds its rounds, and `depth` is the fuel of polymorphic instances.
abbrev pub goes_on : EdgeSet → List ℕ → Solving → Bool
goes_on edges literals s = not (is_nil edges && is_nil literals) && no_errors s

unfoldable pub solve : ℕ → ℕ → EdgeSet → List ℕ → Solving → Solved
solve depth zero edges literals s = out_of_fuel
solve depth (suc fuel) edges literals s = elim (goes_on edges literals s) [
  | false ↦ ok s
  | true ↦ do
    s1 ← process_all depth (edge_constraints edges) s
    let (s2, edges2) = boundary s1 []
    (literals', s3) ← harden_one edges2 literals s2
    let (s4, edges4) = boundary s3 edges2
    solve depth fuel edges4 literals' s4
]
