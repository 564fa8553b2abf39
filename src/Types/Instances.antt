-- ===== src/Types/Instances.antt =====
-- compiler/src/types/types.rs: definitions of symbols and types, and the instances of polymorphic ones.
pub mod Resolved
mod Tests
use live_programming_prototy.Prelude.{
  ℕ, zero, suc, ◌+◌, ◌==◌, ◌≡◌, ◌↔◌, Bool, true, false, not, ◌&&◌, List, [], ◌∷◌, ◌++◌, Option,
  none, some, if◌then◌else◌, Eq, lookup, remove, ltb, Outcome, ok, err, panicked, out_of_fuel,
  ◌>>=◌, arith,
}
use live_programming_prototy.Common.{Text, text_eq, text_instance}
use live_programming_prototy.Nodes.{Reference, TypeKind}
use live_programming_prototy.Types.{
  TypeContent, prim, fun, def, ptr, abstract, polytype, AbstractType, any, Ty, Tys, node, nil, cons,
  content, children,
}
use live_programming_prototy.Types.Unify.{unify_types}
use live_programming_prototy.Types.Polytypes.{Bindings, polytype_match, polytype_replace, each_type}

-- `SymbolId`
pub record SymbolId : Type 0 where
  pub sid : ℕ
  pub uid : ℕ

abbrev pub symbol_eq : SymbolId → SymbolId → Bool
symbol_eq a b = a.sid == b.sid && a.uid == b.uid

pub symbol_eq_iff : (a b : SymbolId) → (symbol_eq a b ≡ true) ↔ (a ≡ b)
symbol_eq_iff a b = ground arith

instance abbrev pub symbol_instance : Eq SymbolId
symbol_instance = record { same = symbol_eq; same_iff = symbol_eq_iff }

-- `TypeDefinition`
pub record TypeDefinition : Type 0 where
  pub name : Text
  pub unit_id : ℕ
  pub kind : TypeKind
  pub fields : List (Reference × Ty)
  pub type_vars : List Text

-- `FunctionInit` and `SymbolInit`; a `NodeId` is the number inside.
pub record FunctionInit : Type 0 where
  pub body : ℕ
  pub name_for_codegen : Text
  pub args : List Reference

pub data SymbolInit : Type 0 where
  function : FunctionInit → SymbolInit
  expression : ℕ → SymbolInit
  intrinsic c_bind : SymbolInit

-- `SymbolDefinition`
pub record SymbolDefinition : Type 0 where
  pub id : SymbolId
  pub unit_id : ℕ
  pub name : Text
  pub type_tag : Ty
  pub initialiser : SymbolInit
  pub type_vars : List Text

-- `TypeInfo` and `TypeMapping`
pub record TypeInfo : Type 0 where
  pub type_defs : List (Text × TypeDefinition)
  pub symbols : List (SymbolId × SymbolDefinition)
  pub unit_id : ℕ

pub record TypeMapping : Type 0 where
  pub node_type : List (ℕ × Ty)
  pub sizeof_info : List (ℕ × Ty)
  pub symbol_references : List (ℕ × SymbolId)
  pub polymorphic_references : List (SymbolId × Ty)
  pub symbol_def_nodes : List (SymbolId × ℕ)
  pub type_def_nodes : List (Text × ℕ)

-- `is_polymorphic`
unfoldable pub is_polymorphic : List Text → Bool
is_polymorphic [] = false
is_polymorphic (v ∷ vs) = true

-- `SymbolDefinition::codegen_name`
abbrev init_name : SymbolInit → Text → Option Text
init_name (function f) name = some f.name_for_codegen
init_name (expression n) name = some name
init_name intrinsic name = none
init_name c_bind name = some name

unfoldable pub codegen_name : SymbolDefinition → Option Text
codegen_name d = init_name d.initialiser d.name

-- `iter().map(|v| polytype_map.remove(v).unwrap())`
unfoldable pub take_all : List Text → Bindings → Outcome ⊥ (List Ty)
take_all [] m = ok []
take_all (v ∷ vs) m = elim (lookup v m) [
  | none ↦ panicked
  | some t ↦ do ts ← take_all vs (remove v m); ok (t ∷ ts)
]

-- `instanced_type_vars`
unfoldable pub instanced_type_vars : SymbolDefinition → Ty → Outcome ⊥ (List Ty)
instanced_type_vars d instanced_signature = do
  matched ← polytype_match [] instanced_signature d.type_tag
  if matched.0 then take_all d.type_vars matched.1 else panicked

-- `TypeDefinition::instance_type`: the variable at a position stands for the type at that position.
unfoldable pub type_at : Text → List Text → List Ty → Outcome ⊥ Ty
type_at name (v ∷ vs) (t ∷ ts) = if text_eq v name then ok t else type_at name vs ts
type_at name vs ts = panicked

abbrev instance_content : List Text → List Ty → Ty → Outcome ⊥ Ty
instance_content vars ts (node (polytype name) us) = type_at name vars ts
instance_content vars ts t = ok t

-- It goes on in the type that it has filled in; the fuel bounds the depth of its calls.
unfoldable pub instance_type : ℕ → List Text → List Ty → Ty → Outcome ⊥ Ty
instance_type zero vars ts t = out_of_fuel
instance_type (suc fuel) vars ts t = do
  u ← instance_content vars ts t
  us ← each_type (instance_type fuel vars ts) (children u)
  ok (node (content u) us)

-- `instanced_fields`
unfoldable pub instance_all : ℕ → List Text → List Ty → List (Reference × Ty) → Outcome ⊥ (List Ty)
instance_all fuel vars ts [] = ok []
instance_all fuel vars ts ((r, t) ∷ fields) = do
  u ← instance_type fuel vars ts t
  us ← instance_all fuel vars ts fields
  ok (u ∷ us)

unfoldable pub instanced_fields : ℕ → TypeDefinition → List Ty → Outcome ⊥ (List Ty)
instanced_fields fuel d type_var_instances =
    instance_all fuel d.type_vars type_var_instances d.fields

-- `instanced_field_type`
unfoldable pub field_named : Text → List (Reference × Ty) → Option Ty
field_named name [] = none
field_named name ((r, t) ∷ fields) = if text_eq r.name name then some t else field_named name fields

unfoldable pub instanced_field_type : ℕ → TypeDefinition → Text → List Ty → Outcome ⊥ (Option Ty)
instanced_field_type fuel d name type_var_instances = elim (field_named name d.fields) [
  | none ↦ ok none
  | some t ↦ do u ← instance_type fuel d.type_vars type_var_instances t; ok (some u)
]

-- `ResolvedSymbol`
pub record ResolvedSymbol : Type 0 where
  pub id : SymbolId
  pub resolved_type : Ty

-- `TypeInfo::find_symbol`, with the type that one symbol resolves to
unfoldable pub fill_matched : ℕ → Ty → Bool × Bindings → Outcome ⊥ (Option Ty)
fill_matched fuel tag (false, m) = ok none
fill_matched fuel tag (true, m) = do t ← polytype_replace fuel m tag; ok (some t)

unfoldable pub resolve : ℕ → Ty → SymbolDefinition → Outcome ⊥ (Option Ty)
resolve fuel t d =
    if is_polymorphic d.type_vars
    then (do matched ← polytype_match [] t d.type_tag; fill_matched fuel d.type_tag matched)
    else unify_types t d.type_tag

abbrev pub add_resolved : SymbolId → Option Ty → List ResolvedSymbol → List ResolvedSymbol
add_resolved id none results = results
add_resolved id (some t) results = results ++ record { id = id; resolved_type = t } ∷ []

unfoldable pub find_symbols :
    ℕ
    → Text
    → Ty
    → List (SymbolId × SymbolDefinition)
    → List ResolvedSymbol
    → Outcome ⊥ (List ResolvedSymbol)
find_symbols fuel name t [] results = ok results
find_symbols fuel name t ((id, d) ∷ symbols) results = elim (text_eq d.name name) [
  | false ↦ find_symbols fuel name t symbols results
  | true ↦ do
    resolved ← resolve fuel t d
    find_symbols fuel name t symbols (add_resolved d.id resolved results)
]

unfoldable pub find_symbol :
    ℕ → TypeInfo → Text → Ty → List ResolvedSymbol → Outcome ⊥ (List ResolvedSymbol)
find_symbol fuel info name t results = find_symbols fuel name t info.symbols results

-- `find_type_def`
unfoldable pub find_type_def : TypeInfo → Text → Option TypeDefinition
find_type_def info name = lookup name info.type_defs
