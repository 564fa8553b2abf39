-- ===== src/Store.antt =====
-- compiler/src/code_store.rs: what is known of the units of code. A `UnitId`, a `CodegenId` and a `NodeId` are
-- the numbers inside; a map is an association list.
pub mod Names
pub mod Tests
use live_programming_prototy.Prelude.{
  ℕ, zero, suc, ◌==◌, ◌≡◌, ◌↔◌, Bool, true, false, not, ◌&&◌, List, [], ◌∷◌, Option, none, some,
  if◌then◌else◌, Eq, nat_eq, lookup, insert, insert_key, remove, Outcome, ok, err, panicked,
  out_of_fuel, ◌>>=◌, arith,
}
use live_programming_prototy.Common.{Text, text_eq, text_instance}
use live_programming_prototy.Expr.{Expr}
use live_programming_prototy.Nodes.{Nodes}
use live_programming_prototy.Types.{Ty}
use live_programming_prototy.Types.Equality.{type_instance}
use live_programming_prototy.Types.Instances.{
  SymbolId, symbol_instance, TypeDefinition, SymbolDefinition, TypeInfo, TypeMapping,
}

-- `Val` of compiler/src/compiler.rs; a float stands for its text.
pub data Val : Type 0 where
  void : Val
  f64 f32 : Text → Val
  i64 u64 i32 u32 u16 u8 : ℕ → Val
  string : Text → Val
  bool : Bool → Val

abbrev pub pair_eq : ℕ × ℕ → ℕ × ℕ → Bool
pair_eq (a, b) (c, d) = a == c && b == d

pub pair_eq_iff : (p q : ℕ × ℕ) → (pair_eq p q ≡ true) ↔ (p ≡ q)
pair_eq_iff p q = ground arith

instance abbrev pub pair_instance : Eq (ℕ × ℕ)
pair_instance = record { same = pair_eq; same_iff = pair_eq_iff }

-- `CodeStore`, over the units of compiled code
pub record CodeStore (LlvmUnit : Type 0) : Type 0 where
  pub code : List (ℕ × Text)
  pub names : List (ℕ × Text)
  pub imports : List (ℕ × ℕ)
  pub exprs : List (ℕ × Expr)
  pub nodes : List (ℕ × Nodes)
  pub types : List (ℕ × TypeInfo)
  pub type_mappings : List (ℕ × TypeMapping)
  pub codegen_mapping : List (ℕ × ℕ)
  pub llvm_units : List (ℕ × LlvmUnit)
  pub vals : List (ℕ × Val)
  pub tombstones : List ℕ
  pub poly_instances : List (SymbolId × List (Ty × SymbolId))
  pub poly_parents : List (ℕ × SymbolId)

-- `unwrap`
abbrev pub unwrap {ℓ} : {A : Type ℓ} → Option A → Outcome ⊥ A
unwrap none = panicked
unwrap (some a) = ok a

-- `named_unit`, on the names
unfoldable pub named_in : Text → List (ℕ × Text) → Option ℕ
named_in name [] = none
named_in name ((id, n) ∷ names) = if text_eq n name then some id else named_in name names

-- `get_imports` and `get_importers`, on the imports
unfoldable pub imports_of : ℕ → List (ℕ × ℕ) → List ℕ
imports_of unit_id [] = []
imports_of unit_id ((a, b) ∷ imports) =
    let rest = imports_of unit_id imports in if a == unit_id then b ∷ rest else rest

unfoldable pub importers_of : ℕ → List (ℕ × ℕ) → List ℕ
importers_of unit_id [] = []
importers_of unit_id ((a, b) ∷ imports) =
    let rest = importers_of unit_id imports in if b == unit_id then a ∷ rest else rest

-- `map.retain(|_, sid| sid.uid != uid)`
unfoldable pub retain : ℕ → List (Ty × SymbolId) → List (Ty × SymbolId)
retain uid [] = []
retain uid ((t, s) ∷ m) = let rest = retain uid m in if s.uid == uid then rest else (t, s) ∷ rest

abbrev pub retain_in :
    ℕ → SymbolId → List (SymbolId × List (Ty × SymbolId)) → List (SymbolId × List (Ty × SymbolId))
retain_in uid sid [] = []
retain_in uid sid ((k, m) ∷ rest) =
    if symbol_instance.same k sid then (k, retain uid m) ∷ rest else (k, m) ∷ retain_in uid sid rest

-- `name.unwrap_or_else(…)`
abbrev pub name_or : (ℕ → Text) → ℕ → Option Text → Text
name_or format uid none = format uid
name_or format uid (some name) = name

-- `and_then(|m| m.get(instance_type))`
abbrev instance_in : Ty → Option (List (Ty × SymbolId)) → Option SymbolId
instance_in t none = none
instance_in t (some m) = lookup t m

module _ {L : Type 0} where
  unfoldable pub named_unit : CodeStore L → Text → Option ℕ
  named_unit s name = named_in name s.names

  -- `create_unit`; `format` is the text `unit_…` that stands for a missing name.
  unfoldable pub create_unit :
      (ℕ → Text) → ℕ → Option Text → CodeStore L → Outcome ⊥ (ℕ × CodeStore L)
  create_unit format uid name s = elim (named_unit s (name_or format uid name)) [
    | some other ↦ panicked
    | none ↦ ok (uid, record s { names = insert uid (name_or format uid name) s.names })
  ]

  -- `remove_unit`
  abbrev pub remove_codegen : ℕ → Option ℕ → CodeStore L → CodeStore L
  remove_codegen uid none s = s
  remove_codegen uid (some codegen_id) s = record s {
    codegen_mapping = remove uid s.codegen_mapping;
    llvm_units = remove codegen_id s.llvm_units;
  }

  abbrev pub remove_parent : ℕ → Option SymbolId → CodeStore L → CodeStore L
  remove_parent uid none s = s
  remove_parent uid (some sid) s = record s {
    poly_parents = remove uid s.poly_parents;
    poly_instances = retain_in uid sid s.poly_instances;
  }

  unfoldable pub remove_unit : ℕ → CodeStore L → CodeStore L
  remove_unit uid s =
      let known : CodeStore L = record s {
        names = remove uid s.names;
        exprs = remove uid s.exprs;
        nodes = remove uid s.nodes;
        types = remove uid s.types;
        type_mappings = remove uid s.type_mappings;
      } in
      let compiled = remove_codegen uid (lookup uid known.codegen_mapping) known in
      let valued : CodeStore L = record compiled { vals = remove uid compiled.vals } in
      remove_parent uid (lookup uid valued.poly_parents) valued

  -- `name`, `llvm_unit`, `types`, `symbol_def`, `type_def`, `type_mapping`
  unfoldable pub name : CodeStore L → ℕ → Outcome ⊥ Text
  name s unit_id = unwrap (lookup unit_id s.names)

  unfoldable pub llvm_unit : CodeStore L → ℕ → Outcome ⊥ L
  llvm_unit s unit_id = do
    codegen_id ← unwrap (lookup unit_id s.codegen_mapping)
    unwrap (lookup codegen_id s.llvm_units)

  unfoldable pub types_of : CodeStore L → ℕ → Outcome ⊥ TypeInfo
  types_of s unit_id = unwrap (lookup unit_id s.types)

  unfoldable pub symbol_def : CodeStore L → SymbolId → Outcome ⊥ SymbolDefinition
  symbol_def s symbol_id = do
    info ← types_of s symbol_id.uid
    unwrap (lookup symbol_id info.symbols)

  unfoldable pub type_def : CodeStore L → Text → ℕ → Outcome ⊥ TypeDefinition
  type_def s name unit_id = do info ← types_of s unit_id; unwrap (lookup name info.type_defs)

  unfoldable pub type_mapping : CodeStore L → ℕ → Outcome ⊥ TypeMapping
  type_mapping s unit_id = unwrap (lookup unit_id s.type_mappings)

  -- `nodes`: an instance has the nodes of the unit that it is an instance of. The fuel bounds the depth.
  unfoldable pub nodes_of : ℕ → CodeStore L → ℕ → Outcome ⊥ Nodes
  nodes_of zero s unit_id = out_of_fuel
  nodes_of (suc fuel) s unit_id = elim (lookup unit_id s.poly_parents) [
    | some parent_id ↦ nodes_of fuel s parent_id.uid
    | none ↦ unwrap (lookup unit_id s.nodes)
  ]

  -- `add_import`, `get_imports`, `get_importers`
  unfoldable pub add_import : ℕ → ℕ → CodeStore L → CodeStore L
  add_import unit imported_unit s = record s {
    imports = insert_key (unit, imported_unit) s.imports;
  }

  unfoldable pub get_imports : CodeStore L → ℕ → List ℕ
  get_imports s unit_id = imports_of unit_id s.imports

  unfoldable pub get_importers : CodeStore L → ℕ → List ℕ
  get_importers s unit_id = importers_of unit_id s.imports

  -- `poly_instance`
  unfoldable pub poly_instance : CodeStore L → SymbolId → Ty → Option SymbolId
  poly_instance s poly_symbol_id instance_type =
      instance_in instance_type (lookup poly_symbol_id s.poly_instances)
