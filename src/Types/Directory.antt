-- ===== src/Types/Directory.antt =====
-- compiler/src/types/constraints.rs: `TypeDirectory`, the definitions that a unit sees.
use live_programming_prototy.Prelude.{
  ℕ, List, [], ◌∷◌, Option, none, some, lookup, insert, nat_eq, Outcome, ok, panicked, ◌>>=◌,
}
use live_programming_prototy.Common.{Text, text_instance}
use live_programming_prototy.Types.{Ty}
use live_programming_prototy.Types.Instances.{
  SymbolId, symbol_instance, TypeDefinition, SymbolDefinition, TypeInfo, ResolvedSymbol,
  find_symbol, find_type_def,
}

-- `TypeDirectory` without its two buffers, which `find_symbol` clears first
pub record TypeDirectory : Type 0 where
  pub imports : List ℕ
  pub new_unit_id : ℕ
  pub types : List (ℕ × TypeInfo)

-- `unwrap`
abbrev pub unwrap {ℓ} : {A : Type ℓ} → Option A → Outcome ⊥ A
unwrap none = panicked
unwrap (some a) = ok a

-- `get_symbol`
unfoldable pub get_symbol : TypeDirectory → SymbolId → Outcome ⊥ SymbolDefinition
get_symbol d id = do info ← unwrap (lookup id.uid d.types); unwrap (lookup id info.symbols)

-- The write through `get_symbol_mut` that gives a symbol its type
abbrev retagged : SymbolId → SymbolDefinition → Ty → TypeInfo → TypeInfo
retagged id def t info = record info {
  symbols = insert id (record def { type_tag = t }) info.symbols;
}

unfoldable pub set_type_tag : TypeDirectory → SymbolId → Ty → Outcome ⊥ TypeDirectory
set_type_tag d id t = do
  info ← unwrap (lookup id.uid d.types)
  def ← unwrap (lookup id info.symbols)
  ok (record d { types = insert id.uid (retagged id def t info) d.types })

-- `get_type_def`
unfoldable pub get_type_def : TypeDirectory → Text → ℕ → Outcome ⊥ TypeDefinition
get_type_def d name unit_id = do
  info ← unwrap (lookup unit_id d.types)
  unwrap (lookup name info.type_defs)

-- `create_type_def` and `create_symbol`
unfoldable pub create_type_def : TypeDirectory → TypeDefinition → Outcome ⊥ TypeDirectory
create_type_def d def = do
  info ← unwrap (lookup d.new_unit_id d.types)
  let new : TypeInfo = record info { type_defs = insert def.name def info.type_defs }
  ok (record d { types = insert d.new_unit_id new d.types })

unfoldable pub create_symbol : TypeDirectory → SymbolDefinition → Outcome ⊥ TypeDirectory
create_symbol d def = do
  info ← unwrap (lookup d.new_unit_id d.types)
  let new : TypeInfo = record info { symbols = insert def.id def info.symbols }
  ok (record d { types = insert d.new_unit_id new d.types })

-- `find_symbol`: first in the unit itself, then in its imports. The fuel is that of `TypeInfo::find_symbol`.
unfoldable pub find_in_units :
    ℕ → TypeDirectory → Text → Ty → List ℕ → List ResolvedSymbol → Outcome ⊥ (List ResolvedSymbol)
find_in_units fuel d name t [] results = ok results
find_in_units fuel d name t (uid ∷ uids) results = do
  info ← unwrap (lookup uid d.types)
  results' ← find_symbol fuel info name t results
  find_in_units fuel d name t uids results'

unfoldable pub find_symbol_in : ℕ → TypeDirectory → Text → Ty → Outcome ⊥ (List ResolvedSymbol)
find_symbol_in fuel d name t = find_in_units fuel d name t (d.new_unit_id ∷ d.imports) []

-- `find_type_def`: first in the unit itself, then in its imports from the last one on
abbrev reverse_onto : List ℕ → List ℕ → List ℕ
reverse_onto [] ys = ys
reverse_onto (x ∷ xs) ys = reverse_onto xs (x ∷ ys)

unfoldable pub first_type_def : TypeDirectory → Text → List ℕ → Outcome ⊥ (Option TypeDefinition)
first_type_def d name [] = ok none
first_type_def d name (uid ∷ uids) = do
  info ← unwrap (lookup uid d.types)
  elim (find_type_def info name) [ some def ↦ ok (some def) | none ↦ first_type_def d name uids ]

unfoldable pub find_type_def_in : TypeDirectory → Text → Outcome ⊥ (Option TypeDefinition)
find_type_def_in d name = first_type_def d name (d.new_unit_id ∷ reverse_onto d.imports [])
