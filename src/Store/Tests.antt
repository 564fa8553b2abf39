-- ===== src/Store/Tests.antt =====
-- compiler/src/code_store.rs on a store of two units.
use live_programming_prototy.Prelude.{ℕ, refl, [], ◌∷◌, some, nat_eq}
use live_programming_prototy.Common.{Text, codes, text_eq}
use live_programming_prototy.Store.{CodeStore, void, create_unit, remove_unit, named_in}
use live_programming_prototy.Store.Names.{
  IsDistinct, insert-IsDistinct, Created, create_unit-Created, Removed, remove_unit-Removed,
}

abbrev pub two_units : CodeStore Unit
two_units = record {
  code = (1, codes "1") ∷ [];
  names = (1, codes "intrinsics") ∷ (2, codes "main") ∷ [];
  imports = (2, 1) ∷ (3, 2) ∷ (5, 4) ∷ [];
  exprs = [];
  nodes = [];
  types = [];
  type_mappings = [];
  codegen_mapping = (2, 9) ∷ [];
  llvm_units = (9, tt) ∷ [];
  vals = (2, void) ∷ [];
  tombstones = [];
  poly_instances = [];
  poly_parents = [];
}

abbrev format : ℕ → Text
format uid = codes "unit"

two_units-IsDistinct : IsDistinct two_units.names
unfolding named_in text_eq
two_units-IsDistinct =
    insert-IsDistinct (codes "main") 2 ((1, codes "intrinsics") ∷ []) refl
      (insert-IsDistinct (codes "intrinsics") 1 [] refl (λ a b n p q. absurd (cc)))

create_unit-Created_example :
    Created two_units 3 (codes "main") (create_unit format 3 (some (codes "main")) two_units)
create_unit-Created_example =
    create_unit-Created format 3 (some (codes "main")) two_units two_units-IsDistinct

remove_unit-Removed_example : Removed 2 two_units (remove_unit 2 two_units)
remove_unit-Removed_example = remove_unit-Removed 2 two_units
