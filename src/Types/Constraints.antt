-- ===== src/Types/Constraints.antt =====
-- compiler/src/types/constraints.rs: the constraints that inference solves. Ids of slots, nodes,
-- symbols and constraints are the numbers inside their `Uid`s; of a `Reference` the name is kept.
use live_programming_prototy.Prelude.{ℕ, List, Option}
use live_programming_prototy.Common.{Text, text_instance}
use live_programming_prototy.Types.Instances.{SymbolId}

-- `ConstraintContent`
pub data ConstraintContent : Type 0 where
  equivalent : ℕ → ℕ → ConstraintContent
  branch : ℕ → List ℕ → ConstraintContent
  type_parameter : ℕ → ℕ → ConstraintContent
  convert : ℕ → ℕ → ConstraintContent
  size_of : ℕ → ℕ → ConstraintContent
  field_access : ℕ → Text → ℕ → ConstraintContent
  constructor : ℕ → List (Option Text × ℕ) → ConstraintContent
  function : ℕ → List ℕ → ℕ → ConstraintContent
  symbol_def : SymbolId → ℕ → ConstraintContent
  symbol_reference : ℕ → Text → ℕ → ConstraintContent

-- `Constraint`
pub record Constraint : Type 0 where
  pub id : ℕ
  pub content : ConstraintContent
