-- ===== src/Nodes.antt =====
-- compiler/src/structure.rs: the nodes that expressions are converted to.
use live_programming_prototy.Prelude.{ℕ, Bool, List, Option}
use live_programming_prototy.Common.{Text}
use live_programming_prototy.Location.{TextLocation}
use live_programming_prototy.Expr.{ℤ, Expr}

-- `PrimitiveVal`; a float stands for the value of its text.
pub data PrimitiveVal : Type 0 where
  void_val : PrimitiveVal
  float_val : Text → PrimitiveVal
  int_val : ℤ → PrimitiveVal
  string_val : Text → PrimitiveVal
  bool_val : Bool → PrimitiveVal

-- `TypeKind`
pub data TypeKind : Type 0 where
  struct_kind union_kind : TypeKind

-- `Reference`
pub record Reference : Type 0 where
  pub id : ℕ
  pub name : Text
  pub loc : TextLocation

-- `GlobalType` and `VarScope`
pub data GlobalType : Type 0 where
  normal_global cbind_global : GlobalType

pub data VarScope : Type 0 where
  local_var : VarScope
  global_var : GlobalType → VarScope

-- `Content`; nodes, labels and references are the numbers inside their ids.
pub data Content : Type 0 where
  literal : PrimitiveVal → Content
  variable_initialise : Reference → Option Expr → ℕ → VarScope → Content
  type_alias : Expr → Expr → Content
  assignment : ℕ → ℕ → Content
  if_then : ℕ → ℕ → Content
  if_then_else : ℕ → ℕ → ℕ → Content
  block : List ℕ → Content
  quote : Expr → Content
  reference : Text → Option ℕ → Content
  function_definition :
      Text → List (Reference × Option Expr) → Option Expr → List Text → ℕ → Content
  cbind : Text → Expr → Content
  type_definition : Text → TypeKind → List (Reference × Option Expr) → List Text → Content
  type_constructor : Reference → List (Option Reference × ℕ) → Content
  field_access : ℕ → Reference → Content
  array_literal : List ℕ → Content
  function_call : ℕ → List ℕ → Content
  while_loop : ℕ → ℕ → Content
  convert : ℕ → Expr → Content
  size_of : Expr → Content
  label : ℕ → ℕ → Content
  break_to_label : ℕ → Option ℕ → Content

-- `Node`
pub record Node : Type 0 where
  pub id : ℕ
  pub content : Content
  pub loc : TextLocation

-- `Nodes`
pub record Nodes : Type 0 where
  pub nodes : List (ℕ × Node)
  pub symbols : List (ℕ × Reference)
  pub root : ℕ
