-- ===== src/Expr.antt =====
-- compiler/src/expr.rs: expressions, and the reading of one as a construct or a symbol.
use live_programming_prototy.Prelude.{ℕ, Bool, List, [], ◌∷◌, Option, none, some}
use live_programming_prototy.Common.{Text}
use live_programming_prototy.Location.{TextLocation}

-- The 64-bit integers of the literals, as integers.
pub data ℤ : Type 0 where
  pos : ℕ → ℤ
  negsuc : ℕ → ℤ

-- `Expr`, `ExprContent` and the array of children. A float literal stands for the value of its text.
mutual
  pub data Expr : Type 0 where
    expr : TextLocation → ExprContent → Expr

  pub data ExprContent : Type 0 where
    list : Text → Exprs → ExprContent
    symbol : Text → ExprContent
    literal_string : Text → ExprContent
    literal_float : Text → ExprContent
    literal_int : ℤ → ExprContent
    literal_bool : Bool → ExprContent
    literal_unit : ExprContent

  pub data Exprs : Type 0 where
    nil : Exprs
    cons : Expr → Exprs → Exprs

abbrev pub loc : Expr → TextLocation
loc (expr l c) = l

abbrev pub exprs : List Expr → Exprs
exprs [] = nil
exprs (e ∷ es) = cons e (exprs es)

-- `try_construct`
unfoldable pub try_construct : Expr → Option (Text × Exprs)
try_construct (expr l (list s es)) = some (s, es)
try_construct (expr l c) = none

-- `try_symbol`
unfoldable pub try_symbol : Expr → Option Text
try_symbol (expr l (symbol s)) = some s
try_symbol (expr l c) = none

-- `children`
unfoldable pub children : Expr → Exprs
children (expr l (list s es)) = es
children (expr l c) = nil
