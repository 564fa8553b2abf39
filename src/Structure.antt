-- ===== src/Structure.antt =====
-- compiler/src/structure.rs: the state of the conversion to nodes, and its moves.
pub mod Builders
pub mod Definitions
pub mod Constructs
pub mod Convert
pub mod Closed
mod Tests
use live_programming_prototy.Prelude.{
  ℕ, ◌-◌, ◌%◌, ◌^◌, Bool, List, [], ◌∷◌, Option, none, some, if◌then◌else◌, ltb, insert, nat_eq,
  Outcome, ok, err, panicked, out_of_fuel,
}
use live_programming_prototy.Common.{Text, text_eq, UidGenerator, next, StringCache, cache_get}
use live_programming_prototy.Location.{TextLocation}
use live_programming_prototy.Expr.{
  ℤ, pos, negsuc, Expr, ExprContent, Exprs, expr, nil, cons, loc, try_symbol, try_construct,
}
use live_programming_prototy.Nodes.{Reference, Content, Node}

-- The messages that the conversion raises: a text as it stands, or with the content that it prints.
pub data Message : Type 0 where
  message : Text → Message
  expected_a_symbol : ExprContent → Message
  expected_a_construct : ExprContent → Message
  invalid_construct : Text → Message

pub record StructureError : Type 0 where
  pub location : TextLocation
  pub text : Message

-- `NodeConverter` and `FunctionConverter`. What was pushed last comes first in the labels, in the
-- scopes and in each scope.
pub record Converter : Type 0 where
  pub generator : UidGenerator
  pub nodes : List (ℕ × Node)
  pub symbols : List (ℕ × Reference)
  pub cache : StringCache
  pub labels_in_scope : List ℕ
  pub block_scope : List (List Reference)

-- A routine that changes the state; it leaves none behind an error.
abbrev pub Convert : Type 0 → Type 0
Convert A = Converter → Outcome StructureError (A × Converter)

abbrev pub pass :
    {A B : Type 0}
    → Outcome StructureError (A × Converter)
    → (A → Convert B)
    → Outcome StructureError (B × Converter)
pass (ok (a, s)) f = f a s
pass (err e) f = err e
pass panicked f = panicked
pass out_of_fuel f = out_of_fuel

infixl 5 ◌>>=◌
abbrev pub ◌>>=◌ : {A B : Type 0} → Convert A → (A → Convert B) → Convert B
(m >>= f) s = pass (m s) f

abbrev pub pure : {A : Type 0} → A → Convert A
pure a s = ok (a, s)

abbrev pub panic : {A : Type 0} → Convert A
panic s = panicked

-- `error`
abbrev pub raise : {A : Type 0} → TextLocation → Message → Convert A
raise l m s = err (record { location = l; text = m })

-- `uid_generator.next()`
unfoldable pub new_uid : Convert ℕ
new_uid s = ok ((next s.generator).0, record s { generator = (next s.generator).1 })

-- `cached`
unfoldable pub cached : Text → Convert Text
cached t s = ok ((cache_get s.cache t).0, record s { cache = (cache_get s.cache t).1 })

-- `NodeConverter::node`
abbrev pub put_node : ℕ → TextLocation → Content → Convert ℕ
put_node id l c s =
    ok (id, record s { nodes = insert id (record { id = id; content = c; loc = l }) s.nodes })

unfoldable pub add_node : TextLocation → Content → Convert ℕ
add_node l c = do id ← new_uid; put_node id l c

-- `NodeConverter::symbol`
abbrev pub put_symbol : Reference → Convert Reference
put_symbol r s = ok (r, record s { symbols = insert r.id r s.symbols })

unfoldable pub new_symbol : Text → TextLocation → Convert Reference
new_symbol t l = do
  name ← cached t
  id ← new_uid
  put_symbol (record { id = id; name = name; loc = l })

-- `add_var_to_scope`; without a scope it panics.
abbrev pub in_scope : Reference → List (List Reference) → Option (List (List Reference))
in_scope r [] = none
in_scope r (scope ∷ scopes) = some ((r ∷ scope) ∷ scopes)

unfoldable pub add_var_to_scope : Reference → Convert Unit
add_var_to_scope r s = elim (in_scope r s.block_scope) [
  | none ↦ panicked
  | some scopes ↦ ok (tt, record s { block_scope = scopes })
]

-- `find_var`
unfoldable pub find_in : Text → List Reference → Option Reference
find_in name [] = none
find_in name (r ∷ rs) = if text_eq name r.name then some r else find_in name rs

abbrev pub or_else : Option Reference → Option Reference → Option Reference
or_else none o = o
or_else (some r) o = some r

unfoldable pub find_var : Text → List (List Reference) → Option Reference
find_var name [] = none
find_var name (scope ∷ scopes) = or_else (find_in name scope) (find_var name scopes)

-- `Expr::unwrap_symbol` and `Expr::unwrap_construct` of compiler/src/expr.rs
abbrev pub content_of : Expr → ExprContent
content_of (expr l c) = c

unfoldable pub unwrap_symbol : Expr → Convert Text
unwrap_symbol e = elim (try_symbol e) [
  | none ↦ raise (loc e) (expected_a_symbol (content_of e))
  | some t ↦ pure t
]

unfoldable pub unwrap_construct : Expr → Convert (Text × Exprs)
unwrap_construct e = elim (try_construct e) [
  | none ↦ raise (loc e) (expected_a_construct (content_of e))
  | some p ↦ pure p
]

-- `expr_to_symbol`
unfoldable pub expr_to_symbol : Expr → Convert Reference
expr_to_symbol e = do name ← unwrap_symbol e; new_symbol name (loc e)

-- The pattern `Some((tag, [a, b]))` on an expression.
abbrev pub two : Exprs → Option (Expr × Expr)
two (cons a (cons b nil)) = some (a, b)
two _ = none

abbrev pub tagged : Text → Option (Text × Exprs) → Option (Expr × Expr)
tagged tag none = none
tagged tag (some (t, es)) = if text_eq t tag then two es else none

unfoldable pub pair_of : Text → Expr → Option (Expr × Expr)
pair_of tag e = tagged tag (try_construct e)

-- `iter().map(f).collect::<Result<Vec<_>, _>>()?`
unfoldable pub each : {A : Type 0} → (Expr → Convert A) → Exprs → Convert (List A)
each f nil = pure []
each f (cons e es) = do a ← f e; rest ← each f es; pure (a ∷ rest)

-- `as i64` of a 64-bit number
unfoldable pub as_i64 : ℕ → ℤ
as_i64 n = if ltb (n % 2 ^ 64) (2 ^ 63) then pos (n % 2 ^ 64) else negsuc (2 ^ 64 - n % 2 ^ 64 - 1)
