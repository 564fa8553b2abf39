-- ===== src/Structure/Builders.antt =====
-- compiler/src/structure.rs: nodes made from others, labels, scopes and quotes.
use live_programming_prototy.Prelude.{ℕ, List, [], ◌∷◌, ◌++◌, Option, none, some, if◌then◌else◌, ok}
use live_programming_prototy.Common.{Text, codes, text_eq}
use live_programming_prototy.Location.{TextLocation}
use live_programming_prototy.Expr.{ℤ, Expr, Exprs, expr, list, nil, cons, loc}
use live_programming_prototy.Nodes.{
  int_val, Reference, local_var, literal, variable_initialise, quote, reference, type_constructor,
  array_literal, function_call, label,
}
use live_programming_prototy.Structure.{
  Convert, ◌>>=◌, pure, new_uid, cached, add_node, new_symbol, as_i64,
}

-- The conversion of a subexpression, `to_node`
abbrev pub ToNode : Type 0
ToNode = Expr → Convert ℕ

-- `int_literal`, `let_var`, `array_literal`, `function_call`, `type_constructor`
unfoldable pub add_int : TextLocation → ℤ → Convert ℕ
add_int l i = add_node l (literal (int_val i))

unfoldable pub let_var : TextLocation → Reference → ℕ → Convert ℕ
let_var l name val = add_node l (variable_initialise name none val local_var)

unfoldable pub add_array : TextLocation → List ℕ → Convert ℕ
add_array l args = add_node l (array_literal args)

unfoldable pub add_call : TextLocation → Text → List ℕ → Convert ℕ
add_call l name args = do
  name ← cached name
  function ← add_node l (reference name none)
  add_node l (function_call function args)

abbrev pub unnamed : List ℕ → List (Option Reference × ℕ)
unnamed [] = []
unnamed (a ∷ rest) = (none, a) ∷ unnamed rest

unfoldable pub add_constructor : TextLocation → Reference → List ℕ → Convert ℕ
add_constructor l name values = add_node l (type_constructor name (unnamed values))

-- `loc_struct`
unfoldable pub marker_struct : TextLocation → ℕ → ℕ → Convert ℕ
marker_struct l col line = do
  c ← add_int l (as_i64 col)
  n ← add_int l (as_i64 line)
  text_marker ← new_symbol (codes "text_marker") l
  add_constructor l text_marker (c ∷ n ∷ [])

unfoldable pub loc_struct : TextLocation → Convert ℕ
loc_struct l = do
  source ← add_int l (as_i64 l.source)
  start ← marker_struct l l.start.col l.start.line
  end ← marker_struct l l.end.col l.end.line
  text_location ← new_symbol (codes "text_location") l
  add_constructor l text_location (source ∷ start ∷ end ∷ [])

-- `labelled_node`
abbrev pub push_label : ℕ → Convert Unit
push_label l s = ok (tt, record s { labels_in_scope = l ∷ s.labels_in_scope })

abbrev pub rest_of {ℓ} : {A : Type ℓ} → List A → List A
rest_of [] = []
rest_of (x ∷ xs) = xs

abbrev pub pop_label : Convert Unit
pop_label s = ok (tt, record s { labels_in_scope = rest_of s.labels_in_scope })

unfoldable pub labelled_node : TextLocation → Convert ℕ → Convert ℕ
labelled_node l f = do
  id ← new_uid
  pushed ← push_label id
  body ← f
  popped ← pop_label
  add_node l (label id body)

-- `new_block_scope`
abbrev pub push_scope : Convert Unit
push_scope s = ok (tt, record s { block_scope = [] ∷ s.block_scope })

abbrev pub pop_scope : Convert Unit
pop_scope s = ok (tt, record s { block_scope = rest_of s.block_scope })

unfoldable pub new_block_scope : {A : Type 0} → Convert A → Convert A
new_block_scope f = do pushed ← push_scope; t ← f; popped ← pop_scope; pure t

-- The pattern `Some(("$", [e]))`
abbrev pub single : Exprs → Option Expr
single (cons e nil) = some e
single _ = none

abbrev pub hole : Text → Exprs → Option Expr
hole tag es = if text_eq tag (codes "$") then single es else none

unfoldable pub add_argument : ToNode → List ℕ → Expr → Convert (List ℕ)
add_argument rec args e = do n ← rec e; pure (args ++ n ∷ [])

-- `compile_template_arguments`, which adds to the arguments
unfoldable mutual
  pub template_arguments : ToNode → Expr → List ℕ → Convert (List ℕ)
  template_arguments rec (expr l (list tag es)) args = elim (hole tag es) [
    | some e ↦ add_argument rec args e
    | none ↦ all_template_arguments rec es args
  ]
  template_arguments rec (expr l c) args = pure args

  pub all_template_arguments : ToNode → Exprs → List ℕ → Convert (List ℕ)
  all_template_arguments rec nil args = pure args
  all_template_arguments rec (cons e es) args = do
    args' ← template_arguments rec e args
    all_template_arguments rec es args'

-- The coerced arguments of `quote_to_node`
unfoldable pub coerce_arguments : TextLocation → List ℕ → Convert (List ℕ)
coerce_arguments l [] = pure []
coerce_arguments l (n ∷ ns) = do
  place ← loc_struct l
  expr_val ← add_call l (codes "sym") (n ∷ place ∷ [])
  arg ← add_call l (codes "&") (expr_val ∷ [])
  args ← coerce_arguments l ns
  pure (arg ∷ args)

-- `quote_to_node`
unfoldable pub template_quote : TextLocation → ℕ → List ℕ → Convert ℕ
template_quote l main_quote [] = pure main_quote
template_quote l main_quote (n ∷ ns) = do
  args ← coerce_arguments l (n ∷ ns)
  elements ← add_array l args
  add_call l (codes "template_quote") (main_quote ∷ elements ∷ [])

unfoldable pub quote_to_node : ToNode → Expr → Expr → Convert ℕ
quote_to_node rec e quoted = do
  args ← template_arguments rec quoted []
  main_quote ← add_node (loc e) (quote quoted)
  template_quote (loc e) main_quote args
