-- ===== src/Structure/Convert.antt =====
-- compiler/src/structure.rs: `to_node` and `to_nodes`.
use live_programming_prototy.Prelude.{
  ℕ, zero, suc, ◌+◌, List, [], ◌∷◌, Option, none, some, if◌then◌else◌, Outcome, ok, err, panicked,
  out_of_fuel,
}
use live_programming_prototy.Common.{Text, codes, text_eq, UidGenerator, StringCache}
use live_programming_prototy.Expr.{
  Expr, Exprs, expr, list, symbol, literal_string, literal_float, literal_int, literal_bool,
  literal_unit, nil, cons, loc,
}
use live_programming_prototy.Nodes.{
  PrimitiveVal, void_val, float_val, int_val, string_val, bool_val, Reference, literal, reference,
  function_definition, Nodes,
}
use live_programming_prototy.Structure.{
  Converter, StructureError, Convert, ◌>>=◌, raise, invalid_construct, cached, add_node, find_var,
}
use live_programming_prototy.Structure.Builders.{ToNode, quote_to_node}
use live_programming_prototy.Structure.Definitions.{
  to_function_body, fun_to_node, union_to_node, struct_to_node,
}
use live_programming_prototy.Structure.Constructs.{
  call_to_node, as_to_node, static_to_node, let_to_node, type_to_node, assignment_to_node,
  return_to_node, while_to_node, for_loop, if_to_node, block_to_node, cbind_to_node, field_to_node,
  array_to_node, index_to_node, break_to,
}

unfoldable pub invalid : Expr → Text → Convert ℕ
invalid e tag = raise (loc e) (invalid_construct tag)

-- The arms of `construct_to_node` that take one child, and two
unfoldable pub unary_to_node : ToNode → Expr → Text → Expr → Convert ℕ
unary_to_node rec e tag a =
    if text_eq tag (codes "static")
    then static_to_node rec e a
    else if text_eq tag (codes "let")
    then let_to_node rec e a
    else if text_eq tag (codes "type")
    then type_to_node e a
    else if text_eq tag (codes "#")
    then quote_to_node rec e a
    else if text_eq tag (codes "cbind")
    then cbind_to_node e a
    else invalid e tag

unfoldable pub binary_to_node : ToNode → Expr → Text → Expr → Expr → Convert ℕ
binary_to_node rec e tag a b =
    if text_eq tag (codes "as")
    then as_to_node rec e a b
    else if text_eq tag (codes "=")
    then assignment_to_node rec e a b
    else if text_eq tag (codes "while")
    then while_to_node rec e a b
    else if text_eq tag (codes "for")
    then for_loop rec e a b
    else if text_eq tag (codes "union")
    then union_to_node e a b
    else if text_eq tag (codes "struct")
    then struct_to_node e a b
    else if text_eq tag (codes ".")
    then field_to_node rec e a b
    else invalid e tag

unfoldable pub fixed_to_node : ToNode → Expr → Text → Exprs → Convert ℕ
fixed_to_node rec e tag (cons a nil) = unary_to_node rec e tag a
fixed_to_node rec e tag (cons a (cons b nil)) = binary_to_node rec e tag a b
fixed_to_node rec e tag es = invalid e tag

-- `construct_to_node`
unfoldable pub construct_to_node : ToNode → Expr → Text → Exprs → Convert ℕ
construct_to_node rec e tag es =
    if text_eq tag (codes "call")
    then call_to_node rec e es
    else if text_eq tag (codes "return")
    then return_to_node rec e es
    else if text_eq tag (codes "if")
    then if_to_node rec e es
    else if text_eq tag (codes "block")
    then block_to_node rec e es
    else if text_eq tag (codes "fun")
    then fun_to_node rec e es
    else if text_eq tag (codes "array")
    then array_to_node rec e es
    else if text_eq tag (codes "index")
    then index_to_node rec e es
    else fixed_to_node rec e tag es

-- `to_node` on a symbol: `break` leaves the loop whose label was pushed last.
abbrev pub first_label : List ℕ → Option ℕ
first_label [] = none
first_label (l ∷ ls) = some l

abbrev pub id_of : Option Reference → Option ℕ
id_of none = none
id_of (some r) = some r.id

unfoldable pub break_to_node : Expr → Convert ℕ
break_to_node e s = break_to e (first_label s.labels_in_scope) none s

unfoldable pub reference_to_node : Expr → Text → Text → Convert ℕ
reference_to_node e t name s =
    add_node (loc e) (reference name (id_of (find_var t s.block_scope))) s

unfoldable pub symbol_to_node : Expr → Text → Convert ℕ
symbol_to_node e t =
    if text_eq t (codes "break")
    then break_to_node e
    else (do name ← cached t; reference_to_node e t name)

unfoldable pub literal_to_node : Expr → PrimitiveVal → Convert ℕ
literal_to_node e v = add_node (loc e) (literal v)

-- `to_node`, over the conversion of subexpressions
unfoldable pub to_node_with : ToNode → Expr → Convert ℕ
to_node_with rec (expr l (list tag es)) = construct_to_node rec (expr l (list tag es)) tag es
to_node_with rec (expr l (symbol t)) = symbol_to_node (expr l (symbol t)) t
to_node_with rec (expr l (literal_string t)) =
    literal_to_node (expr l (literal_string t)) (string_val t)
to_node_with rec (expr l (literal_float t)) =
    literal_to_node (expr l (literal_float t)) (float_val t)
to_node_with rec (expr l (literal_int i)) = literal_to_node (expr l (literal_int i)) (int_val i)
to_node_with rec (expr l (literal_bool b)) = literal_to_node (expr l (literal_bool b)) (bool_val b)
to_node_with rec (expr l literal_unit) = literal_to_node (expr l literal_unit) void_val

-- `to_node`; the fuel bounds the depth of its calls.
unfoldable pub to_node : ℕ → ToNode
to_node zero e = λ s. out_of_fuel
to_node (suc fuel) e = to_node_with (to_node fuel) e

-- The nodes of an expression, which bound the depth of `to_node` on it
unfoldable mutual
  pub size : Expr → ℕ
  size (expr l (list tag es)) = suc (sizes es)
  size (expr l c) = 1

  pub sizes : Exprs → ℕ
  sizes nil = 0
  sizes (cons e es) = size e + sizes es

-- `top_level_expression`
unfoldable pub top_level_expression : ToNode → Expr → Convert ℕ
top_level_expression rec e = do
  name ← cached (codes "__top_level")
  body ← to_function_body rec e
  add_node (loc e) (function_definition name [] none [] body)

-- `to_nodes`, with the generator and the cache that it leaves
abbrev pub new_converter : UidGenerator → StringCache → Converter
new_converter generator cache = record {
  generator = generator;
  nodes = [];
  symbols = [];
  cache = cache;
  labels_in_scope = [];
  block_scope = [] ∷ [];
}

abbrev pub nodes_of :
    Outcome StructureError (ℕ × Converter) → Outcome StructureError (Nodes × Converter)
nodes_of (ok (top_level, s)) =
    ok (record { nodes = s.nodes; symbols = s.symbols; root = top_level }, s)
nodes_of (err e) = err e
nodes_of panicked = panicked
nodes_of out_of_fuel = out_of_fuel

unfoldable pub to_nodes :
    UidGenerator → StringCache → Expr → Outcome StructureError (Nodes × Converter)
to_nodes generator cache e =
    nodes_of (top_level_expression (to_node (suc (size e))) e (new_converter generator cache))
