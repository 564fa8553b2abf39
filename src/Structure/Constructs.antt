-- ===== src/Structure/Constructs.antt =====
-- compiler/src/structure.rs: `construct_to_node`.
use live_programming_prototy.Prelude.{
  ℕ, Bool, true, false, List, [], ◌∷◌, Option, none, some, if◌then◌else◌,
}
use live_programming_prototy.Common.{Text, codes, text_eq}
use live_programming_prototy.Expr.{Expr, Exprs, nil, cons, loc, try_symbol}
use live_programming_prototy.Nodes.{
  Reference, normal_global, local_var, global_var, variable_initialise, type_alias, assignment,
  if_then, if_then_else, block, reference, cbind, field_access, array_literal, function_call,
  while_loop, convert, size_of, break_to_label,
}
use live_programming_prototy.Structure.{
  Convert, ◌>>=◌, pure, panic, raise, message, add_node, new_symbol, add_var_to_scope,
  unwrap_construct, expr_to_symbol, pair_of, each,
}
use live_programming_prototy.Structure.Builders.{
  ToNode, let_var, add_call, labelled_node, new_block_scope,
}
use live_programming_prototy.Structure.Definitions.{
  typed_symbol, cached_symbol, to_type_constructor,
}

-- The arm `call`
unfoldable pub function_call_to_node : ToNode → Expr → Expr → Exprs → Convert ℕ
function_call_to_node rec e function_expr es = do
  args ← each rec es
  function ← rec function_expr
  add_node (loc e) (function_call function args)

unfoldable pub size_of_to_node : ToNode → Expr → Expr → Exprs → Convert ℕ
size_of_to_node rec e f (cons type_tag nil) = add_node (loc e) (size_of type_tag)
size_of_to_node rec e f es = function_call_to_node rec e f es

abbrev pub named : Option Text → Text → Bool
named none name = false
named (some t) name = text_eq t name

unfoldable pub call_to_node : ToNode → Expr → Exprs → Convert ℕ
call_to_node rec e nil = panic
call_to_node rec e (cons f es) =
    if named (try_symbol f) (codes "new")
    then to_type_constructor rec e es
    else if named (try_symbol f) (codes "sizeof")
    then size_of_to_node rec e f es
    else function_call_to_node rec e f es

-- The arms `as`, `static`, `let`, `type`, `=`
unfoldable pub as_to_node : ToNode → Expr → Expr → Expr → Convert ℕ
as_to_node rec e from_value into_type = do
  n ← rec from_value
  add_node (loc e) (convert n into_type)

unfoldable pub malformed_let : Expr → Convert ℕ
malformed_let e = raise (loc e) (message (codes "malformed let expression"))

unfoldable pub static_to_node : ToNode → Expr → Expr → Convert ℕ
static_to_node rec e binding = elim (pair_of (codes "=") binding) [
  | none ↦ malformed_let e
  | some (name_expr, value_expr) ↦ do
    name ← typed_symbol name_expr
    value ← rec value_expr
    add_node (loc e) (variable_initialise name.0 name.1 value (global_var normal_global))
]

unfoldable pub let_to_node : ToNode → Expr → Expr → Convert ℕ
let_to_node rec e binding = elim (pair_of (codes "=") binding) [
  | none ↦ malformed_let e
  | some (name_expr, value_expr) ↦ do
    name ← typed_symbol name_expr
    value ← rec value_expr
    added ← add_var_to_scope name.0
    add_node (loc e) (variable_initialise name.0 name.1 value local_var)
]

unfoldable pub type_to_node : Expr → Expr → Convert ℕ
type_to_node e binding = elim (pair_of (codes "=") binding) [
  | none ↦ malformed_let e
  | some (alias, type_aliased) ↦ add_node (loc e) (type_alias alias type_aliased)
]

unfoldable pub assignment_to_node : ToNode → Expr → Expr → Expr → Convert ℕ
assignment_to_node rec e assign_expr value_expr = do
  a ← rec assign_expr
  b ← rec value_expr
  add_node (loc e) (assignment a b)

-- The arm `return`: it leaves the function, whose label was pushed first.
unfoldable pub last_label : List ℕ → Option ℕ
last_label [] = none
last_label (l ∷ []) = some l
last_label (l ∷ m ∷ ls) = last_label (m ∷ ls)

unfoldable pub break_to : Expr → Option ℕ → Option ℕ → Convert ℕ
break_to e none return_value = panic
break_to e (some l) return_value = add_node (loc e) (break_to_label l return_value)

unfoldable pub return_value : ToNode → Exprs → Convert (Option ℕ)
return_value rec (cons e nil) = do n ← rec e; pure (some n)
return_value rec es = pure none

abbrev pub has_two : Exprs → Bool
has_two (cons a (cons b es)) = true
has_two es = false

unfoldable pub break_out : Expr → Option ℕ → Convert ℕ
break_out e value s = break_to e (last_label s.labels_in_scope) value s

unfoldable pub return_to_node : ToNode → Expr → Exprs → Convert ℕ
return_to_node rec e es =
    if has_two es
    then raise (loc e) (message (codes "malformed return expression"))
    else (do value ← return_value rec es; break_out e value)

-- The arms `while` and `for`
unfoldable pub while_to_node : ToNode → Expr → Expr → Expr → Convert ℕ
while_to_node rec e condition_expr body_expr = labelled_node (loc e) (do
  condition ← rec condition_expr
  body ← rec body_expr
  add_node (loc e) (while_loop condition body))

unfoldable pub next_call : Expr → Reference → Reference → Convert ℕ
next_call e it_var loop_var = do
  it ← add_node (loc e) (reference it_var.name (some it_var.id))
  var ← add_node (loc e) (reference loop_var.name (some loop_var.id))
  var_ref ← add_call (loc e) (codes "&") (var ∷ [])
  add_call (loc e) (codes "next") (it ∷ var_ref ∷ [])

unfoldable pub range_iterator : ToNode → Expr → Expr → Reference → Convert ℕ
range_iterator rec e range it_var = do
  n ← rec range
  iter ← add_call (loc e) (codes "iter") (n ∷ [])
  iter_ref ← add_call (loc e) (codes "&") (iter ∷ [])
  let_var (loc e) it_var iter_ref

unfoldable pub loop_block : ToNode → Expr → Expr → Expr → Expr → Convert ℕ
loop_block rec e var range body = do
  it_var ← new_symbol (codes "@range_var") (loc e)
  loop_var ← expr_to_symbol var
  let_it_node ← range_iterator rec e range it_var
  zero ← add_call (loc e) (codes "UnsafeZeroInit") []
  let_loop_node ← let_var (loc e) loop_var zero
  added ← add_var_to_scope loop_var
  condition ← next_call e it_var loop_var
  body_node ← rec body
  while_node ← add_node (loc e) (while_loop condition body_node)
  add_node (loc e) (block (let_it_node ∷ let_loop_node ∷ while_node ∷ []))

unfoldable pub for_loop : ToNode → Expr → Expr → Expr → Convert ℕ
for_loop rec e range body = elim (pair_of (codes "in") range) [
  | none ↦ raise (loc e) (message (codes "malformed for expression"))
  | some (var, r) ↦ labelled_node (loc e) (new_block_scope (loop_block rec e var r body))
]

-- The arm `if`
unfoldable pub if_to_node : ToNode → Expr → Exprs → Convert ℕ
if_to_node rec e nil = panic
if_to_node rec e (cons condition_expr nil) = do condition ← rec condition_expr; panic
if_to_node rec e (cons condition_expr (cons then_expr nil)) = do
  condition ← rec condition_expr
  then_branch ← rec then_expr
  add_node (loc e) (if_then condition then_branch)
if_to_node rec e (cons condition_expr (cons then_expr (cons else_expr nil))) = do
  condition ← rec condition_expr
  then_branch ← rec then_expr
  else_branch ← rec else_expr
  add_node (loc e) (if_then_else condition then_branch else_branch)
if_to_node rec e es = raise (loc e) (message (codes "malformed if expression"))

-- The arms `block`, `cbind`, `.`, `array` and `index`
unfoldable pub block_to_node : ToNode → Expr → Exprs → Convert ℕ
block_to_node rec e es = do nodes ← new_block_scope (each rec es); add_node (loc e) (block nodes)

unfoldable pub cbind_to_node : Expr → Expr → Convert ℕ
cbind_to_node e binding = do
  construct ← unwrap_construct binding
  elim (pair_of (codes ":") binding) [
    | none ↦ raise (loc e) (message (codes "invalid cbind expression"))
    | some (name_expr, type_expr) ↦ do
      name ← cached_symbol name_expr
      add_node (loc e) (cbind name type_expr)
  ]

unfoldable pub field_to_node : ToNode → Expr → Expr → Expr → Convert ℕ
field_to_node rec e container_expr field_expr = do
  container ← rec container_expr
  field ← expr_to_symbol field_expr
  add_node (loc e) (field_access container field)

unfoldable pub array_to_node : ToNode → Expr → Exprs → Convert ℕ
array_to_node rec e es = do elements ← each rec es; add_node (loc e) (array_literal elements)

unfoldable pub index_to_node : ToNode → Expr → Exprs → Convert ℕ
index_to_node rec e nil = panic
index_to_node rec e (cons array_expr (cons index_expr nil)) = do
  container ← rec array_expr
  index ← rec index_expr
  element_pointer ← add_call (loc e) (codes "Index") (container ∷ index ∷ [])
  add_call (loc e) (codes "*") (element_pointer ∷ [])
index_to_node rec e es = raise (loc e) (message (codes "malformed index expression"))
