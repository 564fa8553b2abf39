-- ===== src/Structure/Definitions.antt =====
-- compiler/src/structure.rs: functions, types and the construction of values.
use live_programming_prototy.Prelude.{
  ℕ, Bool, false, List, [], ◌∷◌, Option, none, some, if◌then◌else◌, ok, panicked,
}
use live_programming_prototy.Common.{Text, codes, text_eq}
use live_programming_prototy.Expr.{Expr, Exprs, nil, cons, loc, children, try_construct}
use live_programming_prototy.Nodes.{
  Reference, struct_kind, union_kind, function_definition, type_definition, type_constructor,
}
use live_programming_prototy.Structure.{
  Converter, Convert, ◌>>=◌, pure, panic, raise, message, cached, add_node, unwrap_symbol,
  expr_to_symbol, pair_of, each,
}
use live_programming_prototy.Structure.Builders.{ToNode, labelled_node}

-- `typed_symbol`
unfoldable pub typed_symbol : Expr → Convert (Reference × Option Expr)
typed_symbol e = elim (pair_of (codes ":") e) [
  | some (s, t) ↦ do symbol ← expr_to_symbol s; pure (symbol, some t)
  | none ↦ do symbol ← expr_to_symbol e; pure (symbol, none)
]

-- `self.cached(e.unwrap_symbol()?)`
unfoldable pub cached_symbol : Expr → Convert Text
cached_symbol e = do name ← unwrap_symbol e; cached name

-- The field values of `to_type_constructor`
unfoldable pub field_value : ToNode → Expr → Convert (Option Reference × ℕ)
field_value rec e = elim (pair_of (codes ":") e) [
  | some (name, value) ↦ do name ← expr_to_symbol name; n ← rec value; pure (some name, n)
  | none ↦ do n ← rec e; pure (none, n)
]

-- `to_type_constructor`
unfoldable pub to_type_constructor : ToNode → Expr → Exprs → Convert ℕ
to_type_constructor rec e nil = raise (loc e) (message (codes "malformed type instantiation"))
to_type_constructor rec e (cons name_expr field_exprs) = do
  name ← expr_to_symbol name_expr
  field_values ← each (λ f. field_value rec f) field_exprs
  add_node (loc e) (type_constructor name field_values)

-- `to_function_body`, in a converter of its own
unfoldable pub to_function_body : ToNode → Expr → Convert ℕ
to_function_body rec body s = elim s.labels_in_scope [
  | [] ↦ labelled_node (loc body) (rec body) s
  | l ∷ ls ↦ panicked
]

-- `FunctionConverter::new` for a function within another one, whose scopes come back behind it.
abbrev pub enter_function : List Reference → Converter → Converter
enter_function args s = record s { labels_in_scope = []; block_scope = args ∷ [] }

abbrev pub leave_function : Converter → ℕ → Convert ℕ
leave_function outer n s =
    ok (n, record s { labels_in_scope = outer.labels_in_scope; block_scope = outer.block_scope })

unfoldable pub function_body : ToNode → List Reference → Expr → Convert ℕ
function_body rec args body s =
    ((λ (t : Converter). to_function_body rec body (enter_function args t)) >>= leave_function s) s

-- The type variables of `function_def_to_node`
abbrev pub polytype_names : Option (Text × Exprs) → Exprs
polytype_names none = nil
polytype_names (some (tag, ts)) = if text_eq tag (codes "polytypes") then ts else nil

abbrev pub polytypes_of : Option Expr → Exprs
polytypes_of none = nil
polytypes_of (some e) = polytype_names (try_construct e)

-- The references without their types, the last one first
abbrev pub scope_of : List (Reference × Option Expr) → List Reference → List Reference
scope_of [] scope = scope
scope_of ((r, t) ∷ args) scope = scope_of args (r ∷ scope)

-- `function_def_to_node`
unfoldable pub function_def_to_node :
    ToNode → Expr → Expr → Expr → Option Expr → Option Expr → Expr → Convert ℕ
function_def_to_node rec e name args return_tag polytypes body = do
  name ← cached_symbol name
  args ← each typed_symbol (children args)
  type_vars ← each cached_symbol (polytypes_of polytypes)
  body ← function_body rec (scope_of args []) body
  add_node (loc e) (function_definition name args return_tag type_vars body)

-- The arm `fun` of `construct_to_node`
unfoldable pub is_polytypes : Expr → Bool
is_polytypes e = elim (try_construct e) [
  | none ↦ false
  | some (tag, es) ↦ text_eq tag (codes "polytypes")
]

unfoldable pub fun_to_node : ToNode → Expr → Exprs → Convert ℕ
fun_to_node rec e (cons name (cons args (cons body nil))) =
    function_def_to_node rec e name args none none body
fun_to_node rec e (cons name (cons args (cons return_tag (cons polytypes (cons body nil))))) =
    function_def_to_node rec e name args (some return_tag) (some polytypes) body
fun_to_node rec e (cons name (cons args (cons unknown (cons body nil)))) =
    if is_polytypes unknown
    then function_def_to_node rec e name args none (some unknown) body
    else function_def_to_node rec e name args (some unknown) none body
fun_to_node rec e es = raise (loc e) (message (codes "malformed function definition"))

-- The arm `union`
unfoldable pub union_to_node : Expr → Expr → Expr → Convert ℕ
union_to_node e name fields_expr = do
  name ← cached_symbol name
  fields ← each typed_symbol (children fields_expr)
  add_node (loc e) (type_definition name union_kind fields [])

-- The arm `struct`; the name may come with type variables.
unfoldable pub struct_head : Option (Text × Exprs) → Expr → Convert (Text × List Text)
struct_head none name = do name ← cached_symbol name; pure (name, [])
struct_head (some (tag, nil)) name =
    if text_eq tag (codes "call") then panic else (do name ← cached_symbol name; pure (name, []))
struct_head (some (tag, cons e es)) name =
    if text_eq tag (codes "call")
    then (do name ← cached_symbol e; type_vars ← each cached_symbol es; pure (name, type_vars))
    else (do name ← cached_symbol name; pure (name, []))

unfoldable pub struct_to_node : Expr → Expr → Expr → Convert ℕ
struct_to_node e name fields_expr = do
  head ← struct_head (try_construct name) name
  fields ← each typed_symbol (children fields_expr)
  add_node (loc e) (type_definition head.0 struct_kind fields head.1)
