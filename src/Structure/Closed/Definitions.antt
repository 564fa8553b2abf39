-- ===== src/Structure/Closed/Definitions.antt =====
-- compiler/src/structure.rs: functions, types and constructed values keep the state closed.
use live_programming_prototy.Prelude.{
  ℕ, ◌≡◌, refl, true, List, [], ◌∷◌, Option, none, some, All, All-map, arith,
}
use live_programming_prototy.Common.{Text, codes, text_eq}
use live_programming_prototy.Expr.{Expr, Exprs, expr, list, nil, cons, loc, children, try_construct}
use live_programming_prototy.Nodes.{Reference}
use live_programming_prototy.Structure.{
  Converter, ◌>>=◌, pure, unwrap_symbol, expr_to_symbol, pair_of, each,
}
use live_programming_prototy.Structure.Builders.{ToNode}
use live_programming_prototy.Structure.Definitions.{
  typed_symbol, cached_symbol, field_value, to_type_constructor, function_body, polytypes_of,
  scope_of, function_def_to_node, is_polytypes, fun_to_node, union_to_node, struct_head,
  struct_to_node,
}
use live_programming_prototy.Structure.Closed.{
  Known, Maybe, Closed, Grows, Ends, Ends-bind, Ends-option, Ends-if,
}
use live_programming_prototy.Structure.Closed.Moves.{
  Any, Symbol, pure-Ends, cached-Ends, add_node-Ends, unwrap_symbol-Ends, expr_to_symbol-Ends,
}
use live_programming_prototy.Structure.Closed.Fit.{
  Fit, Each, Good, each-Ends, pair_of-Fit, and_true, has_parts, shaped, shaped_all,
}
use live_programming_prototy.Structure.Closed.Brackets.{function_body-Ends}

abbrev pub Typed : Converter → Reference × Option Expr → Type 0
Typed s a = Symbol s a.0

abbrev pub AllTyped : Converter → List (Reference × Option Expr) → Type 0
AllTyped s = All (Typed s)

abbrev FieldValue : Converter → Option Reference × ℕ → Type 0
FieldValue s f = Maybe (Symbol s) f.0 × Known s f.1

AllTyped-keep :
    (s t : Converter) (args : List (Reference × Option Expr))
    → Grows s t
    → AllTyped s args
    → AllTyped t args
AllTyped-keep s t args g = All-map (Typed s) (Typed t) args (λ a. g.1 a.0.id)

FieldValue-keep :
    (s t : Converter) (f : Option Reference × ℕ) → Grows s t → FieldValue s f → FieldValue t f
FieldValue-keep s t (none, n) g h = (tt, g.0 n h.1)
FieldValue-keep s t (some r, n) g h = (g.1 r.id h.0, g.0 n h.1)

Each-Unit : (es : Exprs) → Each (λ e. Unit) es
Each-Unit nil = tt
Each-Unit (cons e es) = (tt, Each-Unit es)

pub typed_symbol-Ends : (e : Expr) (s : Converter) → Closed s → Ends s Typed (typed_symbol e s)
unfolding typed_symbol
typed_symbol-Ends e s c =
    Ends-option s Typed (pair_of (codes ":") e) _ _
      (λ h.
        Ends-bind s Symbol Typed (expr_to_symbol e) _ (expr_to_symbol-Ends e s c)
          λ r t g d p. pure-Ends Typed (r, none) t d p)
      λ a h.
        Ends-bind s Symbol Typed (expr_to_symbol a.0) _ (expr_to_symbol-Ends a.0 s c)
          λ r t g d p. pure-Ends Typed (r, some a.1) t d p

typed_symbols-Ends :
    (es : Exprs) (s : Converter) → Closed s → Ends s AllTyped (each typed_symbol es s)
typed_symbols-Ends es s c =
    each-Ends Typed (λ s t a g. g.1 a.0.id) (λ e. Unit) typed_symbol (λ e h. typed_symbol-Ends e) es
      (Each-Unit es) s c

pub cached_symbol-Ends : (e : Expr) (s : Converter) → Closed s → Ends s Any (cached_symbol e s)
unfolding cached_symbol
cached_symbol-Ends e s c =
    Ends-bind s Any Any (unwrap_symbol e) _ (unwrap_symbol-Ends e s c)
      λ t u g d p. cached-Ends t u d

cached_symbols-Ends :
    (es : Exprs) (s : Converter) → Closed s → Ends s (λ t. All (Any t)) (each cached_symbol es s)
cached_symbols-Ends es s c =
    each-Ends Any (λ s t a g h. tt) (λ e. Unit) cached_symbol (λ e h. cached_symbol-Ends e) es
      (Each-Unit es) s c

scope_of-Symbol :
    (s : Converter) (args : List (Reference × Option Expr)) (scope : List Reference)
    → AllTyped s args
    → All (Symbol s) scope
    → All (Symbol s) (scope_of args scope)
scope_of-Symbol s [] scope h k = k
scope_of-Symbol s ((r, t) ∷ args) scope h k = scope_of-Symbol s args (r ∷ scope) h.1 (h.0, k)

module _ (n : ℕ) (rec : ToNode) (good : Good n rec) where
  field_value-Ends :
      (e : Expr) → Fit n e → (s : Converter) → Closed s → Ends s FieldValue (field_value rec e s)
  unfolding field_value
  field_value-Ends e f s c =
      Ends-option s FieldValue (pair_of (codes ":") e) _ _
        (λ h.
          Ends-bind s Known FieldValue (rec e) _ (good e f s c)
            λ v t g d p. pure-Ends FieldValue (none, v) t d (tt, p))
        λ a h.
          Ends-bind s Symbol FieldValue (expr_to_symbol a.0) _ (expr_to_symbol-Ends a.0 s c)
            λ r t g d p.
              Ends-bind t Known FieldValue (rec a.1) _
                (good a.1 (pair_of-Fit n _ e a.0 a.1 f h).1 t d)
                λ v u g' d' q. pure-Ends FieldValue (some r, v) u d' (g'.1 r.id p, q)

  pub to_type_constructor-Ends :
      (e : Expr) (es : Exprs) (s : Converter)
      → Each (Fit n) es
      → Closed s
      → Ends s Known (to_type_constructor rec e es s)
  unfolding to_type_constructor
  to_type_constructor-Ends e nil s f c = tt
  to_type_constructor-Ends e (cons name es) s f c =
      Ends-bind s Symbol Known (expr_to_symbol name) _ (expr_to_symbol-Ends name s c) λ r t g d p.
        Ends-bind t (λ x. All (FieldValue x)) Known (each (λ x. field_value rec x) es) _
          (each-Ends FieldValue FieldValue-keep (Fit n) (λ x. field_value rec x) field_value-Ends es
            f.1 t d)
          λ fs u g' d' q. add_node-Ends (loc e) _ u d' (g'.1 r.id p, q)

  function_def-Ends :
      (e name args : Expr) (tag polytypes : Option Expr) (body : Expr) (s : Converter)
      → Fit n body
      → Closed s
      → Ends s Known (function_def_to_node rec e name args tag polytypes body s)
  unfolding function_def_to_node
  function_def-Ends e name args tag polytypes body s f c =
      Ends-bind s Any Known (cached_symbol name) _ (cached_symbol-Ends name s c) λ name' t g d p.
        Ends-bind t AllTyped Known (each typed_symbol (children args)) _ (typed_symbols-Ends _ t d)
          λ as' u g1 d1 h.
            Ends-bind u (λ x. All (Any x)) Known (each cached_symbol (polytypes_of polytypes)) _
              (cached_symbols-Ends _ u d1)
              λ vars v g2 d2 q.
                Ends-bind v Known Known (function_body rec (scope_of as' []) body) _
                  (function_body-Ends rec (scope_of as' []) body v (good body f) d2
                    (scope_of-Symbol v as' [] (AllTyped-keep u v as' g2 h) tt))
                  λ b w g3 d3 k.
                    add_node-Ends (loc e) _ w d3
                      (AllTyped-keep v w as' g3 (AllTyped-keep u v as' g2 h), k)

  pub fun_to_node-Ends :
      (e : Expr) (es : Exprs) (s : Converter)
      → Each (Fit n) es
      → Closed s
      → Ends s Known (fun_to_node rec e es s)
  unfolding fun_to_node
  fun_to_node-Ends e (cons name (cons args (cons body nil))) s f c =
      function_def-Ends e name args none none body s f.1.1.0 c
  fun_to_node-Ends e (cons name (cons args (cons tag (cons polytypes (cons body nil))))) s f c =
      function_def-Ends e name args (some tag) (some polytypes) body s f.1.1.1.1.0 c
  fun_to_node-Ends e (cons name (cons args (cons unknown (cons body nil)))) s f c =
      Ends-if s Known (is_polytypes unknown) _ _
        (λ h. function_def-Ends e name args none (some unknown) body s f.1.1.1.0 c)
        λ h. function_def-Ends e name args (some unknown) none body s f.1.1.1.0 c
  fun_to_node-Ends e nil s f c = tt
  fun_to_node-Ends e (cons a nil) s f c = tt
  fun_to_node-Ends e (cons a (cons b nil)) s f c = tt
  fun_to_node-Ends e (cons a (cons b (cons x (cons y (cons z (cons w es)))))) s f c = tt

pub union_to_node-Ends :
    (e name fields : Expr) (s : Converter) → Closed s → Ends s Known (union_to_node e name fields s)
unfolding union_to_node
union_to_node-Ends e name fields s c =
    Ends-bind s Any Known (cached_symbol name) _ (cached_symbol-Ends name s c) λ name' t g d p.
      Ends-bind t AllTyped Known (each typed_symbol (children fields)) _ (typed_symbols-Ends _ t d)
        λ fs u g' d' h. add_node-Ends (loc e) _ u d' h

-- The name alone, with no type variables
name_head-Ends :
    (name : Expr) (s : Converter)
    → Closed s
    → Ends {A = Text × List Text} s Any ((cached_symbol name >>= (λ name. pure (name, []))) s)
name_head-Ends name s c =
    Ends-bind s Any Any (cached_symbol name) _ (cached_symbol-Ends name s c)
      λ t u g d p. pure-Ends {A = Text × List Text} Any (t, []) u d tt

struct_head-Ends :
    (o : Option (Text × Exprs)) (name : Expr) (s : Converter)
    → ((tag : Text) (es : Exprs) → o ≡ some (tag, es) → has_parts tag es ≡ true)
    → Closed s
    → Ends s Any (struct_head o name s)
unfolding struct_head
struct_head-Ends none name s f c = name_head-Ends name s c
struct_head-Ends (some (tag, nil)) name s f c =
    Ends-if s Any (text_eq tag (codes "call")) _ _ (λ h. absurd (call_nil tag h (f tag nil refl)))
      λ h. name_head-Ends name s c
  where
    call_nil : (tag : Text) → text_eq tag (codes "call") ≡ true → has_parts tag nil ≡ true → ⊥
    call_nil tag h k = ground arith
struct_head-Ends (some (tag, cons e es)) name s f c =
    Ends-if s Any (text_eq tag (codes "call")) _ _
      (λ h. Ends-bind s Any Any (cached_symbol e) _ (cached_symbol-Ends e s c) λ t u g d p.
        Ends-bind u (λ x. All (Any x)) Any (each cached_symbol es) _ (cached_symbols-Ends es u d)
          λ ts v g' d' q. pure-Ends {A = Text × List Text} Any (t, ts) v d' tt)
      λ h. name_head-Ends name s c

has_parts-shaped :
    (e : Expr) (tag : Text) (es : Exprs)
    → shaped e ≡ true
    → try_construct e ≡ some (tag, es)
    → has_parts tag es ≡ true
unfolding shaped try_construct
has_parts-shaped (expr l (list t xs)) tag es h p =
    ground (arith, and_true (has_parts t xs) (shaped_all xs) h)
has_parts-shaped (expr l c) tag es h p = absurd (cc)

pub struct_to_node-Ends :
    (e name fields : Expr) (s : Converter)
    → shaped name ≡ true
    → Closed s
    → Ends s Known (struct_to_node e name fields s)
unfolding struct_to_node
struct_to_node-Ends e name fields s h c =
    Ends-bind s Any Known (struct_head (try_construct name) name) _
      (struct_head-Ends (try_construct name) name s (λ tag es. has_parts-shaped name tag es h) c)
      λ head t g d p.
        Ends-bind t AllTyped Known (each typed_symbol (children fields)) _
          (typed_symbols-Ends _ t d) λ fs u g' d' k. add_node-Ends (loc e) _ u d' k
