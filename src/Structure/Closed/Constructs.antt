-- ===== src/Structure/Closed/Constructs.antt =====
-- compiler/src/structure.rs: the arms of `construct_to_node` keep the state closed.
use live_programming_prototy.Prelude.{ℕ, ◌≡◌, refl, true, List, [], ◌∷◌, Option, none, some}
use live_programming_prototy.Common.{codes}
use live_programming_prototy.Expr.{Expr, Exprs, nil, cons, loc, try_symbol}
use live_programming_prototy.Structure.{
  Converter, add_var_to_scope, unwrap_construct, pair_of, each,
}
use live_programming_prototy.Structure.Builders.{ToNode}
use live_programming_prototy.Structure.Definitions.{typed_symbol, cached_symbol}
use live_programming_prototy.Structure.Constructs.{
  function_call_to_node, size_of_to_node, named, call_to_node, as_to_node, malformed_let,
  static_to_node, let_to_node, type_to_node, assignment_to_node, last_label, break_to,
  cbind_to_node,
}
use live_programming_prototy.Structure.Closed.{
  Known, Maybe, Full, Closed, Ends, Ends-bind, Ends-option, Ends-if,
}
use live_programming_prototy.Structure.Closed.Moves.{
  Any, add_node-Ends, add_var_to_scope-Ends, unwrap_construct-Ends,
}
use live_programming_prototy.Structure.Closed.Fit.{
  Fit, Each, Good, each-Ends, pair_of-Fit, at_least_one,
}
use live_programming_prototy.Structure.Closed.Builders.{Known-keep, AllKnown, AllKnown-keep}
use live_programming_prototy.Structure.Closed.Definitions.{
  Typed, typed_symbol-Ends, cached_symbol-Ends, to_type_constructor-Ends,
}

pub last_label-Full : (ls : List ℕ) → Full ls → (l : ℕ) × (last_label ls ≡ some l)
unfolding last_label
last_label-Full [] f = absurd f
last_label-Full (l ∷ []) f = (l, refl)
last_label-Full (l ∷ m ∷ ls) f = last_label-Full (m ∷ ls) tt

pub break_to-Ends :
    (e : Expr) (l : Option ℕ) (v : Option ℕ) (s : Converter)
    → (m : ℕ) × (l ≡ some m)
    → Maybe (Known s) v
    → Closed s
    → Ends s Known (break_to e l v s)
unfolding break_to
break_to-Ends e none v s h k c = absurd (none-ne-some h)
  where
    none-ne-some : (m : ℕ) × (none ≡ some m) → ⊥
    none-ne-some p = cc
break_to-Ends e (some l) v s h k c = add_node-Ends (loc e) _ s c k

pub type_to_node-Ends : (e b : Expr) (s : Converter) → Closed s → Ends s Known (type_to_node e b s)
unfolding type_to_node malformed_let
type_to_node-Ends e b s c =
    Ends-option s Known (pair_of (codes "=") b) _ _ (λ h. tt) λ a h. add_node-Ends (loc e) _ s c tt

pub cbind_to_node-Ends :
    (e b : Expr) (s : Converter) → Closed s → Ends s Known (cbind_to_node e b s)
unfolding cbind_to_node
cbind_to_node-Ends e b s c =
    Ends-bind s Any Known (unwrap_construct b) _ (unwrap_construct-Ends b s c) λ x t g d p.
      Ends-option t Known (pair_of (codes ":") b) _ _ (λ h. tt)
        λ a h.
          Ends-bind t Any Known (cached_symbol a.0) _ (cached_symbol-Ends a.0 t d)
            λ name u g' d' q. add_node-Ends (loc e) _ u d' tt

module _ (n : ℕ) (rec : ToNode) (good : Good n rec) where
  pub each_rec-Ends :
      (es : Exprs) (s : Converter) → Each (Fit n) es → Closed s → Ends s AllKnown (each rec es s)
  each_rec-Ends es s f c = each-Ends Known Known-keep (Fit n) rec good es f s c

  function_call_to_node-Ends :
      (e f : Expr) (es : Exprs) (s : Converter)
      → Fit n f
      → Each (Fit n) es
      → Closed s
      → Ends s Known (function_call_to_node rec e f es s)
  unfolding function_call_to_node
  function_call_to_node-Ends e f es s h k c =
      Ends-bind s AllKnown Known (each rec es) _ (each_rec-Ends es s k c) λ args t g d p.
        Ends-bind t Known Known (rec f) _ (good f h t d)
          λ function u g' d' q. add_node-Ends (loc e) _ u d' (q, AllKnown-keep t u args g' p)

  size_of_to_node-Ends :
      (e f : Expr) (es : Exprs) (s : Converter)
      → Fit n f
      → Each (Fit n) es
      → Closed s
      → Ends s Known (size_of_to_node rec e f es s)
  unfolding size_of_to_node
  size_of_to_node-Ends e f (cons t nil) s h k c = add_node-Ends (loc e) _ s c tt
  size_of_to_node-Ends e f nil s h k c = function_call_to_node-Ends e f nil s h k c
  size_of_to_node-Ends e f (cons a (cons b es)) s h k c =
      function_call_to_node-Ends e f (cons a (cons b es)) s h k c

  pub call_to_node-Ends :
      (e : Expr) (es : Exprs) (s : Converter)
      → Each (Fit n) es
      → at_least_one es ≡ true
      → Closed s
      → Ends s Known (call_to_node rec e es s)
  unfolding call_to_node
  call_to_node-Ends e nil s k o c = absurd (cc)
  call_to_node-Ends e (cons f es) s k o c =
      Ends-if s Known (named (try_symbol f) (codes "new")) _ _
        (λ h. to_type_constructor-Ends n rec good e es s k.1 c)
        λ h.
          Ends-if s Known (named (try_symbol f) (codes "sizeof")) _ _
            (λ h'. size_of_to_node-Ends e f es s k.0 k.1 c)
            λ h'. function_call_to_node-Ends e f es s k.0 k.1 c

  pub as_to_node-Ends :
      (e a t : Expr) (s : Converter) → Fit n a → Closed s → Ends s Known (as_to_node rec e a t s)
  unfolding as_to_node
  as_to_node-Ends e a t s f c =
      Ends-bind s Known Known (rec a) _ (good a f s c) λ m u g d p. add_node-Ends (loc e) _ u d p

  pub static_to_node-Ends :
      (e b : Expr) (s : Converter) → Fit n b → Closed s → Ends s Known (static_to_node rec e b s)
  unfolding static_to_node malformed_let
  static_to_node-Ends e b s f c =
      Ends-option s Known (pair_of (codes "=") b) _ _ (λ h. tt)
        λ a h.
          Ends-bind s Typed Known (typed_symbol a.0) _ (typed_symbol-Ends a.0 s c) λ name t g d p.
            Ends-bind t Known Known (rec a.1) _ (good a.1 (pair_of-Fit n _ b a.0 a.1 f h).1 t d)
              λ v u g' d' q. add_node-Ends (loc e) _ u d' (g'.1 name.0.id p, q)

  pub let_to_node-Ends :
      (e b : Expr) (s : Converter) → Fit n b → Closed s → Ends s Known (let_to_node rec e b s)
  unfolding let_to_node malformed_let
  let_to_node-Ends e b s f c =
      Ends-option s Known (pair_of (codes "=") b) _ _ (λ h. tt)
        λ a h.
          Ends-bind s Typed Known (typed_symbol a.0) _ (typed_symbol-Ends a.0 s c) λ name t g d p.
            Ends-bind t Known Known (rec a.1) _ (good a.1 (pair_of-Fit n _ b a.0 a.1 f h).1 t d)
              λ v u g' d' q.
                Ends-bind u Any Known (add_var_to_scope name.0) _
                  (add_var_to_scope-Ends name.0 u d' (g'.1 name.0.id p))
                  λ x w g'' d'' r.
                    add_node-Ends (loc e) _ w d'' (g''.1 name.0.id (g'.1 name.0.id p), g''.0 v q)

  pub assignment_to_node-Ends :
      (e a b : Expr) (s : Converter)
      → Fit n a
      → Fit n b
      → Closed s
      → Ends s Known (assignment_to_node rec e a b s)
  unfolding assignment_to_node
  assignment_to_node-Ends e a b s f f' c =
      Ends-bind s Known Known (rec a) _ (good a f s c) λ x t g d p.
        Ends-bind t Known Known (rec b) _ (good b f' t d)
          λ y u g' d' q. add_node-Ends (loc e) _ u d' (g'.0 x p, q)
