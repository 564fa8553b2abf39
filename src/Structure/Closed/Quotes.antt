-- ===== src/Structure/Closed/Quotes.antt =====
-- compiler/src/structure.rs: quotes keep the state closed.
use live_programming_prototy.Prelude.{ℕ, ◌≡◌, subst, List, [], ◌∷◌, ◌++◌, some, All-append, arith}
use live_programming_prototy.Common.{Text}
use live_programming_prototy.Expr.{Expr, Exprs, expr, list, nil, cons, loc, children}
use live_programming_prototy.Nodes.{quote}
use live_programming_prototy.Structure.{Converter, add_node}
use live_programming_prototy.Structure.Closed.{Known, Closed, Ends, Ends-bind, Ends-option}
use live_programming_prototy.Structure.Closed.Moves.{pure-Ends, add_node-Ends}
use live_programming_prototy.Structure.Closed.Fit.{Fit, Each, Good, children-Fit}
use live_programming_prototy.Structure.Closed.Builders.{
  AllKnown, AllKnown-keep, template_quote-Ends,
}
use live_programming_prototy.Structure.Builders.{
  ToNode, hole, add_argument, template_arguments, all_template_arguments, quote_to_node,
}

single-Fit :
    (n : ℕ) (tag : Text) (es : Exprs) (e : Expr) → Each (Fit n) es → hole tag es ≡ some e → Fit n e
single-Fit n tag nil e f h = absurd (hole-nil tag e h)
  where
    hole-nil : (tag : Text) (e : Expr) → hole tag nil ≡ some e → ⊥
    hole-nil tag e h = ground arith
single-Fit n tag (cons x nil) e f h = subst (Fit n) (is_it tag x e h) f.0
  where
    is_it : (tag : Text) (x e : Expr) → hole tag (cons x nil) ≡ some e → x ≡ e
    is_it tag x e h = ground arith
single-Fit n tag (cons x (cons y es)) e f h = absurd (hole-more tag x y es e h)
  where
    hole-more :
        (tag : Text) (x y : Expr) (es : Exprs) (e : Expr)
        → hole tag (cons x (cons y es)) ≡ some e
        → ⊥
    hole-more tag x y es e h = ground arith

module _ (n : ℕ) (rec : ToNode) (good : Good n rec) where
  add_argument-Ends :
      (args : List ℕ) (e : Expr) (s : Converter)
      → Fit n e
      → Closed s
      → AllKnown s args
      → Ends s AllKnown (add_argument rec args e s)
  unfolding add_argument
  add_argument-Ends args e s f c h =
      Ends-bind s Known AllKnown (rec e) _ (good e f s c) λ m t g d p.
        pure-Ends AllKnown (args ++ m ∷ []) t d
          (All-append (Known t) args (m ∷ []) (AllKnown-keep s t args g h) (p, tt))

  mutual
    unfolding template_arguments all_template_arguments children

    template_arguments-Ends :
        (e : Expr) (args : List ℕ) (s : Converter)
        → Fit n e
        → Closed s
        → AllKnown s args
        → Ends s AllKnown (template_arguments rec e args s)
    template_arguments-Ends (expr l (list tag es)) args s f c h =
        let k : Each (Fit n) es = children-Fit n (expr l (list tag es)) f in
        Ends-option s AllKnown (hole tag es) _ _ (λ q. all_template_arguments-Ends es args s k c h)
          λ e q. add_argument-Ends args e s (single-Fit n tag es e k q) c h
    template_arguments-Ends (expr l c') args s f c h = pure-Ends AllKnown args s c h

    all_template_arguments-Ends :
        (es : Exprs) (args : List ℕ) (s : Converter)
        → Each (Fit n) es
        → Closed s
        → AllKnown s args
        → Ends s AllKnown (all_template_arguments rec es args s)
    all_template_arguments-Ends nil args s f c h = pure-Ends AllKnown args s c h
    all_template_arguments-Ends (cons e es) args s f c h =
        Ends-bind s AllKnown AllKnown (template_arguments rec e args) _
          (template_arguments-Ends e args s f.0 c h)
          λ args' t g d p. all_template_arguments-Ends es args' t f.1 d p

  pub quote_to_node-Ends :
      (e quoted : Expr) (s : Converter)
      → Fit n quoted
      → Closed s
      → Ends s Known (quote_to_node rec e quoted s)
  unfolding quote_to_node
  quote_to_node-Ends e quoted s f c =
      Ends-bind s AllKnown Known (template_arguments rec quoted []) _
        (template_arguments-Ends quoted [] s f c tt)
        λ args t g d p.
          Ends-bind t Known Known (add_node (loc e) (quote quoted)) _
            (add_node-Ends (loc e) _ t d tt)
            λ q u g' d' k. template_quote-Ends (loc e) q args u d' k (AllKnown-keep t u args g' p)
