-- ===== src/Structure/Closed/Arms.antt =====
-- compiler/src/structure.rs: further arms of `construct_to_node` keep the state closed.
use live_programming_prototy.Prelude.{ℕ, ◌≡◌, true, [], ◌∷◌, none, some}
use live_programming_prototy.Common.{codes}
use live_programming_prototy.Expr.{Expr, Exprs, nil, cons, loc}
use live_programming_prototy.Structure.{Converter, each, expr_to_symbol}
use live_programming_prototy.Structure.Closed.{Known, Maybe, Closed, Ends, Ends-bind, Ends-if}
use live_programming_prototy.Structure.Closed.Moves.{
  Symbol, pure-Ends, add_node-Ends, expr_to_symbol-Ends,
}
use live_programming_prototy.Structure.Closed.Fit.{Fit, Each, Good, at_least_one, at_least_two}
use live_programming_prototy.Structure.Closed.Builders.{Known-keep, AllKnown, add_call-Ends}
use live_programming_prototy.Structure.Closed.Brackets.{labelled_node-Ends, new_block_scope-Ends}
use live_programming_prototy.Structure.Builders.{ToNode, add_call, new_block_scope}
use live_programming_prototy.Structure.Constructs.{
  last_label, return_value, has_two, break_out, return_to_node, while_to_node, if_to_node,
  block_to_node, field_to_node, array_to_node, index_to_node,
}
use live_programming_prototy.Structure.Closed.Constructs.{
  break_to-Ends, last_label-Full, each_rec-Ends,
}

module _ (n : ℕ) (rec : ToNode) (good : Good n rec) where
  return_value-Ends :
      (es : Exprs) (s : Converter)
      → Each (Fit n) es
      → Closed s
      → Ends s (λ t. Maybe (Known t)) (return_value rec es s)
  unfolding return_value
  return_value-Ends nil s f c = pure-Ends (λ t. Maybe (Known t)) none s c tt
  return_value-Ends (cons e nil) s f c =
      Ends-bind s Known (λ t. Maybe (Known t)) (rec e) _ (good e f.0 s c)
        λ v t g d p. pure-Ends (λ t. Maybe (Known t)) (some v) t d p
  return_value-Ends (cons a (cons b es)) s f c = pure-Ends (λ t. Maybe (Known t)) none s c tt

  pub return_to_node-Ends :
      (e : Expr) (es : Exprs) (s : Converter)
      → Each (Fit n) es
      → Closed s
      → Ends s Known (return_to_node rec e es s)
  unfolding return_to_node break_out
  return_to_node-Ends e es s f c =
      Ends-if s Known (has_two es) _ _ (λ h. tt)
        λ h.
          Ends-bind s (λ t. Maybe (Known t)) Known (return_value rec es) _
            (return_value-Ends es s f c)
            λ v t g d p.
              break_to-Ends e (last_label t.labels_in_scope) v t
                (last_label-Full t.labels_in_scope d.2) p d

  pub while_to_node-Ends :
      (e a b : Expr) (s : Converter)
      → Fit n a
      → Fit n b
      → Closed s
      → Ends s Known (while_to_node rec e a b s)
  unfolding while_to_node
  while_to_node-Ends e a b s f f' c =
      labelled_node-Ends (loc e) _ s
        (λ t d. Ends-bind t Known Known (rec a) _ (good a f t d) λ x u g d' p.
          Ends-bind u Known Known (rec b) _ (good b f' u d')
            λ y v g' d'' q. add_node-Ends (loc e) _ v d'' (g'.0 x p, q))
        c

  pub if_to_node-Ends :
      (e : Expr) (es : Exprs) (s : Converter)
      → Each (Fit n) es
      → at_least_two es ≡ true
      → Closed s
      → Ends s Known (if_to_node rec e es s)
  unfolding if_to_node
  if_to_node-Ends e nil s f h c = absurd (cc)
  if_to_node-Ends e (cons a nil) s f h c = absurd (cc)
  if_to_node-Ends e (cons a (cons b nil)) s f h c =
      Ends-bind s Known Known (rec a) _ (good a f.0 s c) λ x t g d p.
        Ends-bind t Known Known (rec b) _ (good b f.1.0 t d)
          λ y u g' d' q. add_node-Ends (loc e) _ u d' (g'.0 x p, q)
  if_to_node-Ends e (cons a (cons b (cons b' nil))) s f h c =
      Ends-bind s Known Known (rec a) _ (good a f.0 s c) λ x t g d p.
        Ends-bind t Known Known (rec b) _ (good b f.1.0 t d) λ y u g' d' q.
          Ends-bind u Known Known (rec b') _ (good b' f.1.1.0 u d')
            λ z v g'' d'' r. add_node-Ends (loc e) _ v d'' (search (Known-keep))
  if_to_node-Ends e (cons a (cons b (cons b' (cons b'' es)))) s f h c = tt

  pub block_to_node-Ends :
      (e : Expr) (es : Exprs) (s : Converter)
      → Each (Fit n) es
      → Closed s
      → Ends s Known (block_to_node rec e es s)
  unfolding block_to_node
  block_to_node-Ends e es s f c =
      Ends-bind s AllKnown Known (new_block_scope (each rec es)) _
        (new_block_scope-Ends AllKnown (λ t scopes ns h. h) (each rec es) s
          (λ t d. each_rec-Ends n rec good es t f d) c)
        λ ns t g d p. add_node-Ends (loc e) _ t d p

  pub field_to_node-Ends :
      (e a b : Expr) (s : Converter) → Fit n a → Closed s → Ends s Known (field_to_node rec e a b s)
  unfolding field_to_node
  field_to_node-Ends e a b s f c = Ends-bind s Known Known (rec a) _ (good a f s c) λ v t g d p.
      Ends-bind t Symbol Known (expr_to_symbol b) _ (expr_to_symbol-Ends b t d)
        λ r u g' d' q. add_node-Ends (loc e) _ u d' (g'.0 v p, q)

  pub array_to_node-Ends :
      (e : Expr) (es : Exprs) (s : Converter)
      → Each (Fit n) es
      → Closed s
      → Ends s Known (array_to_node rec e es s)
  unfolding array_to_node
  array_to_node-Ends e es s f c =
      Ends-bind s AllKnown Known (each rec es) _ (each_rec-Ends n rec good es s f c)
        λ ns t g d p. add_node-Ends (loc e) _ t d p

  pub index_to_node-Ends :
      (e : Expr) (es : Exprs) (s : Converter)
      → Each (Fit n) es
      → at_least_one es ≡ true
      → Closed s
      → Ends s Known (index_to_node rec e es s)
  unfolding index_to_node
  index_to_node-Ends e nil s f h c = absurd (cc)
  index_to_node-Ends e (cons a nil) s f h c = tt
  index_to_node-Ends e (cons a (cons b nil)) s f h c =
      Ends-bind s Known Known (rec a) _ (good a f.0 s c) λ x t g d p.
        Ends-bind t Known Known (rec b) _ (good b f.1.0 t d) λ y u g' d' q.
          Ends-bind u Known Known (add_call (loc e) (codes "Index") (x ∷ y ∷ [])) _
            (add_call-Ends (loc e) _ _ u d' (search (Known-keep)))
            λ z v g'' d'' r. add_call-Ends (loc e) _ _ v d'' (r, tt)
  index_to_node-Ends e (cons a (cons b (cons b' es))) s f h c = tt
