-- ===== src/Structure/Closed/Loops.antt =====
-- compiler/src/structure.rs: `for_loop` keeps the state closed.
use live_programming_prototy.Prelude.{ℕ, [], ◌∷◌, some}
use live_programming_prototy.Common.{codes}
use live_programming_prototy.Expr.{Expr, loc}
use live_programming_prototy.Nodes.{Reference, reference, while_loop}
use live_programming_prototy.Structure.{
  Converter, add_node, new_symbol, add_var_to_scope, expr_to_symbol, pair_of,
}
use live_programming_prototy.Structure.Builders.{ToNode, let_var, add_call}
use live_programming_prototy.Structure.Constructs.{next_call, range_iterator, loop_block, for_loop}
use live_programming_prototy.Structure.Closed.{Known, Closed, Ends, Ends-bind, Ends-option}
use live_programming_prototy.Structure.Closed.Moves.{
  Any, Symbol, add_node-Ends, new_symbol-Ends, add_var_to_scope-Ends, expr_to_symbol-Ends,
}
use live_programming_prototy.Structure.Closed.Fit.{Fit, Good, pair_of-Fit}
use live_programming_prototy.Structure.Closed.Builders.{
  Known-keep, Symbol-keep, let_var-Ends, add_call-Ends,
}
use live_programming_prototy.Structure.Closed.Brackets.{labelled_node-Ends, new_block_scope-Ends}

next_call-Ends :
    (e : Expr) (it_var loop_var : Reference) (s : Converter)
    → Closed s
    → Symbol s it_var
    → Symbol s loop_var
    → Ends s Known (next_call e it_var loop_var s)
unfolding next_call
next_call-Ends e it_var loop_var s c h k =
    Ends-bind s Known Known (add_node (loc e) (reference it_var.name (some it_var.id))) _
      (add_node-Ends (loc e) _ s c h)
      λ it t g d p.
        Ends-bind t Known Known (add_node (loc e) (reference loop_var.name (some loop_var.id))) _
          (add_node-Ends (loc e) _ t d (g.1 loop_var.id k))
          λ var u g1 d1 p1.
            Ends-bind u Known Known (add_call (loc e) (codes "&") (var ∷ [])) _
              (add_call-Ends (loc e) _ _ u d1 (p1, tt))
              λ r v g2 d2 p2. add_call-Ends (loc e) _ _ v d2 (search (Known-keep))

module _ (n : ℕ) (rec : ToNode) (good : Good n rec) where
  range_iterator-Ends :
      (e range : Expr) (it_var : Reference) (s : Converter)
      → Fit n range
      → Closed s
      → Symbol s it_var
      → Ends s Known (range_iterator rec e range it_var s)
  unfolding range_iterator
  range_iterator-Ends e range it_var s f c h =
      Ends-bind s Known Known (rec range) _ (good range f s c) λ m t g d p.
        Ends-bind t Known Known (add_call (loc e) (codes "iter") (m ∷ [])) _
          (add_call-Ends (loc e) _ _ t d (p, tt))
          λ iter u g1 d1 p1.
            Ends-bind u Known Known (add_call (loc e) (codes "&") (iter ∷ [])) _
              (add_call-Ends (loc e) _ _ u d1 (p1, tt))
              λ r v g2 d2 p2. let_var-Ends (loc e) it_var r v d2 (search (Symbol-keep)) p2

  loop_block-Ends :
      (e var range body : Expr) (s : Converter)
      → Fit n range
      → Fit n body
      → Closed s
      → Ends s Known (loop_block rec e var range body s)
  unfolding loop_block
  loop_block-Ends e var range body s f b c =
      Ends-bind s Symbol Known (new_symbol (codes "@range_var") (loc e)) _ (new_symbol-Ends _ _ s c)
        λ it t0 g0 d0 p0.
          Ends-bind t0 Symbol Known (expr_to_symbol var) _ (expr_to_symbol-Ends var t0 d0)
            λ lv t1 g1 d1 p1.
              Ends-bind t1 Known Known (range_iterator rec e range it) _
                (range_iterator-Ends e range it t1 f d1 (search (Symbol-keep)))
                λ li t2 g2 d2 p2.
                  Ends-bind t2 Known Known (add_call (loc e) (codes "UnsafeZeroInit") []) _
                    (add_call-Ends (loc e) _ _ t2 d2 tt)
                    λ z t3 g3 d3 p3.
                      Ends-bind t3 Known Known (let_var (loc e) lv z) _
                        (let_var-Ends (loc e) lv z t3 d3 (search (Symbol-keep)) p3)
                        λ ll t4 g4 d4 p4.
                          Ends-bind t4 Any Known (add_var_to_scope lv) _
                            (add_var_to_scope-Ends lv t4 d4 (search (Symbol-keep)))
                            λ x t5 g5 d5 p5.
                              Ends-bind t5 Known Known (next_call e it lv) _
                                (next_call-Ends e it lv t5 d5 (search (Symbol-keep))
                                  (search (Symbol-keep)))
                                λ k t6 g6 d6 p6.
                                  Ends-bind t6 Known Known (rec body) _ (good body b t6 d6)
                                    λ m t7 g7 d7 p7.
                                      Ends-bind t7 Known Known (add_node (loc e) (while_loop k m)) _
                                        (add_node-Ends (loc e) _ t7 d7 (g7.0 k p6, p7))
                                        λ w t8 g8 d8 p8.
                                          add_node-Ends (loc e) _ t8 d8
                                            (search (Known-keep) depth 9)

  pub for_loop-Ends :
      (e range body : Expr) (s : Converter)
      → Fit n range
      → Fit n body
      → Closed s
      → Ends s Known (for_loop rec e range body s)
  unfolding for_loop
  for_loop-Ends e range body s f b c =
      Ends-option s Known (pair_of (codes "in") range) _ _ (λ h. tt)
        λ a h.
          labelled_node-Ends (loc e) _ s
            (λ t d.
              new_block_scope-Ends Known (λ u scopes i k. k) _ t
                (λ u d'.
                  loop_block-Ends e a.0 a.1 body u (pair_of-Fit n _ range a.0 a.1 f h).1 b d')
                d)
            c
