-- ===== src/Parser/Progress/Infix.antt =====
-- compiler/src/parser.rs: infix operators.
use live_programming_prototy.Prelude.{
  ℕ, ◌+◌, ◌≤◌, ◌<◌, ◌≡◌, List, [], ◌∷◌, none, some, inl, inr, Bool-cases, lookup, sym, subst, arith,
}
use live_programming_prototy.Common.{Text, codes, text_eq, text_instance}
use live_programming_prototy.Lexer.{symbol, Token}
use live_programming_prototy.Expr.{Expr, loc}
use live_programming_prototy.Parser.{
  ParseState, Parse, parse_config, pop_type, add_list, expect, token_symbol, match_symbol,
  contains_symbol,
}
use live_programming_prototy.Parser.Lists.{Routines, parse_into_list}
use live_programming_prototy.Parser.Terms.{
  parse_simple_string, paren_operation, parse_arguments, parse_paren_infix, after_point,
  parse_infix,
}
use live_programming_prototy.Parser.Progress.{
  left, Below, Below-bind, BelowState-bind, peek-bind, Below-mono, Below-if, expect-Below,
  pop_type-Below, Good,
}
use live_programming_prototy.Parser.Progress.Lists.{comma, rest-cases, parse_into_list-Below}
use live_programming_prototy.Parser.Progress.Terms.{Below-option, parse_simple_string-Below}

-- The two parens of infix operators have closing ones.
paren_operation_known :
    (t : Token) (o : Text × Text)
    → paren_operation t ≡ some o
    → lookup o.1 parse_config.paren_pairs ≡ none
    → ⊥
unfolding parse_config text_eq
paren_operation_known t o e h = elim (Bool-cases (match_symbol t (codes "("))) [
  | inl a ↦ ground arith
  | inr a ↦ ground arith
]

abbrev point : Expr → Expr → ParseState → Parse Expr
point a b ps = add_list (codes ".") (a ∷ b ∷ []) (loc a).start ps

module _ (n : ℕ) (rec : Routines) (good : Good n rec) where
  pub parse_paren_infix-Below :
      (e : Expr) (es : List Expr) (ps : ParseState)
      → left ps ≤ n
      → Below (left ps) (parse_paren_infix rec e es ps)
  unfolding parse_paren_infix parse_arguments
  parse_paren_infix-Below e es ps h = peek-bind (left ps) ps _ λ t at.
      Below-option (left ps) (paren_operation t) _ _ (λ missing. tt)
        λ o some_o.
          Below-option (left ps) (lookup o.1 parse_config.paren_pairs) _ _
            (λ missing. absurd (paren_operation_known t o some_o missing))
            λ c some_c.
              BelowState-bind (left ps) (left ps) (expect o.1 ps) _ (expect-Below o.1 ps) λ ps1 l1.
                Below-bind (left ps1 + 1) (left ps) (parse_into_list rec (e ∷ es) (codes ",") ps1) _
                  (parse_into_list-Below n rec (e ∷ es) (codes ",") ps1 good comma (omega arith))
                  λ es' ps2 l2.
                    BelowState-bind (left ps2) (left ps) (expect c ps2) _ (expect-Below c ps2)
                      (λ ps3 l3. omega arith)

  after_point-Below :
      (k : ℕ) (a b : Expr) (ps : ParseState)
      → left ps < k
      → left ps ≤ n
      → Below k (after_point rec a b ps)
  unfolding after_point
  after_point-Below k a b ps l h = elim (rest-cases ps) [
    | inl e ↦ at_end e
    | inr (t, r, e) ↦ elim (Bool-cases (match_symbol t (codes "("))) [
      | inl call ↦
          let same : after_point rec a b ps ≡ parse_paren_infix rec b (a ∷ []) ps =
            simp (after_point, e, call) in
          subst (Below k) (sym same)
            (Below-mono (left ps) k _ (omega arith) (parse_paren_infix-Below b (a ∷ []) ps h))
      | inr other ↦
          let same : after_point rec a b ps ≡ point a b ps = simp (after_point, e, other) in
          subst (Below k) (sym same) l
    ]
  ]
    where
      at_end : ps.rest ≡ [] → Below k (after_point rec a b ps)
      at_end e =
          let same : after_point rec a b ps ≡ point a b ps = simp (after_point, e) in
          subst (Below k) (sym same) l

  pub parse_infix-Below :
      (e : Expr) (t : Token) (p : ℕ) (ps : ParseState)
      → left ps ≤ n
      → Below (left ps) (parse_infix rec e t p ps)
  unfolding parse_infix
  parse_infix-Below e t p ps h =
      Below-if (left ps) (match_symbol t (codes ".")) _ _
        (Below-bind (left ps) (left ps) (pop_type symbol ps) _ (pop_type-Below symbol ps)
          λ t' ps1 l1.
            Below-bind (left ps1) (left ps) (rec.pratt_parse p ps1) _ (good.0 p ps1 (omega arith))
              λ r ps2 l2. after_point-Below (left ps) e r ps2 (omega arith) (omega arith))
        (Below-if (left ps) (contains_symbol parse_config.special_operators (token_symbol t)) _ _
          (Below-bind (left ps) (left ps) (pop_type symbol ps) _ (pop_type-Below symbol ps)
            λ t' ps1 l1.
              Below-bind (left ps1) (left ps) (rec.pratt_parse p ps1) _ (good.0 p ps1 (omega arith))
                λ r ps2 l2. omega arith)
          (Below-bind (left ps) (left ps) (parse_simple_string ps) _ (parse_simple_string-Below ps)
            λ o ps1 l1.
              Below-bind (left ps1) (left ps) (rec.pratt_parse p ps1) _ (good.0 p ps1 (omega arith))
                λ r ps2 l2. omega arith))
