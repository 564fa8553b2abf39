-- ===== src/Parser/Progress/Lists.antt =====
-- compiler/src/parser.rs: the loop of `parse_into_list`, and the routines for lists and blocks.
use live_programming_prototy.Prelude.{
  ℕ, zero, suc, ◌+◌, ◌≤◌, ◌<◌, ◌≡◌, refl, false, ◌&&◌, not, List, [], ◌∷◌, ◌++◌, some, ◌⊎◌, inl,
  inr, Bool-cases, lookup, ok, ◌>>=◌, sym, subst, arith,
}
use live_programming_prototy.Common.{Text, codes, text_eq, text_instance}
use live_programming_prototy.Lexer.{Token}
use live_programming_prototy.Expr.{Expr, try_construct}
use live_programming_prototy.Parser.{
  ParseState, Parse, parse_config, is_terminator, has_tokens, peek_newline, accept, expect,
}
use live_programming_prototy.Parser.Lists.{
  Routines, after_item, list_loop, parse_into_list, parse_list, parse_block_in_braces,
  parse_new_scope, is_block,
}
use live_programming_prototy.Parser.Progress.{
  left, Below, Below-bind, BelowState-bind, Below-mono, Below-if, accept-left, expect-Below, Good,
}

after_item-Below :
    (next : List Expr → ParseState → Parse (List Expr)) (k : ℕ) (separator : Text) (es : List Expr)
    (ps : ParseState)
    → left ps < k
    → ((es : List Expr) (ps' : ParseState) → left ps' ≤ left ps → Below k (next es ps'))
    → Below k (after_item next separator es ps)
unfolding after_item
after_item-Below next k separator es ps h g =
    let fewer = accept-left separator ps in
    Below-if k (not (has_tokens ps)) _ _ h (
      Below-if k (text_eq separator (codes ";") && peek_newline ps) _ _ (g es ps (omega arith)) (
        Below-if k (accept separator ps).0 _ _ (g es (accept separator ps).1 fewer)
          (omega (arith, h, fewer))))

pub rest-cases :
    (ps : ParseState) → (ps.rest ≡ []) ⊎ ((t : Token) × (r : List Token) × (ps.rest ≡ t ∷ r))
rest-cases ps = split ps.rest
  where
    split : (l : List Token) → (l ≡ []) ⊎ ((t : Token) × (r : List Token) × (l ≡ t ∷ r))
    split [] = inl refl
    split (t ∷ r) = inr (t, r, refl)

-- A round of the loop that parses an expression.
abbrev next_item : Routines → ℕ → ℕ → Text → List Expr → ParseState → Parse (List Expr)
unfolding after_item list_loop
next_item rec fuel p separator es ps = do
  (e, ps') ← rec.pratt_parse p ps
  after_item (λ es ps. list_loop rec fuel p separator es ps) separator (es ++ e ∷ []) ps'

next_item-Below :
    (n k : ℕ) (rec : Routines) (fuel p : ℕ) (separator : Text) (es : List Expr) (ps : ParseState)
    → Below k (rec.pratt_parse p ps)
    → ((es : List Expr) (ps' : ParseState)
        → left ps' < k
        → Below (left ps' + 1) (list_loop rec fuel p separator es ps'))
    → Below k (next_item rec fuel p separator es ps)
unfolding next_item
next_item-Below n k rec fuel p separator es ps h g =
    Below-bind k k (rec.pratt_parse p ps) _ h (λ e' ps' l.
      after_item-Below _ k separator (es ++ e' ∷ []) ps' (omega arith)
        (λ es' ps'' l'. Below-mono (left ps'' + 1) k _ (omega arith) (g es' ps'' (omega arith))))

list_loop_cases :
    (rec : Routines) (fuel p : ℕ) (separator : Text) (es : List Expr) (ps : ParseState)
    → (list_loop rec (suc fuel) p separator es ps ≡ ok (es, ps))
      ⊎ (list_loop rec (suc fuel) p separator es ps ≡ next_item rec fuel p separator es ps)
unfolding list_loop next_item
list_loop_cases rec fuel p separator es ps = elim (rest-cases ps) [
  | inl e ↦ inl (simp (list_loop, e))
  | inr (t, r, e) ↦ elim (Bool-cases (is_terminator t)) [
    | inl stop ↦ inl (simp (list_loop, e, stop))
    | inr go ↦ inr (simp (list_loop, e, go))
  ]
]

list_loop-Below :
    (n : ℕ) (rec : Routines)
    → Good n rec
    → (fuel p : ℕ) (separator : Text) (es : List Expr) (ps : ParseState) → left ps < n
    → left ps < fuel
    → Below (left ps + 1) (list_loop rec fuel p separator es ps)
list_loop-Below n rec good zero p separator es ps h f = absurd (omega arith)
list_loop-Below n rec good (suc fuel) p separator es ps h f =
    elim (list_loop_cases rec fuel p separator es ps) [
      | inl e ↦ subst (Below (left ps + 1)) (sym e) (omega arith)
      | inr e ↦ subst (Below (left ps + 1)) (sym e) (
          Below-mono (left ps) (left ps + 1) (next_item rec fuel p separator es ps) (omega arith) (
            next_item-Below n (left ps) rec fuel p separator es ps (good.0 p ps h) (λ es' ps' l.
              list_loop-Below n rec good fuel p separator es' ps' (omega arith) (omega arith))))
    ]

-- Before a token that ends no list the loop reads one.
list_loop_less :
    (n : ℕ) (rec : Routines) (fuel p : ℕ) (separator : Text) (es : List Expr) (ps : ParseState)
    (t : Token) (r : List Token)
    → Good n rec
    → left ps < n
    → left ps < fuel
    → ps.rest ≡ t ∷ r
    → is_terminator t ≡ false
    → Below (left ps) (list_loop rec fuel p separator es ps)
unfolding list_loop next_item
list_loop_less n rec zero p separator es ps t r good h f e go = absurd (omega arith)
list_loop_less n rec (suc fuel) p separator es ps t r good h f e go =
    let same : list_loop rec (suc fuel) p separator es ps ≡ next_item rec fuel p separator es ps =
      simp (list_loop, e, go) in
    subst (Below (left ps)) (sym same) (
      next_item-Below n (left ps) rec fuel p separator es ps (good.0 p ps h) (λ es' ps' l.
        list_loop-Below n rec good fuel p separator es' ps' (omega arith) (omega arith)))

-- The separators that the parser knows.
abbrev pub IsSeparator : Text → Type 0
unfolding parse_config
IsSeparator s = (p : ℕ) × (lookup s parse_config.expression_separators ≡ some p)

pub semicolon : IsSeparator (codes ";")
unfolding parse_config text_eq
semicolon = (1, refl)

pub comma : IsSeparator (codes ",")
unfolding parse_config text_eq
comma = (2, refl)

pub parse_into_list-Below :
    (n : ℕ) (rec : Routines) (es : List Expr) (separator : Text) (ps : ParseState)
    → Good n rec
    → IsSeparator separator
    → left ps < n
    → Below (left ps + 1) (parse_into_list rec es separator ps)
unfolding IsSeparator parse_into_list
parse_into_list-Below n rec es separator ps good (p, e) h =
    rw (parse_into_list, e)
      (list_loop-Below n rec good (left ps + 1) p separator es ps h (omega arith))

pub parse_list-Below :
    (n : ℕ) (rec : Routines) (es : List Expr) (separator tag : Text) (ps : ParseState)
    → Good n rec
    → IsSeparator separator
    → left ps < n
    → Below (left ps + 1) (parse_list rec es separator tag ps)
unfolding parse_list
parse_list-Below n rec es separator tag ps good sep h =
    Below-bind (left ps + 1) (left ps + 1) (parse_into_list rec es separator ps) _
      (parse_into_list-Below n rec es separator ps good sep h) (λ es' ps' l. l)

pub parse_block_in_braces-Below :
    (n : ℕ) (rec : Routines) (ps : ParseState)
    → Good n rec
    → left ps < n
    → Below (left ps) (parse_block_in_braces rec ps)
unfolding parse_block_in_braces
parse_block_in_braces-Below n rec ps good h =
    BelowState-bind (left ps) (left ps) (expect (codes "{") ps) _ (expect-Below (codes "{") ps)
      λ ps1 l1.
        Below-bind (left ps1 + 1) (left ps) (parse_into_list rec [] (codes ";") ps1) _
          (parse_into_list-Below n rec [] (codes ";") ps1 good semicolon (omega arith))
          λ es ps2 l2.
            BelowState-bind (left ps2) (left ps) (expect (codes "}") ps2) _
              (expect-Below (codes "}") ps2) (λ ps3 l3. omega arith)

pub parse_new_scope-Below :
    (n : ℕ) (rec : Routines) (p : ℕ) (ps : ParseState)
    → Good n rec
    → left ps < n
    → Below (left ps) (parse_new_scope rec p ps)
unfolding parse_new_scope
parse_new_scope-Below n rec p ps good h =
    Below-bind (left ps) (left ps) (rec.pratt_parse p ps) _ (good.0 p ps h)
      λ e ps' l. Below-if (left ps) (is_block (try_construct e)) _ _ l l

pub parse_list_less :
    (n : ℕ) (rec : Routines) (es : List Expr) (tag : Text) (ps : ParseState) (t : Token)
    (r : List Token)
    → Good n rec
    → left ps < n
    → ps.rest ≡ t ∷ r
    → is_terminator t ≡ false
    → Below (left ps) (parse_list rec es (codes ";") tag ps)
unfolding parse_list parse_into_list parse_config text_eq
parse_list_less n rec es tag ps t r good h e go =
    let read : Below (left ps) (list_loop rec (left ps + 1) 1 (codes ";") es ps) =
      list_loop_less n rec (left ps + 1) 1 (codes ";") es ps t r good h (omega arith) e go in
    Below-bind (left ps) (left ps) (parse_into_list rec es (codes ";") ps) _ read (λ es' ps' l. l)
