-- ===== src/Parser/Progress/Rounds.antt =====
-- compiler/src/parser.rs: the rounds of the loop of `pratt_parse`.
use live_programming_prototy.Prelude.{
  ℕ, ◌+◌, ◌≤◌, ◌<◌, ◌≡◌, refl, Bool, true, false, List, [], ◌∷◌, Option, none, some, inl, inr,
  Bool-cases, if◌then◌else◌, ltb, ok, err, panicked, out_of_fuel, ◌>>=◌, sym, subst, arith,
}
use live_programming_prototy.Common.{Text, codes, text_eq, text_eq_iff, text_instance}
use live_programming_prototy.Lexer.{symbol, Token}
use live_programming_prototy.Expr.{Expr}
use live_programming_prototy.Parser.{
  ParseState, Parse, parse_config, pop_type, peek_newline, token_symbol, is_terminator, has_key,
  get,
}
use live_programming_prototy.Parser.Lists.{Routines, parse_list}
use live_programming_prototy.Parser.Terms.{parse_paren_infix, parse_infix}
use live_programming_prototy.Parser.Pratt.{
  Round, continue, newline_round, separator_tag, separator_round, infix_round, operator_round,
  pratt_round,
}
use live_programming_prototy.Parser.Progress.{
  left, Below, Below-bind, Below-mono, pop_type-Below, Good,
}
use live_programming_prototy.Parser.Progress.Lists.{
  IsSeparator, semicolon, comma, rest-cases, parse_list-Below, parse_list_less,
}
use live_programming_prototy.Parser.Progress.Infix.{parse_paren_infix-Below, parse_infix-Below}

-- The separators have tags.
abbrev TagKnown : Option (Text × Text) → Type 0
TagKnown none = ⊥
TagKnown (some o) = IsSeparator o.1

TagKnown-if :
    (b : Bool) (a c : Option (Text × Text))
    → TagKnown a
    → (b ≡ false → TagKnown c)
    → TagKnown (if b then a else c)
TagKnown-if true a c h g = h
TagKnown-if false a c h g = g refl

no_other_separator :
    (t : Token) (p : ℕ)
    → get parse_config.expression_separators (token_symbol t) ≡ some p
    → text_eq t.string (codes ";") ≡ false
    → text_eq t.string (codes ",") ≡ false
    → ⊥
unfolding parse_config
no_other_separator t p e h1 h2 = ground (
  arith,
  text_eq_iff t.string (codes ";"),
  text_eq_iff (codes ";") t.string,
  text_eq_iff t.string (codes ","),
  text_eq_iff (codes ",") t.string,
)

separator_tag-TagKnown :
    (t : Token) (p : ℕ)
    → get parse_config.expression_separators (token_symbol t) ≡ some p
    → TagKnown (separator_tag t)
separator_tag-TagKnown t p e = TagKnown-if (text_eq t.string (codes ";")) _ _ semicolon λ h1.
    TagKnown-if (text_eq t.string (codes ",")) _ _ comma
      λ h2. absurd (no_other_separator t p e h1 h2)

-- A round ends the loop, or leaves fewer than `k` tokens.
abbrev pub BelowRound : ℕ → Round → Type 0
BelowRound k (ok none) = Unit
BelowRound k (ok (some (e, ps))) = left ps < k
BelowRound k (err e) = Unit
BelowRound k panicked = ⊥
BelowRound k out_of_fuel = ⊥

BelowRound-continue : (k : ℕ) (m : Parse Expr) → Below k m → BelowRound k (continue m)
BelowRound-continue k (ok (e, ps)) h = h
BelowRound-continue k (err e) h = tt
BelowRound-continue k panicked h = h
BelowRound-continue k out_of_fuel h = h

BelowRound-if :
    (k : ℕ) (b : Bool) (m n : Round)
    → BelowRound k m
    → BelowRound k n
    → BelowRound k (if b then m else n)
BelowRound-if k true m n h g = h
BelowRound-if k false m n h g = g

BelowRound-option :
    {A : Type 0} (k : ℕ) (o : Option A) (m : Round) (f : A → Round)
    → BelowRound k m
    → ((a : A) → o ≡ some a → BelowRound k (f a))
    → BelowRound k (elim o [ none ↦ m | some a ↦ f a ])
BelowRound-option k none m f h g = h
BelowRound-option k (some a) m f h g = g a refl

module _ (n : ℕ) (rec : Routines) (good : Good n rec) where
  newline_round-Below :
      (e : Expr) (p : ℕ) (ps : ParseState) (t : Token) (r : List Token)
      → left ps < n
      → ps.rest ≡ t ∷ r
      → is_terminator t ≡ false
      → BelowRound (left ps) (newline_round rec e p ps)
  unfolding newline_round parse_config text_eq
  newline_round-Below e p ps t r h at go =
      BelowRound-if (left ps) (ltb p 1)
        (continue (parse_list rec (e ∷ []) (codes ";") (codes "block") ps)) (ok none)
        (BelowRound-continue (left ps) (parse_list rec (e ∷ []) (codes ";") (codes "block") ps)
          (parse_list_less n rec (e ∷ []) (codes "block") ps t r good h at go))
        tt

  separator_round-Below :
      (e : Expr) (t : Token) (ps : ParseState)
      → left ps ≤ n
      → TagKnown (separator_tag t)
      → BelowRound (left ps) (separator_round rec e t ps)
  unfolding separator_round
  separator_round-Below e t ps h known = on_tag (separator_tag t) known
    where
      on_tag :
          (o : Option (Text × Text))
          → TagKnown o
          → BelowRound (left ps) (elim o [
            | none ↦ panicked
            | some (tag, separator) ↦
                continue
                  (do (t', ps') ← pop_type symbol ps; parse_list rec (e ∷ []) separator tag ps')
          ])
      on_tag none k = absurd k
      on_tag (some (tag, separator)) k = BelowRound-continue (left ps) _ (
          Below-bind (left ps) (left ps) (pop_type symbol ps)
            (λ r. parse_list rec (e ∷ []) separator tag r.1) (pop_type-Below symbol ps)
            λ t' ps' l.
              Below-mono (left ps' + 1) (left ps) _ (omega arith)
                (parse_list-Below n rec (e ∷ []) separator tag ps' good k (omega arith)))

  infix_round-Below :
      (e : Expr) (t : Token) (p : ℕ) (ps : ParseState)
      → left ps ≤ n
      → BelowRound (left ps) (infix_round rec e t p ps)
  unfolding infix_round
  infix_round-Below e t p ps h =
      BelowRound-if (left ps) (has_key (get parse_config.paren_pairs (token_symbol t)))
        (continue (parse_paren_infix rec e [] ps)) (continue (parse_infix rec e t p ps))
        (BelowRound-continue (left ps) (parse_paren_infix rec e [] ps)
          (parse_paren_infix-Below n rec good e [] ps h))
        (BelowRound-continue (left ps) (parse_infix rec e t p ps)
          (parse_infix-Below n rec good e t p ps h))

  operator_round-Below :
      (e : Expr) (t : Token) (precedence : ℕ) (ps : ParseState)
      → left ps ≤ n
      → BelowRound (left ps) (operator_round rec e t precedence ps)
  unfolding operator_round
  operator_round-Below e t precedence ps h =
      BelowRound-option (left ps) (get parse_config.expression_separators (token_symbol t)) _ _
        (BelowRound-option (left ps) (get parse_config.infix_precedence (token_symbol t)) _ _ tt
          λ p e'.
            BelowRound-if (left ps) (ltb precedence p) (infix_round rec e t p ps) (ok none)
              (infix_round-Below e t p ps h) tt)
        λ p e'.
          BelowRound-if (left ps) (ltb precedence p) (separator_round rec e t ps) (ok none)
            (separator_round-Below e t ps h (separator_tag-TagKnown t p e')) tt

  pub pratt_round-Below :
      (e : Expr) (precedence : ℕ) (ps : ParseState)
      → left ps < n
      → BelowRound (left ps) (pratt_round rec e precedence ps)
  unfolding pratt_round
  pratt_round-Below e precedence ps h = elim (rest-cases ps) [
    | inl at ↦
        let same : pratt_round rec e precedence ps ≡ ok none = simp (pratt_round, at) in
        subst (BelowRound (left ps)) (sym same) tt
    | inr (t, r, at) ↦ elim (Bool-cases (is_terminator t)) [
      | inl stop ↦
          let same : pratt_round rec e precedence ps ≡ ok none = simp (pratt_round, at, stop) in
          subst (BelowRound (left ps)) (sym same) tt
      | inr go ↦
          let same : pratt_round rec e precedence ps ≡ (
              if peek_newline ps
              then newline_round rec e precedence ps
              else operator_round rec e t precedence ps) =
            simp (pratt_round, at, go) in
          subst (BelowRound (left ps)) (sym same) (
            BelowRound-if (left ps) (peek_newline ps) (newline_round rec e precedence ps)
              (operator_round rec e t precedence ps)
              (newline_round-Below e precedence ps t r h at go)
              (operator_round-Below e t precedence ps (omega arith)))
    ]
  ]
