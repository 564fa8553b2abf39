-- ===== src/Parser/Progress/Terms.antt =====
-- compiler/src/parser.rs: terms, prefix and infix operators.
use live_programming_prototy.Prelude.{
  ℕ, ◌+◌, ◌≤◌, ◌<◌, ◌≡◌, refl, Bool, true, false, [], Option, none, some, if◌then◌else◌, lookup, ok,
  subst, arith,
}
use live_programming_prototy.Common.{Text, codes, text_eq, text_eq_iff, text_instance}
use live_programming_prototy.Location.{TextMarker}
use live_programming_prototy.Lexer.{
  TokenType, symbol, float_literal, int_literal, string_literal, Token,
}
use live_programming_prototy.Expr.{Expr}
use live_programming_prototy.Parser.{
  ParseState, Parse, parse_config, peek, pop_type, skip, peek_marker, accept, expect, token_symbol,
  contains_symbol, get, type_eq,
}
use live_programming_prototy.Parser.Lists.{Routines, parse_list}
use live_programming_prototy.Parser.Keywords.{try_parse_keyword_term}
use live_programming_prototy.Parser.Terms.{
  parse_literal, literal_of, i64_from_str, parse_simple_string, f64_from_str, before_paren,
  parse_parens, bool_value, parse_symbol_term, parse_term, parse_prefix_operator, parse_prefix,
}
use live_programming_prototy.Parser.Progress.{
  left, Below, Below-bind, BelowState-bind, peek-bind, Below-mono, Below-if, accept-left,
  expect-Below, pop_type-Below, Good,
}
use live_programming_prototy.Parser.Progress.Lists.{IsSeparator, semicolon, comma, parse_list-Below}
use live_programming_prototy.Parser.Progress.Keywords.{Routine, try_parse_keyword_term-Routine}

-- On a literal `parse_literal` reads the token or fails.
parse_literal-Below :
    {A : Type 0} (from_str : Text → Option A) (t : Token) (ps : ParseState)
    → peek ps ≡ ok t
    → type_eq t.token_type symbol ≡ false
    → Below (left ps) (parse_literal from_str ps)
unfolding parse_literal literal_of peek skip
parse_literal-Below from_str t ps e k = ground arith

pub parse_simple_string-Below : (ps : ParseState) → Below (left ps) (parse_simple_string ps)
unfolding parse_simple_string
parse_simple_string-Below ps =
    Below-bind (left ps) (left ps) (pop_type symbol ps) _ (pop_type-Below symbol ps) (λ t ps' l. l)

before_paren-Below :
    (close_paren : Text) (k : ℕ) (m : Parse Expr)
    → Below (k + 1) m
    → Below k (before_paren close_paren m)
unfolding before_paren
before_paren-Below close_paren k m h = Below-bind (k + 1) k m _ h λ e ps l.
    BelowState-bind (left ps) k (expect close_paren ps) _ (expect-Below close_paren ps)
      (λ ps' l'. omega arith)

pub Below-else :
    {A : Type 0} (k : ℕ) (b : Bool) (m n : Parse A)
    → Below k m
    → (b ≡ false → Below k n)
    → Below k (if b then m else n)
Below-else k true m n h g = h
Below-else k false m n h g = g refl

pub Below-option :
    {A B : Type 0} (k : ℕ) (o : Option A) (m : Parse B) (f : A → Parse B)
    → (o ≡ none → Below k m)
    → ((a : A) → o ≡ some a → Below k (f a))
    → Below k (elim o [ none ↦ m | some a ↦ f a ])
Below-option k none m f h g = h refl
Below-option k (some a) m f h g = g a refl

Below-type :
    {A : Type 0} (k : ℕ) (ty : TokenType) (a b c d : Parse A)
    → Below k a
    → Below k b
    → (type_eq ty symbol ≡ false → Below k c)
    → (type_eq ty symbol ≡ false → Below k d)
    → Below k (elim ty [ symbol ↦ a | string_literal ↦ b | float_literal ↦ c | int_literal ↦ d ])
Below-type k symbol a b c d ha hb hc hd = ha
Below-type k string_literal a b c d ha hb hc hd = hb
Below-type k float_literal a b c d ha hb hc hd = hc refl
Below-type k int_literal a b c d ha hb hc hd = hd refl

text_eq_sym : (s t : Text) → text_eq s t ≡ text_eq t s
text_eq_sym s t = ground (arith, text_eq_iff s t, text_eq_iff t s)

-- A symbol with a closing paren is one of the three.
no_other_paren :
    (s c : Text)
    → lookup s parse_config.paren_pairs ≡ some c
    → text_eq s (codes "[") ≡ false
    → text_eq s (codes "{") ≡ false
    → text_eq s (codes "(") ≡ false
    → ⊥
unfolding parse_config
no_other_paren s c e h1 h2 h3 =
    ground (arith, text_eq_sym s (codes "["), text_eq_sym s (codes "{"), text_eq_sym s (codes "("))

module _ (n : ℕ) (rec : Routines) (good : Good n rec) where
  parse_parens-Below :
      (s c : Text) (start : TextMarker) (ps : ParseState)
      → lookup s parse_config.paren_pairs ≡ some c
      → left ps < n
      → Below (left ps + 1) (parse_parens rec s c start ps)
  unfolding parse_parens
  parse_parens-Below s c start ps e h =
      let closed_list = λ (separator tag : Text) (sep : IsSeparator separator).
        Below-mono (left ps) (left ps + 1) (before_paren c (parse_list rec [] separator tag ps))
          (omega arith)
          (before_paren-Below c (left ps) _
            (parse_list-Below n rec [] separator tag ps good sep h)) in
      Below-else (left ps + 1) (text_eq s (codes "[")) _ _
        (closed_list (codes ",") (codes "array") comma)
        λ h1.
          Below-else (left ps + 1) (text_eq s (codes "{")) _ _
            (closed_list (codes ";") (codes "block") semicolon)
            λ h2.
              Below-else (left ps + 1) (text_eq s (codes "(")) _ _
                (Below-if (left ps + 1) (accept c ps).0 _ _ (omega (arith, accept-left c ps)) (
                  before_paren-Below c (left ps + 1) (rec.pratt_parse 0 ps)
                    (Below-mono (left ps) (left ps + 1 + 1) _ (omega arith) (good.0 0 ps h))))
                λ h3. absurd (no_other_paren s c e h1 h2 h3)

  parse_symbol_term-Below :
      (s : Text) (ps : ParseState) → left ps ≤ n → Below (left ps) (parse_symbol_term rec s ps)
  unfolding parse_symbol_term
  parse_symbol_term-Below s ps h =
      Below-option (left ps) (lookup s parse_config.paren_pairs) _ _
        (λ e.
          Below-option (left ps) (bool_value s) _ _
            (λ e'.
              Below-option (left ps) (try_parse_keyword_term rec s) _ _
                (λ e''. parse_simple_string-Below ps)
                (λ f e''.
                  subst (λ o. Routine o ps) e'' (try_parse_keyword_term-Routine n rec good s ps h)))
            (λ b e'.
              Below-bind (left ps) (left ps) (pop_type symbol ps) _ (pop_type-Below symbol ps)
                (λ t ps' l. l)))
        (λ c e.
          Below-bind (left ps) (left ps) (pop_type symbol ps) _ (pop_type-Below symbol ps)
            λ t ps' l.
              Below-mono (left ps' + 1) (left ps) _ (omega arith)
                (parse_parens-Below s c (peek_marker ps) ps' e (omega arith)))

  parse_term-Below :
      (t : Token) (ps : ParseState)
      → peek ps ≡ ok t
      → left ps ≤ n
      → Below (left ps) (parse_term rec t ps)
  unfolding parse_term
  parse_term-Below t ps e h =
      Below-type (left ps) t.token_type _ _ _ _ (parse_symbol_term-Below t.string ps h)
        (Below-bind (left ps) (left ps) (pop_type string_literal ps) _
          (pop_type-Below string_literal ps) (λ s ps' l. l))
        (λ k.
          Below-bind (left ps) (left ps) (parse_literal (f64_from_str ps.reads_float) ps) _
            (parse_literal-Below (f64_from_str ps.reads_float) t ps e k) (λ f ps' l. l))
        (λ k.
          Below-bind (left ps) (left ps) (parse_literal i64_from_str ps) _
            (parse_literal-Below i64_from_str t ps e k) (λ i ps' l. l))

  parse_prefix_operator-Below :
      (t : Token) (p : ℕ) (ps : ParseState)
      → left ps ≤ n
      → Below (left ps) (parse_prefix_operator rec t p ps)
  unfolding parse_prefix_operator
  parse_prefix_operator-Below t p ps h =
      Below-if (left ps) (contains_symbol parse_config.special_operators (token_symbol t)) _ _
        (Below-bind (left ps) (left ps) (pop_type symbol ps) _ (pop_type-Below symbol ps)
          λ t' ps1 l1.
            Below-bind (left ps1) (left ps) (rec.pratt_parse p ps1) _ (good.0 p ps1 (omega arith))
              λ e ps2 l2. omega arith)
        (Below-bind (left ps) (left ps) (parse_simple_string ps) _ (parse_simple_string-Below ps)
          λ o ps1 l1.
            Below-bind (left ps1) (left ps) (rec.pratt_parse p ps1) _ (good.0 p ps1 (omega arith))
              λ e ps2 l2. omega arith)

  pub parse_prefix-Below : (ps : ParseState) → left ps ≤ n → Below (left ps) (parse_prefix rec ps)
  unfolding parse_prefix
  parse_prefix-Below ps h = peek-bind (left ps) ps _ λ t e.
      Below-option (left ps) (get parse_config.prefix_precedence (token_symbol t)) _ _
        (λ e'. parse_term-Below t ps e h) (λ p e'. parse_prefix_operator-Below t p ps h)
