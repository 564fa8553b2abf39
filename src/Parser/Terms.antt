-- ===== src/Parser/Terms.antt =====
-- compiler/src/parser.rs: literals, terms and operators.
use live_programming_prototy.Prelude.{
  ℕ, zero, suc, ◌+◌, ◌-◌, ◌*◌, ◌^◌, Bool, true, false, List, [], ◌∷◌, Option, none, some,
  if◌then◌else◌, ltb, ◌==◌, lookup, ok, err, panicked, ◌>>=◌,
}
use live_programming_prototy.Common.{Text, codes, text_eq, text_instance}
use live_programming_prototy.Location.{TextMarker}
use live_programming_prototy.Lexer.{
  symbol, float_literal, int_literal, string_literal, Token, is_number,
}
use live_programming_prototy.Expr.{
  ℤ, pos, negsuc, Expr, literal_string, literal_float, literal_int, literal_bool, literal_unit, loc,
}
use live_programming_prototy.Parser.{
  ParseState, Parse, failed_literal, unexpected_paren, parse_config, peek, pop_type, peek_marker,
  skip, accept, expect, add_leaf, add_list, add_symbol, token_symbol, token_literal, match_symbol,
  contains_symbol, get,
}
use live_programming_prototy.Parser.Lists.{Routines, parse_into_list, parse_list}
use live_programming_prototy.Parser.Keywords.{try_parse_keyword_term}

-- `i64::from_str`: a sign at most, then digits, of a number within 64 bits.
unfoldable digits : ℕ → Text → Option ℕ
unfolding is_number
digits n [] = some n
digits n (c ∷ s) = if is_number c then digits (n * 10 + (c - b'0')) s else none

abbrev number : Text → Option ℕ
unfolding digits
number [] = none
number (c ∷ s) = digits 0 (c ∷ s)

abbrev positive : Option ℕ → Option ℤ
positive none = none
positive (some n) = if ltb n (2 ^ 63) then some (pos n) else none

abbrev negative : Option ℕ → Option ℤ
negative none = none
negative (some zero) = some (pos zero)
negative (some (suc n)) = if ltb n (2 ^ 63) then some (negsuc n) else none

unfoldable pub i64_from_str : Text → Option ℤ
unfolding number
i64_from_str [] = none
i64_from_str (c ∷ s) =
    if c == b'+'
    then positive (number s)
    else if c == b'-'
    then negative (number s)
    else positive (number (c ∷ s))

-- `f64::from_str`
abbrev pub f64_from_str : (Text → Bool) → Text → Option Text
f64_from_str reads s = if reads s then some s else none

-- `parse_literal`; the routine `from_str` reads the text.
unfoldable pub literal_of : {A : Type 0} → Token → Text → Option A → ParseState → Parse A
unfolding skip
literal_of t s none ps = err (record { location = t.loc; message = failed_literal s })
literal_of t s (some v) ps = ok (v, skip ps)

unfoldable pub parse_literal : {A : Type 0} → (Text → Option A) → ParseState → Parse A
unfolding peek literal_of
parse_literal from_str ps = do
  t ← peek ps
  elim (token_literal t) [ none ↦ panicked | some s ↦ literal_of t s (from_str s) ps ]

-- `parse_simple_string`
unfoldable pub parse_simple_string : ParseState → Parse Expr
unfolding pop_type peek_marker
parse_simple_string ps = do (t, ps') ← pop_type symbol ps; add_symbol t.string (peek_marker ps) ps'

-- The closing paren behind an expression
unfoldable pub before_paren : Text → Parse Expr → Parse Expr
unfolding expect
before_paren close_paren m = do (e, ps) ← m; ps' ← expect close_paren ps; ok (e, ps')

-- `parse_expression_term` behind an opening paren, with its closing one
unfoldable pub parse_parens : Routines → Text → Text → TextMarker → ParseState → Parse Expr
unfolding parse_list before_paren accept
parse_parens rec paren close_paren start ps =
    if text_eq paren (codes "[")
    then before_paren close_paren (parse_list rec [] (codes ",") (codes "array") ps)
    else if text_eq paren (codes "{")
    then before_paren close_paren (parse_list rec [] (codes ";") (codes "block") ps)
    else if text_eq paren (codes "(")
    then (if (accept close_paren ps).0
        then add_leaf literal_unit start (accept close_paren ps).1
        else before_paren close_paren (rec.pratt_parse 0 ps))
    else panicked

abbrev pub bool_value : Text → Option Bool
bool_value s =
    if text_eq s (codes "true")
    then some true
    else if text_eq s (codes "false")
    then some false
    else none

-- `parse_expression_term` on a symbol
unfoldable pub parse_symbol_term : Routines → Text → ParseState → Parse Expr
unfolding pop_type peek_marker parse_config parse_parens try_parse_keyword_term parse_simple_string
parse_symbol_term rec s ps = elim (lookup s parse_config.paren_pairs) [
  | some close_paren ↦ do
    (t, ps') ← pop_type symbol ps
    parse_parens rec s close_paren (peek_marker ps) ps'
  | none ↦ elim (bool_value s) [
    | some b ↦ do (t, ps') ← pop_type symbol ps; add_leaf (literal_bool b) (peek_marker ps) ps'
    | none ↦ elim (try_parse_keyword_term rec s) [
      | some routine ↦ routine ps
      | none ↦ parse_simple_string ps
    ]
  ]
]

-- `parse_expression_term`
unfoldable pub parse_term : Routines → Token → ParseState → Parse Expr
unfolding pop_type peek_marker parse_literal parse_symbol_term i64_from_str
parse_term rec t ps = elim t.token_type [
  | symbol ↦ parse_symbol_term rec t.string ps
  | string_literal ↦ do
    (s, ps') ← pop_type string_literal ps
    add_leaf (literal_string s.string) (peek_marker ps) ps'
  | float_literal ↦ do
    (f, ps') ← parse_literal (f64_from_str ps.reads_float) ps
    add_leaf (literal_float f) (peek_marker ps) ps'
  | int_literal ↦ do
    (i, ps') ← parse_literal i64_from_str ps
    add_leaf (literal_int i) (peek_marker ps) ps'
]

-- `parse_prefix` on a prefix operator of the precedence `p`
unfoldable pub parse_prefix_operator : Routines → Token → ℕ → ParseState → Parse Expr
unfolding pop_type peek_marker parse_config parse_simple_string
parse_prefix_operator rec t p ps =
    let special : Parse Expr = (do
      (t', ps1) ← pop_type symbol ps
      (e, ps2) ← rec.pratt_parse p ps1
      add_list t.string (e ∷ []) (peek_marker ps) ps2) in
    let called : Parse Expr = (do
      (operator, ps1) ← parse_simple_string ps
      (e, ps2) ← rec.pratt_parse p ps1
      add_list (codes "call") (operator ∷ e ∷ []) (peek_marker ps) ps2) in
    if contains_symbol parse_config.special_operators (token_symbol t) then special else called

-- `parse_prefix`
unfoldable pub parse_prefix : Routines → ParseState → Parse Expr
unfolding peek parse_config parse_prefix_operator parse_term
parse_prefix rec ps = do
  t ← peek ps
  elim (get parse_config.prefix_precedence (token_symbol t)) [
    | some p ↦ parse_prefix_operator rec t p ps
    | none ↦ parse_term rec t ps
  ]

-- `parse_paren_infix`: the operation and its paren
abbrev pub paren_operation : Token → Option (Text × Text)
paren_operation t =
    if match_symbol t (codes "(")
    then some (codes "call", codes "(")
    else if match_symbol t (codes "[")
    then some (codes "index", codes "[")
    else none

unfoldable pub parse_arguments :
    Routines → List Expr → TextMarker → Text × Text → ParseState → Parse Expr
unfolding parse_config parse_into_list expect
parse_arguments rec es start (operation, start_paren) ps =
    elim (lookup start_paren parse_config.paren_pairs) [
      | none ↦ panicked
      | some end_paren ↦ do
        ps1 ← expect start_paren ps
        (es', ps2) ← parse_into_list rec es (codes ",") ps1
        ps3 ← expect end_paren ps2
        add_list operation es' start ps3
    ]

-- `left_expr` and `first_arg` come as the list that they begin.
unfoldable pub parse_paren_infix : Routines → Expr → List Expr → ParseState → Parse Expr
unfolding peek parse_arguments
parse_paren_infix rec left_expr first_arg ps = do
  t ← peek ps
  elim (paren_operation t) [
    | none ↦ err (record { location = t.loc; message = unexpected_paren })
    | some o ↦ parse_arguments rec (left_expr ∷ first_arg) (loc left_expr).start o ps
  ]

-- `parse_infix` behind a point and the term on its right
unfoldable pub after_point : Routines → Expr → Expr → ParseState → Parse Expr
unfolding parse_paren_infix
after_point rec left_expr right_expr ps =
    let point : Parse Expr =
      add_list (codes ".") (left_expr ∷ right_expr ∷ []) (loc left_expr).start ps in
    elim ps.rest [
      | [] ↦ point
      | t ∷ r ↦
          if match_symbol t (codes "(")
          then parse_paren_infix rec right_expr (left_expr ∷ []) ps
          else point
    ]

-- `parse_infix`
unfoldable pub parse_infix : Routines → Expr → Token → ℕ → ParseState → Parse Expr
unfolding pop_type parse_config parse_simple_string after_point
parse_infix rec left_expr t p ps =
    let point : Parse Expr = (do
      (t', ps1) ← pop_type symbol ps
      (right_expr, ps2) ← rec.pratt_parse p ps1
      after_point rec left_expr right_expr ps2) in
    let special : Parse Expr = (do
      (t', ps1) ← pop_type symbol ps
      (right_expr, ps2) ← rec.pratt_parse p ps1
      add_list t.string (left_expr ∷ right_expr ∷ []) (loc left_expr).start ps2) in
    let called : Parse Expr = (do
      (operator, ps1) ← parse_simple_string ps
      (right_expr, ps2) ← rec.pratt_parse p ps1
      add_list (codes "call") (operator ∷ left_expr ∷ right_expr ∷ []) (loc left_expr).start ps2) in
    if match_symbol t (codes ".")
    then point
    else if contains_symbol parse_config.special_operators (token_symbol t)
    then special
    else called
