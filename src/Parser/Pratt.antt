-- ===== src/Parser/Pratt.antt =====
-- compiler/src/parser.rs: `pratt_parse` and `parse`.
use live_programming_prototy.Prelude.{
  ℕ, zero, suc, ◌+◌, Bool, List, [], ◌∷◌, Option, none, some, if◌then◌else◌, ltb, length, lookup,
  Outcome, ok, err, panicked, out_of_fuel, ◌>>=◌,
}
use live_programming_prototy.Common.{Text, codes, text_eq, text_instance}
use live_programming_prototy.Lexer.{symbol, Token}
use live_programming_prototy.Expr.{Expr}
use live_programming_prototy.Parser.{
  ParseState, Parse, ParseError, trailing_token, parse_config, pop_type, peek_newline, token_symbol,
  is_terminator, has_key, get,
}
use live_programming_prototy.Parser.Lists.{Routines, parse_list}
use live_programming_prototy.Parser.Terms.{parse_prefix, parse_paren_infix, parse_infix}

-- A round of the loop of `pratt_parse` gives the new `expr`, or `none` at a `break`.
abbrev pub Round : Type 0
Round = Outcome ParseError (Option (Expr × ParseState))

abbrev pub continue : Parse Expr → Round
continue m = do (e, ps) ← m; ok (some (e, ps))

-- The rounds at an implicit and at an explicit separator
unfoldable pub newline_round : Routines → Expr → ℕ → ParseState → Round
unfolding parse_list parse_config
newline_round rec e precedence ps = elim (lookup (codes ";") parse_config.expression_separators) [
  | none ↦ panicked
  | some p ↦
      if ltb precedence p
      then continue (parse_list rec (e ∷ []) (codes ";") (codes "block") ps)
      else ok none
]

abbrev pub separator_tag : Token → Option (Text × Text)
separator_tag t =
    if text_eq t.string (codes ";")
    then some (codes "block", codes ";")
    else if text_eq t.string (codes ",")
    then some (codes "tuple", codes ",")
    else none

unfoldable pub separator_round : Routines → Expr → Token → ParseState → Round
unfolding parse_list pop_type
separator_round rec e t ps = elim (separator_tag t) [
  | none ↦ panicked
  | some (tag, separator) ↦
      continue (do (t', ps') ← pop_type symbol ps; parse_list rec (e ∷ []) separator tag ps')
]

-- The round at an infix operator of the precedence `p`
unfoldable pub infix_round : Routines → Expr → Token → ℕ → ParseState → Round
unfolding parse_config parse_paren_infix parse_infix
infix_round rec e t p ps =
    if has_key (get parse_config.paren_pairs (token_symbol t))
    then continue (parse_paren_infix rec e [] ps)
    else continue (parse_infix rec e t p ps)

unfoldable pub operator_round : Routines → Expr → Token → ℕ → ParseState → Round
unfolding parse_config separator_round infix_round
operator_round rec e t precedence ps =
    elim (get parse_config.expression_separators (token_symbol t)) [
      | some p ↦ if ltb precedence p then separator_round rec e t ps else ok none
      | none ↦ elim (get parse_config.infix_precedence (token_symbol t)) [
        | some p ↦ if ltb precedence p then infix_round rec e t p ps else ok none
        | none ↦ ok none
      ]
    ]

unfoldable pub pratt_round : Routines → Expr → ℕ → ParseState → Round
unfolding newline_round operator_round peek_newline
pratt_round rec e precedence ps = elim ps.rest [
  | [] ↦ ok none
  | t ∷ r ↦
      if is_terminator t
      then ok none
      else if peek_newline ps
      then newline_round rec e precedence ps
      else operator_round rec e t precedence ps
]

-- The loop of `pratt_parse`, on fuel.
unfoldable pub pratt_loop : Routines → ℕ → Expr → ℕ → ParseState → Parse Expr
unfolding pratt_round
pratt_loop rec zero e precedence ps = out_of_fuel
pratt_loop rec (suc fuel) e precedence ps = do
  next ← pratt_round rec e precedence ps
  elim next [ none ↦ ok (e, ps) | some (e', ps') ↦ pratt_loop rec fuel e' precedence ps' ]

-- `pratt_parse`, over the routines at a smaller depth: each round of its loop reads a token.
unfoldable pub pratt_parse : Routines → ℕ → ParseState → Parse Expr
unfolding pratt_loop parse_prefix
pratt_parse rec precedence ps = do
  (e, ps') ← parse_prefix rec ps
  pratt_loop rec (length ps'.rest + 1) e precedence ps'

-- The routines to a depth of calls.
unfoldable pub routines : ℕ → Routines
unfolding pratt_parse parse_prefix
routines zero = record {
  pratt_parse = λ precedence ps. out_of_fuel;
  parse_prefix = λ ps. out_of_fuel;
}
routines (suc fuel) = record {
  pratt_parse = λ precedence ps. pratt_parse (routines fuel) precedence ps;
  parse_prefix = λ ps. parse_prefix (routines fuel) ps;
}

-- The end of `parse`.
abbrev pub finish_parse : Expr × ParseState → Outcome ParseError Expr
finish_parse (e, ps) = elim ps.rest [
  | [] ↦ ok e
  | t ∷ r ↦ err (record { location = t.loc; message = trailing_token t.string t.token_type })
]

-- `parse_top_level` and `parse`
unfoldable pub parse : (Text → Bool) → ℕ → List Token → Outcome ParseError Expr
unfolding routines parse_list
parse reads_float source tokens =
    let ps : ParseState = record {
      source = source;
      prev = none;
      rest = tokens;
      reads_float = reads_float;
    } in
    do
      r ← parse_list (routines (length tokens + 1)) [] (codes ";") (codes "block") ps
      finish_parse r
