-- ===== src/Parser/Lists.antt =====
-- compiler/src/parser.rs: lists of expressions, blocks and scopes.
use live_programming_prototy.Prelude.{
  ℕ, zero, suc, ◌+◌, Bool, true, false, ◌&&◌, not, List, [], ◌∷◌, ◌++◌, Option, none, some,
  if◌then◌else◌, length, lookup, ok, panicked, out_of_fuel, ◌>>=◌,
}
use live_programming_prototy.Common.{Text, codes, text_eq, text_instance}
use live_programming_prototy.Location.{TextMarker}
use live_programming_prototy.Expr.{Expr, Exprs, loc, try_construct}
use live_programming_prototy.Parser.{
  ParseState, Parse, parse_config, is_terminator, has_tokens, peek_newline, peek_marker, accept,
  expect, add_list,
}

-- The two routines that the others call back, at a smaller depth: `pratt_parse` and `parse_prefix`.
pub record Routines : Type 0 where
  pub pratt_parse : ℕ → ParseState → Parse Expr
  pub parse_prefix : ParseState → Parse Expr

-- The end of a round of the loop of `parse_into_list`; `next` is the rest of the loop.
unfoldable pub after_item :
    (List Expr → ParseState → Parse (List Expr)) → Text → List Expr → ParseState → Parse (List Expr)
unfolding accept peek_newline
after_item next separator es ps =
    if not (has_tokens ps)
    then ok (es, ps)
    else if text_eq separator (codes ";") && peek_newline ps
    then next es ps
    else if (accept separator ps).0
    then next es (accept separator ps).1
    else ok (es, (accept separator ps).1)

-- The loop of `parse_into_list`, on fuel.
unfoldable pub list_loop : Routines → ℕ → ℕ → Text → List Expr → ParseState → Parse (List Expr)
unfolding after_item parse_config
list_loop rec zero precedence separator es ps = out_of_fuel
list_loop rec (suc fuel) precedence separator es ps = elim ps.rest [
  | [] ↦ ok (es, ps)
  | t ∷ r ↦ elim (is_terminator t) [
    | true ↦ ok (es, ps)
    | false ↦ do
      (e, ps') ← rec.pratt_parse precedence ps
      after_item (λ es ps. list_loop rec fuel precedence separator es ps) separator (es ++ e ∷ [])
          ps'
  ]
]

-- `parse_into_list`: each round reads a token.
unfoldable pub parse_into_list : Routines → List Expr → Text → ParseState → Parse (List Expr)
unfolding list_loop parse_config
parse_into_list rec es separator ps = elim (lookup separator parse_config.expression_separators) [
  | none ↦ panicked
  | some precedence ↦ list_loop rec (length ps.rest + 1) precedence separator es ps
]

abbrev list_start : List Expr → ParseState → TextMarker
unfolding peek_marker
list_start [] ps = peek_marker ps
list_start (e ∷ es) ps = (loc e).start

-- `parse_list`
unfoldable pub parse_list : Routines → List Expr → Text → Text → ParseState → Parse Expr
unfolding parse_into_list list_start
parse_list rec es separator tag ps = do
  (es', ps') ← parse_into_list rec es separator ps
  add_list tag es' (list_start es ps) ps'

-- `parse_block_in_braces`
unfoldable pub parse_block_in_braces : Routines → ParseState → Parse Expr
unfolding parse_into_list expect peek_marker
parse_block_in_braces rec ps = do
  inside ← expect (codes "{") ps
  (es, behind) ← parse_into_list rec [] (codes ";") inside
  ps' ← expect (codes "}") behind
  add_list (codes "block") es (peek_marker ps) ps'

abbrev pub is_block : Option (Text × Exprs) → Bool
is_block none = false
is_block (some (s, es)) = text_eq s (codes "block")

-- `parse_new_scope`
unfoldable pub parse_new_scope : Routines → ℕ → ParseState → Parse Expr
unfolding peek_marker try_construct
parse_new_scope rec precedence ps = do
  (e, ps') ← rec.pratt_parse precedence ps
  if is_block (try_construct e)
      then ok (e, ps')
      else add_list (codes "block") (e ∷ []) (peek_marker ps) ps'
