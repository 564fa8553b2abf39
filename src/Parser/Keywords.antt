-- ===== src/Parser/Keywords.antt =====
-- compiler/src/parser.rs: `try_parse_keyword_term`.
use live_programming_prototy.Prelude.{
  ℕ, Bool, true, false, ◌||◌, not, List, [], ◌∷◌, ◌++◌, Option, none, some, if◌then◌else◌, lookup,
  ok, panicked, ◌>>=◌,
}
use live_programming_prototy.Common.{Text, codes, text_eq, text_instance}
use live_programming_prototy.Location.{TextMarker}
use live_programming_prototy.Lexer.{symbol}
use live_programming_prototy.Expr.{Expr}
use live_programming_prototy.Parser.{
  ParseState, Parse, parse_config, peek, pop_type, peek_marker, peek_newline, accept, expect,
  add_list, token_symbol, match_symbol, is_terminator, has_key, get,
}
use live_programming_prototy.Parser.Lists.{
  Routines, parse_list, parse_block_in_braces, parse_new_scope,
}

-- The branches `cbind`, `static`, `let` and `type`.
unfoldable pub parse_definition : Routines → ℕ → Text → ParseState → Parse Expr
unfolding pop_type peek_marker
parse_definition rec kp tag ps = do
  (t, ps1) ← pop_type symbol ps
  (definition, ps2) ← rec.pratt_parse kp ps1
  add_list tag (definition ∷ []) (peek_marker ps) ps2

-- The branches `while`, `for`, `struct` and `union`.
unfoldable pub parse_with_block : Routines → ℕ → Text → ParseState → Parse Expr
unfolding pop_type peek_marker parse_block_in_braces
parse_with_block rec kp tag ps = do
  (t, ps1) ← pop_type symbol ps
  (head, ps2) ← rec.pratt_parse kp ps1
  (block, ps3) ← parse_block_in_braces rec ps2
  add_list tag (head ∷ block ∷ []) (peek_marker ps) ps3

-- The branch `if`, behind the first scope.
unfoldable pub parse_else : Routines → ℕ → List Expr → TextMarker → Bool × ParseState → Parse Expr
unfolding parse_new_scope
parse_else rec kp es start (found, ps) =
    let with_else : Parse Expr = (do
      (else_e, ps') ← parse_new_scope rec kp ps
      add_list (codes "if") (es ++ else_e ∷ []) start ps') in
    if found then with_else else add_list (codes "if") es start ps

unfoldable pub parse_if : Routines → ℕ → ParseState → Parse Expr
unfolding pop_type peek_marker accept parse_new_scope parse_else
parse_if rec kp ps = do
  (t, ps1) ← pop_type symbol ps
  (cond, ps2) ← rec.pratt_parse kp ps1
  (then_e, ps3) ← parse_new_scope rec kp (accept (codes "then") ps2).1
  parse_else rec kp (cond ∷ then_e ∷ []) (peek_marker ps) (accept (codes "else") ps3)

-- The branch `fun`, piece by piece: each adds what it reads to the list.
unfoldable pub parse_name : Routines → Bool → ParseState → Parse (List Expr)
parse_name rec false ps = ok ([], ps)
parse_name rec true ps = do (e, ps') ← rec.parse_prefix ps; ok (e ∷ [], ps')

unfoldable pub parse_return_type : Routines → ℕ → List Expr → Bool × ParseState → Parse (List Expr)
parse_return_type rec kp es (false, ps) = ok (es, ps)
parse_return_type rec kp es (true, ps) = do (e, ps') ← rec.pratt_parse kp ps; ok (es ++ e ∷ [], ps')

unfoldable pub parse_polytypes : Routines → List Expr → Bool × ParseState → Parse (List Expr)
unfolding parse_list
parse_polytypes rec es (false, ps) = ok (es, ps)
parse_polytypes rec es (true, ps) = do
  (e, ps') ← parse_list rec [] (codes ",") (codes "polytypes") ps
  ok (es ++ e ∷ [], ps')

unfoldable pub parse_body : Routines → Bool → List Expr → ParseState → Parse (List Expr)
unfolding parse_polytypes parse_block_in_braces accept
parse_body rec false es ps = ok (es, ps)
parse_body rec true es ps = do
  (es', ps') ← parse_polytypes rec es (accept (codes "with") ps)
  (body, ps'') ← parse_block_in_braces rec ps'
  ok (es' ++ body ∷ [], ps'')

unfoldable pub parse_fun : Routines → ℕ → ParseState → Parse Expr
unfolding pop_type peek peek_marker accept expect parse_list parse_name parse_return_type parse_body
parse_fun rec kp ps = do
  (t, ps1) ← pop_type symbol ps
  next ← peek ps1
  let is_full_definition = not (match_symbol next (codes "("))
  (name, ps2) ← parse_name rec is_full_definition ps1
  ps3 ← expect (codes "(") ps2
  (args, ps4) ← parse_list rec [] (codes ",") (codes "args") ps3
  ps5 ← expect (codes ")") ps4
  (es, ps6) ← parse_return_type rec kp (name ++ args ∷ []) (accept (codes "=>") ps5)
  (es', ps7) ← parse_body rec is_full_definition es ps6
  add_list (codes "fun") es' (peek_marker ps) ps7

-- `peek_statement_terminated`
unfoldable pub peek_statement_terminated : ParseState → Bool
unfolding peek_newline parse_config
peek_statement_terminated ps = elim ps.rest [
  | [] ↦ true
  | t ∷ r ↦
      is_terminator t
      || has_key (get parse_config.expression_separators (token_symbol t))
      || peek_newline ps
]

-- The branch `return`.
unfoldable pub parse_return : Routines → ℕ → ParseState → Parse Expr
unfolding expect peek_marker peek_statement_terminated
parse_return rec kp ps = do
  ps1 ← expect (codes "return") ps
  let returned : Parse Expr = (do
    (e, ps2) ← rec.pratt_parse kp ps1
    add_list (codes "return") (e ∷ []) (peek_marker ps) ps2)
  if peek_statement_terminated ps1
      then add_list (codes "return") [] (peek_marker ps) ps1
      else returned

abbrev pub one_of : Text → List Text → Bool
one_of s [] = false
one_of s (w ∷ ws) = text_eq s w || one_of s ws

-- What the keyword `s` asks for, if it is one.
unfoldable pub keyword_routine : Routines → ℕ → Text → Option (ParseState → Parse Expr)
unfolding parse_if parse_with_block parse_definition parse_fun parse_return
keyword_routine rec kp s =
    if text_eq s (codes "if")
    then some (λ ps. parse_if rec kp ps)
    else if one_of s (codes "while" ∷ codes "for" ∷ codes "struct" ∷ codes "union" ∷ [])
    then some (λ ps. parse_with_block rec kp s ps)
    else if one_of s (codes "cbind" ∷ codes "static" ∷ codes "let" ∷ codes "type" ∷ [])
    then some (λ ps. parse_definition rec kp s ps)
    else if text_eq s (codes "fun")
    then some (λ ps. parse_fun rec kp ps)
    else if text_eq s (codes "return")
    then some (λ ps. parse_return rec kp ps)
    else none

-- `try_parse_keyword_term`: what it does with the symbol of the next token, if it is a keyword.
unfoldable pub try_parse_keyword_term : Routines → Text → Option (ParseState → Parse Expr)
unfolding keyword_routine parse_config
try_parse_keyword_term rec s = elim (lookup (codes "#keyword") parse_config.prefix_precedence) [
  | none ↦ some (λ ps. panicked)
  | some kp ↦ keyword_routine rec kp s
]
