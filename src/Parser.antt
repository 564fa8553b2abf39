-- ===== src/Parser.antt =====
-- compiler/src/parser.rs: the table of operators, and the moves of the parser over the tokens.
pub mod Lists
pub mod Keywords
pub mod Terms
pub mod Pratt
pub mod Progress
mod Tests
use live_programming_prototy.Prelude.{
  ℕ, ◌+◌, ◌≤◌, Bool, true, false, List, [], ◌∷◌, map, Option, none, some, if◌then◌else◌, not, ◌==◌,
  String, contains, insert_key, lookup, insert, Outcome, ok, err, ◌>>=◌,
}
use live_programming_prototy.Common.{Text, codes, text_eq, text_instance}
use live_programming_prototy.Location.{TextMarker, TextLocation, new_location, zero_location}
use live_programming_prototy.Lexer.{
  TokenType, symbol, float_literal, int_literal, string_literal, Token,
}
use live_programming_prototy.Expr.{Expr, ExprContent, expr, list, exprs, symbol as symbol_content}

-- `ParseConfig`
pub record ParseConfig : Type 0 where
  pub next_precedence : ℕ
  pub paren_pairs : List (Text × Text)
  pub paren_terminators : List Text
  pub expression_separators : List (Text × ℕ)
  pub prefix_precedence : List (Text × ℕ)
  pub infix_precedence : List (Text × ℕ)
  pub special_operators : List Text

-- The loops of `ParseConfig::new` and `infix_prefix`.
abbrev insert_pairs : List (String × String) → ParseConfig → ParseConfig
insert_pairs [] c = c
insert_pairs ((a, b) ∷ ps) c = insert_pairs ps (record c {
  paren_pairs = insert (codes a) (codes b) c.paren_pairs;
  paren_terminators = insert_key (codes b) c.paren_terminators;
})

abbrev insert_operators : List String → ℕ → List (Text × ℕ) → List (Text × ℕ)
insert_operators [] p m = m
insert_operators (op ∷ ops) p m = insert_operators ops p (insert (codes op) p m)

-- `ParseConfig::new`
abbrev new_config : List String → List (String × String) → ParseConfig
new_config special_operators paren_pairs = insert_pairs paren_pairs (record {
  next_precedence = 1;
  paren_pairs = [];
  paren_terminators = [];
  expression_separators = [];
  prefix_precedence = [];
  infix_precedence = [];
  special_operators = map codes special_operators;
})

-- `separator`
abbrev separator : String → ParseConfig → ParseConfig
separator sep c = record c {
  expression_separators = insert (codes sep) c.next_precedence c.expression_separators;
  next_precedence = c.next_precedence + 1;
}

-- `infix_prefix`
abbrev infix_prefix : List String → List String → ParseConfig → ParseConfig
infix_prefix infixes prefixes c = record c {
  infix_precedence = insert_operators infixes c.next_precedence c.infix_precedence;
  prefix_precedence = insert_operators prefixes c.next_precedence c.prefix_precedence;
  next_precedence = c.next_precedence + 1;
}

-- `infix` and `prefix`
abbrev infix_ops : List String → ParseConfig → ParseConfig
infix_ops ops c = infix_prefix ops [] c

abbrev prefix_ops : List String → ParseConfig → ParseConfig
prefix_ops ops c = infix_prefix [] ops c

-- `parse_config`
unfoldable pub parse_config : ParseConfig
parse_config =
    let c =
      new_config ("=" ∷ "." ∷ "as" ∷ "in" ∷ ":" ∷ "#" ∷ "$" ∷ [])
        (("(", ")") ∷ ("{", "}") ∷ ("[", "]") ∷ []) in
    let c = separator "," (separator ";" c) in
    let c = prefix_ops ("#keyword" ∷ []) c in
    let c = infix_ops ("=" ∷ "+=" ∷ "in" ∷ []) c in
    let c = infix_ops ("as" ∷ []) (infix_ops (":" ∷ []) c) in
    let c = infix_ops ("&&" ∷ "||" ∷ []) c in
    let c = infix_ops (">" ∷ "<" ∷ ">=" ∷ "<=" ∷ "==" ∷ "!=" ∷ []) c in
    let c = infix_ops ("%" ∷ []) c in
    let c = infix_prefix ("+" ∷ "-" ∷ []) ("-" ∷ []) c in
    let c = infix_ops ("*" ∷ "/" ∷ "%" ∷ []) c in
    let c = infix_prefix ("=>" ∷ []) ("!" ∷ "&" ∷ "*" ∷ []) c in
    let c = infix_ops ("(" ∷ "[" ∷ []) c in
    let c = infix_ops ("." ∷ []) c in prefix_ops ("#" ∷ "$" ∷ []) c

-- The messages that the parser raises.
pub data Message : Type 0 where
  expected_token unexpected_paren : Message
  expected_symbol : Text → Token → Message
  expected_type : TokenType → TokenType → Message
  failed_literal : Text → Message
  trailing_token : Text → TokenType → Message

pub record ParseError : Type 0 where
  pub location : TextLocation
  pub message : Message

-- `ParseState`: the token before `pos`, and the tokens from `pos` on. The configuration is always
-- that of `parse_config`. `reads_float` says of which texts `f64::from_str` makes a number.
pub record ParseState : Type 0 where
  pub source : ℕ
  pub prev : Option Token
  pub rest : List Token
  pub reads_float : Text → Bool

-- What a routine of the parser returns; it leaves no state behind an error.
abbrev pub Parse : Type 0 → Type 0
Parse A = Outcome ParseError (A × ParseState)

-- `Token::symbol` and `Token::literal`
abbrev pub token_symbol : Token → Option Text
token_symbol t = elim t.token_type [ symbol ↦ some t.string | _ ↦ none ]

abbrev pub token_literal : Token → Option Text
token_literal t = elim t.token_type [ symbol ↦ none | _ ↦ some t.string ]

abbrev pub type_eq : TokenType → TokenType → Bool
type_eq symbol symbol = true
type_eq float_literal float_literal = true
type_eq int_literal int_literal = true
type_eq string_literal string_literal = true
type_eq _ _ = false

-- `match_symbol`, `get`, `contains_key` and `contains` on the symbol of a token
abbrev pub is_symbol : Option Text → Text → Bool
is_symbol none s = false
is_symbol (some t) s = text_eq t s

abbrev pub match_symbol : Token → Text → Bool
match_symbol t s = is_symbol (token_symbol t) s

abbrev pub get {ℓ} : {V : Type ℓ} → List (Text × V) → Option Text → Option V
get m none = none
get m (some k) = lookup k m

abbrev pub has_key {ℓ} : {V : Type ℓ} → Option V → Bool
has_key none = false
has_key (some v) = true

abbrev pub contains_symbol : List Text → Option Text → Bool
contains_symbol m none = false
contains_symbol m (some k) = contains m k

abbrev pub is_terminator : Token → Bool
unfolding parse_config
is_terminator t = contains_symbol parse_config.paren_terminators (token_symbol t)

-- `has_tokens`
abbrev pub has_tokens : ParseState → Bool
has_tokens ps = elim ps.rest [ [] ↦ false | t ∷ r ↦ true ]

-- `peek`
abbrev pub end_of_tokens : ℕ → Option Token → TextLocation
end_of_tokens source none = zero_location
end_of_tokens source (some t) = new_location source t.loc.end t.loc.end

unfoldable pub peek : ParseState → Outcome ParseError Token
peek ps = elim ps.rest [
  | [] ↦ err (record { location = end_of_tokens ps.source ps.prev; message = expected_token })
  | t ∷ r ↦ ok t
]

-- `peek_newline`
abbrev newline_between : Option Token → List Token → Bool
newline_between (some p) (t ∷ r) = not (p.loc.end.line == t.loc.start.line)
newline_between _ _ = false

unfoldable pub peek_newline : ParseState → Bool
peek_newline ps = newline_between ps.prev ps.rest

-- `peek_marker`
abbrev marker_at : Option Token → List Token → TextMarker
marker_at p (t ∷ r) = t.loc.start
marker_at none [] = record { line = 0; col = 0 }
marker_at (some p) [] = p.loc.end

unfoldable pub peek_marker : ParseState → TextMarker
peek_marker ps = marker_at ps.prev ps.rest

-- `loc`
abbrev pub location_from : ParseState → TextMarker → TextLocation
location_from ps start = elim ps.prev [
  | none ↦ zero_location
  | some t ↦ new_location ps.source start t.loc.end
]

-- `skip`; no caller runs it at the end of the tokens.
abbrev skip_token : List Token → ParseState → ParseState
skip_token [] ps = ps
skip_token (t ∷ r) ps = record ps { prev = some t; rest = r }

unfoldable pub skip : ParseState → ParseState
skip ps = skip_token ps.rest ps

-- `accept`: whether the symbol was there, and the state afterwards.
unfoldable pub accept : Text → ParseState → Bool × ParseState
unfolding skip
accept s ps = elim ps.rest [
  | [] ↦ (false, ps)
  | t ∷ r ↦ if match_symbol t s then (true, skip ps) else (false, ps)
]

-- `expect`
unfoldable pub expect : Text → ParseState → Outcome ParseError ParseState
unfolding peek skip
expect s ps = do
  t ← peek ps
  if match_symbol t s
      then ok (skip ps)
      else err (record { location = t.loc; message = expected_symbol s t })

-- `expect_type` and `pop_type`: the token, and the state behind it.
unfoldable pub pop_type : TokenType → ParseState → Parse Token
unfolding peek skip
pop_type k ps = do
  t ← peek ps
  if type_eq t.token_type k
      then ok (t, skip ps)
      else err (record { location = t.loc; message = expected_type k t.token_type })

-- `add_leaf`, `add_list` and `add_symbol`
abbrev pub add_leaf : ExprContent → TextMarker → ParseState → Parse Expr
add_leaf c start ps = ok (expr (location_from ps start) c, ps)

abbrev pub add_list : Text → List Expr → TextMarker → ParseState → Parse Expr
add_list s es start ps = add_leaf (list s (exprs es)) start ps

abbrev pub add_symbol : Text → TextMarker → ParseState → Parse Expr
add_symbol s start ps = add_leaf (symbol_content s) start ps
