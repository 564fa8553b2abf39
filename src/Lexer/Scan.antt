-- ===== src/Lexer/Scan.antt =====
-- compiler/src/lexer.rs: the recognisers of tokens, and the loops of `lex`.
pub mod Progress
pub mod Moves
pub mod Round
pub mod Total
use live_programming_prototy.Prelude.{
  ℕ, zero, suc, ◌+◌, Bool, true, false, not, List, [], ◌∷◌, ◌++◌, map, Option, none, some,
  if◌then◌else◌, ◌==◌, length, Outcome, ok, err, panicked, out_of_fuel, ◌>>=◌,
}
use live_programming_prototy.Common.{Text, codes, StringCache}
use live_programming_prototy.Lexer.{
  TokenType, symbol, float_literal, int_literal, string_literal, Token, malformed_literal,
  unknown_token, malformed_string, unexpected_pattern, Error, CStream, StreamLocation, location,
  skip_char, complete_token, Step, done, failed, past_end, raise_error, advance_line, push,
  has_chars, peek, append_char, only, iter_char_while, skip_char_while, append_char_while,
  is_number, is_symbol_start_char, is_symbol_middle_char, is_space_char, peek_string, skip_chars,
}

-- `SYNTAX`
abbrev pub syntax_list : List Text
syntax_list = map codes (
    "==" ∷ "!=" ∷ "<=" ∷ ">=" ∷ "=>" ∷ "+=" ∷ "-=" ∷ "*=" ∷ "/=" ∷ "||" ∷ "&&" ∷ "{" ∷ "}" ∷ "("
    ∷ ")" ∷ "[" ∷ "]" ∷ "<" ∷ ">" ∷ ";" ∷ ":" ∷ "," ∷ "." ∷ "=" ∷ "+" ∷ "-" ∷ "*" ∷ "/" ∷ "%" ∷ "?"
    ∷ "|" ∷ "&" ∷ "^" ∷ "!" ∷ "$" ∷ "'" ∷ "#" ∷ [])

-- `skip_string`, then what the caller does if it succeeds
abbrev pub skip_string : Text → CStream → CStream
skip_string s cs = skip_chars s cs

-- `handle_newline`
unfoldable pub handle_newline : CStream → Step
unfolding peek_string skip_chars
handle_newline cs = peek cs.rest λ c.
    if c == b'\n'
    then done true (advance_line (skip_char cs))
    else if peek_string (b'\r' ∷ b'\n' ∷ []) cs.rest
    then done true (advance_line (skip_string (b'\r' ∷ b'\n' ∷ []) cs))
    else done false cs

-- `skip_space`
unfoldable pub skip_space : CStream → Step
unfolding iter_char_while is_space_char
skip_space cs = peek cs.rest λ c.
    if is_space_char c then done true (skip_char_while (only is_space_char) cs) else done false cs

-- `lex_symbol`
unfoldable pub lex_symbol : CStream → Step
unfolding iter_char_while is_symbol_start_char is_symbol_middle_char complete_token
lex_symbol cs = peek cs.rest λ c.
    if is_symbol_start_char c
    then done true (
        complete_token (location cs) symbol
          (append_char_while (only is_symbol_middle_char) (append_char c cs)))
    else done false cs

-- `has_chars() && peek() == …`, with both branches
abbrev pub if_next : (ℕ → Bool) → CStream → (ℕ → Step) → Step → Step
if_next test cs x y = if has_chars cs.rest then (peek cs.rest λ c. if test c then x c else y) else y

-- The end of `lex_number`
unfoldable pub finish_number : StreamLocation → TokenType → CStream → Step
unfolding iter_char_while is_symbol_start_char is_symbol_middle_char complete_token
finish_number start literal_type cs =
    if_next is_symbol_start_char cs
      (λ c. raise_error start malformed_literal (append_char_while (only is_symbol_middle_char) cs))
      (done true (complete_token start literal_type cs))

-- `lex_number` behind the digits before a point
unfoldable pub lex_fraction : StreamLocation → CStream → Step
unfolding iter_char_while is_number finish_number
lex_fraction start cs =
    if_next (λ c. c == b'.') cs
      (λ c.
        finish_number start float_literal (append_char_while (only is_number) (append_char c cs)))
      (finish_number start int_literal cs)

-- `lex_number`
unfoldable pub lex_number : CStream → Step
unfolding lex_fraction is_number iter_char_while
lex_number cs = peek cs.rest λ c.
    if is_number c
    then lex_fraction (location cs) (append_char_while (only is_number) cs)
    else done false cs

-- The patterns behind a backslash.
unfoldable pub unescape : ℕ → Option ℕ
unescape c =
    if c == b'\\'
    then some b'\\'
    else if c == b'n'
    then some b'\n'
    else if c == b't'
    then some b'\t'
    else if c == b'"'
    then some b'"'
    else if c == b'0'
    then some 0
    else none

-- A character of the literal as it stands, and one behind a backslash.
abbrev pub plain_char : ℕ → CStream → CStream
plain_char c cs = append_char c (if c == b'\n' then advance_line cs else cs)

abbrev pub escaped_char : ℕ → CStream → CStream
escaped_char e cs = skip_char (push e (skip_char cs))

-- The loop of `lex_string_literal`: `done` is its end, at a quote or at the end of the characters.
-- A backslash that is the last character makes the source read past the end.
unfoldable pub string_chars : StreamLocation → List ℕ → CStream → Step
unfolding unescape
string_chars start [] cs = done true cs
string_chars start (c ∷ []) cs =
    if c == b'\\' then past_end else if c == b'"' then done true cs else done true (plain_char c cs)
string_chars start (c ∷ d ∷ r) cs =
    let escaped = λ (e : ℕ). string_chars start r (escaped_char e cs) in
    let plain = string_chars start (d ∷ r) (plain_char c cs) in
    let pattern_end : Step = elim (unescape d) [
      | some e ↦ escaped e
      | none ↦ raise_error start (unexpected_pattern d) (skip_char cs)
    ] in
    if c == b'\\' then pattern_end else if c == b'"' then done true cs else plain

-- The end of `lex_string_literal`.
unfoldable pub finish_string : StreamLocation → Step → Step
unfolding complete_token
finish_string start (done b cs) =
    if has_chars cs.rest
    then done true (complete_token start string_literal (skip_char cs))
    else raise_error start malformed_string cs
finish_string start (failed e cs) = failed e cs
finish_string start past_end = past_end

-- `lex_string_literal`
unfoldable pub lex_string_literal : CStream → Step
unfolding string_chars finish_string
lex_string_literal cs = peek cs.rest λ c.
    if c == b'"'
    then (let inside = skip_char cs in
        finish_string (location inside) (string_chars (location inside) inside.rest inside))
    else done false cs

-- `lex_comment`
unfoldable pub lex_comment : CStream → Step
unfolding peek_string iter_char_while
lex_comment cs =
    if peek_string (codes "/*") cs.rest
    then (let body = skip_char (skip_char cs) in
        done true (
          skip_char
            (skip_char (skip_char_while (λ c r. not (peek_string (codes "*/") (c ∷ r))) body))))
    else if peek_string (codes "//") cs.rest
    then done true (skip_char_while (only (λ c. not (c == b'\n'))) cs)
    else done false cs

-- `lex_string`
unfoldable pub lex_string : Text → CStream → Step
unfolding peek_string skip_chars complete_token
lex_string s cs =
    if peek_string s cs.rest
    then (let skipped = skip_string s cs in
        done true (
          complete_token (location cs) symbol
            (record skipped { current_token = skipped.current_token ++ s })))
    else done false cs

-- The next recogniser runs if this one took nothing.
abbrev pub orelse : Step → (CStream → Step) → Step
orelse (done true cs) k = done true cs
orelse (done false cs) k = k cs
orelse (failed e cs) k = failed e cs
orelse past_end k = past_end

-- `lex_syntax`
unfoldable pub lex_syntax : List Text → CStream → Step
unfolding lex_string
lex_syntax [] cs = done false cs
lex_syntax (s ∷ ss) cs = orelse (lex_string s cs) (λ cs'. lex_syntax ss cs')

-- `unknown_token`
abbrev pub raise_unknown_token : CStream → Step
raise_unknown_token cs = peek cs.rest λ c. raise_error (location cs) unknown_token (skip_char cs)

-- One round of the loop of `lex_with_errors`.
unfoldable pub lex_one : CStream → Step
unfolding handle_newline skip_space lex_symbol lex_string_literal lex_number lex_comment lex_syntax
lex_one cs = orelse (handle_newline cs) λ cs. orelse (skip_space cs) λ cs.
    orelse (lex_symbol cs) λ cs. orelse (lex_string_literal cs) λ cs.
      orelse (lex_number cs)
        λ cs. orelse (lex_comment cs) λ cs. orelse (lex_syntax syntax_list cs) raise_unknown_token

-- `lex_with_errors`; an error comes with the stream that it leaves.
unfoldable pub lex_with_errors : ℕ → CStream → Outcome (Error × CStream) CStream
unfolding lex_one
lex_with_errors zero cs = out_of_fuel
lex_with_errors (suc fuel) cs = elim (has_chars cs.rest) [
  | false ↦ ok cs
  | true ↦ elim (lex_one cs) [
    | done b cs' ↦ lex_with_errors fuel cs'
    | failed e cs' ↦ err (e, cs')
    | past_end ↦ panicked
  ]
]

-- The loop of `lex`.
unfoldable pub lex_all : ℕ → CStream → Outcome ⊥ CStream
unfolding lex_with_errors
lex_all zero cs = out_of_fuel
lex_all (suc fuel) cs = elim (has_chars cs.rest) [
  | false ↦ ok cs
  | true ↦ elim (lex_with_errors (length cs.rest + 1) cs) [
    | ok cs' ↦ lex_all fuel cs'
    | err (e, cs') ↦ lex_all fuel (record cs' { errors = cs'.errors ++ e ∷ [] })
    | panicked ↦ panicked
    | out_of_fuel ↦ out_of_fuel
  ]
]

-- `CStream::new`
abbrev pub new_stream : ℕ → List ℕ → StringCache → CStream
new_stream source chars symbols = record {
  source = source;
  rest = chars;
  pos = 0;
  line = 1;
  line_start = 0;
  tokens = [];
  errors = [];
  symbols = symbols;
  current_token = [];
}

abbrev pub result : CStream → List Error → Outcome (List Error) (List Token)
result cs [] = ok cs.tokens
result cs (e ∷ es) = err (e ∷ es)

abbrev pub result_of : Outcome ⊥ CStream → Outcome (List Error) (List Token)
result_of (ok cs) = result cs cs.errors
result_of (err e) = absurd e
result_of panicked = panicked
result_of out_of_fuel = out_of_fuel

-- `lex`
unfoldable pub lex : ℕ → List ℕ → StringCache → Outcome (List Error) (List Token)
unfolding lex_all
lex source chars symbols = result_of (lex_all (length chars + 1) (new_stream source chars symbols))
