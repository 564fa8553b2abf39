-- ===== src/Lexer.antt =====
-- compiler/src/lexer.rs: tokens, and the stream of characters that the lexer reads.
pub mod Scan
mod Tests
use live_programming_prototy.Prelude.{
  ℕ, ◌+◌, ◌-◌, Bool, true, false, ◌&&◌, ◌||◌, List, [], ◌∷◌, ◌++◌, if◌then◌else◌, leb, ◌==◌, length,
}
use live_programming_prototy.Common.{Text, StringCache, cache_get}
use live_programming_prototy.Location.{TextMarker, TextLocation, new_location}

-- `TokenType`
pub data TokenType : Type 0 where
  symbol float_literal int_literal string_literal : TokenType

-- `Token`
pub record Token : Type 0 where
  pub string : Text
  pub token_type : TokenType
  pub loc : TextLocation

-- The messages that the lexer raises; the third prints the character behind the backslash.
pub data Message : Type 0 where
  malformed_literal unknown_token malformed_string : Message
  unexpected_pattern : ℕ → Message

pub record Error : Type 0 where
  pub message : Message
  pub location : TextLocation

-- `CStream`. `rest` holds the characters from `pos` on, and nothing if `pos` is past the end.
pub record CStream : Type 0 where
  pub source : ℕ
  pub rest : List ℕ
  pub pos : ℕ
  pub line : ℕ
  pub line_start : ℕ
  pub tokens : List Token
  pub errors : List Error
  pub symbols : StringCache
  pub current_token : Text

-- `StreamLocation`
pub record StreamLocation : Type 0 where
  pub pos : ℕ
  pub line : ℕ
  pub line_start : ℕ

abbrev pub location : CStream → StreamLocation
location cs = record { pos = cs.pos; line = cs.line; line_start = cs.line_start }

-- `From<StreamLocation> for TextMarker`
abbrev pub marker : StreamLocation → TextMarker
marker v = record { line = v.line; col = v.pos - v.line_start }

abbrev pub rest_after : List ℕ → List ℕ
rest_after [] = []
rest_after (c ∷ r) = r

-- `skip_char`
abbrev pub skip_char : CStream → CStream
skip_char cs = record cs { rest = rest_after cs.rest; pos = cs.pos + 1 }

-- `get_text_location`
abbrev pub get_text_location : StreamLocation → CStream → TextLocation
get_text_location start cs = new_location cs.source (marker start) (marker (location cs))

-- `complete_token`
unfoldable pub complete_token : StreamLocation → TokenType → CStream → CStream
unfolding cache_get
complete_token start kind cs =
    let (text, cache) = cache_get cs.symbols cs.current_token in
    record cs {
      tokens =
          cs.tokens
          ++ (record { string = text; token_type = kind; loc = get_text_location start cs }) ∷ [];
      symbols = cache;
      current_token = [];
    }

-- The end of a step: it took something or not, or it raised an error, or it read past the end.
pub data Step : Type 0 where
  done : Bool → CStream → Step
  failed : Error → CStream → Step
  past_end : Step

-- `raise_error`
abbrev pub raise_error : StreamLocation → Message → CStream → Step
raise_error start m cs =
    failed (record { message = m; location = get_text_location start cs })
      (record cs { current_token = [] })

-- `advance_line`
abbrev pub advance_line : CStream → CStream
advance_line cs = record cs { line = cs.line + 1; line_start = cs.pos }

-- `current_token.push(c)`
abbrev pub push : ℕ → CStream → CStream
push c cs = record cs { current_token = cs.current_token ++ c ∷ [] }

-- `has_chars`, on the characters from `pos` on
abbrev pub has_chars : List ℕ → Bool
has_chars [] = false
has_chars (c ∷ r) = true

-- `peek`, with what its caller does with the character; it panics past the end.
abbrev pub peek : List ℕ → (ℕ → Step) → Step
peek [] k = past_end
peek (c ∷ r) k = k c

-- `append_char`, given the character that it peeks
abbrev pub append_char : ℕ → CStream → CStream
append_char c cs = skip_char (push c cs)

-- The loop of `iter_char_while`; the condition and the operation are given the character at `pos`, which is
-- there, and the condition also those behind it.
unfoldable pub iter_while :
    (ℕ → List ℕ → Bool) → (ℕ → CStream → CStream) → List ℕ → CStream → CStream
iter_while condition operation [] cs = cs
iter_while condition operation (c ∷ r) cs =
    if condition c r then iter_while condition operation r (operation c cs) else cs

-- `iter_char_while`
unfoldable pub iter_char_while : (ℕ → List ℕ → Bool) → (ℕ → CStream → CStream) → CStream → CStream
unfolding iter_while
iter_char_while condition operation cs = iter_while condition operation cs.rest cs

-- A condition on the character alone
abbrev pub only : (ℕ → Bool) → ℕ → List ℕ → Bool
only test c r = test c

-- `skip_char_while` and `append_char_while`
abbrev pub skip_one : ℕ → CStream → CStream
skip_one c cs = skip_char cs

abbrev pub skip_char_while : (ℕ → List ℕ → Bool) → CStream → CStream
skip_char_while condition = iter_char_while condition skip_one

abbrev pub append_char_while : (ℕ → List ℕ → Bool) → CStream → CStream
append_char_while condition = iter_char_while condition append_char

abbrev within : ℕ → ℕ → ℕ → Bool
within lo hi c = leb lo c && leb c hi

-- `is_number`, `is_symbol_start_char`, `is_symbol_middle_char`, `is_space_char`, on a character
unfoldable pub is_number : ℕ → Bool
is_number c = within b'0' b'9' c

unfoldable pub is_symbol_start_char : ℕ → Bool
is_symbol_start_char c = within b'a' b'z' c || within b'A' b'Z' c || c == b'_'

unfoldable pub is_symbol_middle_char : ℕ → Bool
unfolding is_symbol_start_char
is_symbol_middle_char c = is_symbol_start_char c || within b'0' b'9' c

unfoldable pub is_space_char : ℕ → Bool
is_space_char c = c == b'\t' || c == b' '

-- `peek_string`
unfoldable pub peek_string : Text → List ℕ → Bool
peek_string [] r = true
peek_string (c ∷ s) [] = false
peek_string (c ∷ s) (d ∷ r) = d == c && peek_string s r

-- `for _ in s.chars() { self.skip_char(); }`
unfoldable pub skip_chars : Text → CStream → CStream
skip_chars [] cs = cs
skip_chars (c ∷ s) cs = skip_chars s (skip_char cs)
