-- ===== src/Lexer/Scan/Moves.antt =====
-- compiler/src/lexer.rs: how far each recogniser moves the stream.
use live_programming_prototy.Prelude.{
  ℕ, ◌≡◌, refl, Bool, true, false, if◌then◌else◌, List, [], ◌∷◌, ◌==◌, arith,
}
use live_programming_prototy.Lexer.{
  TokenType, CStream, StreamLocation, location, rest_after, Step, done, float_literal, int_literal,
  has_chars, peek, only, skip_one, append_char, iter_while, iter_char_while, is_number,
  is_symbol_start_char, is_symbol_middle_char, is_space_char,
}
use live_programming_prototy.Lexer.Scan.{
  handle_newline, skip_space, lex_symbol, if_next, lex_fraction, finish_number, lex_number,
}
use live_programming_prototy.Lexer.Scan.Progress.{
  at, at_first, Moves-peek, Moves-if, Tail-trans, Tail-rest_after, Less, Less-trans,
  Less-rest_after, Tail-append_while, Tail-iter_while, Less-skip_chars, Moves,
}

pub handle_newline-Moves : (cs : CStream) → has_chars cs.rest ≡ true → Moves cs (handle_newline cs)
unfolding handle_newline
handle_newline-Moves cs h = Moves-peek cs _ h λ c r e. ground (
  arith,
  Less-rest_after (λ c. c == b'\n') cs.rest,
  at_first (λ c. c == b'\n') c cs.rest r e,
  Less-skip_chars b'\r' (b'\n' ∷ []) cs,
)

-- A loop whose condition holds at the first character takes that character.
Less-iter_while :
    (test : ℕ → Bool) (operation : ℕ → CStream → CStream)
    → ((c : ℕ) (cs : CStream) → (operation c cs).rest ≡ rest_after cs.rest)
    → (l : List ℕ) (cs : CStream) → cs.rest ≡ l
    → at test l ≡ true
    → Less (iter_while (only test) operation l cs).rest l
unfolding iter_while
Less-iter_while test operation moves [] cs e h = cc
Less-iter_while test operation moves (c ∷ r) cs e h =
    let (shorter, keeps) =
      Tail-iter_while (only test) operation moves r (operation c cs) (ground (arith, moves c cs)) in
    rw h (omega arith, λ k. ground (arith, keeps k))

pub Less-skip_while :
    (test : ℕ → Bool) (cs : CStream)
    → at test cs.rest ≡ true
    → Less (iter_char_while (only test) skip_one cs).rest cs.rest
unfolding iter_char_while
Less-skip_while test cs h = Less-iter_while test skip_one (λ c s. refl) cs.rest cs refl h

Less-append_while :
    (test : ℕ → Bool) (cs : CStream)
    → at test cs.rest ≡ true
    → Less (iter_char_while (only test) append_char cs).rest cs.rest
unfolding iter_char_while
Less-append_while test cs h = Less-iter_while test append_char (λ c s. refl) cs.rest cs refl h

pub skip_space-Moves : (cs : CStream) → has_chars cs.rest ≡ true → Moves cs (skip_space cs)
unfolding skip_space
skip_space-Moves cs h =
    Moves-peek cs _ h λ c r e.
      ground (arith, Less-skip_while is_space_char cs, at_first is_space_char c cs.rest r e)

pub lex_symbol-Moves : (cs : CStream) → has_chars cs.rest ≡ true → Moves cs (lex_symbol cs)
unfolding lex_symbol
lex_symbol-Moves cs h = Moves-peek cs _ h λ c r e. ground (
  arith,
  Tail-append_while (only is_symbol_middle_char) (append_char c cs),
  Less-rest_after is_symbol_start_char cs.rest,
  at_first is_symbol_start_char c cs.rest r e,
)

-- A test of the next character behind a character that was taken
if_next-Moves :
    (cs : CStream) (test : ℕ → Bool) (t : CStream) (x : ℕ → Step) (y : Step)
    → ((c : ℕ) → Moves cs (x c))
    → Moves cs y
    → Moves cs (if_next test t x y)
if_next-Moves cs test t x y hx hy = on_rest t.rest
  where
    on_test : (c : ℕ) (b : Bool) → Moves cs (if b then x c else y)
    on_test c true = hx c
    on_test c false = hy

    on_rest :
        (l : List ℕ) → Moves cs (if has_chars l then (peek l λ c. if test c then x c else y) else y)
    on_rest [] = hy
    on_rest (c ∷ r) = on_test c (test c)

finish_number-Moves :
    (cs : CStream) (start : StreamLocation) (kind : TokenType) (digits : CStream)
    → Less digits.rest cs.rest
    → Moves cs (finish_number start kind digits)
unfolding finish_number
finish_number-Moves cs start kind digits h =
    if_next-Moves cs is_symbol_start_char digits _ _
      (λ c.
        Less-trans _ digits.rest cs.rest (Tail-append_while (only is_symbol_middle_char) digits) h)
      h

lex_fraction-Moves :
    (cs : CStream) (start : StreamLocation) (digits : CStream)
    → Less digits.rest cs.rest
    → Moves cs (lex_fraction start digits)
unfolding lex_fraction
lex_fraction-Moves cs start digits h =
    if_next-Moves cs (λ c. c == b'.') digits _ _
      (λ c.
        finish_number-Moves cs start float_literal
          (iter_char_while (only is_number) append_char (append_char c digits))
          (Less-trans _ digits.rest cs.rest
            (Tail-trans _ (rest_after digits.rest) digits.rest
              (Tail-append_while (only is_number) (append_char c digits))
              (Tail-rest_after digits.rest))
            h))
      (finish_number-Moves cs start int_literal digits h)

pub lex_number-Moves : (cs : CStream) → has_chars cs.rest ≡ true → Moves cs (lex_number cs)
unfolding lex_number
lex_number-Moves cs h = Moves-peek cs _ h λ c r e.
    Moves-if cs (is_number c) _ (done false cs)
      (λ q.
        lex_fraction-Moves cs (location cs) (iter_char_while (only is_number) append_char cs)
          (Less-append_while is_number cs (at_first is_number c cs.rest r e q)))
      (λ q. refl)
