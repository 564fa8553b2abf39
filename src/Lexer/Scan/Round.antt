-- ===== src/Lexer/Scan/Round.antt =====
-- compiler/src/lexer.rs: string literals, comments and syntax, and one round of the lexer's loop.
use live_programming_prototy.Prelude.{
  ℕ, ◌≡◌, refl, Bool, true, false, not, List, [], ◌∷◌, Option, none, some, if◌then◌else◌, ◌==◌,
  elem, Bool-cases, inl, inr, arith,
}
use live_programming_prototy.Common.{Text, codes}
use live_programming_prototy.Lexer.{
  CStream, StreamLocation, location, rest_after, skip_char, Step, done, failed, past_end,
  unexpected_pattern, unknown_token, raise_error, has_chars, peek, skip_one, iter_char_while,
  peek_string,
}
use live_programming_prototy.Lexer.Scan.{
  syntax_list, handle_newline, skip_space, lex_symbol, lex_number, unescape, string_chars,
  plain_char, escaped_char, finish_string, lex_string_literal, lex_comment, lex_string, lex_syntax,
  raise_unknown_token, lex_one,
}
use live_programming_prototy.Lexer.Scan.Progress.{
  at, at_first, Moves-peek, Moves-if, Tail, Less, Tail-trans, Less-trans, Tail-rest_after,
  Less-rest_after, Tail-skip_while, at_of_peek_string, Less-skip_chars, Moves, Advances,
  Advances-orelse, Moves-orelse,
}
use live_programming_prototy.Lexer.Scan.Moves.{
  handle_newline-Moves, skip_space-Moves, lex_symbol-Moves, lex_number-Moves, Less-skip_while,
}

-- The loop of a string literal.
Ends : List ℕ → Step → Type 0
Ends l (done b t) = Tail t.rest l
Ends l (failed e t) = Tail t.rest l
Ends l past_end = elem b'\\' l ≡ true

Ends-mono : (l m : List ℕ) (s : Step) → Tail l m → Ends l s → Ends m s
unfolding Ends
Ends-mono l m (done b t) h e = Tail-trans t.rest l m e h
Ends-mono l m (failed x t) h e = Tail-trans t.rest l m e h
Ends-mono l m past_end h e = h.1 e

Ends-if :
    (l : List ℕ) (b : Bool) (x y : Step)
    → (b ≡ true → Ends l x)
    → (b ≡ false → Ends l y)
    → Ends l (if b then x else y)
Ends-if l true x y hx hy = hx refl
Ends-if l false x y hx hy = hy refl

plain_char_rest : (c : ℕ) (r : List ℕ) (cs : CStream) → cs.rest ≡ c ∷ r → (plain_char c cs).rest ≡ r
plain_char_rest c r cs e = ground arith

pattern_end-Ends :
    (start : StreamLocation) (c d : ℕ) (r : List ℕ) (cs : CStream) (o : Option ℕ)
    → cs.rest ≡ c ∷ d ∷ r
    → ((e : ℕ) → Ends r (string_chars start r (escaped_char e cs)))
    → Ends (c ∷ d ∷ r) (elim o [
      | some e ↦ string_chars start r (escaped_char e cs)
      | none ↦ raise_error start (unexpected_pattern d) (skip_char cs)
    ])
unfolding Ends
pattern_end-Ends start c d r cs none e next = ground arith
pattern_end-Ends start c d r cs (some x) e next =
    Ends-mono r (c ∷ d ∷ r) (string_chars start r (escaped_char x cs))
      (omega arith, λ k. ground arith) (next x)

string_chars-Ends :
    (start : StreamLocation) (l : List ℕ) (cs : CStream)
    → cs.rest ≡ l
    → Ends l (string_chars start l cs)
unfolding string_chars Ends
string_chars-Ends start [] cs e = ground arith
string_chars-Ends start (c ∷ []) cs e = ground arith
string_chars-Ends start (c ∷ d ∷ r) cs e =
    Ends-if (c ∷ d ∷ r) (c == b'\\') _ _
      (λ h.
        pattern_end-Ends start c d r cs (unescape d) e
          (λ x. string_chars-Ends start r (escaped_char x cs) (ground arith)))
      (λ h.
        Ends-if (c ∷ d ∷ r) (c == b'"') (done true cs)
          (string_chars start (d ∷ r) (plain_char c cs)) (λ k. ground arith)
          (λ k.
            Ends-mono (d ∷ r) (c ∷ d ∷ r) (string_chars start (d ∷ r) (plain_char c cs))
              (omega arith, λ k. ground arith)
              (string_chars-Ends start (d ∷ r) (plain_char c cs) (plain_char_rest c (d ∷ r) cs e))))

finish_string-Moves :
    (cs : CStream) (start : StreamLocation) (s : Step)
    → Less (rest_after cs.rest) cs.rest
    → Ends (rest_after cs.rest) s
    → Moves cs (finish_string start s)
unfolding Ends finish_string
finish_string-Moves cs start (done b t) l h = ground (arith, Tail-rest_after t.rest)
finish_string-Moves cs start (failed e t) l h = ground arith
finish_string-Moves cs start past_end l h = ground arith

pub lex_string_literal-Moves :
    (cs : CStream) → has_chars cs.rest ≡ true → Moves cs (lex_string_literal cs)
unfolding lex_string_literal
lex_string_literal-Moves cs h = Moves-peek cs _ h λ c r e.
    let inside = skip_char cs in
    Moves-if cs (c == b'"') _ (done false cs)
      (λ q.
        finish_string-Moves cs (location inside) (string_chars (location inside) inside.rest inside)
          (Less-rest_after (λ c. c == b'"') cs.rest (at_first (λ c. c == b'"') c cs.rest r e q))
          (string_chars-Ends (location inside) inside.rest inside refl))
      (λ q. refl)

slash_of_peek :
    (d : ℕ) (cs : CStream)
    → peek_string (b'/' ∷ d ∷ []) cs.rest ≡ true
    → at (λ c. c == b'/') cs.rest ≡ true
slash_of_peek d cs h = at_of_peek_string b'/' (d ∷ []) cs.rest h

line_starts : (l : List ℕ) → at (λ c. c == b'/') l ≡ true → at (λ c. not (c == b'\n')) l ≡ true
line_starts [] h = cc
line_starts (c ∷ l) h = ground arith

block_Less :
    (cs : CStream)
    → peek_string (codes "/*") cs.rest ≡ true
    → Less
        (rest_after (
          rest_after
            (iter_char_while
              (λ c r. not (peek_string (codes "*/") (c ∷ r)))
              skip_one
              (skip_char (skip_char cs))).rest))
        cs.rest
block_Less cs h =
    let body = skip_char (skip_char cs) in
    let after =
      (iter_char_while (λ c r. not (peek_string (codes "*/") (c ∷ r))) skip_one body).rest in
    let inside =
      Tail-trans after body.rest (rest_after cs.rest)
        (Tail-skip_while (λ c r. not (peek_string (codes "*/") (c ∷ r))) body)
        (Tail-rest_after (rest_after cs.rest)) in
    let ended =
      Tail-trans (rest_after (rest_after after)) (rest_after after) after
        (Tail-rest_after (rest_after after)) (Tail-rest_after after) in
    Less-trans (rest_after (rest_after after)) (rest_after cs.rest) cs.rest
      (Tail-trans (rest_after (rest_after after)) after (rest_after cs.rest) ended inside)
      (Less-rest_after (λ c. c == b'/') cs.rest (slash_of_peek b'*' cs h))

pub lex_comment-Moves : (cs : CStream) → Moves cs (lex_comment cs)
unfolding lex_comment
lex_comment-Moves cs = elim (Bool-cases (peek_string (codes "/*") cs.rest)) [
  | inl h ↦ rw h (block_Less cs h)
  | inr h ↦ elim (Bool-cases (peek_string (codes "//") cs.rest)) [
    | inl k ↦
        rw (h, k)
          (Less-skip_while (λ c. not (c == b'\n')) cs
            (line_starts cs.rest (slash_of_peek b'/' cs k)))
    | inr k ↦ rw (h, k) refl
  ]
]

lex_string-Moves : (c : ℕ) (s : Text) (cs : CStream) → Moves cs (lex_string (c ∷ s) cs)
unfolding lex_string
lex_string-Moves c s cs = ground (arith, Less-skip_chars c s cs)

-- No entry of the list is empty.
abbrev NonEmpty : List Text → Type 0
NonEmpty [] = Unit
NonEmpty ([] ∷ ss) = ⊥
NonEmpty ((c ∷ s) ∷ ss) = NonEmpty ss

pub lex_syntax-Moves : (ss : List Text) (cs : CStream) → NonEmpty ss → Moves cs (lex_syntax ss cs)
unfolding lex_syntax
lex_syntax-Moves [] cs n = refl
lex_syntax-Moves ([] ∷ ss) cs n = elim n [ ]
lex_syntax-Moves ((c ∷ s) ∷ ss) cs n =
    Moves-orelse cs (lex_string (c ∷ s) cs) (λ t. lex_syntax ss t) (lex_string-Moves c s cs)
      (lex_syntax-Moves ss cs n)

raise_unknown_token-Advances :
    (cs : CStream) → has_chars cs.rest ≡ true → Advances cs (raise_unknown_token cs)
raise_unknown_token-Advances cs h = on_rest cs.rest refl h
  where
    on_rest :
        (l : List ℕ)
        → cs.rest ≡ l
        → has_chars l ≡ true
        → Advances cs (peek l λ c. raise_error (location cs) unknown_token (skip_char cs))
    on_rest [] e h = absurd (cc)
    on_rest (c ∷ r) e h =
        Less-rest_after (λ c. true) cs.rest (at_first (λ c. true) c cs.rest r e refl)

-- At a character, one round of the loop takes at least one character.
pub lex_one-Advances : (cs : CStream) → has_chars cs.rest ≡ true → Advances cs (lex_one cs)
unfolding lex_one
lex_one-Advances cs h = Advances-orelse cs (handle_newline cs) _ (handle_newline-Moves cs h) (
    Advances-orelse cs (skip_space cs) _ (skip_space-Moves cs h) (
      Advances-orelse cs (lex_symbol cs) _ (lex_symbol-Moves cs h) (
        Advances-orelse cs (lex_string_literal cs) _ (lex_string_literal-Moves cs h) (
          Advances-orelse cs (lex_number cs) _ (lex_number-Moves cs h) (
            Advances-orelse cs (lex_comment cs) _ (lex_comment-Moves cs) (
              Advances-orelse cs (lex_syntax syntax_list cs) raise_unknown_token
                (lex_syntax-Moves syntax_list cs tt) (raise_unknown_token-Advances cs h)))))))
