-- ===== src/Lexer/Scan/Progress.antt =====
-- compiler/src/lexer.rs: what the moves of the stream leave of the characters.
use live_programming_prototy.Prelude.{
  ℕ, ◌≤◌, ◌<◌, ◌≡◌, refl, sym, subst, Bool, true, false, List, [], ◌∷◌, if◌then◌else◌, ◌==◌, length,
  elem, Bool-cases, inl, inr, arith,
}
use live_programming_prototy.Common.{Text}
use live_programming_prototy.Lexer.{
  CStream, rest_after, skip_char, Step, done, failed, past_end, has_chars, peek, append_char,
  skip_one, iter_while, iter_char_while, peek_string, skip_chars,
}
use live_programming_prototy.Lexer.Scan.{orelse}

-- `r` is no longer than `l`, and has a backslash only if `l` has one.
abbrev pub Tail : List ℕ → List ℕ → Type 0
Tail r l = (length r ≤ length l) × (elem b'\\' r ≡ true → elem b'\\' l ≡ true)

abbrev pub Less : List ℕ → List ℕ → Type 0
Less r l = (length r < length l) × (elem b'\\' r ≡ true → elem b'\\' l ≡ true)

pub Tail-trans : (a b c : List ℕ) → Tail a b → Tail b c → Tail a c
Tail-trans a b c h k = (omega arith, λ e. k.1 (h.1 e))

pub Less-trans : (a b c : List ℕ) → Tail a b → Less b c → Less a c
Less-trans a b c h k = (omega arith, λ e. k.1 (h.1 e))

-- The first character is there and passes the test.
abbrev pub at : (ℕ → Bool) → List ℕ → Bool
at test [] = false
at test (c ∷ r) = test c

pub at_first :
    (test : ℕ → Bool) (c : ℕ) (l r : List ℕ) → l ≡ c ∷ r → test c ≡ true → at test l ≡ true
at_first test c l r e h = rw e h

pub Tail-rest_after : (l : List ℕ) → Tail (rest_after l) l
Tail-rest_after [] = (omega arith, λ e. e)
Tail-rest_after (c ∷ r) = (omega arith, λ e. ground arith)

pub Less-rest_after : (test : ℕ → Bool) (l : List ℕ) → at test l ≡ true → Less (rest_after l) l
Less-rest_after test [] h = cc
Less-rest_after test (c ∷ r) h = (omega arith, λ e. ground arith)

pub Tail-iter_while :
    (condition : ℕ → List ℕ → Bool) (operation : ℕ → CStream → CStream)
    → ((c : ℕ) (cs : CStream) → (operation c cs).rest ≡ rest_after cs.rest)
    → (l : List ℕ) (cs : CStream) → cs.rest ≡ l
    → Tail (iter_while condition operation l cs).rest l
unfolding iter_while
Tail-iter_while condition operation moves [] cs h = ground arith
Tail-iter_while condition operation moves (c ∷ r) cs h = elim (Bool-cases (condition c r)) [
  | inl go ↦
      let (shorter, keeps) =
        Tail-iter_while condition operation moves r (operation c cs) (ground (arith, moves c cs)) in
      rw go (omega arith, λ e. ground (arith, keeps e))
  | inr stop ↦ rw stop (ground arith)
]

pub Tail-skip_while :
    (condition : ℕ → List ℕ → Bool) (cs : CStream)
    → Tail (iter_char_while condition skip_one cs).rest cs.rest
unfolding iter_char_while
Tail-skip_while condition cs = Tail-iter_while condition skip_one (λ c s. refl) cs.rest cs refl

pub Tail-append_while :
    (condition : ℕ → List ℕ → Bool) (cs : CStream)
    → Tail (iter_char_while condition append_char cs).rest cs.rest
unfolding iter_char_while
Tail-append_while condition cs = Tail-iter_while condition append_char (λ c s. refl) cs.rest cs refl

pub Tail-skip_chars : (s : Text) (cs : CStream) → Tail (skip_chars s cs).rest cs.rest
unfolding skip_chars
Tail-skip_chars [] cs = (omega arith, λ e. e)
Tail-skip_chars (c ∷ s) cs =
    Tail-trans _ (rest_after cs.rest) cs.rest (Tail-skip_chars s (skip_char cs))
      (Tail-rest_after cs.rest)

pub at_of_peek_string :
    (c : ℕ) (s : Text) (l : List ℕ) → peek_string (c ∷ s) l ≡ true → at (λ d. d == c) l ≡ true
unfolding peek_string
at_of_peek_string c s [] h = cc
at_of_peek_string c s (d ∷ r) h = ground arith

pub Less-skip_chars :
    (c : ℕ) (s : Text) (cs : CStream)
    → peek_string (c ∷ s) cs.rest ≡ true
    → Less (skip_chars (c ∷ s) cs).rest cs.rest
unfolding skip_chars
Less-skip_chars c s cs h =
    Less-trans _ (rest_after cs.rest) cs.rest (Tail-skip_chars s (skip_char cs))
      (Less-rest_after _ cs.rest (at_of_peek_string c s cs.rest h))

-- What a recogniser does to the stream: it takes a character, or nothing, or it reads past the end
-- behind a backslash.
abbrev pub Moves : CStream → Step → Type 0
Moves cs (done true t) = Less t.rest cs.rest
Moves cs (done false t) = t ≡ cs
Moves cs (failed e t) = Less t.rest cs.rest
Moves cs past_end = elem b'\\' cs.rest ≡ true

-- The same where something is always taken.
abbrev pub Advances : CStream → Step → Type 0
Advances cs (done true t) = Less t.rest cs.rest
Advances cs (done false t) = ⊥
Advances cs (failed e t) = Less t.rest cs.rest
Advances cs past_end = elem b'\\' cs.rest ≡ true

pub Advances-orelse :
    (cs : CStream) (s : Step) (k : CStream → Step)
    → Moves cs s
    → Advances cs (k cs)
    → Advances cs (orelse s k)
Advances-orelse cs (done true t) k h a = h
Advances-orelse cs (done false t) k h a = subst (λ u. Advances cs (k u)) (sym h) a
Advances-orelse cs (failed e t) k h a = h
Advances-orelse cs past_end k h a = h

pub Moves-orelse :
    (cs : CStream) (s : Step) (k : CStream → Step)
    → Moves cs s
    → Moves cs (k cs)
    → Moves cs (orelse s k)
Moves-orelse cs (done true t) k h a = h
Moves-orelse cs (done false t) k h a = subst (λ u. Moves cs (k u)) (sym h) a
Moves-orelse cs (failed e t) k h a = h
Moves-orelse cs past_end k h a = h

pub Moves-if :
    (cs : CStream) (b : Bool) (x y : Step)
    → (b ≡ true → Moves cs x)
    → (b ≡ false → Moves cs y)
    → Moves cs (if b then x else y)
Moves-if cs true x y hx hy = hx refl
Moves-if cs false x y hx hy = hy refl

-- A recogniser that peeks where a character is left
pub Moves-peek :
    (cs : CStream) (k : ℕ → Step)
    → has_chars cs.rest ≡ true
    → ((c : ℕ) (r : List ℕ) → cs.rest ≡ c ∷ r → Moves cs (k c))
    → Moves cs (peek cs.rest k)
Moves-peek cs k h f = on_rest cs.rest refl h
  where
    on_rest : (l : List ℕ) → cs.rest ≡ l → has_chars l ≡ true → Moves cs (peek l k)
    on_rest [] e h = absurd (cc)
    on_rest (c ∷ r) e h = f c r e
