-- ===== src/Parser/Progress.antt =====
-- compiler/src/parser.rs: the number of tokens left behind a routine.
pub mod Lists
pub mod Keywords
pub mod Terms
pub mod Infix
pub mod Rounds
pub mod Total
use live_programming_prototy.Prelude.{
  ℕ, suc, ◌+◌, ◌≤◌, ◌<◌, ◌≡◌, refl, Bool, true, false, List, [], ◌∷◌, if◌then◌else◌, length,
  Outcome, ok, err, panicked, out_of_fuel, ◌>>=◌, arith,
}
use live_programming_prototy.Common.{Text}
use live_programming_prototy.Lexer.{TokenType, Token}
use live_programming_prototy.Location.{TextMarker}
use live_programming_prototy.Expr.{Expr, ExprContent}
use live_programming_prototy.Parser.{
  ParseState, Parse, ParseError, peek, pop_type, skip, accept, expect, token_symbol, match_symbol,
  type_eq,
}
use live_programming_prototy.Parser.Lists.{Routines}

abbrev pub left : ParseState → ℕ
left ps = length ps.rest

-- The routine comes to an end, with an error or with fewer than `k` tokens left.
abbrev pub Below : {A : Type 0} → ℕ → Parse A → Type 0
Below k (ok (a, ps)) = left ps < k
Below k (err e) = Unit
Below k panicked = ⊥
Below k out_of_fuel = ⊥

abbrev pub BelowState : ℕ → Outcome ParseError ParseState → Type 0
BelowState k (ok ps) = left ps < k
BelowState k (err e) = Unit
BelowState k panicked = ⊥
BelowState k out_of_fuel = ⊥

pub Below-bind :
    {A B : Type 0} (j k : ℕ) (m : Parse A) (f : A × ParseState → Parse B)
    → Below j m
    → ((a : A) (ps : ParseState) → left ps < j → Below k (f (a, ps)))
    → Below k (m >>= f)
Below-bind j k (ok (a, ps)) f h g = g a ps h
Below-bind j k (err e) f h g = tt
Below-bind j k panicked f h g = h
Below-bind j k out_of_fuel f h g = h

pub BelowState-bind :
    {B : Type 0} (j k : ℕ) (m : Outcome ParseError ParseState) (f : ParseState → Parse B)
    → BelowState j m
    → ((ps : ParseState) → left ps < j → Below k (f ps))
    → Below k (m >>= f)
BelowState-bind j k (ok ps) f h g = g ps h
BelowState-bind j k (err e) f h g = tt
BelowState-bind j k panicked f h g = h
BelowState-bind j k out_of_fuel f h g = h

pub peek-bind :
    {B : Type 0} (k : ℕ) (ps : ParseState) (f : Token → Parse B)
    → ((t : Token) → peek ps ≡ ok t → Below k (f t))
    → Below k (peek ps >>= f)
unfolding peek
peek-bind k ps f g = on_rest ps.rest refl
  where
    on_rest : (r : List Token) → ps.rest ≡ r → Below k (peek ps >>= f)
    on_rest [] e = rw (peek, e) tt
    on_rest (t ∷ r) e = rw (peek, e) (g t (rw (peek, e) refl))

pub Below-mono : {A : Type 0} (j k : ℕ) (m : Parse A) → j ≤ k → Below j m → Below k m
Below-mono j k (ok (a, ps)) l h = omega arith
Below-mono j k (err e) l h = tt
Below-mono j k panicked l h = h
Below-mono j k out_of_fuel l h = h

pub Below-if :
    {A : Type 0} (k : ℕ) (b : Bool) (m n : Parse A)
    → Below k m
    → Below k n
    → Below k (if b then m else n)
Below-if k true m n h g = h
Below-if k false m n h g = g

pub expect-Below : (s : Text) (ps : ParseState) → BelowState (left ps) (expect s ps)
unfolding expect peek skip
expect-Below s ps = ground arith

pub pop_type-Below : (k : TokenType) (ps : ParseState) → Below (left ps) (pop_type k ps)
unfolding pop_type peek skip
pop_type-Below k ps = ground arith

pub accept-left : (s : Text) (ps : ParseState) → left (accept s ps).1 ≤ left ps
unfolding accept skip
accept-left s ps = ground arith

pub accept-less :
    (s : Text) (ps : ParseState) → (accept s ps).0 ≡ true → left (accept s ps).1 < left ps
unfolding accept skip
accept-less s ps h = ground arith

-- Each of the routines reads a token or fails, on states with fewer than `n` tokens.
abbrev pub Good : ℕ → Routines → Type 0
Good n rec =
    ((p : ℕ) (ps : ParseState) → left ps < n → Below (left ps) (rec.pratt_parse p ps))
    × ((ps : ParseState) → left ps < n → Below (left ps) (rec.parse_prefix ps))
