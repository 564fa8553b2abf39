-- ===== src/Parser/Progress/Total.antt =====
-- compiler/src/parser.rs: the ends of the loop of `pratt_parse`, and of `parse`.
use live_programming_prototy.Prelude.{
  ℕ, zero, suc, ◌+◌, ◌≤◌, ◌<◌, ◌≡◌, refl, Bool, List, [], ◌∷◌, none, some, ◌⊎◌, inl, inr, length,
  Outcome, ok, err, panicked, out_of_fuel, ◌>>=◌, arith,
}
use live_programming_prototy.Common.{Text, codes}
use live_programming_prototy.Lexer.{Token}
use live_programming_prototy.Expr.{Expr}
use live_programming_prototy.Parser.{ParseState, Parse, ParseError}
use live_programming_prototy.Parser.Lists.{Routines, parse_list}
use live_programming_prototy.Parser.Terms.{parse_prefix}
use live_programming_prototy.Parser.Pratt.{
  Round, pratt_round, pratt_loop, pratt_parse, routines, finish_parse, parse,
}
use live_programming_prototy.Parser.Progress.{left, Below, Below-bind, Below-mono, Good}
use live_programming_prototy.Parser.Progress.Lists.{semicolon, parse_list-Below}
use live_programming_prototy.Parser.Progress.Terms.{parse_prefix-Below}
use live_programming_prototy.Parser.Progress.Rounds.{BelowRound, pratt_round-Below}

round-bind :
    (m : Round) (loop : Expr → ParseState → Parse Expr) (e : Expr) (ps : ParseState)
    → BelowRound (left ps) m
    → ((e' : Expr) (ps' : ParseState) → left ps' < left ps → Below (left ps' + 1) (loop e' ps'))
    → Below
        (left ps + 1)
        (m >>= (λ next. elim next [ none ↦ ok (e, ps) | some (e', ps') ↦ loop e' ps' ]))
round-bind (ok none) loop e ps h g = omega arith
round-bind (ok (some (e', ps'))) loop e ps h g =
    Below-mono (left ps' + 1) (left ps + 1) (loop e' ps') (omega arith) (g e' ps' h)
round-bind (err x) loop e ps h g = tt
round-bind panicked loop e ps h g = h
round-bind out_of_fuel loop e ps h g = h

module _ (n : ℕ) (rec : Routines) (good : Good n rec) where
  pratt_loop-Below :
      (fuel : ℕ) (e : Expr) (precedence : ℕ) (ps : ParseState)
      → left ps < n
      → left ps < fuel
      → Below (left ps + 1) (pratt_loop rec fuel e precedence ps)
  unfolding pratt_loop
  pratt_loop-Below zero e precedence ps h f = absurd (omega arith)
  pratt_loop-Below (suc fuel) e precedence ps h f =
      round-bind (pratt_round rec e precedence ps) (λ e' ps'. pratt_loop rec fuel e' precedence ps')
        e ps (pratt_round-Below n rec good e precedence ps h)
        (λ e' ps' l. pratt_loop-Below fuel e' precedence ps' (omega arith) (omega arith))

  pratt_parse-Below :
      (precedence : ℕ) (ps : ParseState)
      → left ps ≤ n
      → Below (left ps) (pratt_parse rec precedence ps)
  unfolding pratt_parse
  pratt_parse-Below precedence ps h =
      Below-bind (left ps) (left ps) (parse_prefix rec ps) _ (parse_prefix-Below n rec good ps h)
        λ e ps' l.
          Below-mono (left ps' + 1) (left ps) _ (omega arith)
            (pratt_loop-Below (left ps' + 1) e precedence ps' (omega arith) (omega arith))

routines-Good : (n : ℕ) → Good n (routines n)
unfolding routines
routines-Good zero = (λ p ps h. absurd (omega arith), λ ps h. absurd (omega arith))
routines-Good (suc n) = (
  λ p ps h. pratt_parse-Below n (routines n) (routines-Good n) p ps (omega arith),
  λ ps h. parse_prefix-Below n (routines n) (routines-Good n) ps (omega arith),
)

-- An expression or an error.
abbrev pub Answers : Outcome ParseError Expr → Type 0
Answers o = ((e : Expr) × (o ≡ ok e)) ⊎ ((e : ParseError) × (o ≡ err e))

finish_parse-Answers : (e : Expr) (ps : ParseState) → Answers (finish_parse (e, ps))
finish_parse-Answers e ps = on_rest ps.rest
  where
    on_rest : (r : List Token) → Answers (finish_parse (e, record ps { rest = r }))
    on_rest [] = inl (e, refl)
    on_rest (t ∷ r) = inr (_, refl)

Answers-bind : (k : ℕ) (m : Parse Expr) → Below k m → Answers (m >>= finish_parse)
Answers-bind k (ok (e, ps)) h = finish_parse-Answers e ps
Answers-bind k (err e) h = inr (e, refl)
Answers-bind k panicked h = absurd h
Answers-bind k out_of_fuel h = absurd h

-- `parse` comes to an end on every list of tokens, with an expression or an error: it does not
-- panic, and the fuel that it is given is enough.
pub parse-Answers :
    (reads_float : Text → Bool) (source : ℕ) (tokens : List Token)
    → Answers (parse reads_float source tokens)
unfolding parse
parse-Answers reads_float source tokens =
    let ps : ParseState = record {
      source = source;
      prev = none;
      rest = tokens;
      reads_float = reads_float;
    } in
    let n = length tokens + 1 in
    Answers-bind n (parse_list (routines n) [] (codes ";") (codes "block") ps) (
      parse_list-Below n (routines n) [] (codes ";") (codes "block") ps (routines-Good n) semicolon
        (omega arith))
