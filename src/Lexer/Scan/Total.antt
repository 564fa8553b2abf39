-- ===== src/Lexer/Scan/Total.antt =====
-- compiler/src/lexer.rs: the ends of the loops of `lex`.
use live_programming_prototy.Prelude.{
  ℕ, zero, suc, ◌+◌, ◌<◌, ◌≡◌, ◌≢◌, refl, true, false, List, [], ◌∷◌, ◌++◌, length, elem,
  Bool-cases, inl, inr, Outcome, ok, err, panicked, out_of_fuel, arith, subst,
}
use live_programming_prototy.Common.{StringCache}
use live_programming_prototy.Lexer.{Token, Error, CStream, Step, done, failed, past_end, has_chars}
use live_programming_prototy.Lexer.Scan.{
  lex_one, lex_with_errors, lex_all, new_stream, result, result_of, lex,
}
use live_programming_prototy.Lexer.Scan.Progress.{Less, Advances}
use live_programming_prototy.Lexer.Scan.Round.{lex_one-Advances}

-- The end of `lex_with_errors`: no characters are left, or an error came with less of them.
abbrev Ended : CStream → Outcome (Error × CStream) CStream → Type 0
Ended cs (ok t) = t.rest ≡ []
Ended cs (err (e, t)) = Less t.rest cs.rest
Ended cs panicked = elem b'\\' cs.rest ≡ true
Ended cs out_of_fuel = ⊥

Ended-mono :
    (s t : CStream) (o : Outcome (Error × CStream) CStream)
    → Less t.rest s.rest
    → Ended t o
    → Ended s o
Ended-mono s t (ok u) l h = h
Ended-mono s t (err (e, u)) l h = (omega arith, λ k. l.1 (h.1 k))
Ended-mono s t panicked l h = l.1 h
Ended-mono s t out_of_fuel l h = h

no_chars : (l : List ℕ) → has_chars l ≡ false → l ≡ []
no_chars [] h = refl
no_chars (c ∷ l) h = cc

-- What the loop of `lex` does with the end of a round of `lex_with_errors`.
abbrev collect : ℕ → Outcome (Error × CStream) CStream → Outcome ⊥ CStream
unfolding lex_all
collect fuel (ok t) = lex_all fuel t
collect fuel (err (e, t)) = lex_all fuel (record t { errors = t.errors ++ e ∷ [] })
collect fuel panicked = panicked
collect fuel out_of_fuel = out_of_fuel

abbrev tokens_from : ℕ → Step → Outcome (Error × CStream) CStream
unfolding lex_with_errors
tokens_from fuel (done b t) = lex_with_errors fuel t
tokens_from fuel (failed e t) = err (e, t)
tokens_from fuel past_end = panicked

lex_with_errors_more :
    (fuel : ℕ) (cs : CStream)
    → has_chars cs.rest ≡ true
    → lex_with_errors (suc fuel) cs ≡ tokens_from fuel (lex_one cs)
unfolding lex_with_errors lex_one
lex_with_errors_more fuel cs h =
    rw (h, lex_with_errors)
      (elim (lex_one cs) [ done b t ↦ refl | failed e t ↦ refl | past_end ↦ refl ])

lex_with_errors_empty :
    (fuel : ℕ) (cs : CStream) → has_chars cs.rest ≡ false → lex_with_errors (suc fuel) cs ≡ ok cs
unfolding lex_with_errors
lex_with_errors_empty fuel cs h = rw (h, lex_with_errors) refl

lex_all_more :
    (fuel : ℕ) (cs : CStream)
    → has_chars cs.rest ≡ true
    → lex_all (suc fuel) cs ≡ collect fuel (lex_with_errors (length cs.rest + 1) cs)
unfolding lex_all
lex_all_more fuel cs h =
    rw (h, lex_all)
      (elim (lex_with_errors (length cs.rest + 1) cs) [
        | ok t ↦ refl
        | err (e, t) ↦ refl
        | panicked ↦ refl
        | out_of_fuel ↦ refl
      ])

lex_all_empty :
    (fuel : ℕ) (cs : CStream) → has_chars cs.rest ≡ false → lex_all (suc fuel) cs ≡ ok cs
unfolding lex_all
lex_all_empty fuel cs h = rw (h, lex_all) refl

some_chars : (l : List ℕ) → has_chars l ≡ true → 0 < length l
some_chars [] h = cc
some_chars (c ∷ l) h = omega arith

after_round :
    (fuel : ℕ) (cs : CStream) (s : Step)
    → length cs.rest < suc fuel
    → Advances cs s
    → ((t : CStream) → length t.rest < fuel → Ended t (lex_with_errors fuel t))
    → Ended cs (tokens_from fuel s)
unfolding tokens_from lex_with_errors
after_round fuel cs (done true t) f a next =
    Ended-mono cs t (lex_with_errors fuel t) a (next t (omega arith))
after_round fuel cs (done false t) f a next = absurd a
after_round fuel cs (failed e t) f a next = a
after_round fuel cs past_end f a next = a

lex_with_errors-Ended :
    (fuel : ℕ) (cs : CStream) → length cs.rest < fuel → Ended cs (lex_with_errors fuel cs)
lex_with_errors-Ended zero cs h = absurd (omega arith)
lex_with_errors-Ended (suc fuel) cs h = elim (Bool-cases (has_chars cs.rest)) [
  | inl more ↦ rw (lex_with_errors_more fuel cs more) (
      after_round fuel cs (lex_one cs) h (lex_one-Advances cs more)
        (λ t. lex_with_errors-Ended fuel t))
  | inr empty ↦ rw (lex_with_errors_empty fuel cs empty) (no_chars cs.rest empty)
]

-- The end of the loop of `lex`.
abbrev Finished : CStream → Outcome ⊥ CStream → Type 0
Finished cs (ok t) = t.rest ≡ []
Finished cs (err e) = ⊥
Finished cs panicked = elem b'\\' cs.rest ≡ true
Finished cs out_of_fuel = ⊥

Finished-mono :
    (s t : CStream) (o : Outcome ⊥ CStream) → Less t.rest s.rest → Finished t o → Finished s o
Finished-mono s t (ok u) l h = h
Finished-mono s t (err e) l h = h
Finished-mono s t panicked l h = l.1 h
Finished-mono s t out_of_fuel l h = h

nothing_Less : (r l : List ℕ) → r ≡ [] → 0 < length l → Less r l
nothing_Less [] l h p = (p, λ e. cc)
nothing_Less (c ∷ r) l h p = cc

after_collect :
    (fuel : ℕ) (cs : CStream) (o : Outcome (Error × CStream) CStream)
    → 0 < length cs.rest
    → length cs.rest < suc fuel
    → Ended cs o
    → ((t : CStream) → length t.rest < fuel → Finished t (lex_all fuel t))
    → Finished cs (collect fuel o)
unfolding collect lex_all
after_collect fuel cs (ok t) p f a next =
    Finished-mono cs t (lex_all fuel t) (nothing_Less t.rest cs.rest a p)
      (next t (rw (a) (omega arith)))
after_collect fuel cs (err (e, t)) p f a next =
    let t' : CStream = record t { errors = t.errors ++ e ∷ [] } in
    Finished-mono cs t' (lex_all fuel t') a (next t' (omega arith))
after_collect fuel cs panicked p f a next = a
after_collect fuel cs out_of_fuel p f a next = a

lex_all-Finished : (fuel : ℕ) (cs : CStream) → length cs.rest < fuel → Finished cs (lex_all fuel cs)
lex_all-Finished zero cs h = absurd (omega arith)
lex_all-Finished (suc fuel) cs h = elim (Bool-cases (has_chars cs.rest)) [
  | inl more ↦ rw (lex_all_more fuel cs more) (
      after_collect fuel cs (lex_with_errors (length cs.rest + 1) cs) (some_chars cs.rest more) h
        (lex_with_errors-Ended (length cs.rest + 1) cs (omega arith))
        (λ t. lex_all-Finished fuel t))
  | inr empty ↦ rw (lex_all_empty fuel cs empty) (no_chars cs.rest empty)
]

abbrev Reported : List ℕ → Outcome (List Error) (List Token) → Type 0
Reported chars (ok ts) = Unit
Reported chars (err es) = Unit
Reported chars panicked = elem b'\\' chars ≡ true
Reported chars out_of_fuel = ⊥

result-Reported : (chars : List ℕ) (cs : CStream) (es : List Error) → Reported chars (result cs es)
result-Reported chars cs [] = tt
result-Reported chars cs (e ∷ es) = tt

result_of-Reported :
    (cs : CStream) (o : Outcome ⊥ CStream) → Finished cs o → Reported cs.rest (result_of o)
result_of-Reported cs (ok t) h = result-Reported cs.rest t t.errors
result_of-Reported cs (err e) h = absurd h
result_of-Reported cs panicked h = h
result_of-Reported cs out_of_fuel h = h

lex-Reported :
    (source : ℕ) (chars : List ℕ) (symbols : StringCache)
    → Reported chars (lex source chars symbols)
unfolding lex lex_all
lex-Reported source chars symbols =
    let cs = new_stream source chars symbols in
    result_of-Reported cs (lex_all (length chars + 1) cs)
      (lex_all-Finished (length chars + 1) cs (omega arith))

-- `lex` comes to an end on every text of every source and every cache of strings: the fuel that it is given is enough.
pub lex-ne-out_of_fuel :
    (source : ℕ) (chars : List ℕ) (symbols : StringCache) → lex source chars symbols ≢ out_of_fuel
lex-ne-out_of_fuel source chars symbols h =
    subst (λ o. Reported chars o) h (lex-Reported source chars symbols)

-- On a text without a backslash, `lex` does not panic.
pub lex-ne-panicked :
    (source : ℕ) (chars : List ℕ) (symbols : StringCache)
    → elem b'\\' chars ≡ false
    → lex source chars symbols ≢ panicked
lex-ne-panicked source chars symbols free h =
    let found : elem b'\\' chars ≡ true =
      subst (λ o. Reported chars o) h (lex-Reported source chars symbols) in
    cc
