-- ===== src/Parser/Progress/Keywords.antt =====
-- compiler/src/parser.rs: the keyword terms.
use live_programming_prototy.Prelude.{
  ℕ, ◌+◌, ◌≤◌, ◌<◌, Bool, true, false, not, List, [], ◌∷◌, Option, none, some, if◌then◌else◌, ◌>>=◌,
  arith,
}
use live_programming_prototy.Common.{Text, codes, text_eq, text_instance}
use live_programming_prototy.Location.{TextMarker}
use live_programming_prototy.Lexer.{symbol}
use live_programming_prototy.Expr.{Expr}
use live_programming_prototy.Parser.{
  ParseState, Parse, parse_config, pop_type, peek_marker, accept, expect, add_list, match_symbol,
}
use live_programming_prototy.Parser.Lists.{
  Routines, parse_list, parse_block_in_braces, parse_new_scope,
}
use live_programming_prototy.Parser.Keywords.{
  parse_definition, parse_with_block, parse_else, parse_if, parse_name, parse_return_type,
  parse_polytypes, parse_body, parse_fun, peek_statement_terminated, parse_return, one_of,
  keyword_routine, try_parse_keyword_term,
}
use live_programming_prototy.Parser.Progress.{
  left, Below, Below-bind, BelowState-bind, peek-bind, Below-if, accept-left, expect-Below,
  pop_type-Below, Good,
}
use live_programming_prototy.Parser.Progress.Lists.{
  parse_list-Below, parse_block_in_braces-Below, parse_new_scope-Below, comma,
}

-- The routine that a keyword asks for reads a token.
abbrev pub Routine : Option (ParseState → Parse Expr) → ParseState → Type 0
Routine none ps = Unit
Routine (some f) ps = Below (left ps) (f ps)

Routine-if :
    (b : Bool) (f g : Option (ParseState → Parse Expr)) (ps : ParseState)
    → Routine f ps
    → Routine g ps
    → Routine (if b then f else g) ps
Routine-if true f g ps h k = h
Routine-if false f g ps h k = k

module _ (n : ℕ) (rec : Routines) (good : Good n rec) where
  parse_definition-Below :
      (kp : ℕ) (tag : Text) (ps : ParseState)
      → left ps ≤ n
      → Below (left ps) (parse_definition rec kp tag ps)
  unfolding parse_definition
  parse_definition-Below kp tag ps h =
      Below-bind (left ps) (left ps) (pop_type symbol ps) _ (pop_type-Below symbol ps) λ t ps1 l1.
        Below-bind (left ps1) (left ps) (rec.pratt_parse kp ps1) _ (good.0 kp ps1 (omega arith))
          λ e ps2 l2. omega arith

  parse_with_block-Below :
      (kp : ℕ) (tag : Text) (ps : ParseState)
      → left ps ≤ n
      → Below (left ps) (parse_with_block rec kp tag ps)
  unfolding parse_with_block
  parse_with_block-Below kp tag ps h =
      Below-bind (left ps) (left ps) (pop_type symbol ps) _ (pop_type-Below symbol ps) λ t ps1 l1.
        Below-bind (left ps1) (left ps) (rec.pratt_parse kp ps1) _ (good.0 kp ps1 (omega arith))
          λ e ps2 l2.
            Below-bind (left ps2) (left ps) (parse_block_in_braces rec ps2) _
              (parse_block_in_braces-Below n rec ps2 good (omega arith)) λ b ps3 l3. omega arith

  parse_else-Below :
      (k kp : ℕ) (es : List Expr) (start : TextMarker) (found : Bool) (ps : ParseState)
      → left ps < k
      → left ps < n
      → Below k (parse_else rec kp es start (found, ps))
  unfolding parse_else
  parse_else-Below k kp es start found ps h f =
      Below-if k found _ _
        (Below-bind (left ps) k (parse_new_scope rec kp ps) _
          (parse_new_scope-Below n rec kp ps good f) λ e ps' l. omega arith)
        h

  parse_if-Below : (kp : ℕ) (ps : ParseState) → left ps ≤ n → Below (left ps) (parse_if rec kp ps)
  unfolding parse_if
  parse_if-Below kp ps h =
      Below-bind (left ps) (left ps) (pop_type symbol ps) _ (pop_type-Below symbol ps) λ t ps1 l1.
        Below-bind (left ps1) (left ps) (rec.pratt_parse kp ps1) _ (good.0 kp ps1 (omega arith))
          λ cond ps2 l2.
            let then_left = accept-left (codes "then") ps2 in
            let at_scope = (accept (codes "then") ps2).1 in
            Below-bind (left at_scope) (left ps) (parse_new_scope rec kp at_scope) _
              (parse_new_scope-Below n rec kp at_scope good (omega (arith, then_left)))
              λ then_e ps3 l3.
                let else_left = accept-left (codes "else") ps3 in
                parse_else-Below (left ps) kp (cond ∷ then_e ∷ []) (peek_marker ps)
                  (accept (codes "else") ps3).0 (accept (codes "else") ps3).1
                  (omega (arith, then_left, else_left)) (omega (arith, then_left, else_left))

  parse_name-Below :
      (b : Bool) (ps : ParseState) → left ps < n → Below (left ps + 1) (parse_name rec b ps)
  unfolding parse_name
  parse_name-Below false ps h = omega arith
  parse_name-Below true ps h =
      Below-bind (left ps) (left ps + 1) (rec.parse_prefix ps) _ (good.1 ps h)
        (λ e ps' l. omega arith)

  parse_return_type-Below :
      (kp : ℕ) (es : List Expr) (b : Bool) (ps : ParseState)
      → left ps < n
      → Below (left ps + 1) (parse_return_type rec kp es (b, ps))
  unfolding parse_return_type
  parse_return_type-Below kp es false ps h = omega arith
  parse_return_type-Below kp es true ps h =
      Below-bind (left ps) (left ps + 1) (rec.pratt_parse kp ps) _ (good.0 kp ps h)
        (λ e ps' l. omega arith)

  parse_polytypes-Below :
      (es : List Expr) (b : Bool) (ps : ParseState)
      → left ps < n
      → Below (left ps + 1) (parse_polytypes rec es (b, ps))
  unfolding parse_polytypes
  parse_polytypes-Below es false ps h = omega arith
  parse_polytypes-Below es true ps h =
      Below-bind (left ps + 1) (left ps + 1) (parse_list rec [] (codes ",") (codes "polytypes") ps)
        _ (parse_list-Below n rec [] (codes ",") (codes "polytypes") ps good comma h) (λ e ps' l. l)

  parse_body-Below :
      (b : Bool) (es : List Expr) (ps : ParseState)
      → left ps < n
      → Below (left ps + 1) (parse_body rec b es ps)
  unfolding parse_body
  parse_body-Below false es ps h = omega arith
  parse_body-Below true es ps h =
      let with_left = accept-left (codes "with") ps in
      let at_types = (accept (codes "with") ps).1 in
      Below-bind (left at_types + 1) (left ps + 1)
        (parse_polytypes rec es (accept (codes "with") ps)) _
        (parse_polytypes-Below es (accept (codes "with") ps).0 at_types (omega (arith, with_left)))
        λ es' ps' l.
          Below-bind (left ps') (left ps + 1) (parse_block_in_braces rec ps') _
            (parse_block_in_braces-Below n rec ps' good (omega (arith, with_left)))
            λ b ps'' l'. omega (arith, with_left)

  -- `parse_fun` behind the arguments
  parse_fun_end-Below :
      (k kp : ℕ) (full : Bool) (es : List Expr) (start : TextMarker) (ps : ParseState)
      → left ps < k
      → left ps < n
      → Below k (do
        (es', ps6) ← parse_return_type rec kp es (accept (codes "=>") ps)
        (es'', ps7) ← parse_body rec full es' ps6
        add_list (codes "fun") es'' start ps7)
  parse_fun_end-Below k kp full es start ps h f =
      let arrow_left = accept-left (codes "=>") ps in
      let at_type = (accept (codes "=>") ps).1 in
      Below-bind (left at_type + 1) k (parse_return_type rec kp es (accept (codes "=>") ps)) _
        (parse_return_type-Below kp es (accept (codes "=>") ps).0 at_type
          (omega (arith, arrow_left)))
        λ es' ps6 l6.
          Below-bind (left ps6 + 1) k (parse_body rec full es' ps6) _
            (parse_body-Below full es' ps6 (omega (arith, arrow_left)))
            λ es'' ps7 l7. omega (arith, arrow_left)

  parse_fun-Below : (kp : ℕ) (ps : ParseState) → left ps ≤ n → Below (left ps) (parse_fun rec kp ps)
  unfolding parse_fun
  parse_fun-Below kp ps h =
      Below-bind (left ps) (left ps) (pop_type symbol ps) _ (pop_type-Below symbol ps) λ t ps1 l1.
        peek-bind (left ps) ps1 _ λ next e.
          let full = not (match_symbol next (codes "(")) in
          Below-bind (left ps1 + 1) (left ps) (parse_name rec full ps1) _
            (parse_name-Below full ps1 (omega arith))
            λ name ps2 l2.
              BelowState-bind (left ps2) (left ps) (expect (codes "(") ps2) _
                (expect-Below (codes "(") ps2)
                λ ps3 l3.
                  Below-bind (left ps3 + 1) (left ps)
                    (parse_list rec [] (codes ",") (codes "args") ps3) _
                    (parse_list-Below n rec [] (codes ",") (codes "args") ps3 good comma
                      (omega arith))
                    λ args ps4 l4.
                      BelowState-bind (left ps4) (left ps) (expect (codes ")") ps4) _
                        (expect-Below (codes ")") ps4)
                        λ ps5 l5.
                          parse_fun_end-Below (left ps) kp full _ (peek_marker ps) ps5 (omega arith)
                            (omega arith)

  parse_return-Below :
      (kp : ℕ) (ps : ParseState) → left ps ≤ n → Below (left ps) (parse_return rec kp ps)
  unfolding parse_return
  parse_return-Below kp ps h =
      BelowState-bind (left ps) (left ps) (expect (codes "return") ps) _
        (expect-Below (codes "return") ps)
        λ ps1 l1. Below-if (left ps) (peek_statement_terminated ps1) _ _ l1 (
          Below-bind (left ps1) (left ps) (rec.pratt_parse kp ps1) _ (good.0 kp ps1 (omega arith))
            λ e ps2 l2. omega arith)

  keyword_routine-Routine :
      (kp : ℕ) (s : Text) (ps : ParseState) → left ps ≤ n → Routine (keyword_routine rec kp s) ps
  unfolding keyword_routine
  keyword_routine-Routine kp s ps h =
      let words = codes "while" ∷ codes "for" ∷ codes "struct" ∷ codes "union" ∷ [] in
      let definitions = codes "cbind" ∷ codes "static" ∷ codes "let" ∷ codes "type" ∷ [] in
      let returned : Option (ParseState → Parse Expr) =
        if text_eq s (codes "return") then some (λ ps. parse_return rec kp ps) else none in
      let function : Option (ParseState → Parse Expr) =
        if text_eq s (codes "fun") then some (λ ps. parse_fun rec kp ps) else returned in
      let defined : Option (ParseState → Parse Expr) =
        if one_of s definitions then some (λ ps. parse_definition rec kp s ps) else function in
      let blocks : Option (ParseState → Parse Expr) =
        if one_of s words then some (λ ps. parse_with_block rec kp s ps) else defined in
      Routine-if (text_eq s (codes "if")) (some (λ ps. parse_if rec kp ps)) blocks ps
        (parse_if-Below kp ps h)
        (Routine-if (one_of s words) (some (λ ps. parse_with_block rec kp s ps)) defined ps
          (parse_with_block-Below kp s ps h)
          (Routine-if (one_of s definitions) (some (λ ps. parse_definition rec kp s ps)) function ps
            (parse_definition-Below kp s ps h)
            (Routine-if (text_eq s (codes "fun")) (some (λ ps. parse_fun rec kp ps)) returned ps
              (parse_fun-Below kp ps h)
              (Routine-if (text_eq s (codes "return")) (some (λ ps. parse_return rec kp ps)) none ps
                (parse_return-Below kp ps h) tt))))

  pub try_parse_keyword_term-Routine :
      (s : Text) (ps : ParseState) → left ps ≤ n → Routine (try_parse_keyword_term rec s) ps
  unfolding try_parse_keyword_term parse_config text_eq
  try_parse_keyword_term-Routine s ps h = keyword_routine-Routine 3 s ps h
