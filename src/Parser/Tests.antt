-- ===== src/Parser/Tests.antt =====
-- compiler/src/parser.rs: the parser on concrete texts.
use live_programming_prototy.Prelude.{
  ℕ, ◌+◌, ◌≡◌, refl, true, List, [], ◌∷◌, ◌++◌, Outcome, ok, err, panicked, out_of_fuel, String,
}
use live_programming_prototy.Common.{Text, codes, text_eq}
use live_programming_prototy.Lexer.Scan.{lex}
use live_programming_prototy.Expr.{
  Expr, Exprs, expr, list, symbol, literal_string, literal_float, literal_int, literal_bool,
  literal_unit, nil, cons,
}
use live_programming_prototy.Parser.{ParseError}
use live_programming_prototy.Parser.Pratt.{parse}
use live_programming_prototy.Parser.Progress.Total.{Answers, parse-Answers}
use live_programming_prototy.Lexer.{Token, TokenType}

-- An expression without its locations, in brackets.
abbrev mutual
  show : Expr → Text
  show (expr l (list s es)) = codes "(" ++ s ++ show_all es
  show (expr l (symbol s)) = s
  show (expr l (literal_string s)) = s
  show (expr l (literal_float s)) = s
  show (expr l (literal_int i)) = codes "int"
  show (expr l (literal_bool b)) = codes "bool"
  show (expr l literal_unit) = codes "unit"

  show_all : Exprs → Text
  show_all nil = codes ")"
  show_all (cons e es) = codes " " ++ show e ++ show_all es

abbrev parse_text : String → Outcome (List ParseError) Text
unfolding lex parse
parse_text s = elim (lex 1 (codes s) (record { symbols = [] })) [
  | ok ts ↦ elim (parse (λ t. true) 1 ts) [
    | ok e ↦ ok (show e)
    | err e ↦ err (e ∷ [])
    | panicked ↦ panicked
    | out_of_fuel ↦ out_of_fuel
  ]
  | err es ↦ err []
  | panicked ↦ panicked
  | out_of_fuel ↦ out_of_fuel
]

-- `*` binds more tightly than `+`.
precedence_of_times : parse_text "a + b * c" ≡ ok (codes "(block (call + a (call * b c)))")
unfolding parse_text text_eq
precedence_of_times = refl

-- A function, with a condition in its body.
function_definition :
    parse_text "fun f(x) => i64 { if x then y else z }"
    ≡ ok (codes "(block (fun f (args x) i64 (block (if x (block y) (block z)))))")
unfolding parse_text text_eq
function_definition = refl

-- The tokens of `x )`.
abbrev symbol_token : Text → ℕ → Token
symbol_token s col = record {
  string = s;
  token_type = TokenType.symbol;
  loc = record {
    source = 1;
    start = record { line = 1; col = col };
    end = record { line = 1; col = col + 1 };
  };
}

abbrev unopened : List Token
unopened = symbol_token (codes "x") 0 ∷ symbol_token (codes ")") 2 ∷ []

parse-Answers_example : Answers (parse (λ t. true) 1 unopened)
parse-Answers_example = parse-Answers (λ t. true) 1 unopened
