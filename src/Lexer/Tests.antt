-- ===== src/Lexer/Tests.antt =====
-- compiler/src/lexer.rs: the theorems and the lexer on concrete texts.
use live_programming_prototy.Prelude.{◌≡◌, ◌≢◌, refl, [], panicked, out_of_fuel}
use live_programming_prototy.Common.{Text, StringCache, codes}
use live_programming_prototy.Lexer.Scan.{lex}
use live_programming_prototy.Lexer.Scan.Total.{lex-ne-out_of_fuel, lex-ne-panicked}

abbrev empty_cache : StringCache
empty_cache = record { symbols = [] }

abbrev assignment : Text
assignment = codes "x := 3.5 + \"ab\" // c"

-- A literal that ends with a backslash at the end of the text makes the lexer read past the end.
backslash_at_the_end : lex 1 (codes "x \"ab\\") empty_cache ≡ panicked
unfolding lex
backslash_at_the_end = refl

lex-ne-out_of_fuel_example : lex 1 assignment empty_cache ≢ out_of_fuel
lex-ne-out_of_fuel_example = lex-ne-out_of_fuel 1 assignment empty_cache

lex-ne-panicked_example : lex 1 assignment empty_cache ≢ panicked
lex-ne-panicked_example = lex-ne-panicked 1 assignment empty_cache refl
