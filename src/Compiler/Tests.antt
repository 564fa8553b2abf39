-- ===== src/Compiler/Tests.antt =====
-- compiler/src/compiler.rs on the imports of a few units.
use live_programming_prototy.Prelude.{◌≡◌, refl, [], ◌∷◌, ok}
use live_programming_prototy.Store.{importers_of}
use live_programming_prototy.Store.Tests.{two_units}
use live_programming_prototy.Compiler.{add_importers, dependents, find_all_dependents}
use live_programming_prototy.Compiler.Importers.{Exactly, find_all_dependents-Exactly}

all_of_the_first : find_all_dependents two_units 1 ≡ ok (3 ∷ 2 ∷ 1 ∷ [])
unfolding find_all_dependents dependents add_importers importers_of
all_of_the_first = refl

find_all_dependents-Exactly_example : Exactly two_units.imports 1 (find_all_dependents two_units 1)
find_all_dependents-Exactly_example = find_all_dependents-Exactly two_units 1
