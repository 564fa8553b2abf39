-- ===== src/Location/Tests.antt =====
-- compiler/src/error.rs: the theorem on concrete locations.
use live_programming_prototy.Prelude.{◌≡◌, refl, ok}
use live_programming_prototy.Location.{TextLocation, merge}
use live_programming_prototy.Location.Cover.{Covers, merge-Covers}

abbrev second_line : TextLocation
second_line = record {
  source = 1;
  start = record { line = 2; col = 4 };
  end = record { line = 2; col = 9 };
}

abbrev first_lines : TextLocation
first_lines = record {
  source = 1;
  start = record { line = 1; col = 7 };
  end = record { line = 2; col = 6 };
}

merge-Covers_example :
    (c : TextLocation) × (merge second_line first_lines ≡ ok c)
    × Covers c second_line
    × Covers c first_lines
    × ((d : TextLocation) → Covers d second_line → Covers d first_lines → Covers d c)
merge-Covers_example = merge-Covers second_line first_lines refl
