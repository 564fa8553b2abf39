-- ===== src/Location.antt =====
-- compiler/src/error.rs: places in a text.
pub mod Cover
mod Tests
use live_programming_prototy.Prelude.{
  ℕ, Bool, true, false, ◌&&◌, ◌||◌, not, if◌then◌else◌, ltb, ◌==◌, Outcome, ok, panicked,
}
use live_programming_prototy.Common.{null_uid}

-- `TextMarker`
pub record TextMarker : Type 0 where
  pub line : ℕ
  pub col : ℕ

-- The derived `<` of `TextMarker`: by line, then by column.
unfoldable pub before : TextMarker → TextMarker → Bool
before a b = ltb a.line b.line || a.line == b.line && ltb a.col b.col

-- `TextMarker::order`
unfoldable pub order : TextMarker → TextMarker → TextMarker × TextMarker
unfolding before
order a b = if before b a then (b, a) else (a, b)

-- `TextLocation`
pub record TextLocation : Type 0 where
  pub source : ℕ
  pub start : TextMarker
  pub end : TextMarker

-- `TextLocation::new`
abbrev pub new_location : ℕ → TextMarker → TextMarker → TextLocation
new_location source start end = record { source = source; start = start; end = end }

-- `TextLocation::zero`
abbrev pub zero_location : TextLocation
zero_location =
    let z : TextMarker = record { line = 0; col = 0 } in
    record { source = null_uid; start = z; end = z }

-- `TextLocation::merge`
unfoldable pub merge : TextLocation → TextLocation → Outcome ⊥ TextLocation
unfolding order
merge a b =
    if not (a.source == b.source)
    then panicked
    else ok (record {
      source = a.source;
      start = (order a.start b.start).0;
      end = (order a.end b.end).1;
    })
