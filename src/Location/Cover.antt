-- ===== src/Location/Cover.antt =====
-- compiler/src/error.rs: what `merge` covers.
use live_programming_prototy.Prelude.{◌≡◌, false, ok, arith}
use live_programming_prototy.Location.{TextLocation, before, order, merge}

-- A location covers another one of its source that neither starts before it nor ends behind it.
abbrev pub Covers : TextLocation → TextLocation → Type 0
Covers c a = (c.source ≡ a.source) × (before a.start c.start ≡ false) × (before c.end a.end ≡ false)

-- `merge` of two locations of the same source gives the smallest location that covers both.
pub merge-Covers :
    (a b : TextLocation)
    → a.source ≡ b.source
    → (c : TextLocation) × (merge a b ≡ ok c)
      × Covers c a
      × Covers c b
      × ((d : TextLocation) → Covers d a → Covers d b → Covers d c)
unfolding merge order before
merge-Covers a b same =
    let c : TextLocation = record {
      source = a.source;
      start = (order a.start b.start).0;
      end = (order a.end b.end).1;
    } in
    (c, ground arith, ground arith, ground arith, λ d da db. ground arith)
