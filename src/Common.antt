-- ===== src/Common.antt =====
-- compiler/src/common.rs: unique ids and the cache of strings. A text is the list of its characters'
-- code points.
use Prim.Native.Char.{code}
use Prim.Native.String.{String}
use live_programming_prototy.Prelude.{
  ℕ, zero, suc, ◌+◌, ◌%◌, ◌^◌, ◌≡◌, ◌↔◌, refl, Bool, true, false, ◌&&◌, List, [], ◌∷◌,
  if◌then◌else◌, ◌==◌, Eq, contains, insert_key, arith,
}
pub mod Unique
mod Tests

abbrev pub Text : Type 0
Text = List ℕ

-- The code points of a text.
abbrev pub codes : String → Text
codes String.[] = []
codes (String.◌∷◌ c s) = code c ∷ codes s

unfoldable pub text_eq : Text → Text → Bool
text_eq [] [] = true
text_eq (a ∷ s) (b ∷ t) = a == b && text_eq s t
text_eq _ _ = false

pub text_eq_iff : (s t : Text) → (text_eq s t ≡ true) ↔ (s ≡ t)
unfolding text_eq
text_eq_iff (a ∷ s) (b ∷ t) = ground (arith, text_eq_iff s t)
text_eq_iff _ _ = ground arith

instance abbrev pub text_instance : Eq Text
text_instance = record { same = text_eq; same_iff = text_eq_iff }

-- `UIDGenerator`, with its 64-bit counter.
pub record UidGenerator : Type 0 where
  pub gen : ℕ

-- `UIDGenerator::new`
abbrev pub new_generator : UidGenerator
new_generator = record { gen = 1 }

-- `Uid::null`
abbrev pub null_uid : ℕ
null_uid = 0

-- `UIDGenerator::next`, in a build where the sum wraps.
unfoldable pub next : UidGenerator → ℕ × UidGenerator
next g = (g.gen, record { gen = (g.gen + 1) % 2 ^ 64 })

-- The ids that `n` calls hand out, and the generator afterwards.
unfoldable pub next_ids : ℕ → UidGenerator → List ℕ × UidGenerator
unfolding next
next_ids zero g = ([], g)
next_ids (suc n) g = let (uid, g') = next g in let (uids, g'') = next_ids n g' in (uid ∷ uids, g'')

-- `StringCache`
pub record StringCache : Type 0 where
  pub symbols : List Text

-- `StringCache::get`: the cached text, and the cache afterwards.
unfoldable pub cache_get : StringCache → Text → Text × StringCache
cache_get c s = (s, record { symbols = insert_key s c.symbols })
