-- ===== src/Prelude/Maps.antt =====
-- Hash maps and hash sets as association lists and lists, over keys with a Boolean equality.
use mathlib.Core.Path.{◌≡◌, refl}
use mathlib.Core.Logic.{◌↔◌}
use mathlib.Core.Bool.{Bool, true, false, ◌||◌}
use mathlib.Core.List.{List, [], ◌∷◌, ◌++◌}
use mathlib.Core.Option.{Option, none, some}
use native.Mathlib.Omega.{arith}
use Prim.Native.Nat.{ℕ}
use Prim.Native.String.{String}
use text.Mathlib.Text.{◌==◌ as str_eq}
use text.Mathlib.TextEquality.{eq_iff}
use live_programming_prototy.Prelude.Tests.{◌==◌, ==_iff, if◌then◌else◌}

pub record Eq {ℓ} (A : Type ℓ) : Type ℓ where
  pub same : A → A → Bool
  pub same_iff : (a b : A) → (same a b ≡ true) ↔ (a ≡ b)

instance abbrev pub nat_eq : Eq ℕ
nat_eq = record { same = ◌==◌; same_iff = ==_iff }

instance abbrev pub string_eq : Eq String
string_eq = record { same = str_eq; same_iff = eq_iff }

module _ {ℓ} {K : Type ℓ} ⦃e : Eq K⦄ where
  -- `HashSet::contains`
  abbrev pub contains : List K → K → Bool
  contains [] k = false
  contains (x ∷ xs) k = e.same x k || contains xs k

  -- `HashSet::insert`
  abbrev pub insert_key : K → List K → List K
  insert_key k xs = if contains xs k then xs else k ∷ xs

  module _ {κ} {V : Type κ} where
    -- `HashMap::get`
    abbrev pub lookup : K → List (K × V) → Option V
    lookup k [] = none
    lookup k ((j, v) ∷ m) = if e.same j k then some v else lookup k m

    -- `HashMap::insert`
    abbrev pub insert : K → V → List (K × V) → List (K × V)
    insert k v [] = (k, v) ∷ []
    insert k v ((j, w) ∷ m) = if e.same j k then (k, v) ∷ m else (j, w) ∷ insert k v m

    -- `HashMap::remove`
    abbrev pub remove : K → List (K × V) → List (K × V)
    remove k [] = []
    remove k ((j, v) ∷ m) = if e.same j k then remove k m else (j, v) ∷ remove k m

module _ {ℓ} {K : Type ℓ} ⦃e : Eq K⦄ where
  pub contains-insert_key :
      (k j : K) (xs : List K) → contains (insert_key k xs) j ≡ (e.same k j || contains xs j)
  contains-insert_key k j xs = ground (arith, e.same_iff k j)

  pub contains-append :
      (k : K) (xs ys : List K) → contains (xs ++ ys) k ≡ (contains xs k || contains ys k)
  contains-append k [] ys = refl
  contains-append k (x ∷ xs) ys = ground (arith, contains-append k xs ys)

  module _ {κ} {V : Type κ} where
    pub lookup-insert :
        (k j : K) (v : V) (m : List (K × V))
        → lookup j (insert k v m) ≡ (if e.same k j then some v else lookup j m)
    lookup-insert k j v [] = refl
    lookup-insert k j v ((i, w) ∷ m) =
        ground (arith, e.same_iff k j, e.same_iff i k, e.same_iff i j, lookup-insert k j v m)

    pub lookup-remove :
        (k j : K) (m : List (K × V))
        → lookup j (remove k m) ≡ (if e.same k j then none else lookup j m)
    lookup-remove k j [] = ground arith
    lookup-remove k j ((i, w) ∷ m) =
        ground (arith, e.same_iff k j, e.same_iff i k, e.same_iff i j, lookup-remove k j m)
