-- ===== src/Types/Instances/Resolved.antt =====
-- compiler/src/types/types.rs: the symbols that a lookup by name and type resolves to.
use live_programming_prototy.Prelude.{
  ℕ, suc, ◌<◌, ◌≡◌, refl, sym, ap, ◌∙◌, Bool, true, false, List, [], ◌∷◌, Option, none, some,
  if◌then◌else◌, All, All-append, Outcome, ok, err, panicked, out_of_fuel, ◌>>=◌,
}
use live_programming_prototy.Common.{Text, text_eq}
use live_programming_prototy.Types.{Ty}
use live_programming_prototy.Types.Kinds.{is_concrete}
use live_programming_prototy.Types.Unify.{unify_types}
use live_programming_prototy.Types.Polytypes.{Bindings, polytype_match, weight}
use live_programming_prototy.Types.Polytypes.Round.{is_monomorphic, unify_types_mono}
use live_programming_prototy.Types.Polytypes.Match.{polytype_match-Fills}
use live_programming_prototy.Types.Polytypes.Settles.{
  Settles, unify_types-Settles, polytype_match-Settles,
}
use live_programming_prototy.Types.Instances.{
  SymbolId, SymbolDefinition, TypeInfo, is_polymorphic, ResolvedSymbol, fill_matched, resolve,
  add_resolved, find_symbols, find_symbol,
}

-- A symbol's type has no abstract part, and no type variable where the symbol has none.
abbrev pub IsTagged : SymbolDefinition → Type 0
IsTagged d =
    (is_concrete d.type_tag ≡ true)
    × (is_polymorphic d.type_vars ≡ false → is_monomorphic d.type_tag ≡ true)

abbrev pub HasType : Ty → ResolvedSymbol → Type 0
HasType t r = r.resolved_type ≡ t

-- The lookup comes to an end, with symbols of the type.
abbrev pub AllResolved : Ty → Outcome ⊥ (List ResolvedSymbol) → Type 0
AllResolved t (ok rs) = All (HasType t) rs
AllResolved t (err e) = Unit
AllResolved t panicked = ⊥
AllResolved t out_of_fuel = ⊥

resolved-inj : (t u : Ty) → (o : Outcome ⊥ (Option Ty)) → o ≡ ok (some t) → o ≡ ok (some u) → t ≡ u
resolved-inj t u o e r = cc

module _ (fuel : ℕ) (t : Ty) (h : is_monomorphic t ≡ true) (f : weight t < suc fuel) where
  fill_matched-type :
      (tag u : Ty) (o : Outcome ⊥ (Bool × Bindings))
      → is_concrete tag ≡ true
      → polytype_match [] t tag ≡ o
      → (o >>= fill_matched fuel tag) ≡ ok (some u)
      → u ≡ t
  unfolding fill_matched
  fill_matched-type tag u (ok (true, m)) g q r =
      resolved-inj u t _ r (rw (polytype_match-Fills t tag m h g q fuel f) refl)
  fill_matched-type tag u (ok (false, m)) g q r = absurd (cc)
  fill_matched-type tag u (err x) g q r = absurd x
  fill_matched-type tag u panicked g q r = absurd (cc)
  fill_matched-type tag u out_of_fuel g q r = absurd (cc)

  resolve-type :
      (d : SymbolDefinition) (u : Ty) → IsTagged d → resolve fuel t d ≡ ok (some u) → u ≡ t
  unfolding resolve
  resolve-type d u g e = on_kind (is_polymorphic d.type_vars) refl e
    where
      on_kind :
          (b : Bool)
          → is_polymorphic d.type_vars ≡ b
          → (if b
              then polytype_match [] t d.type_tag >>= fill_matched fuel d.type_tag
              else unify_types t d.type_tag)
            ≡ ok (some u)
          → u ≡ t
      on_kind true q r = fill_matched-type d.type_tag u (polytype_match [] t d.type_tag) g.0 refl r
      on_kind false q r =
          let both = unify_types_mono t d.type_tag u h (g.1 q) r in both.1 ∙ sym both.0

  fill_matched-Settles :
      (tag : Ty) (r : Bool × Bindings)
      → is_concrete tag ≡ true
      → polytype_match [] t tag ≡ ok r
      → Settles (fill_matched fuel tag r)
  unfolding fill_matched
  fill_matched-Settles tag (true, m) g q = rw (polytype_match-Fills t tag m h g q fuel f) tt
  fill_matched-Settles tag (false, m) g q = tt

  matched-Settles :
      (tag : Ty) (o : Outcome ⊥ (Bool × Bindings))
      → is_concrete tag ≡ true
      → polytype_match [] t tag ≡ o
      → Settles o
      → Settles (o >>= fill_matched fuel tag)
  matched-Settles tag (ok r) g q k = fill_matched-Settles tag r g q
  matched-Settles tag (err e) g q k = tt
  matched-Settles tag panicked g q k = k
  matched-Settles tag out_of_fuel g q k = k

  resolve-Settles : (d : SymbolDefinition) → IsTagged d → Settles (resolve fuel t d)
  unfolding resolve
  resolve-Settles d g = on_kind (is_polymorphic d.type_vars)
    where
      on_kind :
          (b : Bool)
          → Settles (
              if b
              then polytype_match [] t d.type_tag >>= fill_matched fuel d.type_tag
              else unify_types t d.type_tag)
      on_kind true =
          matched-Settles d.type_tag (polytype_match [] t d.type_tag) g.0 refl
            (polytype_match-Settles [] t d.type_tag h)
      on_kind false = unify_types-Settles t d.type_tag

  add_resolved-HasType :
      (id : SymbolId) (o : Option Ty) (rs : List ResolvedSymbol)
      → ((u : Ty) → o ≡ some u → u ≡ t)
      → All (HasType t) rs
      → All (HasType t) (add_resolved id o rs)
  add_resolved-HasType id none rs g k = k
  add_resolved-HasType id (some u) rs g k = All-append (HasType t) rs _ k (g u refl, tt)

  next-AllResolved :
      (d : SymbolDefinition) (rs : List ResolvedSymbol)
      (rest : List ResolvedSymbol → Outcome ⊥ (List ResolvedSymbol))
      → IsTagged d
      → All (HasType t) rs
      → ((rs' : List ResolvedSymbol) → All (HasType t) rs' → AllResolved t (rest rs'))
      → (o : Outcome ⊥ (Option Ty)) → resolve fuel t d ≡ o
      → Settles o
      → AllResolved t (o >>= (λ r. rest (add_resolved d.id r rs)))
  next-AllResolved d rs rest g k q (ok r) e s =
      q (add_resolved d.id r rs)
        (add_resolved-HasType d.id r rs (λ u x. resolve-type d u g (e ∙ ap ok x)) k)
  next-AllResolved d rs rest g k q (err x) e s = tt
  next-AllResolved d rs rest g k q panicked e s = s
  next-AllResolved d rs rest g k q out_of_fuel e s = s

  named-AllResolved :
      (b : Bool) (o p : Outcome ⊥ (List ResolvedSymbol))
      → AllResolved t o
      → AllResolved t p
      → AllResolved t (elim b as (λ x. Outcome ⊥ (List ResolvedSymbol)) [ false ↦ o | true ↦ p ])
  named-AllResolved true o p h k = k
  named-AllResolved false o p h k = h

  find_symbols-AllResolved :
      (name : Text) (symbols : List (SymbolId × SymbolDefinition)) (rs : List ResolvedSymbol)
      → All (λ d. IsTagged d.1) symbols
      → All (HasType t) rs
      → AllResolved t (find_symbols fuel name t symbols rs)
  unfolding find_symbols
  find_symbols-AllResolved name [] rs g k = k
  find_symbols-AllResolved name ((id, d) ∷ symbols) rs g k =
      named-AllResolved (text_eq d.name name) (find_symbols fuel name t symbols rs) _
        (find_symbols-AllResolved name symbols rs g.1 k)
        (next-AllResolved d rs (find_symbols fuel name t symbols) g.0 k
          (λ rs' k'. find_symbols-AllResolved name symbols rs' g.1 k') (resolve fuel t d) refl
          (resolve-Settles d g.0))

-- Looked up at a type without abstract parts and without type variables, among symbols whose
-- types have no abstract parts and, where the symbol has no type variables, no type variables either,
-- `find_symbol` neither panics nor, from fuel of the type's nodes on, runs out of fuel, and every
-- symbol that it adds resolves to the very type that was asked for.
pub find_symbol-AllResolved :
    (fuel : ℕ) (info : TypeInfo) (name : Text) (t : Ty)
    → is_monomorphic t ≡ true
    → weight t < suc fuel
    → All (λ d. IsTagged d.1) info.symbols
    → AllResolved t (find_symbol fuel info name t [])
unfolding find_symbol
find_symbol-AllResolved fuel info name t h f g =
    find_symbols-AllResolved fuel t h f name info.symbols [] g tt
