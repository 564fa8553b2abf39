-- ===== src/Store/Names.antt =====
-- compiler/src/code_store.rs: the names of units, and what is left of a unit that was removed.
use live_programming_prototy.Prelude.{
  ℕ, ◌==◌, ==_iff, ◌≡◌, refl, List, [], ◌∷◌, Option, none, some, if◌then◌else◌, nat_eq, lookup,
  insert, remove, lookup-insert, lookup-remove, Outcome, ok, err, panicked, out_of_fuel, arith,
}
use live_programming_prototy.Common.{Text, text_eq_iff}
use live_programming_prototy.Types.Instances.{SymbolId}
use live_programming_prototy.Store.{
  CodeStore, named_in, named_unit, name_or, create_unit, remove_codegen, remove_parent, remove_unit,
}

-- No two units have one name.
abbrev pub IsDistinct : List (ℕ × Text) → Type 0
IsDistinct names = (a b : ℕ) (n : Text) → lookup a names ≡ some n → lookup b names ≡ some n → a ≡ b

named_in-none :
    (name : Text) (names : List (ℕ × Text)) (a : ℕ)
    → named_in name names ≡ none
    → lookup a names ≡ some name
    → ⊥
unfolding named_in
named_in-none name [] a h k = cc
named_in-none name ((i, n) ∷ names) a h k =
    ground (arith, text_eq_iff n name, named_in-none name names a)

named_in-insert :
    (name : Text) (uid : ℕ) (names : List (ℕ × Text))
    → named_in name names ≡ none
    → named_in name (insert uid name names) ≡ some uid
unfolding named_in
named_in-insert name uid [] h = ground (arith, text_eq_iff name name)
named_in-insert name uid ((i, n) ∷ names) h =
    ground (arith, text_eq_iff name name, named_in-insert name uid names)

pub insert-IsDistinct :
    (name : Text) (uid : ℕ) (names : List (ℕ × Text))
    → named_in name names ≡ none
    → IsDistinct names
    → IsDistinct (insert uid name names)
insert-IsDistinct name uid names h d a b n p q = ground (
  arith,
  lookup-insert uid a name names,
  lookup-insert uid b name names,
  ==_iff uid a,
  ==_iff uid b,
  d a b n,
  named_in-none name names a,
  named_in-none name names b,
)

-- Nothing is found of the one unit in the map, and the same as before of all others.
abbrev pub Without {κ} : {V : Type κ} → ℕ → List (ℕ × V) → List (ℕ × V) → Type κ
Without uid before after = (v : ℕ) → lookup v after ≡ (if uid == v then none else lookup v before)

remove-Without {κ} : {V : Type κ} (uid : ℕ) (m : List (ℕ × V)) → Without uid m (remove uid m)
remove-Without uid m v = lookup-remove uid v m

absent-Without {κ} :
    {V : Type κ} (uid : ℕ) (m : List (ℕ × V)) → lookup uid m ≡ none → Without uid m m
absent-Without uid m h v = ground (arith, ==_iff uid v)

module _ {L : Type 0} where
  -- A panic means that the name was taken. Otherwise the name leads to the unit, and names stay distinct.
  abbrev pub Created : CodeStore L → ℕ → Text → Outcome ⊥ (ℕ × CodeStore L) → Type 0
  Created s uid name (ok (id, t)) = (id ≡ uid) × (named_unit t name ≡ some uid) × IsDistinct t.names
  Created s uid name (err e) = Unit
  Created s uid name panicked = (other : ℕ) × (named_unit s name ≡ some other)
  Created s uid name out_of_fuel = ⊥

  -- Where no two units have one name, `create_unit` panics only if another unit has the name that it gives;
  -- otherwise it returns the new unit, whose name then leads to it, and still no two units have one name.
  pub create_unit-Created :
      (format : ℕ → Text) (uid : ℕ) (name : Option Text) (s : CodeStore L)
      → IsDistinct s.names
      → Created s uid (name_or format uid name) (create_unit format uid name s)
  unfolding create_unit named_unit
  create_unit-Created format uid name s d = on_named (named_unit s (name_or format uid name)) refl
    where
      given : Text
      given = name_or format uid name

      on_named :
          (o : Option ℕ)
          → named_in given s.names ≡ o
          → Created s uid given (elim o as (λ x. Outcome ⊥ (ℕ × CodeStore L)) [
            | some other ↦ panicked
            | none ↦ ok (uid, record s { names = insert uid given s.names })
          ])
      on_named none e =
          (refl, named_in-insert given uid s.names e, insert-IsDistinct given uid s.names e d)
      on_named (some other) e = (other, e)

  abbrev pub Removed : ℕ → CodeStore L → CodeStore L → Type 0
  Removed uid s t =
      Without uid s.names t.names
      × Without uid s.exprs t.exprs
      × Without uid s.nodes t.nodes
      × Without uid s.types t.types
      × Without uid s.type_mappings t.type_mappings
      × Without uid s.codegen_mapping t.codegen_mapping
      × Without uid s.vals t.vals
      × Without uid s.poly_parents t.poly_parents

  abbrev known : ℕ → CodeStore L → CodeStore L
  known uid s = record s {
    names = remove uid s.names;
    exprs = remove uid s.exprs;
    nodes = remove uid s.nodes;
    types = remove uid s.types;
    type_mappings = remove uid s.type_mappings;
  }

  abbrev last_steps : ℕ → CodeStore L → CodeStore L
  last_steps uid c =
      remove_parent uid (lookup uid c.poly_parents) (record c { vals = remove uid c.vals })

  -- Taking the parent away leaves the other maps alone.
  remove_parent-Removed :
      (uid : ℕ) (s t : CodeStore L) (o : Option SymbolId)
      → Removed uid s (record t { poly_parents = remove uid s.poly_parents })
      → t.poly_parents ≡ s.poly_parents
      → lookup uid s.poly_parents ≡ o
      → Removed uid s (remove_parent uid o t)
  remove_parent-Removed uid s t none r q e =
      (r.0, r.1, r.2, r.3, r.4, r.5, r.6, rw q (absent-Without uid s.poly_parents e))
  remove_parent-Removed uid s t (some sid) r q e =
      (r.0, r.1, r.2, r.3, r.4, r.5, r.6, rw q (remove-Without uid s.poly_parents))

  codegen-Removed :
      (uid : ℕ) (s : CodeStore L) (o : Option ℕ)
      → lookup uid s.codegen_mapping ≡ o
      → Removed uid s (last_steps uid (remove_codegen uid o (known uid s)))
  codegen-Removed uid s none e =
      remove_parent-Removed uid s (record (known uid s) { vals = remove uid s.vals })
        (lookup uid s.poly_parents)
        (
          remove-Without uid s.names,
          remove-Without uid s.exprs,
          remove-Without uid s.nodes,
          remove-Without uid s.types,
          remove-Without uid s.type_mappings,
          absent-Without uid s.codegen_mapping e,
          remove-Without uid s.vals,
          remove-Without uid s.poly_parents,
        )
        refl refl
  codegen-Removed uid s (some codegen_id) e =
      remove_parent-Removed uid s
        (record (known uid s) {
          codegen_mapping = remove uid s.codegen_mapping;
          llvm_units = remove codegen_id s.llvm_units;
          vals = remove uid s.vals;
        })
        (lookup uid s.poly_parents)
        (
          remove-Without uid s.names,
          remove-Without uid s.exprs,
          remove-Without uid s.nodes,
          remove-Without uid s.types,
          remove-Without uid s.type_mappings,
          remove-Without uid s.codegen_mapping,
          remove-Without uid s.vals,
          remove-Without uid s.poly_parents,
        )
        refl refl

  -- Behind `remove_unit`, the names, expressions, nodes, types, type mappings, codegen mappings, values and
  -- polymorphic parents hold nothing of the unit, and of every other unit what they held.
  pub remove_unit-Removed : (uid : ℕ) (s : CodeStore L) → Removed uid s (remove_unit uid s)
  unfolding remove_unit
  remove_unit-Removed uid s = codegen-Removed uid s (lookup uid s.codegen_mapping) refl
