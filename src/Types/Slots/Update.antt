-- ===== src/Types/Slots/Update.antt =====
-- compiler/src/types/slots.rs: what `update_type` and `update_type_mut` promise.
use live_programming_prototy.Prelude.{
  ℕ, ◌≡◌, ◌≢◌, ◌↔◌, ◌⊎◌, inl, inr, Bool-cases, refl, sym, subst, true, List, Outcome, ok, err,
  panicked, out_of_fuel, ◌>>=◌, if◌then◌else◌, nat_eq, lookup-insert, contains, contains-insert_key,
  ◌==◌, arith,
}
use live_programming_prototy.Types.{Ty}
use live_programming_prototy.Types.Unify.{UnifyResult, incremental_unify}
use live_programming_prototy.Types.Unify.Order.{is_mono}
use live_programming_prototy.Types.Unify.Bounds.{Above}
use live_programming_prototy.Types.Unify.Correct.{
  incremental_unify-Above, incremental_unify-mutable,
}
use live_programming_prototy.Types.TypeGraph.{type_updated}
use live_programming_prototy.Types.Slots.{
  Inferring, Conflict, get_or_any, conflicts, unify_slot, update_type,
}

-- The slot afterwards, and the others.
get_or_any-unify_slot :
    (s : Inferring) (slot : ℕ) (t : Ty) (errors : List Conflict) (j : ℕ)
    → get_or_any (unify_slot s slot t errors) j
      ≡ (if slot == j then (incremental_unify t (get_or_any s slot)).0 else get_or_any s j)
unfolding unify_slot
get_or_any-unify_slot s slot t errors j =
    ground (arith, lookup-insert slot j (incremental_unify t (get_or_any s slot)).0 s.types)

pub type_after :
    (s : Inferring) (slot : ℕ) (t : Ty) (errors : List Conflict)
    → get_or_any (unify_slot s slot t errors) slot ≡ (incremental_unify t (get_or_any s slot)).0
type_after s slot t errors = ground (arith, get_or_any-unify_slot s slot t errors slot)

-- Where `update_type` returns, it has made its writes.
abbrev written : Inferring × UnifyResult → Outcome ⊥ (Inferring × UnifyResult)
written p = ok p

written_injective : (p q : Inferring × UnifyResult) → written p ≡ written q → p ≡ q
written_injective p q e = cc

pub returned-unify_slot :
    (s : Inferring) (slot : ℕ) (t : Ty) (p : Inferring × UnifyResult)
    → update_type s slot t ≡ ok p
    → (errors : List Conflict) × (p
        ≡ (unify_slot s slot t errors, (incremental_unify t (get_or_any s slot)).1))
unfolding update_type
returned-unify_slot s slot t p e =
    on_errors
      (conflicts s slot t (incremental_unify t (get_or_any s slot)).0
        (incremental_unify t (get_or_any s slot)).1.unify_success)
      e
  where
    on_errors :
        (o : Outcome ⊥ (List Conflict))
        → (o >>= (λ errors.
            ok (unify_slot s slot t errors, (incremental_unify t (get_or_any s slot)).1)))
          ≡ ok p
        → (errors : List Conflict) × (p
            ≡ (unify_slot s slot t errors, (incremental_unify t (get_or_any s slot)).1))
    on_errors (ok errors) q = (errors, sym (written_injective _ p q))
    on_errors (err x) q = absurd x
    on_errors panicked q = absurd (cc)
    on_errors out_of_fuel q = absurd (cc)

-- A type that can be unified with that of the slot makes no error.
pub update_type_success :
    (s : Inferring) (slot : ℕ) (t : Ty)
    → (incremental_unify t (get_or_any s slot)).1.unify_success ≡ true
    → update_type s slot t
      ≡ ok (unify_slot s slot t s.errors, (incremental_unify t (get_or_any s slot)).1)
unfolding update_type
update_type_success s slot t h = rw h refl

slot-dirty :
    (s : Inferring) (slot : ℕ) (t : Ty) (errors : List Conflict) (j : ℕ)
    → (contains (unify_slot s slot t errors).graph.dirty_slots j ≡ true) ↔ (
        (contains s.graph.dirty_slots j ≡ true)
        ⊎ (get_or_any (unify_slot s slot t errors) j ≢ get_or_any s j))
unfolding unify_slot type_updated
slot-dirty s slot t errors j =
    let changed = incremental_unify-mutable t (get_or_any s slot) in
    let after = get_or_any-unify_slot s slot t errors j in
    let added = contains-insert_key slot j s.graph.dirty_slots in
    (
      λ h. elim (Bool-cases (contains s.graph.dirty_slots j)) [
        | inl before ↦ inl before
        | inr clean ↦ inr (λ e. ground (arith, changed.1, after, added))
      ],
      λ h. ground (arith, changed.0, after, added),
    )

-- No change goes unnoticed: where `update_type` returns, a slot is dirty exactly if it was dirty before or
-- its type has changed, whether or not the types could be unified.
pub update_type-dirty :
    (s : Inferring) (slot : ℕ) (t : Ty) (p : Inferring × UnifyResult) (j : ℕ)
    → update_type s slot t ≡ ok p
    → (contains p.0.graph.dirty_slots j ≡ true)
      ↔ ((contains s.graph.dirty_slots j ≡ true) ⊎ (get_or_any p.0 j ≢ get_or_any s j))
update_type-dirty s slot t p j e =
    let (errors, q) = returned-unify_slot s slot t p e in
    subst
      (λ (x : Inferring × UnifyResult).
        (contains x.0.graph.dirty_slots j ≡ true)
        ↔ ((contains s.graph.dirty_slots j ≡ true) ⊎ (get_or_any x.0 j ≢ get_or_any s j)))
      (sym q) (slot-dirty s slot t errors j)

-- When a type can be unified with that of the slot and neither has polytypes, `update_type` returns, and the slot
-- says afterwards all that it said before and all that the type says.
pub update_type-Above :
    (s : Inferring) (slot : ℕ) (t : Ty)
    → is_mono t ≡ true
    → is_mono (get_or_any s slot) ≡ true
    → (incremental_unify t (get_or_any s slot)).1.unify_success ≡ true
    → (s' : Inferring) × (update_type s slot t
        ≡ ok (s', (incremental_unify t (get_or_any s slot)).1))
      × Above t (get_or_any s slot) (get_or_any s' slot)
update_type-Above s slot t mt ms h = (
  unify_slot s slot t s.errors,
  update_type_success s slot t h,
  subst (Above t (get_or_any s slot)) (sym (type_after s slot t s.errors))
      (incremental_unify-Above t (get_or_any s slot) mt ms h),
)
