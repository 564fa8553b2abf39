-- ===== src/Types/Solver/Equivalence.antt =====
-- compiler/src/types/solver.rs: what `force_equivalence` does to two slots.
use live_programming_prototy.Prelude.{
  ℕ, ◌≡◌, ◌≢◌, refl, sym, ap, ◌∙◌, subst, true, Option, some, List, nat_eq, lookup-insert, ok,
  ◌>>=◌, arith,
}
use live_programming_prototy.Types.{Ty}
use live_programming_prototy.Types.Unify.{incremental_unify}
use live_programming_prototy.Types.Unify.Order.{is_mono}
use live_programming_prototy.Types.Slots.{Inferring, Conflict, get, or_any, get_or_any, unify_slot}
use live_programming_prototy.Types.Slots.Update.{update_type_success}
use live_programming_prototy.Types.Slots.Mutate.{back_success, back_new, get-unify_slot}
use live_programming_prototy.Types.Solver.{Solving, update, type_of, spread, force_equivalence}

-- The writes of `update` at one slot leave the others.
get-unify_slot_other :
    (s : Inferring) (slot j : ℕ) (t : Ty) (errors : List Conflict)
    → slot ≢ j
    → get (unify_slot s slot t errors) j ≡ get s j
unfolding unify_slot
get-unify_slot_other s slot j t errors ne =
    ground (arith, lookup-insert slot j (incremental_unify t (get_or_any s slot)).0 s.types)

abbrev wrote : ℕ → Ty → Solving → Solving
wrote slot t s = record s { slots = unify_slot s.slots slot t s.slots.errors }

update_success :
    (slot : ℕ) (t : Ty) (s : Solving)
    → (incremental_unify t (get_or_any s.slots slot)).1.unify_success ≡ true
    → update slot t s ≡ ok (wrote slot t s)
unfolding update
update_success slot t s h = rw (update_type_success s.slots slot t h) refl

spread_success :
    (o : Option Ty) (slot : ℕ) (t : Ty) (s : Solving)
    → o ≡ some t
    → (incremental_unify t (get_or_any s.slots slot)).1.unify_success ≡ true
    → spread o slot s ≡ ok (wrote slot t s)
spread_success o slot t s e h = ap (λ x. spread x slot s) e ∙ update_success slot t s h

wrote_errors : (slot : ℕ) (t : Ty) (s : Solving) → (wrote slot t s).slots.errors ≡ s.slots.errors
unfolding unify_slot
wrote_errors slot t s = refl

-- Where slot `a` has a type that can be unified with that of another slot `b`, and neither has polytypes,
-- `force_equivalence` returns, and both slots then have the type that unification leaves, without an error.
pub force_equivalence-settles :
    (a b : ℕ) (s : Solving) (t : Ty)
    → a ≢ b
    → type_of s a ≡ some t
    → is_mono t ≡ true
    → is_mono (get_or_any s.slots b) ≡ true
    → (incremental_unify t (get_or_any s.slots b)).1.unify_success ≡ true
    → (s' : Solving) × (force_equivalence a b s ≡ ok s')
      × (type_of s' a ≡ some (incremental_unify t (get_or_any s.slots b)).0)
      × (type_of s' b ≡ some (incremental_unify t (get_or_any s.slots b)).0)
      × (s'.slots.errors ≡ s.slots.errors)
      × (s'.failures ≡ s.failures)
unfolding force_equivalence
force_equivalence-settles a b s t ne e mt mu h =
    let new = (incremental_unify t (get_or_any s.slots b)).0 in
    let one = wrote b t s in
    let two = wrote a new one in
    let at_b = get-unify_slot s.slots b t s.slots.errors in
    let at_a : get one.slots a ≡ some t =
      get-unify_slot_other s.slots b a t s.slots.errors (λ q. ne (sym q)) ∙ e in
    let there : get_or_any one.slots a ≡ t = ap or_any at_a in
    let back = back_success t (get_or_any s.slots b) h in
    let back_again =
      subst (λ x. (incremental_unify new x).1.unify_success ≡ true) (sym there) back in
    let first = spread_success (type_of s a) b t s e h in
    let second = spread_success (type_of one b) a new one at_b back_again in
    (
      two,
      ap (λ o. o >>= (λ x. spread (type_of x b) a x)) first ∙ second,
      get-unify_slot one.slots a new one.slots.errors
          ∙ ap (λ x. some (incremental_unify new x).0) there
          ∙ ap (λ x. some x) (back_new t (get_or_any s.slots b) mt mu h),
      get-unify_slot_other one.slots a b new one.slots.errors ne ∙ at_b,
      wrote_errors a new one ∙ wrote_errors b t s,
      refl,
    )
