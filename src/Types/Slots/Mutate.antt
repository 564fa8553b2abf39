-- ===== src/Types/Slots/Mutate.antt =====
-- compiler/src/types/slots.rs: what `update_type_mut` promises.
use live_programming_prototy.Prelude.{
  ℕ, ◌≡◌, ◌↔◌, refl, sym, ap, ◌∙◌, subst, Bool, true, false, ◌&&◌, List, some, if◌then◌else◌,
  nat_eq, lookup-insert, ok, arith,
}
use live_programming_prototy.Types.{Ty}
use live_programming_prototy.Types.Unify.{
  UnifyResult, no_result, incremental_unify, incremental_unify_internal,
}
use live_programming_prototy.Types.Unify.Order.{is_mono}
use live_programming_prototy.Types.Unify.Back.{
  incremental_unify_internal_back, incremental_unify_internal-absorbs,
  is_mono-incremental_unify_internal,
}
use live_programming_prototy.Types.Unify.Correct.{
  success_iff, new_lem, incremental_unify-Above, incremental_unify-immutable,
}
use live_programming_prototy.Types.Slots.{
  Inferring, Conflict, get, get_or_any, unify_slot, update_type, unify_back, back_into, mutate,
  update_type_mut,
}
use live_programming_prototy.Types.Slots.Update.{
  type_after, returned-unify_slot, update_type_success,
}

-- The slot has a type behind the writes of `update_type`.
pub get-unify_slot :
    (s : Inferring) (slot : ℕ) (t : Ty) (errors : List Conflict)
    → get (unify_slot s slot t errors) slot ≡ some (incremental_unify t (get_or_any s slot)).0
unfolding unify_slot
get-unify_slot s slot t errors =
    ground (arith, lookup-insert slot slot (incremental_unify t (get_or_any s slot)).0 s.types)

-- Unifying the slot's new type back into `t` cannot fail.
pub back_success :
    (t u : Ty)
    → (incremental_unify t u).1.unify_success ≡ true
    → (incremental_unify (incremental_unify t u).0 t).1.unify_success ≡ true
back_success t u h =
    success_iff (incremental_unify t u).0 t
    ∙ subst (λ w. (incremental_unify_internal w t no_result).is_ok ≡ true) (sym (new_lem t u))
        (incremental_unify_internal_back t u no_result no_result (sym (success_iff t u) ∙ h))

abbrev new_type : Inferring → ℕ → Ty → Ty
new_type s slot t = (incremental_unify t (get_or_any s slot)).0

abbrev result_of : Inferring → ℕ → Ty → UnifyResult
result_of s slot t = (incremental_unify t (get_or_any s slot)).1

mutate_lem :
    (s : Inferring) (slot : ℕ) (t : Ty) (errors : List Conflict) (c : Bool)
    → ((result_of s slot t).immutable_type_changed && (result_of s slot t).unify_success) ≡ c
    → mutate slot t (unify_slot s slot t errors, result_of s slot t)
      ≡ ok (
        unify_slot s slot t errors,
        (if c then (incremental_unify (new_type s slot t) t).0 else t),
        c,
      )
unfolding back_into unify_back
mutate_lem s slot t errors false h = rw h refl
mutate_lem s slot t errors true h =
    let back = back_success t (get_or_any s slot) (ground arith) in
    rw (h, get-unify_slot s slot t errors, back) refl

-- Where `update_type` returns, so does `update_type_mut`, with the state that `update_type` leaves: the panic
-- "unification is not commutable!" is unreachable.
pub update_type_mut_returns :
    (s : Inferring) (slot : ℕ) (t : Ty) (p : Inferring × UnifyResult)
    → update_type s slot t ≡ ok p
    → (t' : Ty) × (changed : Bool) × (update_type_mut s slot t ≡ ok (p.0, t', changed))
unfolding update_type_mut
update_type_mut_returns s slot t p e =
    let (errors, q) = returned-unify_slot s slot t p e in
    rw (e, q) (_, _, mutate_lem s slot t errors _ refl)

-- Unifying the slot's new type back into `t` gives that type.
pub back_new :
    (t u : Ty)
    → is_mono t ≡ true
    → is_mono u ≡ true
    → (incremental_unify t u).1.unify_success ≡ true
    → (incremental_unify (incremental_unify t u).0 t).0 ≡ (incremental_unify t u).0
unfolding incremental_unify
back_new t u mt mu h =
    let new = (incremental_unify_internal t u no_result).new in
    let above = (incremental_unify-Above t u mt mu h).0 in
    let mono = is_mono-incremental_unify_internal t u no_result mt mu in
    new_lem new t ∙ (incremental_unify_internal-absorbs t new no_result mt mono above).1

settled :
    (s : Inferring) (slot : ℕ) (t : Ty) (c : Bool)
    → is_mono t ≡ true
    → is_mono (get_or_any s slot) ≡ true
    → (result_of s slot t).unify_success ≡ true
    → (result_of s slot t).immutable_type_changed ≡ c
    → (if c then (incremental_unify (new_type s slot t) t).0 else t) ≡ new_type s slot t
unfolding incremental_unify
settled s slot t false mt ms h e =
    sym ((incremental_unify-immutable t (get_or_any s slot) mt ms h).0 e)
settled s slot t true mt ms h e = back_new t (get_or_any s slot) mt ms h

-- When a type without polytypes can be unified with that of the slot, which has none either, `update_type` and
-- `update_type_mut` return with one state, both types are the same afterwards, and `true` is returned exactly if
-- the type was mutated.
pub update_type_mut_settles :
    (s : Inferring) (slot : ℕ) (t : Ty)
    → is_mono t ≡ true
    → is_mono (get_or_any s slot) ≡ true
    → (incremental_unify t (get_or_any s slot)).1.unify_success ≡ true
    → (s' : Inferring) × (changed : Bool) × (update_type s slot t
        ≡ ok (s', (incremental_unify t (get_or_any s slot)).1))
      × (update_type_mut s slot t ≡ ok (s', get_or_any s' slot, changed))
      × ((changed ≡ false) ↔ (get_or_any s' slot ≡ t))
unfolding update_type_mut
update_type_mut_settles s slot t mt ms h =
    let c = (result_of s slot t).immutable_type_changed in
    let after = type_after s slot t s.errors in
    let asked = incremental_unify-immutable t (get_or_any s slot) mt ms h in
    (
      unify_slot s slot t s.errors,
      c,
      update_type_success s slot t h,
      rw (update_type_success s slot t h, after)
          (mutate_lem s slot t s.errors c (ground arith)
            ∙ ap (λ x. ok (unify_slot s slot t s.errors, x, c)) (settled s slot t c mt ms h refl)),
      (λ k. after ∙ asked.0 k, λ k. asked.1 (sym after ∙ k)),
    )
