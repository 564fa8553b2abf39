-- ===== src/Types/Unify/Immutable.antt =====
-- compiler/src/types/types.rs: when `incremental_unify` reports that the first type should change.
use live_programming_prototy.Prelude.{Bool, true, false, ◌≡◌, refl, arith}
use live_programming_prototy.Types.{Ty, Tys, node, nil, cons, length, content_eq_iff}
use live_programming_prototy.Types.Unify.{
  UnifyResult, Unified, incremental_unify_internal, unify_children,
}
use live_programming_prototy.Types.Unify.Order.{is_mono, all_mono}

-- On success the flag is kept from `r`, and raised exactly if the value left differs from `u`.
abbrev pub Asks : {A : Type 0} → Bool → Bool → A → Unified A → Type 0
Asks before after u run =
    run.is_ok ≡ true
    → (after ≡ false → (before ≡ false) × (run.new ≡ u)) × (run.new ≡ u → after ≡ before)

mutual
  unfolding incremental_unify_internal length is_mono

  asks :
      (u t : Ty) (r : UnifyResult)
      → is_mono u ≡ true
      → is_mono t ≡ true
      → Asks r.immutable_type_changed
          (incremental_unify_internal u t r).result.immutable_type_changed
          u
          (incremental_unify_internal u t r)
  asks (node u us) (node t ts) r mu mt h = ground (arith, content_eq_iff u t, Asks-children us ts r)

  Asks-children :
      (us ts : Tys) (r : UnifyResult)
      → all_mono us ≡ true
      → all_mono ts ≡ true
      → length us ≡ length ts
      → Asks r.immutable_type_changed
          (unify_children us ts r).result.immutable_type_changed
          us
          (unify_children us ts r)
  Asks-children nil nil r mu mt n h = (λ k. (k, refl), λ k. refl)
  Asks-children nil (cons t ts) r mu mt n h = absurd (omega arith)
  Asks-children (cons u us) nil r mu mt n h = absurd (omega arith)
  Asks-children (cons u us) (cons t ts) r mu mt n h =
      let v = incremental_unify_internal u t r in
      ground (arith, asks u t r, Asks-children us ts v.result)

pub incremental_unify_internal-Asks :
    (u t : Ty) (r : UnifyResult)
    → is_mono u ≡ true
    → is_mono t ≡ true
    → Asks r.immutable_type_changed
        (incremental_unify_internal u t r).result.immutable_type_changed
        u
        (incremental_unify_internal u t r)
incremental_unify_internal-Asks = asks
