-- ===== src/Types/Unify/Changes.antt =====
-- compiler/src/types/types.rs: the flags that `incremental_unify` reports.
use live_programming_prototy.Prelude.{Bool, false, ◌≡◌, refl, arith}
use live_programming_prototy.Types.{Ty, Tys, node, nil, cons, content_eq_iff}
use live_programming_prototy.Types.Unify.{UnifyResult, incremental_unify_internal, unify_children}

-- The flag is kept from `r`, and raised exactly if the new value differs from the old one.
abbrev pub Reports : {A : Type 0} → Bool → Bool → A → A → Type 0
Reports before after old new =
    (after ≡ false → (before ≡ false) × (new ≡ old)) × (new ≡ old → after ≡ before)

mutual
  unfolding incremental_unify_internal

  Reports-type :
      (u t : Ty) (r : UnifyResult)
      → Reports r.mutable_type_changed
          (incremental_unify_internal u t r).result.mutable_type_changed
          t
          (incremental_unify_internal u t r).new
  Reports-type (node u us) (node t ts) r = ground (arith, Reports-types us ts r, content_eq_iff u t)

  Reports-types :
      (us ts : Tys) (r : UnifyResult)
      → Reports r.mutable_type_changed
          (unify_children us ts r).result.mutable_type_changed
          ts
          (unify_children us ts r).new
  Reports-types nil ts r = (λ h. (h, refl), λ h. refl)
  Reports-types (cons u us) nil r = (λ h. (h, refl), λ h. refl)
  Reports-types (cons u us) (cons t ts) r =
      let v = incremental_unify_internal u t r in
      ground (arith, Reports-type u t r, Reports-types us ts v.result)

pub incremental_unify_internal-Reports :
    (u t : Ty) (r : UnifyResult)
    → Reports r.mutable_type_changed
        (incremental_unify_internal u t r).result.mutable_type_changed
        t
        (incremental_unify_internal u t r).new
incremental_unify_internal-Reports = Reports-type
