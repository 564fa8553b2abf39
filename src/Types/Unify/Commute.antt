-- ===== src/Types/Unify/Commute.antt =====
-- compiler/src/types/types.rs: unification with its two types swapped.
use live_programming_prototy.Prelude.{true, ◌≡◌, refl, arith}
use live_programming_prototy.Types.{Ty, Tys, node, nil, cons, length, content_eq_iff}
use live_programming_prototy.Types.Unify.{
  UnifyResult, Unified, incremental_unify_internal, unify_children,
}
use live_programming_prototy.Types.Unify.Order.{is_mono, all_mono, abstract_contains_antisym}

-- Two runs, one each way: both fail, or both succeed and leave the same value.
abbrev pub Mirror : {A : Type 0} → Unified A → Unified A → Type 0
Mirror u v = (u.is_ok ≡ v.is_ok) × (u.is_ok ≡ true → u.new ≡ v.new)

mutual
  unfolding incremental_unify_internal length is_mono

  mirror :
      (a b : Ty) (r q : UnifyResult)
      → is_mono a ≡ true
      → is_mono b ≡ true
      → Mirror (incremental_unify_internal a b r) (incremental_unify_internal b a q)
  mirror (node c us) (node d ts) r q ma mb = ground (
    arith,
    content_eq_iff d c,
    content_eq_iff c d,
    abstract_contains_antisym c d,
    Mirror-children us ts r q,
  )

  Mirror-children :
      (us ts : Tys) (r q : UnifyResult)
      → all_mono us ≡ true
      → all_mono ts ≡ true
      → length us ≡ length ts
      → Mirror (unify_children us ts r) (unify_children ts us q)
  Mirror-children nil nil r q mu mt n = (refl, λ h. refl)
  Mirror-children nil (cons t ts) r q mu mt n = absurd (omega arith)
  Mirror-children (cons u us) nil r q mu mt n = absurd (omega arith)
  Mirror-children (cons u us) (cons t ts) r q mu mt n =
      let v = incremental_unify_internal u t r in
      let w = incremental_unify_internal t u q in
      ground (arith, mirror u t r q, Mirror-children us ts v.result w.result)

pub incremental_unify_internal-Mirror :
    (a b : Ty) (r q : UnifyResult)
    → is_mono a ≡ true
    → is_mono b ≡ true
    → Mirror (incremental_unify_internal a b r) (incremental_unify_internal b a q)
incremental_unify_internal-Mirror = mirror
