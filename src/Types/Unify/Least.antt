-- ===== src/Types/Unify/Least.antt =====
-- compiler/src/types/types.rs: upper bounds of two types, and the type that unification leaves.
use live_programming_prototy.Prelude.{true, ◌≡◌, sym, ◌∙◌, subst, inl, inr, arith}
use live_programming_prototy.Types.{TypeContent, Ty, Tys, node, nil, cons, length}
use live_programming_prototy.Types.Unify.{
  UnifyResult, Unified, incremental_unify_internal, unify_children,
}
use live_programming_prototy.Types.Unify.Order.{
  Refines, same, resolved, RefinesAll, pair, is_mono, all_mono,
}
use live_programming_prototy.Types.Unify.Bounds.{Branch-intro, mono_node, next_ok}

-- The children of two types with one content.
descend :
    (c : TypeContent) (us : Tys) (d : TypeContent) (ts : Tys) (x : TypeContent) (xs new : Tys)
    → c ≡ d
    → Refines (node c us) (node x xs)
    → Refines (node d ts) (node x xs)
    → (RefinesAll us xs → RefinesAll ts xs → RefinesAll new xs)
    → Refines (node d new) (node x xs)
descend c us d ts x xs new e ha (resolved ne k) f = resolved ne k
descend c us d ts x xs new e (same p hs) (same q ks) f = same q (f hs ks)
descend c us d ts x xs new e (resolved ne k) (same q ks) f = absurd (ne (e ∙ q))

mutual
  unfolding incremental_unify_internal length is_mono

  least :
      (a b c : Ty) (r : UnifyResult)
      → is_mono a ≡ true
      → is_mono b ≡ true
      → (incremental_unify_internal a b r).is_ok ≡ true
      → Refines a c
      → Refines b c
      → Refines (incremental_unify_internal a b r).new c
  least (node c us) (node d ts) (node x xs) r ma mb h ha hb =
      let (pc, mus) = mono_node c us ma in
      let (pd, mts) = mono_node d ts mb in
      let v = unify_children us ts r in
      let below : Unified Ty = record { new = node d v.new; result = v.result; is_ok = v.is_ok } in
      elim (Branch-intro c us d ts r below pc pd h) [
        | inl (e, n, p) ↦
            subst (λ (w : Unified Ty). Refines w.new (node x xs)) (sym p)
              (descend c us d ts x xs v.new e ha hb
                (λ hs ks. least_children us ts xs r mus mts n (ground arith) hs ks))
        | inr (inl (ne, k, p)) ↦ subst (λ w. Refines w (node x xs)) (sym p) hb
        | inr (inr (ne, k, p)) ↦ subst (λ w. Refines w (node x xs)) (sym p) ha
      ]

  least_children :
      (us ts xs : Tys) (r : UnifyResult)
      → all_mono us ≡ true
      → all_mono ts ≡ true
      → length us ≡ length ts
      → (unify_children us ts r).is_ok ≡ true
      → RefinesAll us xs
      → RefinesAll ts xs
      → RefinesAll (unify_children us ts r).new xs
  least_children nil ts xs r mu mt n h ha hb = hb
  least_children (cons u us) nil xs r mu mt n h ha hb = absurd (omega arith)
  least_children (cons u us) (cons t ts) nil r mu mt n h ha hb = elim ha [ ]
  least_children (cons u us) (cons t ts) (cons x xs) r mu mt n h (pair a as') (pair b bs) =
      let v = incremental_unify_internal u t r in
      let (hu, hs, e) = next_ok v ts (unify_children us ts v.result) h in
      subst (λ w. RefinesAll w (cons x xs)) (sym e)
        (pair (least u t x r (ground arith) (ground arith) hu a b)
          (least_children us ts xs v.result (ground arith) (ground arith) (omega arith) hs as' bs))

-- Whatever says all that both types say refines the type left by a successful run.
pub incremental_unify_internal-least :
    (a b c : Ty) (r : UnifyResult)
    → is_mono a ≡ true
    → is_mono b ≡ true
    → (incremental_unify_internal a b r).is_ok ≡ true
    → Refines a c
    → Refines b c
    → Refines (incremental_unify_internal a b r).new c
incremental_unify_internal-least = least
