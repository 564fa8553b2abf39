-- ===== src/Types/Unify/Back.antt =====
-- compiler/src/types/types.rs: unifying the result back into the first type, as `update_type_mut` of
-- compiler/src/types/slots.rs does.
use live_programming_prototy.Prelude.{true, ◌≡◌, refl, sym, subst, arith}
use live_programming_prototy.Types.{
  Ty, Tys, node, nil, cons, length, content_eq_iff, content_eq_refl,
}
use live_programming_prototy.Types.Unify.{UnifyResult, incremental_unify_internal, unify_children}
use live_programming_prototy.Types.Unify.Order.{
  Refines, same, resolved, RefinesAll, none, pair, is_mono, all_mono, RefinesAll-length,
  abstract_contains_antisym,
}
use live_programming_prototy.Types.Unify.Agree.{unify_self_lem}
use live_programming_prototy.Types.Unify.Bounds.{next_ok}

length-unify_children :
    (us ts : Tys) (r : UnifyResult) → length (unify_children us ts r).new ≡ length ts
unfolding incremental_unify_internal length
length-unify_children nil ts r = refl
length-unify_children (cons u us) nil r = refl
length-unify_children (cons u us) (cons t ts) r =
    ground (arith, length-unify_children us ts (incremental_unify_internal u t r).result)

mutual
  unfolding incremental_unify_internal length

  back :
      (a b : Ty) (r q : UnifyResult)
      → (incremental_unify_internal a b r).is_ok ≡ true
      → (incremental_unify_internal (incremental_unify_internal a b r).new a q).is_ok ≡ true
  back (node c us) (node d ts) r q h = ground (
    arith,
    content_eq_iff c d,
    content_eq_iff d c,
    content_eq_refl c,
    length-unify_children us ts r,
    back_children us ts r q,
    unify_self_lem (node c us) q,
  )

  back_children :
      (us ts : Tys) (r q : UnifyResult)
      → length us ≡ length ts
      → (unify_children us ts r).is_ok ≡ true
      → (unify_children (unify_children us ts r).new us q).is_ok ≡ true
  back_children nil nil r q n h = refl
  back_children nil (cons t ts) r q n h = absurd (omega arith)
  back_children (cons u us) nil r q n h = absurd (omega arith)
  back_children (cons u us) (cons t ts) r q n h =
      let v = incremental_unify_internal u t r in
      let rest = unify_children us ts v.result in
      let (hu, hs, e) = next_ok v ts rest h in
      let w = incremental_unify_internal v.new u q in
      subst (λ (l : Tys). (unify_children l (cons u us) q).is_ok ≡ true) (sym e)
        (ground (arith, back u t r q hu, back_children us ts v.result w.result))

mutual
  unfolding incremental_unify_internal length is_mono

  absorbs :
      (a b : Ty) (r : UnifyResult)
      → is_mono a ≡ true
      → is_mono b ≡ true
      → Refines a b
      → ((incremental_unify_internal b a r).is_ok ≡ true)
        × ((incremental_unify_internal b a r).new ≡ b)
  absorbs (node c us) (node d ts) r ma mb (same e hs) = ground (
    arith,
    content_eq_iff d c,
    RefinesAll-length hs,
    absorbs_children us ts r (ground arith) (ground arith) hs,
  )
  absorbs (node c us) (node d ts) r ma mb (resolved ne k) =
      ground (arith, content_eq_iff d c, abstract_contains_antisym c d)

  absorbs_children :
      (us ts : Tys) (r : UnifyResult)
      → all_mono us ≡ true
      → all_mono ts ≡ true
      → RefinesAll us ts
      → ((unify_children ts us r).is_ok ≡ true) × ((unify_children ts us r).new ≡ ts)
  absorbs_children nil nil r mu mt none = (refl, refl)
  absorbs_children nil (cons t ts) r mu mt h = elim h [ ]
  absorbs_children (cons u us) nil r mu mt h = elim h [ ]
  absorbs_children (cons u us) (cons t ts) r mu mt (pair h hs) =
      let w = incremental_unify_internal t u r in
      ground (
        arith,
        absorbs u t r (ground arith) (ground arith) h,
        absorbs_children us ts w.result (ground arith) (ground arith) hs,
      )

-- A type that a successful run left is unified back into the first type with success.
pub incremental_unify_internal_back :
    (a b : Ty) (r q : UnifyResult)
    → (incremental_unify_internal a b r).is_ok ≡ true
    → (incremental_unify_internal (incremental_unify_internal a b r).new a q).is_ok ≡ true
incremental_unify_internal_back = back

-- A type that says all that `a` says is left alone by `a`, and `a` becomes that type.
pub incremental_unify_internal-absorbs :
    (a b : Ty) (r : UnifyResult)
    → is_mono a ≡ true
    → is_mono b ≡ true
    → Refines a b
    → ((incremental_unify_internal b a r).is_ok ≡ true)
      × ((incremental_unify_internal b a r).new ≡ b)
incremental_unify_internal-absorbs = absorbs

mutual
  unfolding incremental_unify_internal is_mono

  stays_mono :
      (a b : Ty) (r : UnifyResult)
      → is_mono a ≡ true
      → is_mono b ≡ true
      → is_mono (incremental_unify_internal a b r).new ≡ true
  stays_mono (node c us) (node d ts) r ma mb = ground (arith, stay_mono us ts r)

  stay_mono :
      (us ts : Tys) (r : UnifyResult)
      → all_mono us ≡ true
      → all_mono ts ≡ true
      → all_mono (unify_children us ts r).new ≡ true
  stay_mono nil ts r mu mt = mt
  stay_mono (cons u us) nil r mu mt = refl
  stay_mono (cons u us) (cons t ts) r mu mt =
      ground (arith, stays_mono u t r, stay_mono us ts (incremental_unify_internal u t r).result)

-- Unification brings in no polytypes.
pub is_mono-incremental_unify_internal :
    (a b : Ty) (r : UnifyResult)
    → is_mono a ≡ true
    → is_mono b ≡ true
    → is_mono (incremental_unify_internal a b r).new ≡ true
is_mono-incremental_unify_internal = stays_mono
