-- ===== src/Types/Unify/Agree.antt =====
-- compiler/src/types/types.rs: the check of `unify_types`, against `incremental_unify`.
use live_programming_prototy.Prelude.{
  Bool, true, false, ◌≡◌, ◌≢◌, refl, ap, none, some, ok, if◌then◌else◌, arith,
}
use live_programming_prototy.Types.{
  Ty, Tys, TypeContent, node, nil, cons, length, content_eq_iff, content_eq_refl,
}
use live_programming_prototy.Types.Unify.{
  UnifyResult, no_result, Unified, unify_top, unify_next, incremental_unify_internal,
  unify_children, incremental_unify, CanUnifyResult, can_unify, already_equal, cannot_unify,
  can_unify_top, can_unify_types_internal, can_unify_children, unify_types,
}

abbrev pub unifiable : CanUnifyResult → Bool
unifiable cannot_unify = false
unifiable _ = true

unify_top-unifiable :
    (u : TypeContent) (us : Tys) (t : TypeContent) (ts : Tys) (r : UnifyResult) (below : Unified Ty)
    (c : CanUnifyResult)
    → below.is_ok ≡ unifiable c
    → (unify_top u us t ts r below).is_ok ≡ unifiable (can_unify_top u us t ts c)
unfolding unify_top can_unify_top
unify_top-unifiable u us t ts r below c h = ground arith

unify_next-unifiable :
    (u : Unified Ty) (ts : Tys) (rest : Unified Tys) (c x y : CanUnifyResult)
    → u.is_ok ≡ unifiable c
    → rest.is_ok ≡ unifiable x
    → rest.is_ok ≡ unifiable y
    → (unify_next u ts rest).is_ok
      ≡ unifiable (elim c [ can_unify ↦ x | cannot_unify ↦ cannot_unify | already_equal ↦ y ])
unfolding unify_next
unify_next-unifiable u ts rest can_unify x y h hx hy = ground arith
unify_next-unifiable u ts rest already_equal x y h hx hy = ground arith
unify_next-unifiable u ts rest cannot_unify x y h hx hy = ground arith

mutual
  unfolding incremental_unify_internal can_unify_types_internal

  is_ok-unifiable :
      (u t : Ty) (r : UnifyResult)
      → (incremental_unify_internal u t r).is_ok ≡ unifiable (can_unify_types_internal u t)
  is_ok-unifiable (node u us) (node t ts) r =
      unify_top-unifiable u us t ts r _ (can_unify_children us ts false)
        (is_ok-unifiable_children us ts r false)

  is_ok-unifiable_children :
      (us ts : Tys) (r : UnifyResult) (required : Bool)
      → (unify_children us ts r).is_ok ≡ unifiable (can_unify_children us ts required)
  is_ok-unifiable_children nil ts r required = ground arith
  is_ok-unifiable_children (cons u us) nil r required = ground arith
  is_ok-unifiable_children (cons u us) (cons t ts) r required =
      let v = incremental_unify_internal u t r in
      unify_next-unifiable v ts (unify_children us ts v.result) (can_unify_types_internal u t)
        (can_unify_children us ts true) (can_unify_children us ts required) (is_ok-unifiable u t r)
        (is_ok-unifiable_children us ts v.result true)
        (is_ok-unifiable_children us ts v.result required)

already_next :
    (c x y : CanUnifyResult)
    → x ≢ already_equal
    → elim c [ can_unify ↦ x | cannot_unify ↦ cannot_unify | already_equal ↦ y ] ≡ already_equal
    → (c ≡ already_equal) × (y ≡ already_equal)
already_next can_unify x y n h = absurd (n h)
already_next already_equal x y n h = (refl, h)
already_next cannot_unify x y n h = cc

-- Once a child needed unification, the answer is not "already equal".
required-ne-already : (us ts : Tys) → can_unify_children us ts true ≢ already_equal
unfolding can_unify_types_internal
required-ne-already nil ts h = cc
required-ne-already (cons u us) nil h = cc
required-ne-already (cons u us) (cons t ts) h =
    required-ne-already us ts
      (already_next (can_unify_types_internal u t) (can_unify_children us ts true)
        (can_unify_children us ts true) (required-ne-already us ts) h).1

already_top :
    (u : TypeContent) (us : Tys) (t : TypeContent) (ts : Tys) (c : CanUnifyResult)
    → can_unify_top u us t ts c ≡ already_equal
    → (u ≡ t) × (length us ≡ length ts) × (c ≡ already_equal)
unfolding can_unify_top
already_top u us t ts c h = ground (arith, content_eq_iff u t)

mutual
  unfolding can_unify_types_internal length

  already_equal-eq : (u t : Ty) → can_unify_types_internal u t ≡ already_equal → u ≡ t
  already_equal-eq (node u us) (node t ts) h =
      let (same, count, below) = already_top u us t ts (can_unify_children us ts false) h in
      cc (already_equal-eq_children us ts false count below)

  already_equal-eq_children :
      (us ts : Tys) (required : Bool)
      → length us ≡ length ts
      → can_unify_children us ts required ≡ already_equal
      → us ≡ ts
  already_equal-eq_children nil nil required n h = refl
  already_equal-eq_children nil (cons t ts) required n h = absurd (omega arith)
  already_equal-eq_children (cons u us) nil required n h = absurd (omega arith)
  already_equal-eq_children (cons u us) (cons t ts) required n h =
      let (c, rest) =
        already_next (can_unify_types_internal u t) (can_unify_children us ts true)
          (can_unify_children us ts required) (required-ne-already us ts) h in
      cc (already_equal-eq u t c, already_equal-eq_children us ts required (omega arith) rest)

-- Unifying a type with itself changes nothing.
mutual
  unfolding incremental_unify_internal length

  unify_self :
      (t : Ty) (r : UnifyResult)
      → incremental_unify_internal t t r ≡ record { new = t; result = r; is_ok = true }
  unify_self (node c ts) r = ground (arith, content_eq_refl c, unify_self_children ts r)

  unify_self_children :
      (ts : Tys) (r : UnifyResult)
      → unify_children ts ts r ≡ record { new = ts; result = r; is_ok = true }
  unify_self_children nil r = refl
  unify_self_children (cons t ts) r = ground (arith, unify_self t r, unify_self_children ts r)

pub unify_self_lem :
    (t : Ty) (r : UnifyResult)
    → incremental_unify_internal t t r ≡ record { new = t; result = r; is_ok = true }
unify_self_lem = unify_self

already_new :
    (a b : Ty) (r : UnifyResult)
    → can_unify_types_internal a b ≡ already_equal
    → (incremental_unify_internal a b r).new ≡ a
already_new a b r h =
    rw (← already_equal-eq a b h) (ap (λ (u : Unified Ty). u.new) (unify_self a r))

mutual
  unfolding incremental_unify_internal

  success_kept :
      (u t : Ty) (r : UnifyResult)
      → (incremental_unify_internal u t r).result.unify_success ≡ r.unify_success
  success_kept (node u us) (node t ts) r = ground (arith, success_kept_children us ts r)

  success_kept_children :
      (us ts : Tys) (r : UnifyResult)
      → (unify_children us ts r).result.unify_success ≡ r.unify_success
  success_kept_children nil ts r = refl
  success_kept_children (cons u us) nil r = refl
  success_kept_children (cons u us) (cons t ts) r =
      let v = incremental_unify_internal u t r in
      ground (arith, success_kept u t r, success_kept_children us ts v.result)

-- `unify_types` never meets its "bug in unify_types" panic: it gives the type that
-- `incremental_unify` leaves when that succeeds, and `None` when that fails.
pub unify_types-incremental_unify :
    (a b : Ty)
    → unify_types a b ≡ (
        if (incremental_unify a b).1.unify_success
        then ok (some (incremental_unify a b).0)
        else ok none)
unfolding unify_types
unify_types-incremental_unify a b =
    ground
      (arith, is_ok-unifiable a b no_result, success_kept a b no_result, already_new a b no_result)

pub success_kept_lem :
    (u t : Ty) (r : UnifyResult)
    → (incremental_unify_internal u t r).result.unify_success ≡ r.unify_success
success_kept_lem = success_kept
