-- ===== src/Types/Unify/Bounds.antt =====
-- compiler/src/types/types.rs: the type that unification leaves, against both types.
use live_programming_prototy.Prelude.{true, false, ◌≡◌, ◌≢◌, refl, sym, subst, ◌⊎◌, inl, inr, arith}
use live_programming_prototy.Types.{TypeContent, Ty, Tys, node, nil, cons, length, content_eq_iff}
use live_programming_prototy.Types.Kinds.{is_polytype, abstract_contains}
use live_programming_prototy.Types.Unify.{
  UnifyResult, Unified, unify_top, unify_next, incremental_unify_internal, unify_children,
}
use live_programming_prototy.Types.Unify.Order.{
  Refines, same, resolved, RefinesAll, none, pair, is_mono, all_mono, Refines-refl,
}

-- Which branch of `incremental_unify_internal` a successful run took, for types without polytypes.
abbrev pub Branch : TypeContent → Tys → TypeContent → Tys → Unified Ty → Unified Ty → Type 0
Branch c us d ts below u =
    ((c ≡ d) × (length us ≡ length ts) × (u ≡ below))
    ⊎ ((c ≢ d) × (abstract_contains c d ≡ true) × (u.new ≡ node d ts))
    ⊎ ((c ≢ d) × (abstract_contains d c ≡ true) × (u.new ≡ node c us))

pub Branch-intro :
    (c : TypeContent) (us : Tys) (d : TypeContent) (ts : Tys) (r : UnifyResult) (below : Unified Ty)
    → is_polytype c ≡ false
    → is_polytype d ≡ false
    → (unify_top c us d ts r below).is_ok ≡ true
    → Branch c us d ts below (unify_top c us d ts r below)
unfolding unify_top
Branch-intro c us d ts r below pc pd h = ground (arith, content_eq_iff c d)

pub mono_node :
    (c : TypeContent) (ts : Tys)
    → is_mono (node c ts) ≡ true
    → (is_polytype c ≡ false) × (all_mono ts ≡ true)
unfolding is_mono
mono_node c ts h = ground arith

-- The children of one step of the loop.
pub next_ok :
    (u : Unified Ty) (ts : Tys) (rest : Unified Tys)
    → (unify_next u ts rest).is_ok ≡ true
    → (u.is_ok ≡ true) × (rest.is_ok ≡ true) × ((unify_next u ts rest).new ≡ cons u.new rest.new)
unfolding unify_next
next_ok u ts rest h = ground arith

abbrev pub Above : Ty → Ty → Ty → Type 0
Above a b c = Refines a c × Refines b c

abbrev pub AllAbove : Tys → Tys → Tys → Type 0
AllAbove us ts cs = RefinesAll us cs × RefinesAll ts cs

mutual
  unfolding incremental_unify_internal length is_mono

  upper :
      (a b : Ty) (r : UnifyResult)
      → is_mono a ≡ true
      → is_mono b ≡ true
      → (incremental_unify_internal a b r).is_ok ≡ true
      → Above a b (incremental_unify_internal a b r).new
  upper (node c us) (node d ts) r ma mb h =
      let (pc, mus) = mono_node c us ma in
      let (pd, mts) = mono_node d ts mb in
      let v = unify_children us ts r in
      let below : Unified Ty = record { new = node d v.new; result = v.result; is_ok = v.is_ok } in
      elim (Branch-intro c us d ts r below pc pd h) [
        | inl (e, n, p) ↦
            let ups = upper_children us ts r mus mts n (ground arith) in
            subst (λ (w : Unified Ty). Above (node c us) (node d ts) w.new) (sym p)
              (same e ups.0, same refl ups.1)
        | inr (inl (ne, k, p)) ↦
            subst (Above (node c us) (node d ts)) (sym p) (resolved ne k, Refines-refl (node d ts))
        | inr (inr (ne, k, p)) ↦
            subst (Above (node c us) (node d ts)) (sym p)
              (Refines-refl (node c us), resolved (λ e. ne (sym e)) k)
      ]

  upper_children :
      (us ts : Tys) (r : UnifyResult)
      → all_mono us ≡ true
      → all_mono ts ≡ true
      → length us ≡ length ts
      → (unify_children us ts r).is_ok ≡ true
      → AllAbove us ts (unify_children us ts r).new
  upper_children nil nil r mu mt n h = (none, none)
  upper_children nil (cons t ts) r mu mt n h = absurd (omega arith)
  upper_children (cons u us) nil r mu mt n h = absurd (omega arith)
  upper_children (cons u us) (cons t ts) r mu mt n h =
      let v = incremental_unify_internal u t r in
      let (hu, hs, e) = next_ok v ts (unify_children us ts v.result) h in
      let one = upper u t r (ground arith) (ground arith) hu in
      let rest = upper_children us ts v.result (ground arith) (ground arith) (omega arith) hs in
      subst (AllAbove (cons u us) (cons t ts)) (sym e) (pair one.0 rest.0, pair one.1 rest.1)

-- The type left by a successful run says all that both types say.
pub incremental_unify_internal-Above :
    (a b : Ty) (r : UnifyResult)
    → is_mono a ≡ true
    → is_mono b ≡ true
    → (incremental_unify_internal a b r).is_ok ≡ true
    → Above a b (incremental_unify_internal a b r).new
incremental_unify_internal-Above = upper
