-- ===== src/Types/Polytypes/Round.antt =====
-- compiler/src/types/types.rs: a type that matched is the polymorphic one, filled in.
use live_programming_prototy.Prelude.{
  ℕ, zero, suc, ◌<◌, ◌==◌, ◌≡◌, refl, ==_iff, Bool, true, false, not, ◌&&◌, ◌||◌, some,
  if◌then◌else◌, lookup, ok, arith,
}
use live_programming_prototy.Common.{Text, text_instance}
use live_programming_prototy.Types.{
  TypeContent, abstract, polytype, Ty, Tys, node, nil, cons, length, content_eq, content_eq_iff,
}
use live_programming_prototy.Types.Kinds.{is_polytype, is_abstract, abstract_contains}
use live_programming_prototy.Types.Unify.{
  CanUnifyResult, can_unify, already_equal, cannot_unify, can_unify_top, can_unify_types_internal,
  can_unify_children, unify_types,
}
use live_programming_prototy.Types.Polytypes.{
  Bindings, each_type, fill_in, polytype_replace, weight, weights,
}

-- Neither abstract nor a type variable, down to the last child
unfoldable mutual
  pub is_monomorphic : Ty → Bool
  is_monomorphic (node c ts) = not (is_abstract c || is_polytype c) && all_monomorphic ts

  pub all_monomorphic : Tys → Bool
  all_monomorphic nil = true
  all_monomorphic (cons t ts) = is_monomorphic t && all_monomorphic ts

pub and_true : (a b : Bool) → (a && b) ≡ true → (a ≡ true) × (b ≡ true)
and_true a b h = ground arith

abbrev Agree : {A : Type 0} → A → A → CanUnifyResult → Type 0
Agree a b can_unify = ⊥
Agree a b already_equal = a ≡ b
Agree a b cannot_unify = Unit

abstract_contains_not : (c d : TypeContent) → is_abstract c ≡ false → abstract_contains c d ≡ false
abstract_contains_not (abstract a) d h = cc
abstract_contains_not c d h = refl

pub neither : (a b : Bool) → not (a || b) ≡ true → (a ≡ false) × (b ≡ false)
neither a b h = ground arith

top_mono :
    (c d : TypeContent) (ts us : Tys) (r : CanUnifyResult)
    → not (is_abstract c || is_polytype c) ≡ true
    → not (is_abstract d || is_polytype d) ≡ true
    → can_unify_top c ts d us r
      ≡ (if content_eq c d && (length ts == length us) then r else cannot_unify)
unfolding can_unify_top
top_mono c d ts us r h k =
    let hs = neither (is_abstract c) (is_polytype c) h in
    let ks = neither (is_abstract d) (is_polytype d) k in
    simp (hs.1, ks.1, abstract_contains_not c d hs.0, abstract_contains_not d c ks.0) (ground arith)

Agree-node :
    (c d : TypeContent) (ts us : Tys) (r : CanUnifyResult)
    → c ≡ d
    → Agree ts us r
    → Agree (node c ts) (node d us) r
Agree-node c d ts us can_unify e h = h
Agree-node c d ts us already_equal e h = cc
Agree-node c d ts us cannot_unify e h = tt

top-Agree :
    (c d : TypeContent) (ts us : Tys) (r : CanUnifyResult)
    → not (is_abstract c || is_polytype c) ≡ true
    → not (is_abstract d || is_polytype d) ≡ true
    → (length ts ≡ length us → Agree ts us r)
    → Agree (node c ts) (node d us) (can_unify_top c ts d us r)
top-Agree c d ts us r h k g =
    rw (top_mono c d ts us r h k) (on_same (content_eq c d && (length ts == length us)) refl)
  where
    on_same :
        (b : Bool)
        → (content_eq c d && (length ts == length us)) ≡ b
        → Agree (node c ts) (node d us) (if b then r else cannot_unify)
    on_same true e =
        let both = and_true (content_eq c d) (length ts == length us) e in
        Agree-node c d ts us r ((content_eq_iff c d).0 both.0)
          (g ((==_iff (length ts) (length us)).0 both.1))
    on_same false e = tt

next-Agree :
    (t u : Ty) (ts us : Tys) (r : CanUnifyResult)
    → Agree t u r
    → Agree ts us (can_unify_children ts us false)
    → Agree (cons t ts) (cons u us) (elim r [
      | can_unify ↦ can_unify_children ts us true
      | cannot_unify ↦ cannot_unify
      | already_equal ↦ can_unify_children ts us false
    ])
next-Agree t u ts us can_unify h k = absurd h
next-Agree t u ts us cannot_unify h k = tt
next-Agree t u ts us already_equal h k = rest (can_unify_children ts us false) k
  where
    rest : (r : CanUnifyResult) → Agree ts us r → Agree (cons t ts) (cons u us) r
    rest can_unify k = k
    rest cannot_unify k = tt
    rest already_equal k = cc

mutual
  unfolding can_unify_types_internal is_monomorphic length

  can_unify-Agree :
      (a b : Ty)
      → is_monomorphic a ≡ true
      → is_monomorphic b ≡ true
      → Agree a b (can_unify_types_internal a b)
  can_unify-Agree (node c ts) (node d us) h k =
      let hs = and_true (not (is_abstract c || is_polytype c)) (all_monomorphic ts) h in
      let ks = and_true (not (is_abstract d || is_polytype d)) (all_monomorphic us) k in
      top-Agree c d ts us (can_unify_children ts us false) hs.0 ks.0
        (λ l. children-Agree ts us hs.1 ks.1 l)

  children-Agree :
      (ts us : Tys)
      → all_monomorphic ts ≡ true
      → all_monomorphic us ≡ true
      → length ts ≡ length us
      → Agree ts us (can_unify_children ts us false)
  children-Agree nil nil h k l = refl
  children-Agree nil (cons u us) h k l = absurd (omega arith)
  children-Agree (cons t ts) nil h k l = absurd (omega arith)
  children-Agree (cons t ts) (cons u us) h k l =
      let hs = and_true (is_monomorphic t) (all_monomorphic ts) h in
      let ks = and_true (is_monomorphic u) (all_monomorphic us) k in
      next-Agree t u ts us (can_unify_types_internal t u) (can_unify-Agree t u hs.0 ks.0)
        (children-Agree ts us hs.1 ks.1 (omega arith))

-- Two such types unify only where they are equal.
pub unify_types_mono :
    (a b u : Ty)
    → is_monomorphic a ≡ true
    → is_monomorphic b ≡ true
    → unify_types a b ≡ ok (some u)
    → (a ≡ b) × (u ≡ b)
unfolding unify_types
unify_types_mono a b u h k e =
    on_result (can_unify_types_internal a b) refl (can_unify-Agree a b h k)
  where
    on_result :
        (r : CanUnifyResult) → can_unify_types_internal a b ≡ r → Agree a b r → (a ≡ b) × (u ≡ b)
    on_result can_unify q g = absurd g
    on_result already_equal q g = ground (arith, q)
    on_result cannot_unify q g = ground (arith, q)

abbrev pub Holds : Bindings → Bindings → Type 0
Holds m n = (k : Text) (t : Ty) → lookup k m ≡ some t → lookup k n ≡ some t

pub fill_in_mono :
    (m : Bindings) (c : TypeContent) (ts : Tys)
    → is_polytype c ≡ false
    → fill_in m (node c ts) ≡ node c ts
fill_in_mono m (polytype name) ts h = cc
fill_in_mono m c ts h = refl

-- What is monomorphic is left as it is.
mutual
  unfolding is_monomorphic weight each_type polytype_replace

  pub replace_mono :
      (n : ℕ) (m : Bindings) (t : Ty)
      → is_monomorphic t ≡ true
      → weight t < suc n
      → polytype_replace n m t ≡ ok t
  replace_mono zero m (node c ts) h l = absurd (omega arith)
  replace_mono (suc n) m (node c ts) h l =
      let hs = and_true (not (is_abstract c || is_polytype c)) (all_monomorphic ts) h in
      rw
        (
          fill_in_mono m c ts (neither (is_abstract c) (is_polytype c) hs.0).1,
          replace_all_mono n m ts hs.1 (omega arith),
        )
        refl

  pub replace_all_mono :
      (n : ℕ) (m : Bindings) (ts : Tys)
      → all_monomorphic ts ≡ true
      → weights ts < suc n
      → each_type (polytype_replace n m) ts ≡ ok ts
  replace_all_mono n m nil h l = refl
  replace_all_mono n m (cons t ts) h l =
      let hs = and_true (is_monomorphic t) (all_monomorphic ts) h in
      rw (replace_mono n m t hs.0 (omega arith), replace_all_mono n m ts hs.1 (omega arith)) refl
