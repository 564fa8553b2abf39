-- ===== src/Types/Unify/Intersection.antt =====
-- compiler/src/types/types.rs: what `type_intersection` promises.
use live_programming_prototy.Prelude.{
  Bool, true, false, ◌&&◌, ◌≡◌, refl, subst, ◌==◌, if◌then◌else◌, arith,
}
use live_programming_prototy.Types.{
  any, abstract, TypeContent, Ty, Tys, node, nil, cons, length, content_eq, content_eq_iff,
}
use live_programming_prototy.Types.Kinds.{any_type, contains_type}
use live_programming_prototy.Types.Unify.{type_intersection, intersections}
use live_programming_prototy.Types.Unify.Order.{Refines, same, resolved, RefinesAll, none, pair}

-- The `any` of a type has no children.
unfoldable mutual
  pub is_plain : Ty → Bool
  is_plain (node (abstract any) nil) = true
  is_plain (node (abstract any) (cons t ts)) = false
  is_plain (node _ ts) = all_plain ts

  pub all_plain : Tys → Bool
  all_plain nil = true
  all_plain (cons t ts) = is_plain t && all_plain ts

any-below :
    (c : TypeContent) (us : Tys) → is_plain (node c us) ≡ true → Refines any_type (node c us)
unfolding contains_type is_plain
any-below (abstract any) nil h = same refl none
any-below (abstract any) (cons t ts) h = cc
any-below c us h = resolved (λ e. cc) refl

plain_children : (c : TypeContent) (us : Tys) → is_plain (node c us) ≡ true → all_plain us ≡ true
unfolding is_plain
plain_children (abstract any) nil h = refl
plain_children (abstract any) (cons t ts) h = cc
plain_children c us h = h

-- The two tests of `type_intersection`.
below_top :
    (c : TypeContent) (us agreed : Tys) (p q : Bool)
    → is_plain (node c us) ≡ true
    → (q ≡ true → RefinesAll agreed us)
    → Refines (if p then (if q then node c agreed else any_type) else any_type) (node c us)
below_top c us agreed true true h all = same refl (all refl)
below_top c us agreed true false h all = any-below c us h
below_top c us agreed false q h all = any-below c us h

mutual
  unfolding type_intersection is_plain contains_type length

  below_left : (a b : Ty) → is_plain a ≡ true → Refines (type_intersection a b) a
  below_left (node c us) (node d ts) h =
      below_top c us (intersections us ts) (content_eq c d) (length us == length ts) h
        (λ n. below_left_children us ts (plain_children c us h) (ground arith))

  below_left_children :
      (us ts : Tys)
      → all_plain us ≡ true
      → length us ≡ length ts
      → RefinesAll (intersections us ts) us
  below_left_children nil ts h n = none
  below_left_children (cons u us) nil h n = absurd (omega arith)
  below_left_children (cons u us) (cons t ts) h n =
      pair (below_left u t (ground arith)) (below_left_children us ts (ground arith) (omega arith))

mutual
  unfolding type_intersection length

  swapped : (a b : Ty) → type_intersection a b ≡ type_intersection b a
  swapped (node c us) (node d ts) =
      ground (arith, content_eq_iff c d, content_eq_iff d c, swapped_children us ts)

  swapped_children :
      (us ts : Tys) → length us ≡ length ts → intersections us ts ≡ intersections ts us
  swapped_children nil nil n = refl
  swapped_children nil (cons t ts) n = absurd (omega arith)
  swapped_children (cons u us) nil n = absurd (omega arith)
  swapped_children (cons u us) (cons t ts) n =
      cc (swapped u t, swapped_children us ts (omega arith))

-- What `type_intersection` keeps is said by both types, if the `any` in them has no children: so
-- narrowing a slot by it excludes neither. The order of the two types does not matter.
pub type_intersection-below :
    (a b : Ty)
    → is_plain a ≡ true
    → is_plain b ≡ true
    → Refines (type_intersection a b) a
      × Refines (type_intersection a b) b
      × (type_intersection a b ≡ type_intersection b a)
type_intersection-below a b pa pb =
    (below_left a b pa, subst (λ t. Refines t b) (swapped b a) (below_left b a pb), swapped a b)
