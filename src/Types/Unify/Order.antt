-- ===== src/Types/Unify/Order.antt =====
-- The order on types that unification climbs: `b` says all that `a` says, and maybe more.
use live_programming_prototy.Prelude.{Bool, true, not, ◌&&◌, ◌≡◌, ◌≢◌, refl, arith}
use live_programming_prototy.Types.{any, TypeContent, abstract, Ty, Tys, node, nil, cons, length}
use live_programming_prototy.Types.Kinds.{is_polytype, contains_type, abstract_contains}

mutual
  pub data Refines : Ty → Ty → Type 0 where
    -- the same content, child by child
    same :
        {c d : TypeContent} {us ts : Tys}
        → c ≡ d
        → RefinesAll us ts
        → Refines (node c us) (node d ts)
    -- an abstract type, and another type that it contains
    resolved :
        {c d : TypeContent} {us ts : Tys}
        → c ≢ d
        → abstract_contains c d ≡ true
        → Refines (node c us) (node d ts)

  pub data RefinesAll : Tys → Tys → Type 0 where
    none : RefinesAll nil nil
    pair :
        {u t : Ty} {us ts : Tys}
        → Refines u t
        → RefinesAll us ts
        → RefinesAll (cons u us) (cons t ts)

-- No polytype stands in the type.
unfoldable mutual
  pub is_mono : Ty → Bool
  is_mono (node c ts) = not (is_polytype c) && all_mono ts

  pub all_mono : Tys → Bool
  all_mono nil = true
  all_mono (cons t ts) = is_mono t && all_mono ts

mutual
  Refines-self : (t : Ty) → Refines t t
  Refines-self (node c ts) = same refl (refines_self_all ts)

  refines_self_all : (ts : Tys) → RefinesAll ts ts
  refines_self_all nil = none
  refines_self_all (cons t ts) = pair (Refines-self t) (refines_self_all ts)

pub Refines-refl : (t : Ty) → Refines t t
Refines-refl = Refines-self

pub RefinesAll-refl : (ts : Tys) → RefinesAll ts ts
RefinesAll-refl = refines_self_all

pub RefinesAll-length : {us ts : Tys} → RefinesAll us ts → length us ≡ length ts
unfolding length
RefinesAll-length none = refl
RefinesAll-length (pair h hs) = omega (arith, RefinesAll-length hs)

-- Two different contents do not contain each other.
pub abstract_contains_antisym :
    (c d : TypeContent) → abstract_contains c d ≡ true → abstract_contains d c ≡ true → c ≡ d
unfolding contains_type
abstract_contains_antisym (abstract any) (abstract any) h k = refl
abstract_contains_antisym (abstract a) (abstract b) h k = ground arith
abstract_contains_antisym c d h k = ground arith
