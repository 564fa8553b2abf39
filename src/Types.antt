-- ===== src/Types.antt =====
-- compiler/src/types/types.rs: the types of the language, as the type checker sees them.
use live_programming_prototy.Prelude.{ℕ, suc, ◌≡◌, refl, ◌↔◌, Bool, true, false, ◌&&◌, ◌==◌, arith}
use live_programming_prototy.Common.{Text, text_eq, text_eq_iff, text_instance}
pub mod Kinds
pub mod Unify
pub mod Constraints
pub mod TypeGraph
pub mod Slots
pub mod Equality
pub mod Directory
pub mod Solver
pub mod Polytypes
pub mod Instances
mod Tests

-- `PType`
pub data PType : Type 0 where
  void f64 f32 i64 i32 u64 u32 u16 u8 boolean : PType

-- `AbstractType`; a `RefStr` is its text.
pub data AbstractType : Type 0 where
  float integer any : AbstractType
  def : Text → AbstractType

-- `TypeContent`; a `UnitId` is the number inside.
pub data TypeContent : Type 0 where
  prim : PType → TypeContent
  fun : TypeContent
  def : Text → ℕ → TypeContent
  ptr : TypeContent
  abstract : AbstractType → TypeContent
  polytype : Text → TypeContent

-- `Type` with its `content` and `children`, and `Vec<Type>`.
mutual
  pub data Ty : Type 0 where
    node : TypeContent → Tys → Ty

  pub data Tys : Type 0 where
    nil : Tys
    cons : Ty → Tys → Tys

abbrev pub content : Ty → TypeContent
content (node c ts) = c

abbrev pub children : Ty → Tys
children (node c ts) = ts

pub length : Tys → ℕ
length nil = 0
length (cons t ts) = suc (length ts)

-- The derived `==` of `PType`, `AbstractType` and `TypeContent`.
abbrev ptype_code : PType → ℕ
ptype_code void = 0
ptype_code f64 = 1
ptype_code f32 = 2
ptype_code i64 = 3
ptype_code i32 = 4
ptype_code u64 = 5
ptype_code u32 = 6
ptype_code u16 = 7
ptype_code u8 = 8
ptype_code boolean = 9

abbrev pub ptype_eq : PType → PType → Bool
ptype_eq p q = ptype_code p == ptype_code q

abbrev pub abstract_eq : AbstractType → AbstractType → Bool
abstract_eq float float = true
abstract_eq integer integer = true
abstract_eq any any = true
abstract_eq (def s) (def t) = text_eq s t
abstract_eq _ _ = false

unfoldable pub content_eq : TypeContent → TypeContent → Bool
content_eq (prim p) (prim q) = ptype_eq p q
content_eq fun fun = true
content_eq (def s u) (def t v) = text_eq s t && u == v
content_eq ptr ptr = true
content_eq (abstract a) (abstract b) = abstract_eq a b
content_eq (polytype s) (polytype t) = text_eq s t
content_eq _ _ = false

ptype_eq_iff : (p q : PType) → (ptype_eq p q ≡ true) ↔ (p ≡ q)
ptype_eq_iff void q = ground arith
ptype_eq_iff _ q = ground arith

abstract_eq_iff : (a b : AbstractType) → (abstract_eq a b ≡ true) ↔ (a ≡ b)
abstract_eq_iff (def s) (def t) = ground (arith, text_eq_iff s t)
abstract_eq_iff _ b = ground arith

pub content_eq_iff : (c d : TypeContent) → (content_eq c d ≡ true) ↔ (c ≡ d)
unfolding content_eq
content_eq_iff (prim p) (prim q) = ground (arith, ptype_eq_iff p q)
content_eq_iff (def s u) (def t v) = ground (arith, text_eq_iff s t)
content_eq_iff (abstract a) (abstract b) = ground (arith, abstract_eq_iff a b)
content_eq_iff (polytype s) (polytype t) = ground (arith, text_eq_iff s t)
content_eq_iff c d = ground arith

pub content_eq_refl : (c : TypeContent) → content_eq c c ≡ true
content_eq_refl c = (content_eq_iff c c).1 refl
