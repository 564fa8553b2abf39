-- ===== src/Types/Kinds.antt =====
-- compiler/src/types/types.rs: the tests on a type, what an abstract type stands for, and how a type
-- becomes concrete.
use live_programming_prototy.Prelude.{
  Bool, true, false, not, ◌&&◌, ◌||◌, Option, none, some, if◌then◌else◌,
}
use live_programming_prototy.Common.{Text, text_eq, codes, text_instance}
use live_programming_prototy.Types.{
  PType, void, f64, f32, i64, i32, u64, u32, u16, u8, boolean, AbstractType, float, integer, any,
  TypeContent, prim, fun, def, ptr, abstract, polytype, Ty, Tys, node, nil, cons,
}

-- `PType::from_string`
unfoldable pub ptype_from_string : Text → Option PType
ptype_from_string s =
    if text_eq s (codes "f64")
    then some f64
    else if text_eq s (codes "f32")
    then some f32
    else if text_eq s (codes "bool")
    then some boolean
    else if text_eq s (codes "i64")
    then some i64
    else if text_eq s (codes "u64")
    then some u64
    else if text_eq s (codes "i32")
    then some i32
    else if text_eq s (codes "u32")
    then some u32
    else if text_eq s (codes "u16")
    then some u16
    else if text_eq s (codes "u8")
    then some u8
    else if text_eq s (codes "()")
    then some void
    else none

-- `Type::any`
abbrev pub any_type : Ty
any_type = node (abstract any) nil

-- `Type::float`
unfoldable pub is_float : TypeContent → Bool
is_float (prim f32) = true
is_float (prim f64) = true
is_float _ = false

-- `Type::unsigned_int`
unfoldable pub unsigned_int : TypeContent → Bool
unsigned_int (prim u64) = true
unsigned_int (prim u32) = true
unsigned_int (prim u16) = true
unsigned_int (prim u8) = true
unsigned_int _ = false

-- `Type::signed_int`
unfoldable pub signed_int : TypeContent → Bool
signed_int (prim i64) = true
signed_int (prim i32) = true
signed_int _ = false

-- `Type::int`
unfoldable pub is_int : TypeContent → Bool
unfolding signed_int unsigned_int
is_int c = signed_int c || unsigned_int c

-- `Type::number`
unfoldable pub is_number : TypeContent → Bool
unfolding is_int is_float
is_number c = is_int c || is_float c

-- `Type::pointer`
unfoldable pub is_pointer : TypeContent → Bool
is_pointer ptr = true
is_pointer fun = true
is_pointer _ = false

abbrev pub is_polytype : TypeContent → Bool
is_polytype (polytype _) = true
is_polytype _ = false

-- `if let Def(resolved_name, _) = &t.content { resolved_name == name }`
abbrev def_named : Text → TypeContent → Bool
def_named name (def resolved _) = text_eq resolved name
def_named name _ = false

-- `AbstractType::contains_type`, which reads only the content of the type.
unfoldable pub contains_type : AbstractType → TypeContent → Bool
unfolding is_float is_int
contains_type float c = is_float c
contains_type integer c = is_int c
contains_type any c = true
contains_type (def name) c = def_named name c

-- `if let Abstract(at) = &content { at.contains_type(t) }`
abbrev pub abstract_contains : TypeContent → TypeContent → Bool
abstract_contains (abstract a) c = contains_type a c
abstract_contains _ c = false

-- `AbstractType::default_type`
unfoldable pub default_type : AbstractType → Option Ty
default_type float = some (node (prim f64) nil)
default_type integer = some (node (prim i64) nil)
default_type any = none
default_type (def _) = none

-- `Type::try_harden_literal`
unfoldable pub try_harden_literal : Ty → Option Ty
unfolding default_type
try_harden_literal (node (abstract a) ts) = default_type a
try_harden_literal (node _ ts) = none

abbrev pub is_abstract : TypeContent → Bool
is_abstract (abstract _) = true
is_abstract _ = false

-- `Type::is_concrete`, with its loop over the children.
unfoldable mutual
  pub is_concrete : Ty → Bool
  is_concrete (node c ts) = not (is_abstract c) && all_concrete ts

  pub all_concrete : Tys → Bool
  all_concrete nil = true
  all_concrete (cons t ts) = is_concrete t && all_concrete ts

-- Whether `fmt::Display for Type` prints the type: it panics on a function without a return type and on a pointer
-- without exactly one child.
abbrev pub displays_top : TypeContent → Tys → Bool → Bool
displays_top fun nil below = false
displays_top fun (cons t ts) below = below
displays_top (def name unit_id) ts below = below
displays_top ptr (cons t nil) below = below
displays_top ptr ts below = false
displays_top c ts below = true

unfoldable mutual
  pub displays : Ty → Bool
  displays (node c ts) = let below = all_display ts in displays_top c ts below

  pub all_display : Tys → Bool
  all_display nil = true
  all_display (cons t ts) = displays t && all_display ts
