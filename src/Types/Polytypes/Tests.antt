-- ===== src/Types/Polytypes/Tests.antt =====
-- compiler/src/types/types.rs: the match of a pointer to a type variable.
use live_programming_prototy.Prelude.{◌≡◌, refl, true, [], ◌∷◌, ok, arith}
use live_programming_prototy.Common.{codes, text_eq, text_instance}
use live_programming_prototy.Types.{
  Ty, node, nil, cons, i64, prim, ptr, fun, polytype, content_eq, length,
}
use live_programming_prototy.Types.Kinds.{is_concrete}
use live_programming_prototy.Types.Unify.{unify_types}
use live_programming_prototy.Types.Polytypes.{Bindings, polytype_match, polytype_replace, weight}
use live_programming_prototy.Types.Polytypes.Round.{is_monomorphic}
use live_programming_prototy.Types.Polytypes.Match.{polytype_match-Fills}

abbrev pub int : Ty
int = node (prim i64) nil

-- The function from pointers to integers to integers, and its polymorphic form
abbrev pub read_int : Ty
read_int = node fun (cons int (cons (node ptr (cons int nil)) nil))

abbrev pub read_any : Ty
read_any = node fun (
    cons (node (polytype (codes "T")) nil)
      (cons (node ptr (cons (node (polytype (codes "T")) nil) nil)) nil))

abbrev bound : Bindings
bound = (codes "T", int) ∷ []

read_int-matches : polytype_match [] read_int read_any ≡ ok (true, bound)
unfolding polytype_match content_eq length unify_types text_eq
read_int-matches = refl

pub read_int-monomorphic : is_monomorphic read_int ≡ true
unfolding is_monomorphic
read_int-monomorphic = refl

pub read_any-concrete : is_concrete read_any ≡ true
unfolding is_concrete
read_any-concrete = refl

pub read_int-weight : weight read_int ≡ 4
unfolding weight
read_int-weight = refl

polytype_match-Fills_example : polytype_replace 4 bound read_any ≡ ok read_int
polytype_match-Fills_example =
    polytype_match-Fills read_int read_any bound read_int-monomorphic read_any-concrete
      read_int-matches 4 (omega (arith, read_int-weight))
