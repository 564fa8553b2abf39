-- ===== src/Types/Polytypes.antt =====
-- compiler/src/types/types.rs: polymorphic types matched against others, and filled in.
pub mod Round
pub mod Match
pub mod Settles
pub mod Tests
use live_programming_prototy.Prelude.{
  ℕ, zero, suc, ◌+◌, ◌==◌, Bool, true, false, not, ◌&&◌, List, [], ◌∷◌, Option, none, some,
  if◌then◌else◌, lookup, insert, insert_key, Outcome, ok, err, panicked, out_of_fuel, ◌>>=◌,
}
use live_programming_prototy.Common.{Text, text_eq, text_instance}
use live_programming_prototy.Types.{
  TypeContent, prim, fun, def, ptr, abstract, polytype, Ty, Tys, node, nil, cons, content, children,
  length, content_eq,
}
use live_programming_prototy.Types.Kinds.{
  any_type, is_polytype, is_abstract, abstract_contains, default_type,
}
use live_programming_prototy.Types.Unify.{unify_types}

-- The types that the type variables are bound to
abbrev pub Bindings : Type 0
Bindings = List (Text × Ty)

-- Whether the types matched, and the bindings afterwards
abbrev pub Matched : Type 0
Matched = Outcome ⊥ (Bool × Bindings)

-- A type variable against the type `t`
abbrev pub rebind : Text → Bindings → Option Ty → Matched
rebind name m none = ok (false, m)
rebind name m (some t) = ok (true, insert name t m)

unfoldable pub bind_polytype : Text → Ty → Bindings → Matched
bind_polytype name t m = elim (lookup name m) [
  | none ↦ ok (true, insert name t m)
  | some bound_type ↦ do unified ← unify_types bound_type t; rebind name m unified
]

-- The tests of `polytype_match_internal` on types that are no type variables, before its loop
unfoldable pub match_content : TypeContent → Tys → TypeContent → Tys → Bindings → Matched → Matched
match_content c ts p ps m below =
    if is_abstract c
    then ok (abstract_contains c p, m)
    else if is_abstract p
    then ok (abstract_contains p c, m)
    else if not (content_eq c p)
    then ok (false, m)
    else if not (length ts == length ps)
    then ok (false, m)
    else below

unfoldable pub match_top : TypeContent → Tys → TypeContent → Tys → Bindings → Matched → Matched
match_top c ts (polytype name) ps m below =
    if is_polytype c then panicked else bind_polytype name (node c ts) m
match_top c ts p ps m below = if is_polytype c then panicked else match_content c ts p ps m below

-- `polytype_match`, with the loop over the children
unfoldable mutual
  unfolding match_top match_content bind_polytype

  pub polytype_match : Bindings → Ty → Ty → Matched
  polytype_match m (node c ts) (node p ps) =
      let below = match_children m ts ps in match_top c ts p ps m below

  pub match_children : Bindings → Tys → Tys → Matched
  match_children m nil ps = ok (true, m)
  match_children m (cons t ts) nil = ok (true, m)
  match_children m (cons t ts) (cons p ps) = do
    matched ← polytype_match m t p
    elim matched.0 [ false ↦ ok (false, matched.1) | true ↦ match_children matched.1 ts ps ]

-- A routine that rebuilds types on each of the children
unfoldable pub each_type : (Ty → Outcome ⊥ Ty) → Tys → Outcome ⊥ Tys
each_type f nil = ok nil
each_type f (cons t ts) = do u ← f t; us ← each_type f ts; ok (cons u us)

abbrev pub bound_or_any : Option Ty → Ty
bound_or_any none = any_type
bound_or_any (some t) = t

abbrev pub fill_in : Bindings → Ty → Ty
fill_in m (node (polytype name) ts) = bound_or_any (lookup name m)
fill_in m t = t

-- `polytype_replace`, which goes on in the type that it has filled in; the fuel bounds the depth of its calls.
unfoldable pub polytype_replace : ℕ → Bindings → Ty → Outcome ⊥ Ty
unfolding each_type
polytype_replace zero m t = out_of_fuel
polytype_replace (suc fuel) m t = do
  ts ← each_type (polytype_replace fuel m) (children (fill_in m t))
  ok (node (content (fill_in m t)) ts)

-- The number of nodes, which bounds the depth of a routine on the type
unfoldable mutual
  pub weight : Ty → ℕ
  weight (node c ts) = suc (weights ts)

  pub weights : Tys → ℕ
  weights nil = 0
  weights (cons t ts) = weight t + weights ts

-- `Type::to_concrete`: the type that it leaves, or `none` for its error. A default type has no children.
abbrev pub above : TypeContent → Option Tys → Option Ty
above (abstract a) ts = default_type a
above (polytype name) ts = none
above c none = none
above c (some ts) = some (node c ts)

abbrev pub beside : Option Ty → Option Tys → Option Tys
beside (some t) (some ts) = some (cons t ts)
beside _ _ = none

unfoldable mutual
  pub to_concrete : Ty → Option Ty
  to_concrete (node c ts) = let below = all_to_concrete ts in above c below

  pub all_to_concrete : Tys → Option Tys
  all_to_concrete nil = some nil
  all_to_concrete (cons t ts) = let u = to_concrete t in let us = all_to_concrete ts in beside u us

-- `Type::find_polytypes`: the names added to those that are there
unfoldable mutual
  pub find_polytypes : Ty → List Text → List Text
  find_polytypes (node (polytype name) ts) names = find_all_polytypes ts (insert_key name names)
  find_polytypes (node c ts) names = find_all_polytypes ts names

  pub find_all_polytypes : Tys → List Text → List Text
  find_all_polytypes nil names = names
  find_all_polytypes (cons t ts) names = find_all_polytypes ts (find_polytypes t names)
