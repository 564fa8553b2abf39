-- ===== src/Types/Solver/Infer/Resolved.antt =====
-- compiler/src/types/solver.rs: the types that `resolve_abstract_defs` returns.
use live_programming_prototy.Prelude.{
  ◌==◌, ◌≡◌, subst, List, [], ◌∷◌, length, Option, none, some, Bool, true, false, ◌||◌,
  if◌then◌else◌, Outcome, ok, err, panicked, out_of_fuel, ◌>>=◌,
}
use live_programming_prototy.Common.{Text}
use live_programming_prototy.Types.{
  TypeContent, prim, fun, def, ptr, abstract, polytype, float, integer, any, Ty, Tys, node, nil,
  cons, length as type_count,
}
use live_programming_prototy.Types.Instances.{TypeDefinition}
use live_programming_prototy.Types.Directory.{TypeDirectory, find_type_def_in}
use live_programming_prototy.Types.Solver.{Failure, incorrect_type_arguments}
use live_programming_prototy.Types.Solver.Infer.{
  lift, anys, type_arguments, resolve_def, resolve_top, resolve_abstract_defs, resolve_all,
}

-- No part of the type names a definition that is still to be found.
abbrev pub NotPending : TypeContent → Type 0
NotPending (abstract (def name)) = ⊥
NotPending c = Unit

mutual
  pub HasDefs : Ty → Type 0
  HasDefs (node c ts) = NotPending c × AllHaveDefs ts

  pub AllHaveDefs : Tys → Type 0
  AllHaveDefs nil = Unit
  AllHaveDefs (cons t ts) = HasDefs t × AllHaveDefs ts

abbrev Returns : {A : Type 0} → (A → Type 0) → Outcome Failure A → Type 0
Returns P (ok a) = P a
Returns P (err e) = Unit
Returns P panicked = Unit
Returns P out_of_fuel = Unit

anys-AllHaveDefs : (vars : List Text) → AllHaveDefs (anys vars)
unfolding HasDefs
anys-AllHaveDefs [] = tt
anys-AllHaveDefs (v ∷ vs) = ((tt, tt), anys-AllHaveDefs vs)

wrapped-HasDefs :
    (c : TypeContent) (o : Outcome Failure Tys)
    → NotPending c
    → Returns AllHaveDefs o
    → Returns HasDefs (o >>= (λ us. ok (node c us)))
unfolding HasDefs
wrapped-HasDefs c (ok us) n h = (n, h)
wrapped-HasDefs c (err e) n h = tt
wrapped-HasDefs c panicked n h = tt
wrapped-HasDefs c out_of_fuel n h = tt

arguments-HasDefs :
    (vars : List Text) (ts : Tys) (below : Outcome Failure Tys)
    → Returns AllHaveDefs below
    → Returns AllHaveDefs (type_arguments vars ts below)
arguments-HasDefs vars nil below h = anys-AllHaveDefs vars
arguments-HasDefs vars (cons t ts) below h = h

resolve_def-HasDefs :
    (name : Text) (ts : Tys) (below : Outcome Failure Tys) (o : Option TypeDefinition)
    → Returns AllHaveDefs below
    → Returns HasDefs (resolve_def name ts below o)
unfolding resolve_def
resolve_def-HasDefs name ts below none h = tt
resolve_def-HasDefs name ts below (some d) h =
    on_count (type_count ts == length d.type_vars || type_count ts == 0)
  where
    on_count :
        (b : Bool)
        → Returns HasDefs (
            if b
            then (type_arguments d.type_vars ts below >>= (λ us. ok (node (def name d.unit_id) us)))
            else err (incorrect_type_arguments name))
    on_count true =
        wrapped-HasDefs (def name d.unit_id) (type_arguments d.type_vars ts below) tt
          (arguments-HasDefs d.type_vars ts below h)
    on_count false = tt

resolve_top-HasDefs :
    (d : TypeDirectory) (c : TypeContent) (ts : Tys) (below : Outcome Failure Tys)
    → Returns AllHaveDefs below
    → Returns HasDefs (resolve_top d c ts below)
unfolding resolve_top
resolve_top-HasDefs d (abstract (def name)) ts below h = on_found (lift (find_type_def_in d name))
  where
    on_found :
        (o : Outcome Failure (Option TypeDefinition))
        → Returns HasDefs (o >>= resolve_def name ts below)
    on_found (ok o) = resolve_def-HasDefs name ts below o h
    on_found (err e) = tt
    on_found panicked = tt
    on_found out_of_fuel = tt
resolve_top-HasDefs d (abstract float) ts below h = wrapped-HasDefs (abstract float) below tt h
resolve_top-HasDefs d (abstract integer) ts below h = wrapped-HasDefs (abstract integer) below tt h
resolve_top-HasDefs d (abstract any) ts below h = wrapped-HasDefs (abstract any) below tt h
resolve_top-HasDefs d (prim p) ts below h = wrapped-HasDefs (prim p) below tt h
resolve_top-HasDefs d fun ts below h = wrapped-HasDefs fun below tt h
resolve_top-HasDefs d (def name uid) ts below h = wrapped-HasDefs (def name uid) below tt h
resolve_top-HasDefs d ptr ts below h = wrapped-HasDefs ptr below tt h
resolve_top-HasDefs d (polytype v) ts below h = wrapped-HasDefs (polytype v) below tt h

both-AllHaveDefs :
    (o : Outcome Failure Ty) (os : Outcome Failure Tys)
    → Returns HasDefs o
    → Returns AllHaveDefs os
    → Returns AllHaveDefs (o >>= (λ u. os >>= (λ us. ok (cons u us))))
unfolding HasDefs
both-AllHaveDefs (ok u) (ok us) h k = (h, k)
both-AllHaveDefs (ok u) (err e) h k = tt
both-AllHaveDefs (ok u) panicked h k = tt
both-AllHaveDefs (ok u) out_of_fuel h k = tt
both-AllHaveDefs (err e) os h k = tt
both-AllHaveDefs panicked os h k = tt
both-AllHaveDefs out_of_fuel os h k = tt

mutual
  unfolding resolve_abstract_defs HasDefs

  resolved : (d : TypeDirectory) (t : Ty) → Returns HasDefs (resolve_abstract_defs d t)
  resolved d (node c ts) = resolve_top-HasDefs d c ts (resolve_all d ts) (all_resolved d ts)

  all_resolved : (d : TypeDirectory) (ts : Tys) → Returns AllHaveDefs (resolve_all d ts)
  all_resolved d nil = tt
  all_resolved d (cons t ts) =
      both-AllHaveDefs (resolve_abstract_defs d t) (resolve_all d ts) (resolved d t)
        (all_resolved d ts)

-- In a type that `resolve_abstract_defs` returns no part is the bare name of a definition, `Abstract(Def(name))`.
pub resolve_abstract_defs-HasDefs :
    (d : TypeDirectory) (t u : Ty) → resolve_abstract_defs d t ≡ ok u → HasDefs u
resolve_abstract_defs-HasDefs d t u e = subst (Returns HasDefs) e (resolved d t)
