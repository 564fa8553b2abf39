-- ===== src/Types/Polytypes/Settles.antt =====
-- compiler/src/types/types.rs: a match against a type without type variables does not panic.
use live_programming_prototy.Prelude.{
  ◌==◌, ◌≡◌, Bool, true, false, not, ◌||◌, Option, none, some, if◌then◌else◌, lookup, insert,
  Outcome, ok, err, panicked, out_of_fuel, ◌>>=◌,
}
use live_programming_prototy.Common.{Text, text_instance}
use live_programming_prototy.Types.{
  TypeContent, prim, fun, def, ptr, abstract, polytype, Ty, Tys, node, nil, cons, length,
  content_eq,
}
use live_programming_prototy.Types.Kinds.{is_polytype, is_abstract, abstract_contains}
use live_programming_prototy.Types.Unify.{incremental_unify, unify_types}
use live_programming_prototy.Types.Unify.Agree.{unify_types-incremental_unify}
use live_programming_prototy.Types.Polytypes.{
  Bindings, Matched, rebind, bind_polytype, match_content, match_top, polytype_match,
  match_children,
}
use live_programming_prototy.Types.Polytypes.Round.{
  is_monomorphic, all_monomorphic, and_true, neither,
}

-- The routine neither panics nor runs out of fuel.
abbrev pub Settles : {A : Type 0} → Outcome ⊥ A → Type 0
Settles (ok a) = Unit
Settles (err e) = Unit
Settles panicked = ⊥
Settles out_of_fuel = ⊥

pub Settles-bind :
    {A B : Type 0} (o : Outcome ⊥ A) (f : A → Outcome ⊥ B)
    → Settles o
    → ((a : A) → Settles (f a))
    → Settles (o >>= f)
Settles-bind (ok a) f h g = g a
Settles-bind (err e) f h g = tt
Settles-bind panicked f h g = h
Settles-bind out_of_fuel f h g = h

pub unify_types-Settles : (a b : Ty) → Settles (unify_types a b)
unify_types-Settles a b =
    rw (unify_types-incremental_unify a b) (either (incremental_unify a b).1.unify_success)
  where
    either : (s : Bool) → Settles (if s then ok (some (incremental_unify a b).0) else ok none)
    either true = tt
    either false = tt

bind_polytype-Settles : (name : Text) (t : Ty) (m : Bindings) → Settles (bind_polytype name t m)
unfolding bind_polytype
bind_polytype-Settles name t m = on_bound (lookup name m)
  where
    rebind-Settles : (o : Option Ty) → Settles (rebind name m o)
    rebind-Settles none = tt
    rebind-Settles (some u) = tt

    on_bound :
        (o : Option Ty)
        → Settles (elim o as (λ x. Matched) [
          | none ↦ ok (true, insert name t m)
          | some bound_type ↦ unify_types bound_type t >>= rebind name m
        ])
    on_bound none = tt
    on_bound (some b) =
        Settles-bind (unify_types b t) (rebind name m) (unify_types-Settles b t) rebind-Settles

match_content-Settles :
    (c p : TypeContent) (ts ps : Tys) (m : Bindings) (below : Matched)
    → Settles below
    → Settles (match_content c ts p ps m below)
unfolding match_content
match_content-Settles c p ts ps m below h =
    tests (is_abstract c) (is_abstract p) (not (content_eq c p)) (not (length ts == length ps))
  where
    tests :
        (w x y z : Bool)
        → Settles (
            if w
            then ok (abstract_contains c p, m)
            else if x
            then ok (abstract_contains p c, m)
            else if y
            then ok (false, m)
            else if z
            then ok (false, m)
            else below)
    tests true x y z = tt
    tests false true y z = tt
    tests false false true z = tt
    tests false false false true = tt
    tests false false false false = h

match_top-Settles :
    (c p : TypeContent) (ts ps : Tys) (m : Bindings) (below : Matched)
    → is_polytype c ≡ false
    → Settles below
    → Settles (match_top c ts p ps m below)
unfolding match_top
match_top-Settles c (polytype name) ts ps m below h g =
    rw h (bind_polytype-Settles name (node c ts) m)
match_top-Settles c (prim p) ts ps m below h g =
    rw h (match_content-Settles c (prim p) ts ps m below g)
match_top-Settles c fun ts ps m below h g = rw h (match_content-Settles c fun ts ps m below g)
match_top-Settles c (def name u) ts ps m below h g =
    rw h (match_content-Settles c (def name u) ts ps m below g)
match_top-Settles c ptr ts ps m below h g = rw h (match_content-Settles c ptr ts ps m below g)
match_top-Settles c (abstract a) ts ps m below h g =
    rw h (match_content-Settles c (abstract a) ts ps m below g)

next-Settles :
    (r : Bool × Bindings) (rest : Matched)
    → Settles rest
    → Settles (elim r.0 as (λ x. Matched) [ false ↦ ok (false, r.1) | true ↦ rest ])
next-Settles (true, m) rest h = h
next-Settles (false, m) rest h = tt

mutual
  unfolding polytype_match is_monomorphic

  pub polytype_match-Settles :
      (m : Bindings) (t p : Ty) → is_monomorphic t ≡ true → Settles (polytype_match m t p)
  polytype_match-Settles m (node c ts) (node p ps) h =
      let hs = and_true (not (is_abstract c || is_polytype c)) (all_monomorphic ts) h in
      match_top-Settles c p ts ps m (match_children m ts ps)
        (neither (is_abstract c) (is_polytype c) hs.0).1 (match_children-Settles m ts ps hs.1)

  match_children-Settles :
      (m : Bindings) (ts ps : Tys) → all_monomorphic ts ≡ true → Settles (match_children m ts ps)
  match_children-Settles m nil ps h = tt
  match_children-Settles m (cons t ts) nil h = tt
  match_children-Settles m (cons t ts) (cons p ps) h =
      let hs = and_true (is_monomorphic t) (all_monomorphic ts) h in
      Settles-bind (polytype_match m t p) _ (polytype_match-Settles m t p hs.0)
        λ r. next-Settles r (match_children r.1 ts ps) (match_children-Settles r.1 ts ps hs.1)
