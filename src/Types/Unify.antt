-- ===== src/Types/Unify.antt =====
-- compiler/src/types/types.rs: unification of types, in place (`incremental_unify`) and as a value
-- (`unify_types`), and what two types agree on (`type_intersection`).
pub mod Agree
pub mod Changes
pub mod Order
pub mod Bounds
pub mod Least
pub mod Back
pub mod Commute
pub mod Immutable
pub mod Correct
pub mod Intersection
use live_programming_prototy.Prelude.{
  Bool, true, false, not, ◌==◌, Option, none, some, if◌then◌else◌, Outcome, ok, panicked,
}
use live_programming_prototy.Types.{TypeContent, Ty, Tys, node, nil, cons, length, content_eq}
use live_programming_prototy.Types.Kinds.{is_polytype, contains_type, abstract_contains, any_type}

-- `UnifyResult`
pub record UnifyResult : Type 0 where
  pub unify_success : Bool
  pub immutable_type_changed : Bool
  pub mutable_type_changed : Bool

-- `UnifyResult::new`
abbrev pub no_result : UnifyResult
no_result = record {
  unify_success = false;
  immutable_type_changed = false;
  mutable_type_changed = false;
}

-- What `incremental_unify_internal` leaves behind: the value of `new`, that of `result`, and whether
-- it returned `Ok`. The types before an `Err` may have been replaced already.
pub record Unified (A : Type 0) : Type 0 where
  pub new : A
  pub result : UnifyResult
  pub is_ok : Bool

-- The tests before the loop over the children; `below` is what that loop does.
unfoldable pub unify_top :
    TypeContent → Tys → TypeContent → Tys → UnifyResult → Unified Ty → Unified Ty
unfolding content_eq contains_type
unify_top old olds new news r below =
    if is_polytype new
    then record { new = node new news; result = r; is_ok = true }
    else if is_polytype old
    then record { new = node new news; result = r; is_ok = true }
    else if not (content_eq old new)
    then (if abstract_contains old new
        then record {
          new = node new news;
          result = record r { immutable_type_changed = true };
          is_ok = true;
        }
        else if abstract_contains new old
        then record {
          new = node old olds;
          result = record r { mutable_type_changed = true };
          is_ok = true;
        }
        else record { new = node new news; result = r; is_ok = false })
    else if not (length olds == length news)
    then record { new = node new news; result = r; is_ok = false }
    else below

abbrev rebuild : TypeContent → Unified Tys → Unified Ty
rebuild c u = record { new = node c u.new; result = u.result; is_ok = u.is_ok }

-- After the child `t` of the loop: on `Err` the later children are left alone.
unfoldable pub unify_next : Unified Ty → Tys → Unified Tys → Unified Tys
unify_next u news rest =
    if u.is_ok
    then record { new = cons u.new rest.new; result = rest.result; is_ok = rest.is_ok }
    else record { new = cons u.new news; result = u.result; is_ok = false }

unfoldable mutual
  unfolding unify_top unify_next

  pub incremental_unify_internal : Ty → Ty → UnifyResult → Unified Ty
  incremental_unify_internal (node old olds) (node new news) r =
      let below = rebuild new (unify_children olds news r) in unify_top old olds new news r below

  -- `for (i, old) in old.children.iter().enumerate()`, on lists of one length
  pub unify_children : Tys → Tys → UnifyResult → Unified Tys
  unify_children nil news r = record { new = news; result = r; is_ok = true }
  unify_children (cons old olds) nil r = record { new = nil; result = r; is_ok = true }
  unify_children (cons old olds) (cons new news) r =
      let u = incremental_unify_internal old new r in
      let rest = unify_children olds news u.result in unify_next u news rest

-- `incremental_unify`: the new value of its mutable argument, and its result.
unfoldable pub incremental_unify : Ty → Ty → Ty × UnifyResult
unfolding incremental_unify_internal
incremental_unify old new =
    let u = incremental_unify_internal old new no_result in
    (u.new, if u.is_ok then record (u.result) { unify_success = true } else u.result)

-- `CanUnifyResult`
pub data CanUnifyResult : Type 0 where
  can_unify already_equal cannot_unify : CanUnifyResult

-- The tests of `can_unify_types_internal` before its loop.
unfoldable pub can_unify_top :
    TypeContent → Tys → TypeContent → Tys → CanUnifyResult → CanUnifyResult
unfolding content_eq contains_type
can_unify_top u us t ts below =
    if is_polytype u
    then can_unify
    else if is_polytype t
    then can_unify
    else if not (content_eq u t)
    then (if abstract_contains u t
        then can_unify
        else if abstract_contains t u
        then can_unify
        else cannot_unify)
    else if not (length us == length ts)
    then cannot_unify
    else below

-- `unification_required` is the flag of the loop.
unfoldable mutual
  unfolding can_unify_top

  pub can_unify_types_internal : Ty → Ty → CanUnifyResult
  can_unify_types_internal (node u us) (node t ts) =
      let below = can_unify_children us ts false in can_unify_top u us t ts below

  pub can_unify_children : Tys → Tys → Bool → CanUnifyResult
  can_unify_children nil ts required = if required then can_unify else already_equal
  can_unify_children (cons u us) nil required = if required then can_unify else already_equal
  can_unify_children (cons u us) (cons t ts) required = elim (can_unify_types_internal u t) [
    | can_unify ↦ can_unify_children us ts true
    | cannot_unify ↦ cannot_unify
    | already_equal ↦ can_unify_children us ts required
  ]

-- `unify_types`; its panic is "bug in unify_types".
unfoldable pub unify_types : Ty → Ty → Outcome ⊥ (Option Ty)
unfolding incremental_unify can_unify_types_internal
unify_types a b = elim (can_unify_types_internal a b) [
  | can_unify ↦
      let (b', r) = incremental_unify a b in if not r.unify_success then panicked else ok (some b')
  | already_equal ↦ ok (some a)
  | cannot_unify ↦ ok none
]

-- `type_intersection`; `t.children` grows by one for each pair.
unfoldable mutual
  unfolding content_eq

  pub type_intersection : Ty → Ty → Ty
  type_intersection (node a as') (node b bs) =
      let agreed = intersections as' bs in
      if content_eq a b
      then (if length as' == length bs then node a agreed else any_type)
      else any_type

  pub intersections : Tys → Tys → Tys
  intersections nil bs = nil
  intersections (cons a as') nil = nil
  intersections (cons a as') (cons b bs) = cons (type_intersection a b) (intersections as' bs)
