-- ===== src/Types/Slots.antt =====
-- compiler/src/types/slots.rs: the types inferred so far, and how a slot takes in one more type.
pub mod Update
pub mod Mutate
mod Tests
use live_programming_prototy.Prelude.{
  ℕ, Bool, true, false, not, ◌&&◌, List, [], ◌∷◌, ◌++◌, Option, none, some, if◌then◌else◌, lookup,
  insert, nat_eq, Outcome, ok, panicked, err, out_of_fuel, ◌>>=◌, contains,
}
use live_programming_prototy.Types.{Ty}
use live_programming_prototy.Types.Kinds.{any_type, is_concrete, displays}
use live_programming_prototy.Types.Unify.{UnifyResult, incremental_unify}
use live_programming_prototy.Types.TypeGraph.{
  TypeGraph, EdgeSet, type_updated, slot_constraints, insert_all,
}

-- The error "conflicting types inferred" at a slot, with the two types that it prints.
pub record Conflict : Type 0 where
  pub slot : ℕ
  pub given : Ty
  pub inferred : Ty

-- `Slots`, the graph and the errors, which `update_type` mutates; `located` are the slots to which
-- `Constraints::slots` gives a location.
pub record Inferring : Type 0 where
  pub located : List ℕ
  pub types : List (ℕ × Ty)
  pub graph : TypeGraph
  pub errors : List Conflict

-- `get`
abbrev pub get : Inferring → ℕ → Option Ty
get s slot = lookup slot s.types

abbrev pub or_any : Option Ty → Ty
or_any none = any_type
or_any (some t) = t

-- `get_or_any`
abbrev pub get_or_any : Inferring → ℕ → Ty
get_or_any s slot = or_any (get s slot)

-- The errors behind a unification; the location of the slot and the texts of both types must be there.
abbrev pub conflicts : Inferring → ℕ → Ty → Ty → Bool → Outcome ⊥ (List Conflict)
conflicts s slot t u true = ok s.errors
conflicts s slot t u false =
    if displays t && displays u && contains s.located slot
    then ok (s.errors ++ (record { slot = slot; given = t; inferred = u }) ∷ [])
    else panicked

-- The writes of `update_type`; a slot without a type holds `any`.
unfoldable pub unify_slot : Inferring → ℕ → Ty → List Conflict → Inferring
unify_slot s slot t errors =
    let (u, r) = incremental_unify t (get_or_any s slot) in
    record {
      located = s.located;
      types = insert slot u s.types;
      graph = if r.mutable_type_changed then type_updated s.graph slot else s.graph;
      errors = errors;
    }

-- `update_type`
unfoldable pub update_type : Inferring → ℕ → Ty → Outcome ⊥ (Inferring × UnifyResult)
update_type s slot t =
    let (u, r) = incremental_unify t (get_or_any s slot) in
    conflicts s slot t u r.unify_success >>= (λ errors. ok (unify_slot s slot t errors, r))

-- The second unification of `update_type_mut`; the panic is "unification is not commutable!".
unfoldable pub unify_back : Inferring → Ty → Ty × UnifyResult → Outcome ⊥ (Inferring × Ty × Bool)
unify_back s t (t', r) = if not r.unify_success then panicked else ok (s, t', true)

unfoldable pub back_into : Inferring → Ty → Option Ty → Outcome ⊥ (Inferring × Ty × Bool)
back_into s t none = panicked
back_into s t (some u) = unify_back s t (incremental_unify u t)

-- `update_type_mut`: the new state, the new value of `t`, and whether `t` was mutated.
abbrev pub mutate : ℕ → Ty → Inferring × UnifyResult → Outcome ⊥ (Inferring × Ty × Bool)
mutate slot t (s, r) =
    if r.immutable_type_changed && r.unify_success
    then back_into s t (get s slot)
    else ok (s, t, false)

unfoldable pub update_type_mut : Inferring → ℕ → Ty → Outcome ⊥ (Inferring × Ty × Bool)
update_type_mut s slot t = update_type s slot t >>= mutate slot t

-- `find_all_unresolved_constraints`, over the slots of the constraints.
unfoldable pub find_all_unresolved_constraints : Inferring → List ℕ → EdgeSet → EdgeSet
find_all_unresolved_constraints s [] edges = edges
find_all_unresolved_constraints s (slot ∷ slots) edges = find_all_unresolved_constraints s slots (
    if elim (get s slot) [ none ↦ true | some t ↦ not (is_concrete t) ]
    then insert_all edges (slot_constraints s.graph slot)
    else edges)
