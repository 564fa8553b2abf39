-- ===== src/Types/Slots/Tests.antt =====
-- compiler/src/types/slots.rs at a slot that holds a float literal.
use live_programming_prototy.Prelude.{
  ◌≡◌, ◌≢◌, ◌↔◌, ◌⊎◌, refl, true, false, [], ◌∷◌, Bool, ok, panicked, contains, nat_eq,
}
use live_programming_prototy.Types.{Ty, node, nil, prim, f64, abstract, float, ptr, length}
use live_programming_prototy.Types.Kinds.{displays}
use live_programming_prototy.Types.Unify.{UnifyResult, incremental_unify}
use live_programming_prototy.Types.Unify.Order.{is_mono}
use live_programming_prototy.Types.Unify.Bounds.{Above}
use live_programming_prototy.Types.TypeGraph.{empty_graph, type_updated}
use live_programming_prototy.Types.Slots.{
  Inferring, get_or_any, unify_slot, update_type, update_type_mut,
}
use live_programming_prototy.Types.Slots.Update.{update_type-dirty, update_type-Above}
use live_programming_prototy.Types.Slots.Mutate.{update_type_mut_returns, update_type_mut_settles}

abbrev literal : Ty
literal = node (abstract float) nil

abbrev double : Ty
double = node (prim f64) nil

abbrev one_slot : Inferring
one_slot = record { located = 3 ∷ []; types = (3, literal) ∷ []; graph = empty_graph; errors = [] }

literal_mono : is_mono literal ≡ true
unfolding is_mono
literal_mono = refl

double_mono : is_mono double ≡ true
unfolding is_mono
double_mono = refl

double_success : (incremental_unify double literal).1.unify_success ≡ true
unfolding incremental_unify length
double_success = refl

abbrev updated : Inferring × UnifyResult
updated = (
  record {
    located = 3 ∷ [];
    types = (3, double) ∷ [];
    graph = record empty_graph { dirty_slots = 3 ∷ [] };
    errors = [];
  },
  (incremental_unify double literal).1,
)

updates : update_type one_slot 3 double ≡ ok updated
unfolding update_type unify_slot incremental_unify type_updated length
updates = refl

update_type-dirty_example : (contains updated.0.graph.dirty_slots 3 ≡ true) ↔ (
    (contains one_slot.graph.dirty_slots 3 ≡ true)
    ⊎ (get_or_any updated.0 3 ≢ get_or_any one_slot 3))
update_type-dirty_example = update_type-dirty one_slot 3 double updated 3 updates

-- A type that cannot be printed, in conflict with that of the slot, makes the text of the error panic.
unprintable : update_type one_slot 3 (node ptr nil) ≡ panicked
unfolding update_type incremental_unify displays length
unprintable = refl

update_type-Above_example :
    (s' : Inferring) × (update_type one_slot 3 double
      ≡ ok (s', (incremental_unify double literal).1))
    × Above double literal (get_or_any s' 3)
update_type-Above_example =
    update_type-Above one_slot 3 double double_mono literal_mono double_success

update_type_mut_returns_example :
    (t' : Ty) × (changed : Bool) × (update_type_mut one_slot 3 double ≡ ok (updated.0, t', changed))
update_type_mut_returns_example = update_type_mut_returns one_slot 3 double updated updates

update_type_mut_settles_example :
    (s' : Inferring) × (changed : Bool) × (update_type one_slot 3 double
      ≡ ok (s', (incremental_unify double literal).1))
    × (update_type_mut one_slot 3 double ≡ ok (s', get_or_any s' 3, changed))
    × ((changed ≡ false) ↔ (get_or_any s' 3 ≡ double))
update_type_mut_settles_example =
    update_type_mut_settles one_slot 3 double double_mono literal_mono double_success
