-- ===== src/Types/Tests.antt =====
-- compiler/src/types/types.rs at concrete types.
use live_programming_prototy.Prelude.{◌≡◌, ◌↔◌, refl, true, false, some, none, ok, if◌then◌else◌}
use live_programming_prototy.Common.{codes, text_eq, text_instance}
use live_programming_prototy.Types.{
  Ty, node, nil, cons, prim, f64, i64, def, abstract, float, fun, length,
}
use live_programming_prototy.Types.Kinds.{any_type, contains_type}
use live_programming_prototy.Types.Unify.{incremental_unify, unify_types, type_intersection}
use live_programming_prototy.Types.Unify.Order.{
  Refines, same, resolved, none as no_types, pair, is_mono,
}
use live_programming_prototy.Types.Unify.Bounds.{Above}
use live_programming_prototy.Types.Unify.Agree.{unify_types-incremental_unify}
use live_programming_prototy.Types.Unify.Correct.{
  incremental_unify-Above, incremental_unify-least, incremental_unify-mutable,
  incremental_unify-immutable, unify_types_comm,
}
use live_programming_prototy.Types.Unify.Intersection.{is_plain, type_intersection-below}

abbrev float_type : Ty
float_type = node (prim f64) nil

abbrev list_of : Ty → Ty
list_of t = node (def (codes "list") 7) (cons t nil)

-- A function from an unresolved list to a float literal, and one from a list of floats to anything.
abbrev left : Ty
left =
    node fun
      (cons (node (abstract float) nil) (cons (node (abstract (def (codes "list"))) nil) nil))

abbrev right : Ty
right = node fun (cons any_type (cons (list_of float_type) nil))

abbrev joined : Ty
joined = node fun (cons (node (abstract float) nil) (cons (list_of float_type) nil))

unify_left-right : unify_types left right ≡ ok (some joined)
unfolding unify_types length text_eq
unify_left-right = refl

unify_clash : unify_types (list_of float_type) (list_of (node (prim i64) nil)) ≡ ok none
unfolding unify_types length text_eq
unify_clash = refl

unify_types-incremental_unify_example : unify_types left right ≡ (
    if (incremental_unify left right).1.unify_success
    then ok (some (incremental_unify left right).0)
    else ok none)
unify_types-incremental_unify_example = unify_types-incremental_unify left right

left_mono : is_mono left ≡ true
unfolding is_mono text_eq
left_mono = refl

right_mono : is_mono right ≡ true
unfolding is_mono text_eq
right_mono = refl

left-right_success : (incremental_unify left right).1.unify_success ≡ true
unfolding incremental_unify length text_eq
left-right_success = refl

left_result : (incremental_unify left right).0 ≡ joined
unfolding incremental_unify length text_eq
left_result = refl

incremental_unify-Above_example : Above left right (incremental_unify left right).0
incremental_unify-Above_example =
    incremental_unify-Above left right left_mono right_mono left-right_success

left-joined : Refines left joined
unfolding contains_type text_eq
left-joined = same refl (pair (same refl no_types) (pair (resolved (λ e. cc) refl) no_types))

right-joined : Refines right joined
unfolding contains_type text_eq
right-joined = same refl (
    pair (resolved (λ e. cc) refl) (pair (same refl (pair (same refl no_types) no_types)) no_types))

incremental_unify-least_example :
    Above left right (incremental_unify left right).0
    × Refines (incremental_unify left right).0 joined
incremental_unify-least_example =
    incremental_unify-least left right joined left_mono right_mono left-right_success left-joined
      right-joined

incremental_unify-mutable_example :
    ((incremental_unify left right).1.mutable_type_changed ≡ false)
    ↔ ((incremental_unify left right).0 ≡ right)
incremental_unify-mutable_example = incremental_unify-mutable left right

incremental_unify-immutable_example :
    ((incremental_unify left right).1.immutable_type_changed ≡ false)
    ↔ ((incremental_unify left right).0 ≡ left)
incremental_unify-immutable_example =
    incremental_unify-immutable left right left_mono right_mono left-right_success

unify_types_comm_example : unify_types left right ≡ unify_types right left
unify_types_comm_example = unify_types_comm left right left_mono right_mono

left_plain : is_plain left ≡ true
unfolding is_plain text_eq
left_plain = refl

right_plain : is_plain right ≡ true
unfolding is_plain text_eq
right_plain = refl

type_intersection-below_example :
    Refines (type_intersection left right) left
    × Refines (type_intersection left right) right
    × (type_intersection left right ≡ type_intersection right left)
type_intersection-below_example = type_intersection-below left right left_plain right_plain
