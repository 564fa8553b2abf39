-- ===== src/Types/Unify/Correct.antt =====
-- compiler/src/types/types.rs: what `incremental_unify`, and `unify_types` promise.
use live_programming_prototy.Prelude.{true, false, ◌≡◌, ◌↔◌, refl, sym, ◌∙◌, arith}
use live_programming_prototy.Types.{Ty}
use live_programming_prototy.Types.Unify.{
  no_result, incremental_unify, incremental_unify_internal, unify_types,
}
use live_programming_prototy.Types.Unify.Order.{Refines, is_mono}
use live_programming_prototy.Types.Unify.Bounds.{Above, incremental_unify_internal-Above}
use live_programming_prototy.Types.Unify.Least.{incremental_unify_internal-least}
use live_programming_prototy.Types.Unify.Agree.{unify_types-incremental_unify, success_kept_lem}
use live_programming_prototy.Types.Unify.Changes.{incremental_unify_internal-Reports}
use live_programming_prototy.Types.Unify.Immutable.{incremental_unify_internal-Asks}
use live_programming_prototy.Types.Unify.Commute.{incremental_unify_internal-Mirror}

-- `incremental_unify` succeeds exactly if its inner function returns `Ok`.
pub success_iff :
    (a b : Ty)
    → (incremental_unify a b).1.unify_success ≡ (incremental_unify_internal a b no_result).is_ok
unfolding incremental_unify
success_iff a b = ground (arith, success_kept_lem a b no_result)

pub new_lem :
    (a b : Ty) → (incremental_unify a b).0 ≡ (incremental_unify_internal a b no_result).new
unfolding incremental_unify
new_lem a b = refl

-- When `incremental_unify` succeeds on two types without polytypes, the type that it leaves says all
-- that both types say.
pub incremental_unify-Above :
    (a b : Ty)
    → is_mono a ≡ true
    → is_mono b ≡ true
    → (incremental_unify a b).1.unify_success ≡ true
    → Above a b (incremental_unify a b).0
unfolding incremental_unify
incremental_unify-Above a b ma mb h =
    incremental_unify_internal-Above a b no_result ma mb (sym (success_iff a b) ∙ h)

-- When `incremental_unify` succeeds on two types without polytypes, the type that it leaves is the least one that
-- refines both: it refines both, and any type `c` that refines both refines it.
pub incremental_unify-least :
    (a b c : Ty)
    → is_mono a ≡ true
    → is_mono b ≡ true
    → (incremental_unify a b).1.unify_success ≡ true
    → Refines a c
    → Refines b c
    → Above a b (incremental_unify a b).0 × Refines (incremental_unify a b).0 c
unfolding incremental_unify
incremental_unify-least a b c ma mb h ha hb = (
  incremental_unify-Above a b ma mb h,
  incremental_unify_internal-least a b c no_result ma mb (sym (success_iff a b) ∙ h) ha hb,
)

-- `mutable_type_changed` is reported exactly if the second type is changed, also when unification
-- fails half way.
pub incremental_unify-mutable :
    (a b : Ty)
    → ((incremental_unify a b).1.mutable_type_changed ≡ false) ↔ ((incremental_unify a b).0 ≡ b)
unfolding incremental_unify
incremental_unify-mutable a b =
    let changed = incremental_unify_internal-Reports a b no_result in
    (λ h. (changed.0 (ground arith)).1, λ e. ground (arith, changed.1 e))

-- When unification of two types without polytypes succeeds, `immutable_type_changed` is reported
-- exactly if the type left differs from the first one.
pub incremental_unify-immutable :
    (a b : Ty)
    → is_mono a ≡ true
    → is_mono b ≡ true
    → (incremental_unify a b).1.unify_success ≡ true
    → ((incremental_unify a b).1.immutable_type_changed ≡ false) ↔ ((incremental_unify a b).0 ≡ a)
unfolding incremental_unify
incremental_unify-immutable a b ma mb h =
    let asked = incremental_unify_internal-Asks a b no_result ma mb (sym (success_iff a b) ∙ h) in
    (λ k. (asked.0 (ground arith)).1, λ e. ground (arith, asked.1 e))

-- For types without polytypes, `unify_types` answers the same both ways round.
pub unify_types_comm :
    (a b : Ty) → is_mono a ≡ true → is_mono b ≡ true → unify_types a b ≡ unify_types b a
unify_types_comm a b ma mb = ground (
  arith,
  unify_types-incremental_unify a b,
  unify_types-incremental_unify b a,
  success_iff a b,
  success_iff b a,
  new_lem a b,
  new_lem b a,
  incremental_unify_internal-Mirror a b no_result no_result ma mb,
)
