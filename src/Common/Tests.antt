-- ===== src/Common/Tests.antt =====
-- compiler/src/common.rs: the theorem on concrete ids.
use live_programming_prototy.Prelude.{ℕ, ◌≡◌, ◌≢◌, refl, arith}
use live_programming_prototy.Common.{new_generator, next_ids, null_uid}
use live_programming_prototy.Common.Unique.{next_ids-distinct}

abbrev place : ℕ
place = 2

abbrev third_id : ℕ
third_id = 3

next_ids-distinct_example : (place ≡ place) × (third_id ≢ null_uid)
unfolding next_ids
next_ids-distinct_example =
    next_ids-distinct 5 new_generator place place third_id (omega arith) (omega arith) refl refl
