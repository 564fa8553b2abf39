-- ===== src/Types/Solver/Tracks/Kinds.antt =====
-- compiler/src/types/solver.rs: `process_constraint` tracks the changes that it makes.
use live_programming_prototy.Prelude.{
  ℕ, ◌==◌, List, [], ◌∷◌, length, Option, none, some, not, contains, nat_eq, ok,
}
use live_programming_prototy.Common.{Text, text_eq, text_instance}
use live_programming_prototy.Types.{Ty, Tys, fun, def, node, nil, cons}
use live_programming_prototy.Types.Kinds.{is_concrete, displays}
use live_programming_prototy.Types.Constraints.{
  Constraint, ConstraintContent, equivalent, branch, type_parameter, convert, size_of, field_access,
  constructor, function, symbol_def, symbol_reference,
}
use live_programming_prototy.Types.Slots.{get_or_any}
use live_programming_prototy.Types.Solver.{
  Solving, update, update_mut, type_of, register, update_args,
}
use live_programming_prototy.Nodes.{Reference, TypeKind, struct_kind, union_kind}
use live_programming_prototy.Types.Instances.{
  TypeDefinition, ResolvedSymbol, instance_type, field_named, instanced_field_type,
}
use live_programming_prototy.Types.Directory.{get_type_def, find_symbol_in}
use live_programming_prototy.Types.Solver.{
  Failure, report, is_located, has_no_field, incorrect_struct_arguments,
}
use live_programming_prototy.Types.Unify.{type_intersection}
use live_programming_prototy.Types.Solver.Process.{
  listed, resize, call_function, check_name, struct_fields, update_all, construct_struct,
  give_field, construct_union, construct_of, construct, behind_pointers, no_field, give_result,
  access_field, access, unresolved_failure, show_constraint, mark_failed, fail_with,
  unresolved_constraint_error, intersect_all, register_def, refer, refer_to, process,
  process_constraint, process_all,
}
use live_programming_prototy.Types.Solver.Tracks.{
  Tracks, Tracks-refl, Tracks-if, update-Keeps, Keeps-if, report-Keeps, Keeps, Keeps-after,
  Keeps-bind, Keeps-read, self, register-Tracks, force_equivalence-Keeps, branch-Keeps,
}
use live_programming_prototy.Types.Solver.Tracks.Moves.{
  third, update_mut-Keeps, update_args-Keeps, convert_slots-Keeps, type_parameters-Keeps,
  note_size-Tracks, define_symbol-Keeps,
}

call_function-Keeps :
    (slot : ℕ) (args : List ℕ) (return_type : ℕ) (o : Option Ty) (s : Solving)
    → Keeps self s (call_function slot args return_type o s)
unfolding call_function
call_function-Keeps slot args return_type (some (node fun nil)) s = tt
call_function-Keeps slot args return_type (some (node fun (cons r ts))) s =
    Keeps-if s (resize ts args) _ (ok s)
      (Keeps-bind (λ p. p.1) self s (update_args ts args s) _ (update_args-Keeps ts args s)
        λ p.
          Keeps-bind third self p.1 (update_mut return_type r p.1) _
            (update_mut-Keeps return_type r p.1) λ q. update-Keeps slot _ q.2)
      (Tracks-refl s)
call_function-Keeps slot args return_type _ s = Tracks-refl s

check_name-Tracks : (o : Option Text) (field : Text) (s : Solving) → Tracks s (check_name o field s)
check_name-Tracks none field s = Tracks-refl s
check_name-Tracks (some name) field s =
    Tracks-if (not (text_eq name field)) s _ s (Tracks-refl s) (Tracks-refl s)

struct_fields-Keeps :
    (fuel : ℕ) (vars : List Text) (ts : List Ty) (args : List (Option Text × ℕ))
    (fields : List (Reference × Ty)) (s : Solving)
    → Keeps (λ p. p.1) s (struct_fields fuel vars ts args fields s)
unfolding struct_fields
struct_fields-Keeps fuel vars ts [] fields s = Tracks-refl s
struct_fields-Keeps fuel vars ts (arg ∷ args) [] s = Tracks-refl s
struct_fields-Keeps fuel vars ts ((name, slot) ∷ args) ((r, t) ∷ fields) s =
    Keeps-read (λ p. p.1) s (instance_type fuel vars ts t) _
      λ u.
        Keeps-bind (λ p. p.1) (λ p. p.1) s
          (struct_fields fuel vars ts args fields (check_name name r.name s)) _
          (Keeps-after (λ p. p.1) s (check_name name r.name s)
            (struct_fields fuel vars ts args fields (check_name name r.name s))
            (check_name-Tracks name r.name s)
            (struct_fields-Keeps fuel vars ts args fields (check_name name r.name s)))
          λ p. Tracks-refl p.1

update_all-Keeps : (updates : List (ℕ × Ty)) (s : Solving) → Keeps self s (update_all updates s)
update_all-Keeps [] s = Tracks-refl s
update_all-Keeps ((slot, t) ∷ rest) s =
    Keeps-bind self self s (update slot t s) _ (update-Keeps slot t s) λ u. update_all-Keeps rest u

construct_struct-Keeps :
    (fuel def_slot : ℕ) (ts : Tys) (args : List (Option Text × ℕ)) (d : TypeDefinition)
    (s : Solving)
    → Keeps self s (construct_struct fuel def_slot ts args d s)
unfolding construct_struct
construct_struct-Keeps fuel def_slot ts args d s =
    Keeps-if s (length args == length d.fields) _
      (report (is_located def_slot s) (incorrect_struct_arguments def_slot) s)
      (Keeps-bind (λ p. p.1) self s (struct_fields fuel d.type_vars (listed ts) args d.fields s) _
        (struct_fields-Keeps fuel d.type_vars (listed ts) args d.fields s)
        λ p. update_all-Keeps p.0 p.1)
      (report-Keeps (is_located def_slot s) (incorrect_struct_arguments def_slot) s)

construct_union-Keeps :
    (def_slot : ℕ) (args : List (Option Text × ℕ)) (d : TypeDefinition) (s : Solving)
    → Keeps self s (construct_union def_slot args d s)
unfolding construct_union
construct_union-Keeps def_slot ((some name, slot) ∷ []) d s = on_field (field_named name d.fields)
  where
    on_field : (o : Option Ty) → Keeps self s (give_field name slot o s)
    on_field none = Tracks-refl s
    on_field (some t) = update-Keeps slot t s
construct_union-Keeps def_slot [] d s = report-Keeps (is_located def_slot s) _ s
construct_union-Keeps def_slot ((none, slot) ∷ args) d s = report-Keeps (is_located def_slot s) _ s
construct_union-Keeps def_slot ((some name, slot) ∷ arg ∷ args) d s =
    report-Keeps (is_located def_slot s) _ s

construct_of-Keeps :
    (fuel : ℕ) (k : TypeKind) (def_slot : ℕ) (ts : Tys) (args : List (Option Text × ℕ))
    (d : TypeDefinition) (s : Solving)
    → Keeps self s (construct_of fuel k def_slot ts args d s)
construct_of-Keeps fuel struct_kind def_slot ts args d s =
    construct_struct-Keeps fuel def_slot ts args d s
construct_of-Keeps fuel union_kind def_slot ts args d s = construct_union-Keeps def_slot args d s

construct-Keeps :
    (fuel : ℕ) (c : Constraint) (def_slot : ℕ) (args : List (Option Text × ℕ)) (o : Option Ty)
    (s : Solving)
    → Keeps self s (construct fuel c def_slot args o s)
unfolding construct
construct-Keeps fuel c def_slot args (some (node (def name unit_id) ts)) s =
    Keeps-read self s (get_type_def s.directory name unit_id) _ λ d.
      Keeps-after self s (register name c s)
        (construct_of fuel d.kind def_slot ts args d (register name c s)) (register-Tracks name c s)
        (construct_of-Keeps fuel d.kind def_slot ts args d (register name c s))
construct-Keeps fuel c def_slot args _ s = Tracks-refl s

no_field-Keeps : (t : Ty) (field : Text) (s : Solving) → Keeps self s (no_field t field s)
no_field-Keeps t field s =
    Keeps-if s (is_concrete t) _ (ok s) (report-Keeps (displays t) (has_no_field t field) s)
      (Tracks-refl s)

give_result-Keeps :
    (t : Ty) (field : Text) (result : ℕ) (o : Option Ty) (s : Solving)
    → Keeps self s (give_result t field result o s)
give_result-Keeps t field result none s = no_field-Keeps t field s
give_result-Keeps t field result (some u) s = update-Keeps result u s

access_field-Keeps :
    (fuel : ℕ) (c : Constraint) (field : Text) (result : ℕ) (t : Ty) (s : Solving)
    → Keeps self s (access_field fuel c field result t s)
unfolding access_field
access_field-Keeps fuel c field result (node (def name unit_id) ts) s =
    Keeps-read self s (get_type_def s.directory name unit_id) _ λ d.
      Keeps-read self s (instanced_field_type fuel d field (listed ts)) _ λ u.
        Keeps-after self s (register name c s)
          (give_result (node (def name unit_id) ts) field result u (register name c s))
          (register-Tracks name c s)
          (give_result-Keeps (node (def name unit_id) ts) field result u (register name c s))
access_field-Keeps fuel c field result t s = no_field-Keeps t field s

access-Keeps :
    (fuel : ℕ) (c : Constraint) (field : Text) (result : ℕ) (o : Option Ty) (s : Solving)
    → Keeps self s (access fuel c field result o s)
access-Keeps fuel c field result none s = Tracks-refl s
access-Keeps fuel c field result (some t) s =
    access_field-Keeps fuel c field result (behind_pointers t) s

unresolved-Keeps :
    (fuel : ℕ) (c : Constraint) (s : Solving) → Keeps self s (unresolved_constraint_error fuel c s)
unfolding unresolved_constraint_error
unresolved-Keeps fuel c s =
    Keeps-if s (contains s.failed_constraint_ids c.id) (ok s) _ (Tracks-refl s) (
      Keeps-read self s (show_constraint fuel c.content s) _
        λ u. failing (unresolved_failure c.content))
  where
    failing : (o : Option Failure) → Tracks s (fail_with o (mark_failed c.id s))
    failing none = Tracks-refl s
    failing (some f) = Tracks-refl s

refer-Keeps :
    (fuel : ℕ) (c : Constraint) (n result : ℕ) (rs : List ResolvedSymbol) (s : Solving)
    → Keeps self s (refer fuel c n result rs s)
unfolding refer
refer-Keeps fuel c n result [] s = unresolved-Keeps fuel c s
refer-Keeps fuel c n result (r ∷ []) s =
    Keeps-after self s (register_def n r.id s) _ (Tracks-refl s)
      (update-Keeps result r.resolved_type (register_def n r.id s))
refer-Keeps fuel c n result (r ∷ q ∷ rs) s =
    update-Keeps result (intersect_all (type_intersection r.resolved_type q.resolved_type) rs) s

refer_to-Keeps :
    (fuel : ℕ) (c : Constraint) (n : ℕ) (name : Text) (result : ℕ) (s : Solving)
    → Keeps self s (refer_to fuel c n name result s)
unfolding refer_to
refer_to-Keeps fuel c n name result s =
    Keeps-read self s (find_symbol_in fuel s.directory name (get_or_any s.slots result)) _
      λ rs. refer-Keeps fuel c n result rs s

process-Keeps :
    (fuel : ℕ) (c : Constraint) (k : ConstraintContent) (s : Solving)
    → Keeps self s (process fuel c k s)
unfolding process
process-Keeps fuel c (equivalent a b) s = force_equivalence-Keeps a b s
process-Keeps fuel c (branch output cases) s = branch-Keeps output cases s
process-Keeps fuel c (function slot args return_type) s =
    call_function-Keeps slot args return_type (type_of s slot) s
process-Keeps fuel c (constructor def_slot args) s =
    construct-Keeps fuel c def_slot args (type_of s def_slot) s
process-Keeps fuel c (convert val into_type_slot) s = convert_slots-Keeps val into_type_slot s
process-Keeps fuel c (symbol_def symbol_id slot) s = define_symbol-Keeps symbol_id slot s
process-Keeps fuel c (symbol_reference n name result) s = refer_to-Keeps fuel c n name result s
process-Keeps fuel c (field_access container field result) s =
    access-Keeps fuel c field result (type_of s container) s
process-Keeps fuel c (type_parameter parent parameter) s = type_parameters-Keeps parent parameter s
process-Keeps fuel c (size_of n slot) s = note_size-Tracks n (type_of s slot) s

-- Through the loop over the active constraints no change of a type goes unnoticed: where it
-- returns, every slot that was dirty still is, and every slot has the type that it had or is dirty.
pub process_all-Keeps :
    (fuel : ℕ) (cs : List Constraint) (s : Solving) → Keeps self s (process_all fuel cs s)
unfolding process_all process_constraint
process_all-Keeps fuel [] s = Tracks-refl s
process_all-Keeps fuel (c ∷ cs) s =
    Keeps-bind self self s (process fuel c c.content s) _ (process-Keeps fuel c c.content s)
      λ t. process_all-Keeps fuel cs t
