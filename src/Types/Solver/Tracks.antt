-- ===== src/Types/Solver/Tracks.antt =====
-- compiler/src/types/solver.rs: a slot whose type changes is looked at again.
pub mod Moves
pub mod Kinds
use live_programming_prototy.Prelude.{
  ℕ, ◌==◌, ==_iff, ◌≡◌, refl, sym, ap, ◌∙◌, subst, ◌⊎◌, inl, inr, List, [], ◌∷◌, ◌++◌, length,
  Option, none, some, Bool, true, false, not, ◌&&◌, if◌then◌else◌, contains, insert, lookup, nat_eq,
  Outcome, ok, err, panicked, out_of_fuel, ◌>>=◌, arith,
}
use live_programming_prototy.Common.{Text, text_eq, text_instance}
use live_programming_prototy.Types.{Ty, Tys, TypeContent, fun, def, ptr, node, nil, cons, content}
use live_programming_prototy.Types.Kinds.{is_concrete, try_harden_literal}
use live_programming_prototy.Types.Equality.{type_eq, type_eq_iff}
use live_programming_prototy.Types.Constraints.{
  Constraint, ConstraintContent, equivalent, branch, type_parameter, convert, size_of, field_access,
  constructor, function, symbol_def, symbol_reference,
}
use live_programming_prototy.Types.TypeGraph.{TypeGraph, register_typedef, symbol_updated}
use live_programming_prototy.Types.Slots.{Inferring, get_or_any, update_type, update_type_mut}
use live_programming_prototy.Types.Slots.Update.{update_type-dirty}
use live_programming_prototy.Types.Unify.{UnifyResult}
use live_programming_prototy.Types.Instances.{SymbolId, SymbolDefinition}
use live_programming_prototy.Types.Directory.{TypeDirectory, get_symbol, set_type_tag}
use live_programming_prototy.Types.Solver.{
  Failure, report, Solving, Solved, update, update_mut, fail, type_of, register, spread,
  force_equivalence, force_all, known_void, check_cases, branch as solve_branch, update_args,
  check_conversion, convert_slots, can_convert, bad_conversion, to_parent, to_parameter,
  type_parameters, note_size, define_symbol,
}

abbrev pub dirty : Solving → ℕ → Bool
dirty s j = contains s.slots.graph.dirty_slots j

-- What was dirty stays so, and each slot has the type that it had or is dirty.
abbrev pub Tracks : Solving → Solving → Type 0
Tracks s t =
    (j : ℕ)
    → (dirty s j ≡ true → dirty t j ≡ true)
      × ((get_or_any t.slots j ≡ get_or_any s.slots j) ⊎ (dirty t j ≡ true))

pub Tracks-refl : (s : Solving) → Tracks s s
Tracks-refl s j = (λ h. h, inl refl)

pub Tracks-trans : (s t u : Solving) → Tracks s t → Tracks t u → Tracks s u
Tracks-trans s t u f g j = (λ h. (g j).0 ((f j).0 h), both (f j).1 (g j).1)
  where
    both :
        (get_or_any t.slots j ≡ get_or_any s.slots j) ⊎ (dirty t j ≡ true)
        → (get_or_any u.slots j ≡ get_or_any t.slots j) ⊎ (dirty u j ≡ true)
        → (get_or_any u.slots j ≡ get_or_any s.slots j) ⊎ (dirty u j ≡ true)
    both x (inr d) = inr d
    both (inr d) (inl e) = inr ((g j).0 d)
    both (inl d) (inl e) = inl (e ∙ d)

changed_or_same : (a b : Ty) (D : Type 0) → ((a ≡ b → ⊥) → D) → (a ≡ b) ⊎ D
changed_or_same a b D f = on_same (type_eq a b) refl
  where
    on_same : (x : Bool) → type_eq a b ≡ x → (a ≡ b) ⊎ D
    on_same true e = inl ((type_eq_iff a b).0 e)
    on_same false e = inr (f (λ q. ground (arith, e, (type_eq_iff a b).1 q)))

-- Where the routine returns, the state that it leaves tracks the one before.
abbrev pub Keeps : {A : Type 0} → (A → Solving) → Solving → Outcome ⊥ A → Type 0
Keeps f s (ok a) = Tracks s (f a)
Keeps f s (err e) = Unit
Keeps f s panicked = Unit
Keeps f s out_of_fuel = Unit

pub Keeps-after :
    {A : Type 0} (f : A → Solving) (s t : Solving) (o : Outcome ⊥ A)
    → Tracks s t
    → Keeps f t o
    → Keeps f s o
Keeps-after f s t (ok a) h k = Tracks-trans s t (f a) h k
Keeps-after f s t (err e) h k = tt
Keeps-after f s t panicked h k = tt
Keeps-after f s t out_of_fuel h k = tt

pub Keeps-bind :
    {A B : Type 0} (f : A → Solving) (g : B → Solving) (s : Solving) (o : Outcome ⊥ A)
    (k : A → Outcome ⊥ B)
    → Keeps f s o
    → ((a : A) → Keeps g (f a) (k a))
    → Keeps g s (o >>= k)
Keeps-bind f g s (ok a) k h r = Keeps-after g s (f a) (k a) h (r a)
Keeps-bind f g s (err e) k h r = tt
Keeps-bind f g s panicked k h r = tt
Keeps-bind f g s out_of_fuel k h r = tt

-- A routine that reads the state only
pub Keeps-read :
    {A B : Type 0} (g : B → Solving) (s : Solving) (o : Outcome ⊥ A) (k : A → Outcome ⊥ B)
    → ((a : A) → Keeps g s (k a))
    → Keeps g s (o >>= k)
Keeps-read g s (ok a) k r = r a
Keeps-read g s (err e) k r = tt
Keeps-read g s panicked k r = tt
Keeps-read g s out_of_fuel k r = tt

abbrev pub self : Solving → Solving
self s = s

pub unify-Tracks :
    (s : Solving) (slot : ℕ) (t : Ty) (p : Inferring × UnifyResult)
    → update_type s.slots slot t ≡ ok p
    → Tracks s (record s { slots = p.0 })
unify-Tracks s slot t p e j =
    let noted = update_type-dirty s.slots slot t p j e in
    (
      λ h. noted.1 (inl h),
      changed_or_same (get_or_any p.0 j) (get_or_any s.slots j) _ (λ q. noted.1 (inr q)),
    )

pub update-Keeps : (slot : ℕ) (t : Ty) (s : Solving) → Keeps self s (update slot t s)
unfolding update
update-Keeps slot t s = on_update (update_type s.slots slot t) refl
  where
    on_update :
        (o : Outcome ⊥ (Inferring × UnifyResult))
        → update_type s.slots slot t ≡ o
        → Keeps self s (o >>= (λ p. ok (record s { slots = p.0 })))
    on_update (ok p) e = unify-Tracks s slot t p e
    on_update (err x) e = tt
    on_update panicked e = tt
    on_update out_of_fuel e = tt

register_typedef-dirty :
    (g : TypeGraph) (name : Text) (c : Constraint)
    → (register_typedef g name c).dirty_slots ≡ g.dirty_slots
unfolding register_typedef
register_typedef-dirty g name c = ground arith

pub register-Tracks : (name : Text) (c : Constraint) (s : Solving) → Tracks s (register name c s)
unfolding register
register-Tracks name c s j =
    let e = register_typedef-dirty s.slots.graph name c in
    (λ h. subst (λ d. contains d j ≡ true) (sym e) h, inl refl)

pub spread-Keeps : (o : Option Ty) (slot : ℕ) (s : Solving) → Keeps self s (spread o slot s)
spread-Keeps none slot s = Tracks-refl s
spread-Keeps (some t) slot s = update-Keeps slot t s

pub force_equivalence-Keeps : (a b : ℕ) (s : Solving) → Keeps self s (force_equivalence a b s)
unfolding force_equivalence
force_equivalence-Keeps a b s =
    Keeps-bind self self s (spread (type_of s a) b s) _ (spread-Keeps (type_of s a) b s)
      λ t. spread-Keeps (type_of t b) a t

force_all-Keeps :
    (output : ℕ) (cases : List ℕ) (s : Solving) → Keeps self s (force_all output cases s)
unfolding force_all
force_all-Keeps output [] s = Tracks-refl s
force_all-Keeps output (slot ∷ cases) s =
    Keeps-bind self self s (force_equivalence output slot s) _
      (force_equivalence-Keeps output slot s) λ t. force_all-Keeps output cases t

pub Tracks-if :
    (b : Bool) (s t u : Solving) → Tracks s t → Tracks s u → Tracks s (if b then t else u)
Tracks-if true s t u f g = f
Tracks-if false s t u f g = g

pub Keeps-if :
    (s : Solving) (b : Bool) (o p : Solved)
    → Keeps self s o
    → Keeps self s p
    → Keeps self s (if b then o else p)
Keeps-if s true o p h k = h
Keeps-if s false o p h k = k

pub report-Keeps : (b : Bool) (f : Failure) (s : Solving) → Keeps self s (report b f s)
report-Keeps true f s = Tracks-refl s
report-Keeps false f s = tt

check_cases-Keeps :
    (output : ℕ) (all cases : List ℕ) (s : Solving) → Keeps self s (check_cases output all cases s)
unfolding check_cases
check_cases-Keeps output all [] s = force_all-Keeps output all s
check_cases-Keeps output all (slot ∷ cases) s =
    on_type (type_of s slot) (check_cases-Keeps output all cases s)
  where
    on_type :
        (o : Option Ty)
        → Keeps self s (check_cases output all cases s)
        → Keeps self s (elim o as (λ x. Solved) [
          | none ↦ ok s
          | some t ↦
              if known_void t
              then update output t s
              else (if is_concrete t then check_cases output all cases s else ok s)
        ])
    on_type none h = Tracks-refl s
    on_type (some t) h =
        Keeps-if s (known_void t) (update output t s) _ (update-Keeps output t s)
          (Keeps-if s (is_concrete t) (check_cases output all cases s) (ok s) h (Tracks-refl s))

pub branch-Keeps :
    (output : ℕ) (cases : List ℕ) (s : Solving) → Keeps self s (solve_branch output cases s)
unfolding solve_branch
branch-Keeps output cases s = on_type (type_of s output)
  where
    checked : Solved
    checked = check_cases output cases cases s

    on_type :
        (o : Option Ty)
        → Keeps self s (elim o as (λ x. Solved) [
          | none ↦ checked
          | some t ↦
              if known_void t
              then ok s
              else (if is_concrete t then force_all output cases s else checked)
        ])
    on_type none = check_cases-Keeps output cases cases s
    on_type (some t) = Keeps-if s (known_void t) (ok s) _ (Tracks-refl s) (
        Keeps-if s (is_concrete t) (force_all output cases s) checked
          (force_all-Keeps output cases s) (check_cases-Keeps output cases cases s))
