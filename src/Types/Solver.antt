-- ===== src/Types/Solver.antt =====
-- compiler/src/types/solver.rs: the state of inference, its moves, and the constraints between slots.
pub mod Process
pub mod Tracks
pub mod Infer
pub mod Equivalence
mod Tests
use live_programming_prototy.Prelude.{
  ℕ, List, [], ◌∷◌, ◌++◌, Option, none, some, Bool, true, false, ◌&&◌, ◌||◌, not, if◌then◌else◌,
  contains, lookup, insert, nat_eq, Outcome, ok, err, panicked, out_of_fuel, ◌>>=◌,
}
use live_programming_prototy.Common.{Text}
use live_programming_prototy.Location.{TextLocation}
use live_programming_prototy.Types.{
  TypeContent, prim, fun, ptr, void, abstract, Ty, Tys, node, nil, cons, content, children,
  content_eq,
}
use live_programming_prototy.Types.Kinds.{
  any_type, is_concrete, displays, contains_type, abstract_contains, is_pointer, is_number,
  unsigned_int, try_harden_literal,
}
use live_programming_prototy.Types.Instances.{
  SymbolId, symbol_instance, SymbolDefinition, TypeMapping, ResolvedSymbol,
}
use live_programming_prototy.Types.Constraints.{Constraint}
use live_programming_prototy.Types.TypeGraph.{symbol_updated, register_typedef}
use live_programming_prototy.Types.Slots.{Inferring, get, get_or_any, update_type, update_type_mut}
use live_programming_prototy.Types.Directory.{TypeDirectory, unwrap, get_symbol, set_type_tag}

-- The errors besides those of `Slots`, with what their messages print
pub data Failure : Type 0 where
  bad_conversion : Ty → Ty → Failure
  incorrect_field_name : Text → Failure
  incorrect_struct_arguments incorrect_union_arguments : ℕ → Failure
  not_in_union : Text → Failure
  has_no_field : Ty → Text → Failure
  definition_unresolved : SymbolId → Failure
  reference_unresolved : Text → Failure
  access_unresolved : Text → Failure
  parameter_unresolved size_unresolved : ℕ → Failure
  incorrect_type_arguments type_not_found : Text → Failure

-- What `process_constraint` changes: the slots with the graph and their errors, the definitions, the
-- mapping, and the other errors.
pub record Solving : Type 0 where
  pub slots : Inferring
  pub directory : TypeDirectory
  pub mapping : TypeMapping
  pub failures : List Failure
  pub failed_constraint_ids : List ℕ

abbrev pub Solved : Type 0
Solved = Outcome ⊥ Solving

-- `slots.update_type(g, errors, slot, &t)`
unfoldable pub update : ℕ → Ty → Solving → Solved
update slot t s = do (slots, r) ← update_type s.slots slot t; ok (record s { slots = slots })

-- `slots.update_type_mut(g, errors, slot, t)`
unfoldable pub update_mut : ℕ → Ty → Solving → Outcome ⊥ (Ty × Bool × Solving)
update_mut slot t s = do
  (slots, t', changed) ← update_type_mut s.slots slot t
  ok (t', changed, record s { slots = slots })

-- `errors.push`
abbrev pub fail : Failure → Solving → Solving
fail f s = record s { failures = s.failures ++ f ∷ [] }

-- An error whose text or place cannot be found panics.
abbrev pub require : Bool → Outcome ⊥ (Unit {0})
require b = if b then ok tt else panicked

abbrev pub report : Bool → Failure → Solving → Solved
report found f s = require found >>= (λ u. ok (fail f s))

-- `self.c.loc(slot)` finds a location.
abbrev pub is_located : ℕ → Solving → Bool
is_located slot s = contains s.slots.located slot

abbrev pub type_of : Solving → ℕ → Option Ty
type_of s slot = get s.slots slot

-- `g.register_typedef(name, c)`
unfoldable pub register : Text → Constraint → Solving → Solving
register name c s = record s {
  slots = record (s.slots) { graph = register_typedef s.slots.graph name c };
}

-- `force_equivalence`
abbrev pub spread : Option Ty → ℕ → Solving → Solved
spread none slot s = ok s
spread (some t) slot s = update slot t s

unfoldable pub force_equivalence : ℕ → ℕ → Solving → Solved
force_equivalence a b s = do s' ← spread (type_of s a) b s; spread (type_of s' b) a s'

unfoldable pub force_all : ℕ → List ℕ → Solving → Solved
force_all output [] s = ok s
force_all output (slot ∷ cases) s = do
  s' ← force_equivalence output slot s
  force_all output cases s'

-- The constraint `Branch`

unfoldable pub known_void : Ty → Bool
known_void t = content_eq (content t) (prim void)

-- The check of the cases; `all` are the cases that it then makes equivalent to the output.
unfoldable pub check_cases : ℕ → List ℕ → List ℕ → Solving → Solved
check_cases output all [] s = force_all output all s
check_cases output all (slot ∷ cases) s =
    let rest = check_cases output all cases s in
    elim (type_of s slot) [
      | none ↦ ok s
      | some t ↦ if known_void t then update output t s else if is_concrete t then rest else ok s
    ]

unfoldable pub branch : ℕ → List ℕ → Solving → Solved
branch output cases s = elim (type_of s output) [
  | none ↦ check_cases output cases cases s
  | some t ↦
      if known_void t
      then ok s
      else if is_concrete t
      then force_all output cases s
      else check_cases output cases cases s
]

-- The constraint `Function`
unfoldable pub update_args : Tys → List ℕ → Solving → Outcome ⊥ (Tys × Solving)
update_args nil slots s = ok (nil, s)
update_args (cons t ts) [] s = ok (cons t ts, s)
update_args (cons t ts) (slot ∷ slots) s = do
  (t', changed, s') ← update_mut slot t s
  (ts', s'') ← update_args ts slots s'
  ok (cons t' ts', s'')

-- The constraint `Convert`
unfoldable pub can_convert : TypeContent → TypeContent → Bool
can_convert t into =
    abstract_contains t into
    || (is_pointer t && is_pointer into)
    || (is_number t && is_number into)
    || (is_pointer t && unsigned_int into)
    || (unsigned_int t && is_pointer into)

abbrev pub check_conversion : ℕ → Option Ty → Option Ty → Solving → Solved
check_conversion val (some t) (some into) s =
    if is_concrete t && is_concrete into
    then (if can_convert (content t) (content into)
        then ok s
        else report (displays t && displays into && is_located val s) (bad_conversion t into) s)
    else ok s
check_conversion val _ _ s = ok s

unfoldable pub convert_slots : ℕ → ℕ → Solving → Solved
convert_slots val into_type_slot s =
    check_conversion val (type_of s val) (type_of s into_type_slot) s

-- The constraint `TypeParameter`
abbrev pub or_any_content : Option Ty → TypeContent
or_any_content none = content any_type
or_any_content (some t) = content t

abbrev pub to_parent : ℕ → Option Ty → Solving → Solved
to_parent parent none s = ok s
to_parent parent (some t) s =
    update parent (node (or_any_content (type_of s parent)) (cons t nil)) s

abbrev pub to_parameter : ℕ → Option Ty → Solving → Solved
to_parameter parameter (some (node c (cons t nil))) s = update parameter t s
to_parameter parameter _ s = ok s

unfoldable pub type_parameters : ℕ → ℕ → Solving → Solved
type_parameters parent parameter s = do
  s' ← to_parent parent (type_of s parameter) s
  to_parameter parameter (type_of s' parent) s'

-- The constraint `SizeOf`
abbrev pub note_size : ℕ → Option Ty → Solving → Solving
note_size n none s = s
note_size n (some t) s =
    if is_concrete t
    then record s {
      mapping = record (s.mapping) { sizeof_info = insert n t s.mapping.sizeof_info };
    }
    else s

-- The constraint `SymbolDef`
unfoldable pub define_symbol : SymbolId → ℕ → Solving → Solved
define_symbol symbol_id slot s = do
  def ← get_symbol s.directory symbol_id
  (t, changed, s') ← update_mut slot def.type_tag s
  if changed
      then (do
        directory ← set_type_tag s'.directory symbol_id t
        ok (record s' {
          directory = directory;
          slots = record (s'.slots) { graph = symbol_updated s'.slots.graph def.name };
        }))
      else ok s'

-- `try_harden_slot`
abbrev pub harden : ℕ → Option Ty → Solving → Solved
harden slot none s = ok s
harden slot (some t) s = update slot t s

unfoldable pub try_harden_slot : ℕ → Solving → Solved
try_harden_slot slot s = do t ← unwrap (type_of s slot); harden slot (try_harden_literal t) s
