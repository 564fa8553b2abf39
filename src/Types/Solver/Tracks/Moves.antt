-- ===== src/Types/Solver/Tracks/Moves.antt =====
-- compiler/src/types/solver.rs: the constraints that read and write a few slots track their changes.
use live_programming_prototy.Prelude.{
  ℕ, List, [], ◌∷◌, Option, none, some, Bool, true, false, ◌&&◌, if◌then◌else◌, nat_eq, Outcome, ok,
  err, panicked, out_of_fuel, ◌≡◌, refl, subst, ◌>>=◌,
}
use live_programming_prototy.Common.{text_instance}
use live_programming_prototy.Types.{Ty, Tys, node, nil, cons, content}
use live_programming_prototy.Types.Kinds.{is_concrete}
use live_programming_prototy.Types.TypeGraph.{symbol_updated}
use live_programming_prototy.Types.Unify.{UnifyResult}
use live_programming_prototy.Types.Slots.{Inferring, update_type, update_type_mut, mutate}
use live_programming_prototy.Types.Slots.Mutate.{update_type_mut_returns}
use live_programming_prototy.Types.Instances.{SymbolId, SymbolDefinition}
use live_programming_prototy.Types.Directory.{TypeDirectory, get_symbol, set_type_tag}
use live_programming_prototy.Types.Solver.{
  Solving, update_mut, type_of, update_args, check_conversion, convert_slots, can_convert,
  bad_conversion, to_parent, to_parameter, type_parameters, note_size, define_symbol,
}
use live_programming_prototy.Types.Solver.Tracks.{
  Tracks, Tracks-refl, Tracks-if, unify-Tracks, update-Keeps, Keeps-if, report-Keeps, Keeps,
  Keeps-bind, Keeps-read, self,
}

abbrev pub third : {A B : Type 0} → A × B × Solving → Solving
third p = p.2

pub update_mut-Keeps : (slot : ℕ) (t : Ty) (s : Solving) → Keeps third s (update_mut slot t s)
unfolding update_mut update_type_mut
update_mut-Keeps slot t s = on_update (update_type s.slots slot t) refl
  where
    on_update :
        (o : Outcome ⊥ (Inferring × UnifyResult))
        → update_type s.slots slot t ≡ o
        → Keeps third s (o >>= mutate slot t >>= (λ q. ok (q.1, q.2, record s { slots = q.0 })))
    on_update (ok p) e =
        let (t', changed, q) = update_type_mut_returns s.slots slot t p e in
        let m : mutate slot t p ≡ ok (p.0, t', changed) =
          subst (λ x. (x >>= mutate slot t) ≡ ok (p.0, t', changed)) e q in
        rw m (unify-Tracks s slot t p e)
    on_update (err x) e = tt
    on_update panicked e = tt
    on_update out_of_fuel e = tt

pub update_args-Keeps :
    (ts : Tys) (slots : List ℕ) (s : Solving) → Keeps (λ p. p.1) s (update_args ts slots s)
unfolding update_args
update_args-Keeps nil slots s = Tracks-refl s
update_args-Keeps (cons t ts) [] s = Tracks-refl s
update_args-Keeps (cons t ts) (slot ∷ slots) s =
    Keeps-bind third (λ p. p.1) s (update_mut slot t s) _ (update_mut-Keeps slot t s)
      λ p.
        Keeps-bind (λ q. q.1) (λ q. q.1) p.2 (update_args ts slots p.2) _
          (update_args-Keeps ts slots p.2) λ q. Tracks-refl q.1

pub convert_slots-Keeps :
    (val into_type_slot : ℕ) (s : Solving) → Keeps self s (convert_slots val into_type_slot s)
unfolding convert_slots
convert_slots-Keeps val into_type_slot s = on_types (type_of s val) (type_of s into_type_slot)
  where
    on_types : (o p : Option Ty) → Keeps self s (check_conversion val o p s)
    on_types none p = Tracks-refl s
    on_types (some t) none = Tracks-refl s
    on_types (some t) (some u) =
        Keeps-if s (is_concrete t && is_concrete u) _ (ok s)
          (Keeps-if s (can_convert (content t) (content u)) (ok s) _ (Tracks-refl s)
            (report-Keeps _ (bad_conversion t u) s))
          (Tracks-refl s)

pub type_parameters-Keeps :
    (parent parameter : ℕ) (s : Solving) → Keeps self s (type_parameters parent parameter s)
unfolding type_parameters
type_parameters-Keeps parent parameter s =
    Keeps-bind self self s (to_parent parent (type_of s parameter) s) _ (up (type_of s parameter))
      λ t. down (type_of t parent) t
  where
    up : (o : Option Ty) → Keeps self s (to_parent parent o s)
    up none = Tracks-refl s
    up (some t) = update-Keeps parent _ s

    down : (o : Option Ty) (s : Solving) → Keeps self s (to_parameter parameter o s)
    down (some (node c (cons t nil))) s = update-Keeps parameter t s
    down none s = Tracks-refl s
    down (some (node c nil)) s = Tracks-refl s
    down (some (node c (cons t (cons u ts)))) s = Tracks-refl s

pub note_size-Tracks : (n : ℕ) (o : Option Ty) (s : Solving) → Tracks s (note_size n o s)
note_size-Tracks n none s = Tracks-refl s
note_size-Tracks n (some t) s = Tracks-if (is_concrete t) s _ s (Tracks-refl s) (Tracks-refl s)

pub define_symbol-Keeps :
    (symbol_id : SymbolId) (slot : ℕ) (s : Solving) → Keeps self s (define_symbol symbol_id slot s)
unfolding define_symbol symbol_updated
define_symbol-Keeps symbol_id slot s = Keeps-read self s (get_symbol s.directory symbol_id) _ λ d.
    Keeps-bind third self s (update_mut slot d.type_tag s) _ (update_mut-Keeps slot d.type_tag s)
      λ p. on_changed d p.1 p.2 (set_type_tag p.2.directory symbol_id p.0)
  where
    on_changed :
        (d : SymbolDefinition) (b : Bool) (t : Solving) (o : Outcome ⊥ TypeDirectory)
        → Keeps self t (
            if b
            then (o >>= (λ directory. ok (record t {
              directory = directory;
              slots = record (t.slots) { graph = symbol_updated t.slots.graph d.name };
            })))
            else ok t)
    on_changed d true t o = Keeps-read self t o _ (λ directory. Tracks-refl t)
    on_changed d false t o = Tracks-refl t
