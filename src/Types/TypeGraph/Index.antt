-- ===== src/Types/TypeGraph/Index.antt =====
-- compiler/src/types/type_graph.rs: the dependency maps list each constraint under every slot that
-- stands in it, and under the symbol that it refers to.
use live_programming_prototy.Prelude.{
  ℕ, ◌≡◌, refl, ◌∙◌, Bool, false, ◌&&◌, ◌||◌, List, [], ◌∷◌, ◌++◌, Option, ◌==◌, lookup,
  lookup-insert, nat_eq, string_eq, elem, arith,
}
use live_programming_prototy.Common.{Text, text_eq, text_eq_iff, text_instance}
use live_programming_prototy.Types.Constraints.{
  Constraint, ConstraintContent, equivalent, branch, type_parameter, convert, size_of, field_access,
  constructor, function, symbol_def, symbol_reference,
}
use live_programming_prototy.Types.TypeGraph.{
  TypeGraph, empty_graph, found, add_slot, add_symbol, add_slots, add_fields, populate,
  populate_all, new_graph,
}

-- The slots of the fields of a constructor.
abbrev pub field_slots : List (Option Text × ℕ) → List ℕ
field_slots [] = []
field_slots ((name, s) ∷ fs) = s ∷ field_slots fs

-- Every slot that stands in a constraint.
abbrev pub slots_of : ConstraintContent → List ℕ
slots_of (equivalent a b) = a ∷ b ∷ []
slots_of (branch output cases) = output ∷ cases
slots_of (type_parameter parent parameter) = parent ∷ parameter ∷ []
slots_of (convert val into) = val ∷ into ∷ []
slots_of (size_of node slot) = slot ∷ []
slots_of (field_access container field result) = container ∷ result ∷ []
slots_of (constructor def_slot fields) = def_slot ∷ field_slots fields
slots_of (function f args return_type) = f ∷ return_type ∷ args
slots_of (symbol_def symbol_id slot) = slot ∷ []
slots_of (symbol_reference node name result) = result ∷ []

-- The symbol that a constraint refers to by its name.
abbrev pub refers_to : ConstraintContent → Text → Bool
refers_to (symbol_reference node name result) s = text_eq name s
refers_to _ s = false

abbrev pub has_id : List Constraint → ℕ → Bool
has_id [] i = false
has_id (c ∷ cs) i = c.id == i || has_id cs i

has_id-append :
    (xs ys : List Constraint) (i : ℕ) → has_id (xs ++ ys) i ≡ (has_id xs i || has_id ys i)
has_id-append [] ys i = refl
has_id-append (x ∷ xs) ys i = ground (arith, has_id-append xs ys i)

-- Constraint `i` is listed under slot `j`, under symbol `s`.
abbrev pub by_slot : TypeGraph → ℕ → ℕ → Bool
by_slot g j i = has_id (found (lookup j g.slot_map)) i

abbrev pub by_symbol : TypeGraph → Text → ℕ → Bool
by_symbol g s i = has_id (found (lookup s g.symbol_map)) i

by_slot-add_slot :
    (g : TypeGraph) (s : ℕ) (c : Constraint) (j i : ℕ)
    → by_slot (add_slot g s c) j i ≡ (by_slot g j i || s == j && c.id == i)
unfolding add_slot
by_slot-add_slot g s c j i = ground (
  arith,
  lookup-insert s j (found (lookup s g.slot_map) ++ c ∷ []) g.slot_map,
  has_id-append (found (lookup s g.slot_map)) (c ∷ []) i,
)

by_slot-add_slots :
    (g : TypeGraph) (ss : List ℕ) (c : Constraint) (j i : ℕ)
    → by_slot (add_slots g ss c) j i ≡ (by_slot g j i || elem j ss && c.id == i)
unfolding add_slots
by_slot-add_slots g [] c j i = ground arith
by_slot-add_slots g (s ∷ ss) c j i =
    by_slot-add_slots (add_slot g s c) ss c j i ∙ ground (arith, by_slot-add_slot g s c j i)

by_slot-add_fields :
    (g : TypeGraph) (fs : List (Option Text × ℕ)) (c : Constraint) (j i : ℕ)
    → by_slot (add_fields g fs c) j i ≡ (by_slot g j i || elem j (field_slots fs) && c.id == i)
unfolding add_fields
by_slot-add_fields g [] c j i = ground arith
by_slot-add_fields g ((name, s) ∷ fs) c j i =
    by_slot-add_fields (add_slot g s c) fs c j i ∙ ground (arith, by_slot-add_slot g s c j i)

by_slot-add_symbol :
    (g : TypeGraph) (s : Text) (c : Constraint) (j i : ℕ)
    → by_slot (add_symbol g s c) j i ≡ by_slot g j i
unfolding add_symbol
by_slot-add_symbol g s c j i = ground arith

two_slots :
    (g : TypeGraph) (a b : ℕ) (c : Constraint) (j i : ℕ)
    → by_slot (add_slot (add_slot g a c) b c) j i
      ≡ (by_slot g j i || elem j (a ∷ b ∷ []) && c.id == i)
two_slots g a b c j i =
    ground (arith, by_slot-add_slot (add_slot g a c) b c j i, by_slot-add_slot g a c j i)

by_slot-populate :
    (g : TypeGraph) (c : Constraint) (k : ConstraintContent) (j i : ℕ)
    → by_slot (populate g c k) j i ≡ (by_slot g j i || elem j (slots_of k) && c.id == i)
unfolding populate
by_slot-populate g c (equivalent a b) j i = two_slots g a b c j i
by_slot-populate g c (branch output cases) j i =
    ground
      (arith, by_slot-add_slots (add_slot g output c) cases c j i, by_slot-add_slot g output c j i)
by_slot-populate g c (type_parameter a b) j i = two_slots g a b c j i
by_slot-populate g c (convert a b) j i = two_slots g a b c j i
by_slot-populate g c (size_of node s) j i = ground (arith, by_slot-add_slot g s c j i)
by_slot-populate g c (field_access a field b) j i = two_slots g a b c j i
by_slot-populate g c (constructor d fields) j i =
    ground (arith, by_slot-add_fields (add_slot g d c) fields c j i, by_slot-add_slot g d c j i)
by_slot-populate g c (function f args r) j i = ground (
  arith,
  by_slot-add_slot (add_slots (add_slot g f c) args c) r c j i,
  by_slot-add_slots (add_slot g f c) args c j i,
  by_slot-add_slot g f c j i,
)
by_slot-populate g c (symbol_def symbol_id s) j i = ground (arith, by_slot-add_slot g s c j i)
by_slot-populate g c (symbol_reference node name r) j i =
    ground (arith, by_slot-add_slot (add_symbol g name c) r c j i, by_slot-add_symbol g name c j i)

by_symbol-add_slot :
    (g : TypeGraph) (s : ℕ) (c : Constraint) (n : Text) (i : ℕ)
    → by_symbol (add_slot g s c) n i ≡ by_symbol g n i
unfolding add_slot
by_symbol-add_slot g s c n i = refl

by_symbol-add_slots :
    (g : TypeGraph) (ss : List ℕ) (c : Constraint) (n : Text) (i : ℕ)
    → by_symbol (add_slots g ss c) n i ≡ by_symbol g n i
unfolding add_slots
by_symbol-add_slots g [] c n i = refl
by_symbol-add_slots g (s ∷ ss) c n i =
    by_symbol-add_slots (add_slot g s c) ss c n i ∙ by_symbol-add_slot g s c n i

by_symbol-add_fields :
    (g : TypeGraph) (fs : List (Option Text × ℕ)) (c : Constraint) (n : Text) (i : ℕ)
    → by_symbol (add_fields g fs c) n i ≡ by_symbol g n i
unfolding add_fields
by_symbol-add_fields g [] c n i = refl
by_symbol-add_fields g ((name, s) ∷ fs) c n i =
    by_symbol-add_fields (add_slot g s c) fs c n i ∙ by_symbol-add_slot g s c n i

by_symbol-add_symbol :
    (g : TypeGraph) (s : Text) (c : Constraint) (n : Text) (i : ℕ)
    → by_symbol (add_symbol g s c) n i ≡ (by_symbol g n i || text_eq s n && c.id == i)
unfolding add_symbol
by_symbol-add_symbol g s c n i = ground (
  arith,
  text_eq_iff s n,
  lookup-insert s n (found (lookup s g.symbol_map) ++ c ∷ []) g.symbol_map,
  lookup-insert s n (c ∷ []) g.symbol_map,
  has_id-append (found (lookup s g.symbol_map)) (c ∷ []) i,
)

by_symbol-populate :
    (g : TypeGraph) (c : Constraint) (k : ConstraintContent) (n : Text) (i : ℕ)
    → by_symbol (populate g c k) n i ≡ (by_symbol g n i || refers_to k n && c.id == i)
unfolding populate
by_symbol-populate g c (branch output cases) n i = ground (
  arith,
  by_symbol-add_slots (add_slot g output c) cases c n i,
  by_symbol-add_slot g output c n i,
)
by_symbol-populate g c (constructor d fields) n i =
    ground (arith, by_symbol-add_fields (add_slot g d c) fields c n i, by_symbol-add_slot g d c n i)
by_symbol-populate g c (function f args r) n i = ground (
  arith,
  by_symbol-add_slot (add_slots (add_slot g f c) args c) r c n i,
  by_symbol-add_slots (add_slot g f c) args c n i,
  by_symbol-add_slot g f c n i,
)
by_symbol-populate g c (symbol_reference node name r) n i =
    ground
      (arith, by_symbol-add_slot (add_symbol g name c) r c n i, by_symbol-add_symbol g name c n i)
by_symbol-populate g c (equivalent a b) n i =
    ground (arith, by_symbol-add_slot (add_slot g a c) b c n i, by_symbol-add_slot g a c n i)
by_symbol-populate g c (type_parameter a b) n i =
    ground (arith, by_symbol-add_slot (add_slot g a c) b c n i, by_symbol-add_slot g a c n i)
by_symbol-populate g c (convert a b) n i =
    ground (arith, by_symbol-add_slot (add_slot g a c) b c n i, by_symbol-add_slot g a c n i)
by_symbol-populate g c (field_access a field b) n i =
    ground (arith, by_symbol-add_slot (add_slot g a c) b c n i, by_symbol-add_slot g a c n i)
by_symbol-populate g c (size_of node s) n i = ground (arith, by_symbol-add_slot g s c n i)
by_symbol-populate g c (symbol_def symbol_id s) n i = ground (arith, by_symbol-add_slot g s c n i)

-- Some constraint with id `i` has the slot `j` in it, refers to the symbol `n`.
abbrev pub slot_in : List Constraint → ℕ → ℕ → Bool
slot_in [] j i = false
slot_in (c ∷ cs) j i = elem j (slots_of c.content) && c.id == i || slot_in cs j i

abbrev pub symbol_in : List Constraint → Text → ℕ → Bool
symbol_in [] n i = false
symbol_in (c ∷ cs) n i = refers_to c.content n && c.id == i || symbol_in cs n i

by_slot-populate_all :
    (cs : List Constraint) (g : TypeGraph) (j i : ℕ)
    → by_slot (populate_all g cs) j i ≡ (by_slot g j i || slot_in cs j i)
unfolding populate_all
by_slot-populate_all [] g j i = ground arith
by_slot-populate_all (c ∷ cs) g j i =
    by_slot-populate_all cs (populate g c c.content) j i
    ∙ ground (arith, by_slot-populate g c c.content j i)

by_symbol-populate_all :
    (cs : List Constraint) (g : TypeGraph) (n : Text) (i : ℕ)
    → by_symbol (populate_all g cs) n i ≡ (by_symbol g n i || symbol_in cs n i)
unfolding populate_all
by_symbol-populate_all [] g n i = ground arith
by_symbol-populate_all (c ∷ cs) g n i =
    by_symbol-populate_all cs (populate g c c.content) n i
    ∙ ground (arith, by_symbol-populate g c c.content n i)

pub by_slot-new_graph :
    (cs : List Constraint) (j i : ℕ) → by_slot (new_graph cs) j i ≡ slot_in cs j i
unfolding new_graph
by_slot-new_graph cs j i = by_slot-populate_all cs empty_graph j i

pub by_symbol-new_graph :
    (cs : List Constraint) (n : Text) (i : ℕ) → by_symbol (new_graph cs) n i ≡ symbol_in cs n i
unfolding new_graph
by_symbol-new_graph cs n i = by_symbol-populate_all cs empty_graph n i
