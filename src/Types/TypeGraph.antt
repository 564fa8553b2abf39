-- ===== src/Types/TypeGraph.antt =====
-- compiler/src/types/type_graph.rs: which constraints must run again when a slot or a symbol changes.
pub mod Index
pub mod Boundary
mod Tests
use live_programming_prototy.Prelude.{
  ℕ, List, [], ◌∷◌, ◌++◌, Option, none, some, if◌then◌else◌, lookup, insert, insert_key, nat_eq,
  string_eq,
}
use live_programming_prototy.Common.{Text, text_instance}
use live_programming_prototy.Types.Constraints.{
  Constraint, ConstraintContent, equivalent, branch, type_parameter, convert, size_of, field_access,
  constructor, function, symbol_def, symbol_reference,
}

-- `HashMap<Uid, &Constraint>`
abbrev pub EdgeSet : Type 0
EdgeSet = List (ℕ × Constraint)

-- `TypeGraph`
pub record TypeGraph : Type 0 where
  pub symbol_map : List (Text × List Constraint)
  pub typedef_map : List (Text × EdgeSet)
  pub slot_map : List (ℕ × List Constraint)
  pub dirty_slots : List ℕ
  pub dirty_symbols : List Text

abbrev pub empty_graph : TypeGraph
empty_graph = record {
  symbol_map = [];
  typedef_map = [];
  slot_map = [];
  dirty_slots = [];
  dirty_symbols = [];
}

abbrev pub found : Option (List Constraint) → List Constraint
found none = []
found (some cs) = cs

-- `slot_constraints`
unfoldable pub slot_constraints : TypeGraph → ℕ → List Constraint
slot_constraints g slot = found (lookup slot g.slot_map)

-- `symbol_updated`, given the name of the definition
unfoldable pub symbol_updated : TypeGraph → Text → TypeGraph
symbol_updated g name = record g { dirty_symbols = insert_key name g.dirty_symbols }

-- `type_updated`
unfoldable pub type_updated : TypeGraph → ℕ → TypeGraph
type_updated g slot = record g { dirty_slots = insert_key slot g.dirty_slots }

-- `register_typedef`
unfoldable pub register_typedef : TypeGraph → Text → Constraint → TypeGraph
register_typedef g name c = elim (lookup name g.typedef_map) [
  | some cs ↦ record g { typedef_map = insert name (insert c.id c cs) g.typedef_map }
  | none ↦ record g { typedef_map = insert name (insert c.id c []) g.typedef_map }
]

-- `slot`
unfoldable pub add_slot : TypeGraph → ℕ → Constraint → TypeGraph
add_slot g slot c = record g {
  slot_map = insert slot (found (lookup slot g.slot_map) ++ c ∷ []) g.slot_map;
}

-- `symbol`
unfoldable pub add_symbol : TypeGraph → Text → Constraint → TypeGraph
add_symbol g name c = elim (lookup name g.symbol_map) [
  | some cs ↦ record g { symbol_map = insert name (cs ++ c ∷ []) g.symbol_map }
  | none ↦ record g { symbol_map = insert name (c ∷ []) g.symbol_map }
]

-- `for slot in slots { self.slot(slot, c); }`
unfoldable pub add_slots : TypeGraph → List ℕ → Constraint → TypeGraph
unfolding add_slot
add_slots g [] c = g
add_slots g (s ∷ ss) c = add_slots (add_slot g s c) ss c

-- `for (_, slot) in fields { self.slot(slot, c) }`
unfoldable pub add_fields : TypeGraph → List (Option Text × ℕ) → Constraint → TypeGraph
unfolding add_slot
add_fields g [] c = g
add_fields g ((name, s) ∷ fs) c = add_fields (add_slot g s c) fs c

-- `populate_dependency_map`, on the content of the constraint `c`
unfoldable pub populate : TypeGraph → Constraint → ConstraintContent → TypeGraph
unfolding add_slot add_slots add_fields add_symbol
populate g c (equivalent a b) = add_slot (add_slot g a c) b c
populate g c (branch output cases) = add_slots (add_slot g output c) cases c
populate g c (type_parameter parent parameter) = add_slot (add_slot g parent c) parameter c
populate g c (convert val into_type_slot) = add_slot (add_slot g val c) into_type_slot c
populate g c (field_access container field result) = add_slot (add_slot g container c) result c
populate g c (constructor def_slot fields) = add_fields (add_slot g def_slot c) fields c
populate g c (function f args return_type) =
    add_slot (add_slots (add_slot g f c) args c) return_type c
populate g c (symbol_def symbol_id slot) = add_slot g slot c
populate g c (symbol_reference node name result) = add_slot (add_symbol g name c) result c
populate g c (size_of node slot) = add_slot g slot c

-- The loop of `TypeGraph::new`.
unfoldable pub populate_all : TypeGraph → List Constraint → TypeGraph
unfolding populate
populate_all g [] = g
populate_all g (c ∷ cs) = populate_all (populate g c c.content) cs

-- `TypeGraph::new`
unfoldable pub new_graph : List Constraint → TypeGraph
unfolding populate_all
new_graph = populate_all empty_graph

-- `for &c in cs.iter() { edge_set.insert(c.id, c); }`
unfoldable pub insert_all : EdgeSet → List Constraint → EdgeSet
insert_all edges [] = edges
insert_all edges (c ∷ cs) = insert_all (insert c.id c edges) cs

-- The loops over the drained symbols and slots.
unfoldable pub drain_symbols : TypeGraph → List Text → EdgeSet → EdgeSet
unfolding insert_all
drain_symbols g [] edges = edges
drain_symbols g (name ∷ names) edges =
    drain_symbols g names (insert_all edges (found (lookup name g.symbol_map)))

unfoldable pub drain_slots : TypeGraph → List ℕ → EdgeSet → EdgeSet
unfolding insert_all
drain_slots g [] edges = edges
drain_slots g (s ∷ ss) edges = drain_slots g ss (insert_all edges (found (lookup s g.slot_map)))

-- `find_boundary_constraints`
unfoldable pub find_boundary_constraints : TypeGraph → EdgeSet → TypeGraph × EdgeSet
unfolding drain_symbols drain_slots
find_boundary_constraints g edges = (
  record g { dirty_slots = []; dirty_symbols = [] },
  drain_slots g g.dirty_slots (drain_symbols g g.dirty_symbols edges),
)
