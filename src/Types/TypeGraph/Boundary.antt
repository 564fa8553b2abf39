-- ===== src/Types/TypeGraph/Boundary.antt =====
-- compiler/src/types/type_graph.rs: the constraints that `find_boundary_constraints` collects are
-- those that mention a dirty slot or a dirty symbol.
use live_programming_prototy.Prelude.{
  ℕ, ◌≡◌, refl, ◌∙◌, Bool, false, ◌||◌, List, [], ◌∷◌, ◌==◌, lookup, insert, nat_eq, string_eq,
  arith,
}
use live_programming_prototy.Common.{Text, text_instance}
use live_programming_prototy.Types.Constraints.{Constraint}
use live_programming_prototy.Types.TypeGraph.{
  EdgeSet, TypeGraph, found, new_graph, insert_all, drain_symbols, drain_slots,
  find_boundary_constraints,
}
use live_programming_prototy.Types.TypeGraph.Index.{
  has_id, by_slot, by_symbol, slot_in, symbol_in, by_slot-new_graph, by_symbol-new_graph,
}

-- The edge set holds constraint `i`.
abbrev pub holds : EdgeSet → ℕ → Bool
holds [] i = false
holds ((j, c) ∷ edges) i = j == i || holds edges i

holds-insert :
    (k i : ℕ) (c : Constraint) (edges : EdgeSet)
    → holds (insert k c edges) i ≡ (k == i || holds edges i)
holds-insert k i c [] = refl
holds-insert k i c ((j, d) ∷ edges) = ground (arith, holds-insert k i c edges)

holds-insert_all :
    (cs : List Constraint) (edges : EdgeSet) (i : ℕ)
    → holds (insert_all edges cs) i ≡ (holds edges i || has_id cs i)
unfolding insert_all
holds-insert_all [] edges i = ground arith
holds-insert_all (c ∷ cs) edges i =
    holds-insert_all cs (insert c.id c edges) i ∙ ground (arith, holds-insert c.id i c edges)

-- Some constraint with id `i` has one of these slots in it, refers to one of these symbols.
abbrev pub slots_touch : List Constraint → List ℕ → ℕ → Bool
slots_touch cs [] i = false
slots_touch cs (s ∷ ss) i = slot_in cs s i || slots_touch cs ss i

abbrev pub symbols_touch : List Constraint → List Text → ℕ → Bool
symbols_touch cs [] i = false
symbols_touch cs (n ∷ ns) i = symbol_in cs n i || symbols_touch cs ns i

module _ (cs : List Constraint) (g : TypeGraph)
    (slots_as_built : (j i : ℕ) → by_slot g j i ≡ slot_in cs j i)
    (symbols_as_built : (n : Text) (i : ℕ) → by_symbol g n i ≡ symbol_in cs n i) where
  holds-drain_slots :
      (ss : List ℕ) (edges : EdgeSet) (i : ℕ)
      → holds (drain_slots g ss edges) i ≡ (holds edges i || slots_touch cs ss i)
  unfolding drain_slots
  holds-drain_slots [] edges i = ground arith
  holds-drain_slots (s ∷ ss) edges i =
      holds-drain_slots ss (insert_all edges (found (lookup s g.slot_map))) i
      ∙ ground (arith, holds-insert_all (found (lookup s g.slot_map)) edges i, slots_as_built s i)

  holds-drain_symbols :
      (ns : List Text) (edges : EdgeSet) (i : ℕ)
      → holds (drain_symbols g ns edges) i ≡ (holds edges i || symbols_touch cs ns i)
  unfolding drain_symbols
  holds-drain_symbols [] edges i = ground arith
  holds-drain_symbols (n ∷ ns) edges i =
      holds-drain_symbols ns (insert_all edges (found (lookup n g.symbol_map))) i
      ∙ ground
          (arith, holds-insert_all (found (lookup n g.symbol_map)) edges i, symbols_as_built n i)

-- The graph of the constraints `cs`, later in the inference.
abbrev pub later_graph : List Constraint → List (Text × EdgeSet) → List ℕ → List Text → TypeGraph
later_graph cs typedefs slots symbols = record (new_graph cs) {
  typedef_map = typedefs;
  dirty_slots = slots;
  dirty_symbols = symbols;
}

-- On the graph built from the constraints `cs`, whatever slots and symbols were marked dirty since:
-- a constraint is in the edge set afterwards exactly if it was there before, or has a dirty slot in
-- it, or refers to a dirty symbol; and nothing is dirty any more.
pub find_boundary_constraints-holds :
    (cs : List Constraint) (typedefs : List (Text × EdgeSet)) (slots : List ℕ) (symbols : List Text)
    (edges : EdgeSet) (i : ℕ)
    → (holds (find_boundary_constraints (later_graph cs typedefs slots symbols) edges).1 i
        ≡ (holds edges i || (slots_touch cs slots i || symbols_touch cs symbols i)))
      × ((find_boundary_constraints (later_graph cs typedefs slots symbols) edges).0
          ≡ later_graph cs typedefs [] [])
unfolding find_boundary_constraints
find_boundary_constraints-holds cs typedefs slots symbols edges i =
    let g = later_graph cs typedefs slots symbols in
    (
      ground (
        arith,
        holds-drain_slots cs g (by_slot-new_graph cs) (by_symbol-new_graph cs) slots
            (drain_symbols g symbols edges) i,
        holds-drain_symbols cs g (by_slot-new_graph cs) (by_symbol-new_graph cs) symbols edges i,
      ),
      refl,
    )
