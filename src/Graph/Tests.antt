-- ===== src/Graph/Tests.antt =====
-- compiler/src/graph.rs at concrete graphs.
use live_programming_prototy.Prelude.{◌≡◌, refl, [], ◌∷◌, ok, err, arith}
use live_programming_prototy.Graph.{DirectedGraph}
use live_programming_prototy.Graph.Components.{get_strongly_connected_components}
use live_programming_prototy.Graph.Subgraphs.{graph_of_disjoint_subgraphs}
use live_programming_prototy.Graph.Topological.{valid_topological_ordering}
use live_programming_prototy.Graph.Topological.Correct.{Decides, valid_topological_ordering-Decides}

abbrev diamond : DirectedGraph
diamond = record { vertex_edges = (1 ∷ 2 ∷ []) ∷ (3 ∷ []) ∷ (3 ∷ []) ∷ [] ∷ [] }

abbrev looped : DirectedGraph
looped = record { vertex_edges = (1 ∷ []) ∷ (2 ∷ []) ∷ (0 ∷ []) ∷ [] }

ordering_of_diamond : valid_topological_ordering diamond ≡ ok (3 ∷ 1 ∷ 2 ∷ 0 ∷ [])
unfolding valid_topological_ordering
ordering_of_diamond = refl

ordering_of_looped : valid_topological_ordering looped ≡ err tt
unfolding valid_topological_ordering
ordering_of_looped = refl

valid_topological_ordering-Decides_example : Decides diamond (valid_topological_ordering diamond)
valid_topological_ordering-Decides_example =
    valid_topological_ordering-Decides diamond (omega arith)

-- Two cycles with an edge from the first to the second, and the graph of the two.
abbrev two_cycles : DirectedGraph
two_cycles = record { vertex_edges = (1 ∷ 2 ∷ []) ∷ (0 ∷ []) ∷ (3 ∷ []) ∷ (2 ∷ []) ∷ [] }

components_of_two_cycles :
    get_strongly_connected_components two_cycles ≡ ok ((3 ∷ 2 ∷ []) ∷ (1 ∷ 0 ∷ []) ∷ [])
unfolding get_strongly_connected_components
components_of_two_cycles = refl

graph_of_two_cycles :
    graph_of_disjoint_subgraphs ((3 ∷ 2 ∷ []) ∷ (1 ∷ 0 ∷ []) ∷ []) two_cycles
    ≡ ok (record { vertex_edges = [] ∷ (0 ∷ []) ∷ [] })
unfolding graph_of_disjoint_subgraphs
graph_of_two_cycles = refl
