-- ===== src/Graph.antt =====
-- compiler/src/graph.rs: directed graphs and the order in which units are compiled.
pub mod Walks
pub mod Topological
pub mod Components
pub mod Subgraphs
mod Tests
use live_programming_prototy.Prelude.{ℕ, List, length, get_elem?, Option}

-- `DirectedGraph`: the list at index `i` holds the targets of the edges of `i`.
pub record DirectedGraph : Type 0 where
  pub vertex_edges : List (List ℕ)

-- `none` is an index out of bounds, where the source panics.
abbrev pub edges : DirectedGraph → ℕ → Option (List ℕ)
edges g i = get_elem? g.vertex_edges i

abbrev pub vertex_count : DirectedGraph → ℕ
vertex_count g = length g.vertex_edges
