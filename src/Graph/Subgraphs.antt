-- ===== src/Graph/Subgraphs.antt =====
-- `graph_of_disjoint_subgraphs` of compiler/src/graph.rs.
use live_programming_prototy.Prelude.{
  ℕ, ◌+◌, List, [], ◌∷◌, ◌++◌, none, some, leb, ◌==◌, if◌then◌else◌, lookup, insert, nat_eq,
  Outcome, ok, panicked, ◌>>=◌,
}
use live_programming_prototy.Graph.{DirectedGraph, edges}

-- `vert_map`: the subgraph that each vertex is in.
abbrev map_vertices : ℕ → List ℕ → List (ℕ × ℕ) → List (ℕ × ℕ)
map_vertices b [] m = m
map_vertices b (a ∷ vs) m = map_vertices b vs (insert a b m)

abbrev map_subgraphs : ℕ → List (List ℕ) → List (ℕ × ℕ) → List (ℕ × ℕ)
map_subgraphs b [] m = m
map_subgraphs b (s ∷ ss) m = map_subgraphs (b + 1) ss (map_vertices b s m)

-- The edges out of one vertex, and out of the vertices of a subgraph
abbrev pub Edges : Type 0
Edges = Outcome ⊥ (List ℕ)

unfoldable pub edges_to : List (ℕ × ℕ) → ℕ → List ℕ → List ℕ → Edges
edges_to m new_a [] out = ok out
edges_to m new_a (old_b ∷ bs) out = elim (lookup old_b m) [
  | none ↦ panicked
  | some new_b ↦ edges_to m new_a bs (if new_a == new_b then out else out ++ new_b ∷ [])
]

unfoldable pub edges_of : DirectedGraph → List (ℕ × ℕ) → ℕ → List ℕ → List ℕ → Edges
unfolding edges_to
edges_of g m new_a [] out = ok out
edges_of g m new_a (old_a ∷ vs) out = elim (edges g old_a) [
  | none ↦ panicked
  | some bs ↦ do out' ← edges_to m new_a bs out; edges_of g m new_a vs out'
]

-- `sort` and `dedup`
abbrev sorted_insert : ℕ → List ℕ → List ℕ
sorted_insert a [] = a ∷ []
sorted_insert a (b ∷ l) = if leb a b then a ∷ b ∷ l else b ∷ sorted_insert a l

abbrev pub sort : List ℕ → List ℕ
sort [] = []
sort (a ∷ l) = sorted_insert a (sort l)

abbrev keep : ℕ → List ℕ → List ℕ
keep a [] = a ∷ []
keep a (b ∷ l) = if a == b then b ∷ l else a ∷ b ∷ l

abbrev pub dedup : List ℕ → List ℕ
dedup [] = []
dedup (a ∷ l) = keep a (dedup l)

-- The loop that builds the new graph
unfoldable pub build : DirectedGraph → List (ℕ × ℕ) → ℕ → List (List ℕ) → Outcome ⊥ (List (List ℕ))
unfolding edges_of
build g m new_a [] = ok []
build g m new_a (s ∷ ss) = do
  out ← edges_of g m new_a s []
  rest ← build g m (new_a + 1) ss
  ok (dedup (sort out) ∷ rest)

-- `graph_of_disjoint_subgraphs`
unfoldable pub graph_of_disjoint_subgraphs : List (List ℕ) → DirectedGraph → Outcome ⊥ DirectedGraph
unfolding build
graph_of_disjoint_subgraphs subgraphs g = do
  vertex_edges ← build g (map_subgraphs 0 subgraphs []) 0 subgraphs
  ok (record { vertex_edges = vertex_edges })
