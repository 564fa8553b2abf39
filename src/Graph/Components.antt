-- ===== src/Graph/Components.antt =====
-- `get_strongly_connected_components` of compiler/src/graph.rs: Tarjan's algorithm.
use live_programming_prototy.Prelude.{
  ℕ, zero, suc, ◌+◌, Bool, true, false, not, List, [], ◌∷◌, ◌++◌, map, none, some, get_elem?, set,
  leb, ◌==◌, range_from, if◌then◌else◌, Outcome, ok, panicked, out_of_fuel, ◌>>=◌,
}
use live_programming_prototy.Graph.{DirectedGraph, edges, vertex_count}

-- `TarjanVert`
pub record TarjanVert : Type 0 where
  pub index : ℕ
  pub lowlink : ℕ
  pub on_stack : Bool
  pub visited : Bool

-- `Tarjan` without its graph. The top of the stack comes first.
pub record Tarjan : Type 0 where
  pub stack : List ℕ
  pub strongly_connected_components : List (List ℕ)
  pub verts : List TarjanVert

abbrev pub Search : Type 0
Search = Outcome ⊥ Tarjan

abbrev read : Tarjan → ℕ → Outcome ⊥ TarjanVert
read s v = elim (get_elem? s.verts v) [ none ↦ panicked | some t ↦ ok t ]

abbrev write : Tarjan → ℕ → TarjanVert → Tarjan
write s v t = record s { verts = set s.verts v t }

abbrev min : ℕ → ℕ → ℕ
min a b = if leb a b then a else b

-- `self.verts[v].lowlink = min(self.verts[v].lowlink, low)`
abbrev lower : ℕ → ℕ → Tarjan → Search
lower v low s = do t ← read s v; ok (write s v (record t { lowlink = min t.lowlink low }))

-- The body of the loop over the edges of `v`; `connect` is `strong_connect`.
unfoldable pub follow : (ℕ → Tarjan → Search) → ℕ → ℕ → Tarjan → Search
follow connect v w s =
    let deeper : Search = (do s' ← connect w s; u ← read s' w; lower v u.lowlink s') in
    do
      t ← read s w
      if not t.visited then deeper else if t.on_stack then lower v t.index s else ok s

unfoldable pub follow_all : (ℕ → Tarjan → Search) → ℕ → List ℕ → Tarjan → Search
unfolding follow
follow_all connect v [] s = ok s
follow_all connect v (w ∷ ws) s = do s' ← follow connect v w s; follow_all connect v ws s'

-- The loop that pops the stack down to `v`; an empty stack is the panic of `unwrap`.
unfoldable pub pop_component : ℕ → List ℕ → List ℕ → Tarjan → Search
pop_component v scc [] s = panicked
pop_component v scc (w ∷ ws) s = do
  t ← read s w
  let popped : Tarjan = record (write s w (record t { on_stack = false })) { stack = ws }
  let all = scc ++ w ∷ []
  elim (w == v) [
    | true ↦ ok (record popped {
      strongly_connected_components = s.strongly_connected_components ++ all ∷ [];
    })
    | false ↦ pop_component v all ws popped
  ]

-- What `strong_connect` does behind the loop over the edges.
unfoldable pub close_component : ℕ → Tarjan → Search
unfolding pop_component
close_component v s = do
  t ← read s v
  if t.lowlink == t.index then pop_component v [] s.stack s else ok s

-- `strong_connect`; the fuel bounds its depth.
unfoldable pub strong_connect : DirectedGraph → ℕ → ℕ → Tarjan → Search
unfolding follow_all close_component
strong_connect g zero v s = out_of_fuel
strong_connect g (suc fuel) v s = do
  t ← read s v
  let entered : Tarjan = record (write s v (record t { visited = true; on_stack = true })) {
    stack = v ∷ s.stack;
  }
  elim (edges g v) [
    | none ↦ panicked
    | some ws ↦ do
      s' ← follow_all (λ w s. strong_connect g fuel w s) v ws entered
      close_component v s'
  ]

-- The loop of `to_strongly_connected_components`
unfoldable pub connect_all : DirectedGraph → List ℕ → Tarjan → Search
unfolding strong_connect
connect_all g [] s = ok s
connect_all g (v ∷ vs) s = do
  t ← read s v
  s' ← if not t.visited then strong_connect g (vertex_count g + 1) v s else ok s
  connect_all g vs s'

abbrev new_vert : ℕ → TarjanVert
new_vert i = record { index = i; lowlink = i; on_stack = false; visited = false }

-- `get_strongly_connected_components`
unfoldable pub get_strongly_connected_components : DirectedGraph → Outcome ⊥ (List (List ℕ))
unfolding connect_all
get_strongly_connected_components g = do
  s ← connect_all g (range_from 0 (vertex_count g)) (record {
    stack = [];
    strongly_connected_components = [];
    verts = map new_vert (range_from 0 (vertex_count g));
  })
  ok s.strongly_connected_components
