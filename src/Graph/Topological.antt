-- ===== src/Graph/Topological.antt =====
-- `valid_topological_ordering` of compiler/src/graph.rs, with its nested `visit`.
pub mod Flags
pub mod Order
pub mod Invariant
mod Finish
pub mod Correct
use live_programming_prototy.Prelude.{
  ℕ, zero, suc, ◌+◌, Bool, true, false, List, [], ◌∷◌, ◌++◌, Option, none, some, get_elem?, set,
  replicate, range_from, if◌then◌else◌, Outcome, ok, err, panicked, out_of_fuel, ◌>>=◌,
}
use live_programming_prototy.Graph.{DirectedGraph, edges, vertex_count}

pub record VertFlag : Type 0 where
  pub complete : Bool
  pub active : Bool

-- `ordering` and `flags`, which `visit` mutates.
pub record Visiting : Type 0 where
  pub ordering : List ℕ
  pub flags : List VertFlag

-- The unit error stands for `Err(())`.
abbrev pub Visit : Type 0
Visit = Outcome (Unit {0}) Visiting

abbrev pub mark : Visiting → ℕ → VertFlag → Visiting
mark s i f = record s { flags = set s.flags i f }

-- `for &w in ws { visit(w)?; }`
unfoldable pub visit_all : (ℕ → Visiting → Visit) → List ℕ → Visiting → Visit
visit_all step [] s = ok s
visit_all step (w ∷ ws) s = do s' ← step w s; visit_all step ws s'

-- What `visit` does after the loop over the edges.
abbrev pub finish : ℕ → Visiting → Visit
finish i s = ok (record {
  ordering = s.ordering ++ i ∷ [];
  flags = set s.flags i (record { complete = true; active = false });
})

-- The body of `visit` between the two guards and the end, on the flag read at `i`.
unfoldable pub enter : (ℕ → Visiting → Visit) → ℕ → VertFlag → Option (List ℕ) → Visiting → Visit
unfolding visit_all
enter step i f none s = panicked
enter step i f (some ws) s =
    let active = mark s i (record f { active = true }) in
    let rest = visit_all step ws active >>= finish i in
    if f.complete then ok s else if f.active then err tt else rest

unfoldable pub visit_at :
    (ℕ → Visiting → Visit) → ℕ → Option VertFlag → Option (List ℕ) → Visiting → Visit
unfolding enter
visit_at step i none ws s = panicked
visit_at step i (some f) ws s = enter step i f ws s

-- The fuel bounds the depth of the recursion.
unfoldable pub visit : DirectedGraph → ℕ → ℕ → Visiting → Visit
unfolding visit_at
visit g zero i s = out_of_fuel
visit g (suc fuel) i s = visit_at (visit g fuel) i (get_elem? s.flags i) (edges g i) s

abbrev pub unvisited : VertFlag
unvisited = record { complete = false; active = false }

abbrev pub start : DirectedGraph → Visiting
start g = record { ordering = []; flags = replicate (vertex_count g) unvisited }

unfoldable pub valid_topological_ordering : DirectedGraph → Outcome (Unit {0}) (List ℕ)
unfolding visit
valid_topological_ordering g = do
  s ← visit_all (visit g (vertex_count g + 1)) (range_from 0 (vertex_count g)) (start g)
  ok s.ordering
