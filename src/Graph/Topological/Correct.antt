-- ===== src/Graph/Topological/Correct.antt =====
-- `valid_topological_ordering` of compiler/src/graph.rs: the whole search.
use live_programming_prototy.Prelude.{
  ℕ, zero, suc, ◌+◌, ◌≤◌, ◌<◌, ◌≡◌, refl, sym, ◌∙◌, subst, Bool, true, false, List, [], ◌∷◌, some,
  length, get_elem?, range_from, elem, All, if◌then◌else◌, length-replicate, Outcome, ok, err,
  panicked, out_of_fuel, ◌>>=◌, arith,
}
use live_programming_prototy.Graph.{DirectedGraph, edges, vertex_count}
use live_programming_prototy.Graph.Walks.{
  IsCyclic, IsWellFormed, All-get_elem?, get_elem?_lt, All-elem,
}
use live_programming_prototy.Graph.Topological.{
  VertFlag, Visiting, Visit, visit_all, finish, enter, visit_at, visit, unvisited, start,
  valid_topological_ordering,
}
use live_programming_prototy.Graph.Topological.Flags.{
  flag_at, flag_at-replicate, fresh, fresh-replicate, fresh-set_active,
}
use live_programming_prototy.Graph.Topological.Order.{IsTopological, IsTopological-acyclic}
use live_programming_prototy.Graph.Topological.Invariant.{
  Inv, Extends-refl, OnPath, Post, Visits, visit_all-Post,
}
use live_programming_prototy.Graph.Topological.Finish.{
  entered, Inv-entered, OnPath-entered, finish-Post,
}

enter-Post :
    (g : DirectedGraph) (s : Visiting) (i : ℕ) (f : VertFlag) (inv : Inv g s)
    (found : get_elem? s.flags i ≡ some f) (c : f.complete ≡ false) (a : f.active ≡ false)
    (ws : List ℕ) (r : Visit)
    → edges g i ≡ some ws
    → Post g (entered g s i f inv found c a) ws r
    → Post g s (i ∷ []) (r >>= finish i)
enter-Post g s i f inv found c a ws (ok t) es (inv', e, all) =
    finish-Post g s i f inv found c a ws t es inv' e all
enter-Post g s i f inv found c a ws (err _) es h = h
enter-Post g s i f inv found c a ws panicked es h = h
enter-Post g s i f inv found c a ws out_of_fuel es h = h

-- The two guards at the head of `visit`.
Post-guards :
    (g : DirectedGraph) (s : Visiting) (i : ℕ) (c a : Bool) (rest : Visit)
    → (c ≡ true → Post g s (i ∷ []) (ok s))
    → (a ≡ true → IsCyclic g)
    → (c ≡ false → a ≡ false → Post g s (i ∷ []) rest)
    → Post g s (i ∷ []) (if c then ok s else if a then err tt else rest)
Post-guards g s i true a rest finished cyclic deep = finished refl
Post-guards g s i false true rest finished cyclic deep = cyclic refl
Post-guards g s i false false rest finished cyclic deep = deep refl refl

-- One call of `visit`, whose recursive calls have `bound` units of fuel.
visit_at-Post :
    (g : DirectedGraph) (bound : ℕ) (step : ℕ → Visiting → Visit)
    → Visits g bound step
    → (i : ℕ) (s : Visiting) (f : VertFlag) (ws : List ℕ) → get_elem? s.flags i ≡ some f
    → edges g i ≡ some ws
    → All (λ w. w < vertex_count g) ws
    → fresh s.flags < suc bound
    → Inv g s
    → OnPath g s i
    → Post g s (i ∷ []) (enter step i f (some ws) s)
unfolding enter
visit_at-Post g bound step visits i s f ws found es r m inv p =
    Post-guards g s i f.complete f.active _ (λ c. (inv, Extends-refl s, (ground arith, tt)))
      (λ a. (i, p i (ground arith)))
      (λ c a.
        let shrinks = fresh-set_active s.flags i f found c a in
        let inside = entered g s i f inv found c a in
        let all =
          visit_all-Post g bound step visits ws inside r (omega arith)
            (Inv-entered g s i f inv found c a)
            (λ w m. OnPath-entered g s i f inv found c a w p (ws, es, m)) in
        enter-Post g s i f inv found c a ws (visit_all step ws inside) es all)

visit-Visits : (g : DirectedGraph) → IsWellFormed g → (fuel : ℕ) → Visits g fuel (visit g fuel)
unfolding visit visit_at
visit-Visits g wf zero i s r f inv p = absurd (omega arith)
visit-Visits g wf (suc fuel) i s r f inv p =
    let (flag, found) = get_elem?_lt s.flags i (omega (arith, inv.sized)) in
    let (ws, es) = get_elem?_lt g.vertex_edges i r in
    rw (found, es)
      (visit_at-Post g fuel (visit g fuel) (visit-Visits g wf fuel) i s flag ws found es
        (All-get_elem? (λ ws. All (λ w. w < vertex_count g) ws) g.vertex_edges i ws wf es) f inv p)

All-range : (P : ℕ → Type 0) (i n : ℕ) → ((v : ℕ) → v < i + n → P v) → All P (range_from i n)
All-range P i zero h = tt
All-range P i (suc n) h = (h i (omega arith), All-range P (i + 1) n (λ v l. h v (omega arith)))

elem-range : (v i n : ℕ) → i ≤ v → v < i + n → elem v (range_from i n) ≡ true
elem-range v i zero a b = absurd (omega arith)
elem-range v i (suc n) a b = ground (arith, elem-range v (i + 1) n)

in_range_of_complete : (fs : List VertFlag) (v : ℕ) → (flag_at fs v).complete ≡ true → v < length fs
in_range_of_complete [] v h = cc
in_range_of_complete (f ∷ fs) zero h = omega arith
in_range_of_complete (f ∷ fs) (suc v) h = omega (arith, in_range_of_complete fs v h)

Inv-start : (g : DirectedGraph) → Inv g (start g)
Inv-start g =
    let none_set = flag_at-replicate (vertex_count g) in
    record {
      sized = length-replicate (vertex_count g) unvisited;
      ordered = tt;
      listed = λ v. ground (arith, none_set v);
      exclusive = λ v h. ground (arith, none_set v);
    }

-- What the result says of the graph.
abbrev pub Decides : DirectedGraph → Outcome (Unit {0}) (List ℕ) → Type 0
Decides g (ok order) = IsTopological g order × (¬ IsCyclic g)
Decides g (err _) = IsCyclic g
Decides g panicked = ⊥
Decides g out_of_fuel = ⊥

Decides-loop :
    (g : DirectedGraph) (r : Visit)
    → Post g (start g) (range_from 0 (vertex_count g)) r
    → Decides g (do s ← r; ok s.ordering)
Decides-loop g (ok s) (inv, e, all) = (found, IsTopological-acyclic g s.ordering found)
  where
    found : IsTopological g s.ordering
    found = record {
      ordered = inv.ordered;
      covers = λ v h.
          inv.listed v
          ∙ All-elem (λ w. (flag_at s.flags w).complete ≡ true) (range_from 0 (vertex_count g)) v
              all (elem-range v 0 (vertex_count g) (omega arith) (omega arith));
      in_range = λ v h.
          subst (λ n. v < n) inv.sized (in_range_of_complete s.flags v (sym (inv.listed v) ∙ h));
    }
Decides-loop g (err _) h = h
Decides-loop g panicked h = h
Decides-loop g out_of_fuel h = h

-- On a graph whose edges index its vertices the routine returns, and does not panic: with `Ok` the
-- graph has no cycle and the list holds every vertex once, behind the targets of its edges; with
-- `Err` some vertex lies on a cycle.
pub valid_topological_ordering-Decides :
    (g : DirectedGraph) → IsWellFormed g → Decides g (valid_topological_ordering g)
unfolding valid_topological_ordering
valid_topological_ordering-Decides g wf =
    let none_set = flag_at-replicate (vertex_count g) in
    let count = fresh-replicate (vertex_count g) in
    Decides-loop g
      (visit_all (visit g (vertex_count g + 1)) (range_from 0 (vertex_count g)) (start g))
      (visit_all-Post g (vertex_count g + 1) (visit g (vertex_count g + 1))
        (visit-Visits g wf (vertex_count g + 1)) (range_from 0 (vertex_count g)) (start g)
        (All-range (λ w. w < vertex_count g) 0 (vertex_count g) (λ v h. omega arith)) (omega arith)
        (Inv-start g) (λ w m v h. ground (arith, none_set v)))
