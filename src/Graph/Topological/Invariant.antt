-- ===== src/Graph/Topological/Invariant.antt =====
-- The invariant of `visit` in compiler/src/graph.rs, and the loops that call it.
use live_programming_prototy.Prelude.{
  ℕ, ◌≤◌, ◌<◌, ◌≡◌, refl, sym, ◌∙◌, true, false, List, [], ◌∷◌, length, elem, All, ok, err,
  panicked, out_of_fuel, ◌>>=◌, arith,
}
use live_programming_prototy.Graph.{DirectedGraph, vertex_count}
use live_programming_prototy.Graph.Walks.{Walk, IsCyclic}
use live_programming_prototy.Graph.Topological.{Visiting, Visit, visit_all}
use live_programming_prototy.Graph.Topological.Flags.{flag_at, fresh}
use live_programming_prototy.Graph.Topological.Order.{Ordered, elem-cons_tail}

pub record Inv (g : DirectedGraph) (s : Visiting) : Type 0 where
  pub sized : length s.flags ≡ vertex_count g
  pub ordered : Ordered g [] s.ordering
  pub listed : (v : ℕ) → elem v s.ordering ≡ (flag_at s.flags v).complete
  pub exclusive : (v : ℕ) → (flag_at s.flags v).complete ≡ true → (flag_at s.flags v).active ≡ false

-- A visit that returns leaves the active vertices alone and only completes vertices.
pub record Extends (s t : Visiting) : Type 0 where
  pub active_kept : (v : ℕ) → (flag_at t.flags v).active ≡ (flag_at s.flags v).active
  pub complete_kept :
      (v : ℕ) → (flag_at s.flags v).complete ≡ true → (flag_at t.flags v).complete ≡ true
  pub fresh_le : fresh t.flags ≤ fresh s.flags

-- The active vertices are those on the way to `i`.
abbrev pub OnPath : DirectedGraph → Visiting → ℕ → Type 0
OnPath g s i = (v : ℕ) → (flag_at s.flags v).active ≡ true → Walk g v i

abbrev pub Post : DirectedGraph → Visiting → List ℕ → Visit → Type 0
Post g s ws (ok t) = Inv g t × Extends s t × All (λ w. (flag_at t.flags w).complete ≡ true) ws
Post g s ws (err _) = IsCyclic g
Post g s ws panicked = ⊥
Post g s ws out_of_fuel = ⊥

-- What a visit with `bound` units of fuel does.
abbrev pub Visits : DirectedGraph → ℕ → (ℕ → Visiting → Visit) → Type 0
Visits g bound step =
    (i : ℕ) (s : Visiting)
    → i < vertex_count g
    → fresh s.flags < bound
    → Inv g s
    → OnPath g s i
    → Post g s (i ∷ []) (step i s)

pub Extends-refl : (s : Visiting) → Extends s s
Extends-refl s = record {
  active_kept = λ v. refl;
  complete_kept = λ v h. h;
  fresh_le = omega arith;
}

pub Extends-trans : {s t u : Visiting} → Extends s t → Extends t u → Extends s u
Extends-trans a b = record {
  active_kept = λ v. b.active_kept v ∙ a.active_kept v;
  complete_kept = λ v h. b.complete_kept v (a.complete_kept v h);
  fresh_le = omega arith;
}

pub OnPath-Extends :
    {g : DirectedGraph} {s t : Visiting} (i : ℕ) → Extends s t → OnPath g s i → OnPath g t i
OnPath-Extends i e p v a = p v (sym (e.active_kept v) ∙ a)

Post-cons :
    (g : DirectedGraph) (s t : Visiting) (w : ℕ) (ws : List ℕ) (r : Visit)
    → Extends s t
    → (flag_at t.flags w).complete ≡ true
    → Post g t ws r
    → Post g s (w ∷ ws) r
Post-cons g s t w ws (ok u) e c (i, e', all) = (i, Extends-trans e e', (e'.complete_kept w c, all))
Post-cons g s t w ws (err _) e c h = h
Post-cons g s t w ws panicked e c h = h
Post-cons g s t w ws out_of_fuel e c h = h

Post-bind :
    (g : DirectedGraph) (s : Visiting) (w : ℕ) (ws : List ℕ) (o : Visit) (k : Visiting → Visit)
    → Post g s (w ∷ []) o
    → ((t : Visiting) → Inv g t → Extends s t → Post g t ws (k t))
    → Post g s (w ∷ ws) (o >>= k)
Post-bind g s w ws (ok t) k (i, e, (c, _)) later = Post-cons g s t w ws (k t) e c (later t i e)
Post-bind g s w ws (err _) k h later = h
Post-bind g s w ws panicked k h later = h
Post-bind g s w ws out_of_fuel k h later = h

pub visit_all-Post :
    (g : DirectedGraph) (bound : ℕ) (step : ℕ → Visiting → Visit)
    → Visits g bound step
    → (ws : List ℕ) (s : Visiting) → All (λ w. w < vertex_count g) ws
    → fresh s.flags < bound
    → Inv g s
    → ((w : ℕ) → elem w ws ≡ true → OnPath g s w)
    → Post g s ws (visit_all step ws s)
unfolding visit_all
visit_all-Post g bound step visits [] s r f i p = (i, Extends-refl s, tt)
visit_all-Post g bound step visits (w ∷ ws) s r f i p =
    Post-bind g s w ws (step w s) (visit_all step ws) (visits w s r.0 f i (p w (ground arith)))
      λ t i' e.
        let shrinks = e.fresh_le in
        visit_all-Post g bound step visits ws t r.1 (omega arith) i'
          (λ v m. OnPath-Extends v e (p v (elem-cons_tail v w ws m)))
