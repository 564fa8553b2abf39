-- ===== src/Graph/Topological/Order.antt =====
-- What a valid ordering is: every vertex stands behind the targets of its edges.
use live_programming_prototy.Prelude.{
  ℕ, ◌<◌, ◌≡◌, refl, sym, subst, ◌⊎◌, inl, inr, true, false, ◌||◌, List, [], ◌∷◌, ◌++◌, elem, arith,
}
use live_programming_prototy.Graph.{DirectedGraph, vertex_count}
use live_programming_prototy.Graph.Walks.{Edge, Walk, one, more, IsCyclic, lt_of_get_elem?}

-- `xs` follows the vertices `seen`: each vertex is new, and all its targets stand before it.
abbrev pub Ordered : DirectedGraph → List ℕ → List ℕ → Type 0
Ordered g seen [] = Unit
Ordered g seen (v ∷ vs) =
    (elem v seen ≡ false) × ((w : ℕ) → Edge g v w → elem w seen ≡ true) × Ordered g (v ∷ seen) vs

-- The order holds each vertex exactly once, and behind the targets of its edges.
pub record IsTopological (g : DirectedGraph) (order : List ℕ) : Type 0 where
  pub ordered : Ordered g [] order
  pub covers : (v : ℕ) → v < vertex_count g → elem v order ≡ true
  pub in_range : (v : ℕ) → elem v order ≡ true → v < vertex_count g

pub elem-append : (a : ℕ) (xs ys : List ℕ) → elem a (xs ++ ys) ≡ (elem a xs || elem a ys)
elem-append a [] ys = refl
elem-append a (x ∷ xs) ys = ground (arith, elem-append a xs ys)

-- A vertex may be put at the end once its targets are there.
pub Ordered-snoc :
    (g : DirectedGraph) (seen xs : List ℕ) (v : ℕ)
    → Ordered g seen xs
    → (elem v seen || elem v xs) ≡ false
    → ((w : ℕ) → Edge g v w → (elem w seen || elem w xs) ≡ true)
    → Ordered g seen (xs ++ v ∷ [])
Ordered-snoc g seen [] v o n t = (ground arith, λ w e. ground (arith, t w e), tt)
Ordered-snoc g seen (x ∷ xs) v o n t =
    (o.0, o.1, Ordered-snoc g (x ∷ seen) xs v o.2 (ground arith) (λ w e. ground (arith, t w e)))

pub elem-cons : (a x : ℕ) (xs : List ℕ) → elem a (x ∷ xs) ≡ true → (x ≡ a) ⊎ (elem a xs ≡ true)
elem-cons a x xs h = ground arith

pub elem-cons_tail : (a x : ℕ) (xs : List ℕ) → elem a xs ≡ true → elem a (x ∷ xs) ≡ true
elem-cons_tail a x xs h = ground arith

abbrev Closed : DirectedGraph → List ℕ → Type 0
Closed g seen = (u w : ℕ) → elem u seen ≡ true → Edge g u w → elem w seen ≡ true

Walk-stays :
    (g : DirectedGraph) (seen : List ℕ) (v t : ℕ)
    → Closed g seen
    → ((w : ℕ) → Edge g v w → elem w seen ≡ true)
    → Walk g v t
    → elem t seen ≡ true
Walk-stays g seen v t c first (one {v = w} e) = first t e
Walk-stays g seen v t c first (more {v = m} {w = u} r e) = c m t (Walk-stays g seen v m c first r) e

Closed-cons :
    (g : DirectedGraph) (seen : List ℕ) (v : ℕ)
    → Closed g seen
    → ((w : ℕ) → Edge g v w → elem w seen ≡ true)
    → Closed g (v ∷ seen)
Closed-cons g seen v c first u w m e = elim (elem-cons u v seen m) [
  | inl same ↦ elem-cons_tail w v seen (first w (subst (λ t. Edge g t w) (sym same) e))
  | inr old ↦ elem-cons_tail w v seen (c u w old e)
]

Ordered-acyclic :
    (g : DirectedGraph) (seen xs : List ℕ) (v : ℕ)
    → Ordered g seen xs
    → Closed g seen
    → elem v xs ≡ true
    → ¬ Walk g v v
Ordered-acyclic g seen [] v o c m r = cc
Ordered-acyclic g seen (x ∷ xs) v o c m r = elim (elem-cons v x xs m) [
  | inl same ↦ cc (o.0, Walk-stays g seen x x c o.1 (rw same r))
  | inr later ↦ Ordered-acyclic g (x ∷ seen) xs v o.2 (Closed-cons g seen x c o.1) later r
]

source_in_range : (g : DirectedGraph) (u v : ℕ) → Walk g u v → u < vertex_count g
source_in_range g u v (one e) = lt_of_get_elem? g.vertex_edges u e.1
source_in_range g u v (more {v = m} r e) = source_in_range g u m r

-- A graph with a topological order has no cycle.
pub IsTopological-acyclic :
    (g : DirectedGraph) (order : List ℕ) → IsTopological g order → ¬ IsCyclic g
IsTopological-acyclic g order t (v, r) =
    Ordered-acyclic g [] order v t.ordered (λ u w m e. cc) (t.covers v (source_in_range g v v r)) r
