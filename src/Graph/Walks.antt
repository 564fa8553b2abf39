-- ===== src/Graph/Walks.antt =====
-- Walks in a directed graph of compiler/src/graph.rs, and the graphs whose edges index vertices.
use live_programming_prototy.Prelude.{
  ℕ, zero, suc, ◌<◌, ◌≡◌, refl, true, List, [], ◌∷◌, some, get_elem?, length, elem, All, arith,
}
use live_programming_prototy.Graph.{DirectedGraph, edges, vertex_count}

-- `g.edges(u)` is defined and lists `v`.
abbrev pub Edge : DirectedGraph → ℕ → ℕ → Type 0
Edge g u v = (ws : List ℕ) × (edges g u ≡ some ws) × (elem v ws ≡ true)

-- Walks of at least one edge.
pub data Walk (g : DirectedGraph) (u : ℕ) : ℕ → Type 0 where
  one : {v : ℕ} → Edge g u v → Walk g u v
  more : {v w : ℕ} → Walk g u v → Edge g v w → Walk g u w

abbrev pub IsCyclic : DirectedGraph → Type 0
IsCyclic g = (v : ℕ) × Walk g v v

-- "Edges should index this range", as the source asks of its callers.
abbrev pub IsWellFormed : DirectedGraph → Type 0
IsWellFormed g = All (λ ws. All (λ w. w < vertex_count g) ws) g.vertex_edges

pub All-get_elem? {ℓ κ} :
    {A : Type ℓ} (P : A → Type κ) (xs : List A) (i : ℕ) (x : A)
    → All P xs
    → get_elem? xs i ≡ some x
    → P x
All-get_elem? P [] i x h e = cc
All-get_elem? P (y ∷ ys) zero x h e = ground arith
All-get_elem? P (y ∷ ys) (suc i) x h e = All-get_elem? P ys i x h.1 e

pub get_elem?_lt {ℓ} :
    {A : Type ℓ} (xs : List A) (i : ℕ) → i < length xs → (x : A) × (get_elem? xs i ≡ some x)
get_elem?_lt [] i h = elim h [ ]
get_elem?_lt (x ∷ xs) zero h = (x, refl)
get_elem?_lt (x ∷ xs) (suc i) h = get_elem?_lt xs i (omega arith)

pub lt_of_get_elem? {ℓ} :
    {A : Type ℓ} (xs : List A) (i : ℕ) {x : A} → get_elem? xs i ≡ some x → i < length xs
lt_of_get_elem? [] i e = cc
lt_of_get_elem? (x ∷ xs) zero e = omega arith
lt_of_get_elem? (x ∷ xs) (suc i) e = omega (arith, lt_of_get_elem? xs i e)

pub All-elem {κ} : (P : ℕ → Type κ) (xs : List ℕ) (a : ℕ) → All P xs → elem a xs ≡ true → P a
All-elem P [] a h e = cc
All-elem P (x ∷ xs) a h e = ground (arith, All-elem P xs a h.1)
