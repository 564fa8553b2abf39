-- ===== src/Graph/Topological/Flags.antt =====
-- The flags of `visit` in compiler/src/graph.rs: what a write at one vertex changes, and how many
-- vertices are still unvisited.
use live_programming_prototy.Prelude.{
  ℕ, zero, suc, ◌+◌, ◌≤◌, ◌<◌, ◌≡◌, refl, true, false, ◌||◌, List, [], ◌∷◌, none, some, length,
  get_elem?, set, replicate, if◌then◌else◌, ◌==◌, arith,
}
use live_programming_prototy.Graph.Topological.{VertFlag, unvisited}

abbrev pub flag_at : List VertFlag → ℕ → VertFlag
flag_at fs v = elim (get_elem? fs v) [ none ↦ unvisited | some f ↦ f ]

pub flag_at-set :
    (fs : List VertFlag) (i v : ℕ) (f : VertFlag)
    → i < length fs
    → flag_at (set fs i f) v ≡ (if i == v then f else flag_at fs v)
flag_at-set [] i v f h = elim h [ ]
flag_at-set (x ∷ xs) zero zero f h = refl
flag_at-set (x ∷ xs) zero (suc v) f h = ground arith
flag_at-set (x ∷ xs) (suc i) zero f h = ground arith
flag_at-set (x ∷ xs) (suc i) (suc v) f h = ground (arith, flag_at-set xs i v f)

pub flag_at-replicate : (n v : ℕ) → flag_at (replicate n unvisited) v ≡ unvisited
flag_at-replicate zero v = refl
flag_at-replicate (suc n) zero = refl
flag_at-replicate (suc n) (suc v) = flag_at-replicate n v

-- 1 for a vertex that no visit has begun.
abbrev fresh_one : VertFlag → ℕ
fresh_one f = if f.complete || f.active then 0 else 1

pub fresh : List VertFlag → ℕ
fresh [] = 0
fresh (f ∷ fs) = fresh_one f + fresh fs

pub fresh-replicate : (n : ℕ) → fresh (replicate n unvisited) ≡ n
unfolding fresh
fresh-replicate zero = refl
fresh-replicate (suc n) = omega (arith, fresh-replicate n)

-- A vertex that is marked active is no longer fresh.
pub fresh-set_active :
    (fs : List VertFlag) (i : ℕ) (f : VertFlag)
    → get_elem? fs i ≡ some f
    → f.complete ≡ false
    → f.active ≡ false
    → fresh (set fs i (record { complete = f.complete; active = true })) < fresh fs
unfolding fresh
fresh-set_active [] i f e c a = cc
fresh-set_active (x ∷ xs) zero f e c a = ground arith
fresh-set_active (x ∷ xs) (suc i) f e c a = ground (arith, fresh-set_active xs i f)

pub fresh-set_complete :
    (fs : List VertFlag) (i : ℕ)
    → fresh (set fs i (record { complete = true; active = false })) ≤ fresh fs
unfolding fresh
fresh-set_complete [] i = omega arith
fresh-set_complete (x ∷ xs) zero = ground arith
fresh-set_complete (x ∷ xs) (suc i) = omega (arith, fresh-set_complete xs i)
