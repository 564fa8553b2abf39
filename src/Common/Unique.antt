-- ===== src/Common/Unique.antt =====
-- compiler/src/common.rs: ids from successive calls of a generator.
use live_programming_prototy.Prelude.{
  ℕ, zero, suc, ◌+◌, ◌%◌, ◌^◌, ◌≤◌, ◌<◌, ◌≡◌, ◌≢◌, some, get_elem?, arith,
}
use live_programming_prototy.Common.{UidGenerator, next, next_ids, null_uid}

wrap_below : (a : ℕ) → a < 2 ^ 64 → a % 2 ^ 64 ≡ a
wrap_below a h = omega arith

-- While the counter does not wrap, the id of each call is the counter plus the calls before it.
next_ids-at :
    (n : ℕ) (g : UidGenerator) (i u : ℕ)
    → g.gen + n ≤ 2 ^ 64
    → get_elem? (next_ids n g).0 i ≡ some u
    → u ≡ g.gen + i
unfolding next_ids next
next_ids-at zero g i u h e = cc
next_ids-at (suc n) g zero u h e = ground arith
next_ids-at (suc zero) g (suc i) u h e = cc
next_ids-at (suc (suc n)) g (suc i) u h e =
    let w : (g.gen + 1) % 2 ^ 64 ≡ g.gen + 1 = wrap_below (g.gen + 1) (omega arith) in
    let g' : UidGenerator = record { gen = (g.gen + 1) % 2 ^ 64 } in
    let ih = next_ids-at (suc n) g' i u (omega (arith, w)) e in omega (arith, w, ih)

-- A generator whose counter is not 0 and that hands out `n` ids before the counter wraps hands out
-- no id twice, and never the null id: ids at two places of the list are the same only if the places are.
pub next_ids-distinct :
    (n : ℕ) (g : UidGenerator) (i j u : ℕ)
    → 0 < g.gen
    → g.gen + n ≤ 2 ^ 64
    → get_elem? (next_ids n g).0 i ≡ some u
    → get_elem? (next_ids n g).0 j ≡ some u
    → (i ≡ j) × (u ≢ null_uid)
next_ids-distinct n g i j u p h a b =
    let at_i = next_ids-at n g i u h a in
    let at_j = next_ids-at n g j u h b in (omega (arith, at_i, at_j), λ z. omega (arith, at_i, z))
