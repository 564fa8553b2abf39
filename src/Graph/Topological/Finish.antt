-- ===== src/Graph/Topological/Finish.antt =====
-- The first and the last step of `visit` in compiler/src/graph.rs: a vertex is marked active, and
-- in the end it is completed and pushed on the ordering.
use live_programming_prototy.Prelude.{
  ℕ, ◌<◌, ◌≡◌, ◌∙◌, ◌⊎◌, inl, inr, subst, true, false, List, [], ◌∷◌, ◌++◌, some, length, get_elem?,
  set, All, if◌then◌else◌, ◌==◌, length-set, arith,
}
use live_programming_prototy.Graph.{DirectedGraph, edges}
use live_programming_prototy.Graph.Walks.{Edge, one, more, lt_of_get_elem?, All-elem}
use live_programming_prototy.Graph.Topological.{VertFlag, Visiting, mark, finish}
use live_programming_prototy.Graph.Topological.Flags.{
  flag_at, flag_at-set, fresh-set_active, fresh-set_complete,
}
use live_programming_prototy.Graph.Topological.Order.{Ordered, elem-append, Ordered-snoc}
use live_programming_prototy.Graph.Topological.Invariant.{Inv, Extends, OnPath, Post}

-- Marking a fresh vertex active keeps the invariant.
module _ (g : DirectedGraph) (s : Visiting) (i : ℕ) (f : VertFlag) (inv : Inv g s)
    (found : get_elem? s.flags i ≡ some f) (c : f.complete ≡ false) (a : f.active ≡ false) where
  abbrev pub entered : Visiting
  entered = mark s i (record f { active = true })

  i_in_range : i < length s.flags
  i_in_range = lt_of_get_elem? s.flags i found

  pub Inv-entered : Inv g entered
  Inv-entered = record {
    sized = length-set s.flags i _ ∙ inv.sized;
    ordered = inv.ordered;
    listed = λ v.
        ground
          (arith, flag_at-set s.flags i v (record f { active = true }), i_in_range, inv.listed v);
    exclusive = λ v.
        ground (
          arith,
          flag_at-set s.flags i v (record f { active = true }),
          i_in_range,
          inv.exclusive v,
        );
  }

  active_entered :
      (v : ℕ)
      → (flag_at entered.flags v).active ≡ true
      → (i ≡ v) ⊎ ((flag_at s.flags v).active ≡ true)
  active_entered v h =
      ground (arith, flag_at-set s.flags i v (record f { active = true }), i_in_range)

  pub OnPath-entered : (w : ℕ) → OnPath g s i → Edge g i w → OnPath g entered w
  OnPath-entered w p e v h = elim (active_entered v h) [
    | inl same ↦ one (subst (λ t. Edge g t w) same e)
    | inr old ↦ more (p v old) e
  ]

  -- The end of the visit, at a state that the loop over the edges has left.
  module _ (ws : List ℕ) (t : Visiting) (es : edges g i ≡ some ws) (inv' : Inv g t)
      (e : Extends entered t) (all : All (λ w. (flag_at t.flags w).complete ≡ true) ws) where
    abbrev pub left : Visiting
    left = record {
      ordering = t.ordering ++ i ∷ [];
      flags = set t.flags i (record { complete = true; active = false });
    }

    i_in_t : i < length t.flags
    i_in_t = omega (arith, inv.sized, inv'.sized, i_in_range)

    flag_left :
        (v : ℕ)
        → flag_at left.flags v
          ≡ (if i == v then record { complete = true; active = false } else flag_at t.flags v)
    flag_left v = flag_at-set t.flags i v _ i_in_t

    flag_entered :
        (v : ℕ)
        → flag_at entered.flags v
          ≡ (if i == v then record { complete = f.complete; active = true } else flag_at s.flags v)
    flag_entered v = flag_at-set s.flags i v _ i_in_range

    i_not_complete : (flag_at t.flags i).complete ≡ false
    i_not_complete = ground (arith, e.active_kept i, flag_entered i, inv'.exclusive i)

    Ordered-left : Ordered g [] left.ordering
    Ordered-left =
        Ordered-snoc g [] t.ordering i inv'.ordered (inv'.listed i ∙ i_not_complete)
          λ w (us, here, m).
            inv'.listed w ∙ All-elem (λ w. (flag_at t.flags w).complete ≡ true) ws w all (cc)

    Inv-left : Inv g left
    Inv-left = record {
      sized = length-set t.flags i _ ∙ inv'.sized;
      ordered = Ordered-left;
      listed = λ v. ground (arith, flag_left v, inv'.listed v, elem-append v t.ordering (i ∷ []));
      exclusive = λ v. ground (arith, flag_left v, inv'.exclusive v);
    }

    Extends-left : Extends s left
    Extends-left = record {
      active_kept = λ v. ground (arith, flag_left v, flag_entered v, e.active_kept v, found);
      complete_kept = λ v h. ground (arith, flag_left v, flag_entered v, e.complete_kept v, found);
      fresh_le =
          omega (
            arith,
            fresh-set_complete t.flags i,
            fresh-set_active s.flags i f found c a,
            e.fresh_le,
          );
    }

    pub finish-Post : Post g s (i ∷ []) (finish i t)
    finish-Post = (Inv-left, Extends-left, (ground (arith, flag_left i), tt))
