-- ===== src/Types/Polytypes/Match.antt =====
-- compiler/src/types/types.rs: what the bindings of a match are worth.
use live_programming_prototy.Prelude.{
  ℕ, zero, suc, ◌<◌, ◌==◌, ◌≡◌, refl, sym, ap, ◌∙◌, subst, ==_iff, Bool, true, false, not, ◌||◌, [],
  Option, none, some, if◌then◌else◌, lookup, insert, lookup-insert, Outcome, ok, err, panicked,
  out_of_fuel, ◌>>=◌, arith,
}
use live_programming_prototy.Common.{Text, text_eq_iff, text_instance}
use live_programming_prototy.Types.{
  TypeContent, prim, fun, def, ptr, abstract, polytype, Ty, Tys, node, nil, cons, length,
  content_eq, content_eq_iff,
}
use live_programming_prototy.Types.Kinds.{is_polytype, is_abstract, is_concrete, all_concrete}
use live_programming_prototy.Types.Unify.{unify_types}
use live_programming_prototy.Types.Polytypes.{
  Bindings, Matched, rebind, bind_polytype, match_content, match_top, polytype_match,
  match_children, each_type, polytype_replace, weight, weights,
}
use live_programming_prototy.Types.Polytypes.Round.{
  is_monomorphic, all_monomorphic, and_true, neither, unify_types_mono, fill_in_mono,
  replace_all_mono, Holds,
}

abbrev AllMono : Bindings → Type 0
AllMono m = (k : Text) (t : Ty) → lookup k m ≡ some t → is_monomorphic t ≡ true

insert-AllMono :
    (name : Text) (t : Ty) (m : Bindings)
    → is_monomorphic t ≡ true
    → AllMono m
    → AllMono (insert name t m)
insert-AllMono name t m h g k u e = ground (arith, lookup-insert name k t m, g k u)

insert-Holds :
    (name : Text) (t : Ty) (m : Bindings) → lookup name m ≡ none → Holds m (insert name t m)
insert-Holds name t m h k u e = ground (arith, lookup-insert name k t m, text_eq_iff name k)

insert_same-Holds :
    (name : Text) (t : Ty) (m : Bindings) → lookup name m ≡ some t → Holds m (insert name t m)
insert_same-Holds name t m h k u e = ground (arith, lookup-insert name k t m, text_eq_iff name k)

lookup-inserted : (name : Text) (t : Ty) (m : Bindings) → lookup name (insert name t m) ≡ some t
lookup-inserted name t m = ground (arith, lookup-insert name name t m, text_eq_iff name name)

abbrev Binds : Text → Ty → Bindings → Bindings → Type 0
Binds name t m m' = AllMono m' × Holds m m' × (lookup name m' ≡ some t)

abbrev matched : Bindings → Matched
matched m = ok (true, m)

matched-inj : (m n : Bindings) → matched m ≡ matched n → m ≡ n
matched-inj m n e = cc

rebind-Binds :
    (name : Text) (t u : Ty) (m m' : Bindings)
    → is_monomorphic t ≡ true
    → AllMono m
    → lookup name m ≡ some t
    → u ≡ t
    → rebind name m (some u) ≡ matched m'
    → Binds name t m m'
rebind-Binds name t u m m' h g q e r =
    subst (Binds name t m)
      (matched-inj (insert name t m) m' (ap (λ x. matched (insert name x m)) (sym e) ∙ r))
      (insert-AllMono name t m h g, insert_same-Holds name t m q, lookup-inserted name t m)

unified-Binds :
    (name : Text) (b t : Ty) (m m' : Bindings) (o : Outcome ⊥ (Option Ty))
    → is_monomorphic t ≡ true
    → AllMono m
    → lookup name m ≡ some b
    → unify_types b t ≡ o
    → (o >>= rebind name m) ≡ matched m'
    → Binds name t m m'
unified-Binds name b t m m' (ok (some u)) h g q p r =
    let same = unify_types_mono b t u (g name b q) h p in
    rebind-Binds name t u m m' h g (q ∙ ap some same.0) same.1 r
unified-Binds name b t m m' (ok none) h g q p r = absurd (cc)
unified-Binds name b t m m' (err x) h g q p r = absurd x
unified-Binds name b t m m' panicked h g q p r = absurd (cc)
unified-Binds name b t m m' out_of_fuel h g q p r = absurd (cc)

bind_polytype-Binds :
    (name : Text) (t : Ty) (m m' : Bindings)
    → is_monomorphic t ≡ true
    → AllMono m
    → bind_polytype name t m ≡ matched m'
    → Binds name t m m'
unfolding bind_polytype
bind_polytype-Binds name t m m' h g e = on_bound (lookup name m) refl e
  where
    on_bound :
        (o : Option Ty)
        → lookup name m ≡ o
        → (elim o as (λ x. Matched) [
          | none ↦ ok (true, insert name t m)
          | some bound_type ↦ unify_types bound_type t >>= rebind name m
        ])
          ≡ matched m'
        → Binds name t m m'
    on_bound none q r =
        subst (Binds name t m) (matched-inj (insert name t m) m' r)
          (insert-AllMono name t m h g, insert-Holds name t m q, lookup-inserted name t m)
    on_bound (some b) q r = unified-Binds name b t m m' (unify_types b t) h g q refl r

top_content :
    (c p : TypeContent) (ts ps : Tys) (m : Bindings) (below : Matched)
    → is_polytype c ≡ false
    → is_polytype p ≡ false
    → match_top c ts p ps m below ≡ match_content c ts p ps m below
unfolding match_top
top_content c (polytype name) ts ps m below h k = absurd (cc)
top_content c (prim p) ts ps m below h k = rw h refl
top_content c fun ts ps m below h k = rw h refl
top_content c (def name u) ts ps m below h k = rw h refl
top_content c ptr ts ps m below h k = rw h refl
top_content c (abstract a) ts ps m below h k = rw h refl

both_true :
    (x y : Bool) (m m' : Bindings) (below : Matched)
    → (if not x then ok (false, m) else if not y then ok (false, m) else below) ≡ matched m'
    → (x ≡ true) × (y ≡ true) × (below ≡ matched m')
both_true true true m m' below e = (refl, refl, e)
both_true true false m m' below e = absurd (cc)
both_true false y m m' below e = absurd (cc)

content_tests :
    (c p : TypeContent) (ts ps : Tys) (m : Bindings) (below : Matched)
    → is_abstract c ≡ false
    → is_abstract p ≡ false
    → match_content c ts p ps m below ≡ (
        if not (content_eq c p)
        then ok (false, m)
        else if not (length ts == length ps)
        then ok (false, m)
        else below)
unfolding match_content
content_tests c p ts ps m below h k = rw (h, k) refl

-- A match of types that are no variables went on in their children.
match_top-children :
    (c p : TypeContent) (ts ps : Tys) (m m' : Bindings) (below : Matched)
    → not (is_abstract c || is_polytype c) ≡ true
    → is_abstract p ≡ false
    → is_polytype p ≡ false
    → match_top c ts p ps m below ≡ matched m'
    → (c ≡ p) × (length ts ≡ length ps) × (below ≡ matched m')
match_top-children c p ts ps m m' below h a q e =
    let hs = neither (is_abstract c) (is_polytype c) h in
    let tests = both_true (content_eq c p) (length ts == length ps) m m' below (
      sym (content_tests c p ts ps m below hs.0 a)
      ∙ sym (top_content c p ts ps m below hs.1 q)
      ∙ e) in
    ((content_eq_iff c p).0 tests.0, (==_iff (length ts) (length ps)).0 tests.1, tests.2)

-- The type, filled in from the bindings, is the one that it was matched with.
abbrev pub Fills : Bindings → Ty → Ty → Type 0
Fills m t p = (n : ℕ) → weight t < suc n → polytype_replace n m p ≡ ok t

abbrev FillsAll : Bindings → Tys → Tys → Type 0
FillsAll m ts ps = (n : ℕ) → weights ts < suc n → each_type (polytype_replace n m) ps ≡ ok ts

abbrev Grown : Bindings → Bindings → (Bindings → Type 0) → Type 0
Grown m m' P = AllMono m' × Holds m m' × ((k : Bindings) → Holds m' k → P k)

variable-Fills :
    (m : Bindings) (name : Text) (t : Ty) (ps : Tys)
    → is_monomorphic t ≡ true
    → lookup name m ≡ some t
    → Fills m t (node (polytype name) ps)
unfolding polytype_replace is_monomorphic weight
variable-Fills m name (node c ts) ps h e zero l = absurd (omega arith)
variable-Fills m name (node c ts) ps h e (suc n) l =
    rw
      (
        e,
        replace_all_mono n m ts
            (and_true (not (is_abstract c || is_polytype c)) (all_monomorphic ts) h).1
            (omega arith),
      )
      refl

node-Fills :
    (m : Bindings) (c : TypeContent) (ts ps : Tys)
    → is_polytype c ≡ false
    → FillsAll m ts ps
    → Fills m (node c ts) (node c ps)
unfolding polytype_replace weight
node-Fills m c ts ps h g zero l = absurd (omega arith)
node-Fills m c ts ps h g (suc n) l = rw (fill_in_mono m c ps h, g n (omega arith)) refl

not-true : (a : Bool) → not a ≡ true → a ≡ false
not-true a h = ground arith

match_variable :
    (c : TypeContent) (ts ps : Tys) (name : Text) (m : Bindings) (below : Matched)
    → is_polytype c ≡ false
    → match_top c ts (polytype name) ps m below ≡ bind_polytype name (node c ts) m
unfolding match_top
match_variable c ts ps name m below h = rw h refl

Holds-trans : (m n k : Bindings) → Holds m n → Holds n k → Holds m k
Holds-trans m n k f g x t e = g x t (f x t e)

-- The two steps of the loop over the children
loop_steps :
    (o : Matched) (m' : Bindings) (ts ps : Tys)
    → (o >>= (λ r. elim r.0 as (λ x. Matched) [
      | false ↦ ok (false, r.1)
      | true ↦ match_children r.1 ts ps
    ]))
      ≡ matched m'
    → (k : Bindings) × (o ≡ matched k) × (match_children k ts ps ≡ matched m')
loop_steps (ok (true, k)) m' ts ps e = (k, refl, e)
loop_steps (ok (false, k)) m' ts ps e = absurd (cc)
loop_steps (err x) m' ts ps e = absurd x
loop_steps panicked m' ts ps e = absurd (cc)
loop_steps out_of_fuel m' ts ps e = absurd (cc)

node-Grown :
    (m m' : Bindings) (c p : TypeContent) (ts ps : Tys)
    → c ≡ p
    → is_polytype p ≡ false
    → Grown m m' (λ k. FillsAll k ts ps)
    → Grown m m' (λ k. Fills k (node c ts) (node p ps))
node-Grown m m' c p ts ps e q g = (
  g.0,
  g.1,
  λ k h. subst (λ x. Fills k (node x ts) (node p ps)) (sym e) (node-Fills k p ts ps q (g.2 k h)),
)

variable-Grown :
    (m m' : Bindings) (name : Text) (t : Ty) (ps : Tys)
    → is_monomorphic t ≡ true
    → AllMono m
    → bind_polytype name t m ≡ matched m'
    → Grown m m' (λ k. Fills k t (node (polytype name) ps))
variable-Grown m m' name t ps h g e =
    let b = bind_polytype-Binds name t m m' h g e in
    (b.0, b.1, λ k f. variable-Fills k name t ps h (f name t b.2))

match_node-Grown :
    (m m' : Bindings) (c p : TypeContent) (ts ps : Tys)
    → not (is_abstract c || is_polytype c) ≡ true
    → is_abstract p ≡ false
    → is_polytype p ≡ false
    → (length ts ≡ length ps
        → match_children m ts ps ≡ matched m'
        → Grown m m' (λ k. FillsAll k ts ps))
    → match_top c ts p ps m (match_children m ts ps) ≡ matched m'
    → Grown m m' (λ k. Fills k (node c ts) (node p ps))
match_node-Grown m m' c p ts ps h a q inner e =
    let r = match_top-children c p ts ps m m' (match_children m ts ps) h a q e in
    node-Grown m m' c p ts ps r.0 q (inner r.1 r.2)

mutual
  unfolding polytype_match is_monomorphic is_concrete each_type weight length

  match-Grown :
      (m m' : Bindings) (t p : Ty)
      → is_monomorphic t ≡ true
      → is_concrete p ≡ true
      → AllMono m
      → polytype_match m t p ≡ matched m'
      → Grown m m' (λ k. Fills k t p)
  match-Grown m m' (node c ts) (node (polytype name) ps) h a g e =
      let hs = and_true (not (is_abstract c || is_polytype c)) (all_monomorphic ts) h in
      variable-Grown m m' name (node c ts) ps h g (
        sym (
          match_variable c ts ps name m (match_children m ts ps)
            (neither (is_abstract c) (is_polytype c) hs.0).1)
        ∙ e)
  match-Grown m m' (node c ts) (node (prim p) ps) h a g e =
      let hs = and_true (not (is_abstract c || is_polytype c)) (all_monomorphic ts) h in
      match_node-Grown m m' c (prim p) ts ps hs.0 refl refl (children-Grown m m' ts ps hs.1 a g) e
  match-Grown m m' (node c ts) (node fun ps) h a g e =
      let hs = and_true (not (is_abstract c || is_polytype c)) (all_monomorphic ts) h in
      match_node-Grown m m' c fun ts ps hs.0 refl refl (children-Grown m m' ts ps hs.1 a g) e
  match-Grown m m' (node c ts) (node (def name u) ps) h a g e =
      let hs = and_true (not (is_abstract c || is_polytype c)) (all_monomorphic ts) h in
      match_node-Grown m m' c (def name u) ts ps hs.0 refl refl (children-Grown m m' ts ps hs.1 a g)
        e
  match-Grown m m' (node c ts) (node ptr ps) h a g e =
      let hs = and_true (not (is_abstract c || is_polytype c)) (all_monomorphic ts) h in
      match_node-Grown m m' c ptr ts ps hs.0 refl refl (children-Grown m m' ts ps hs.1 a g) e
  match-Grown m m' (node c ts) (node (abstract x) ps) h a g e = absurd (cc)

  children-Grown :
      (m m' : Bindings) (ts ps : Tys)
      → all_monomorphic ts ≡ true
      → all_concrete ps ≡ true
      → AllMono m
      → length ts ≡ length ps
      → match_children m ts ps ≡ matched m'
      → Grown m m' (λ k. FillsAll k ts ps)
  children-Grown m m' nil nil h a g l e =
      subst (λ x. Grown m x (λ k. FillsAll k nil nil)) (matched-inj m m' e)
        (g, λ k t q. q, λ k f n w. refl)
  children-Grown m m' nil (cons p ps) h a g l e = absurd (omega arith)
  children-Grown m m' (cons t ts) nil h a g l e = absurd (omega arith)
  children-Grown m m' (cons t ts) (cons p ps) h a g l e =
      let hs = and_true (is_monomorphic t) (all_monomorphic ts) h in
      let as' = and_true (is_concrete p) (all_concrete ps) a in
      let (k, q, r) = loop_steps (polytype_match m t p) m' ts ps e in
      let first = match-Grown m k t p hs.0 as'.0 g q in
      let rest = children-Grown k m' ts ps hs.1 as'.1 first.0 (omega arith) r in
      (
        rest.0,
        Holds-trans m k m' first.1 rest.1,
        λ x f n w.
            rw (first.2 x (Holds-trans k m' x rest.1 f) n (omega arith), rest.2 x f n (omega arith))
              refl,
      )

-- Where a type without abstract parts and without type variables matches a polymorphic type without abstract
-- parts, `polytype_replace` fills that one in with the bindings of the match and returns the type it was matched with.
pub polytype_match-Fills :
    (t p : Ty) (m : Bindings)
    → is_monomorphic t ≡ true
    → is_concrete p ≡ true
    → polytype_match [] t p ≡ ok (true, m)
    → (fuel : ℕ) → weight t < suc fuel
    → polytype_replace fuel m p ≡ ok t
polytype_match-Fills t p m h a e =
    let none_bound : AllMono [] = λ k u q. absurd (none-ne u q) in
    (match-Grown [] m t p h a none_bound e).2 m (λ k u q. q)
  where
    none-ne : (u : Ty) → none ≡ some u → ⊥
    none-ne u q = cc
