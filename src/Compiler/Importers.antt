-- ===== src/Compiler/Importers.antt =====
-- compiler/src/compiler.rs: `find_all_dependents` finds what a unit reaches along its importers.
use live_programming_prototy.Prelude.{
  ℕ, zero, suc, ◌+◌, ◌≤◌, ◌<◌, ◌==◌, ==_iff, ◌≡◌, refl, ap, sym, subst, ◌⊎◌, inl, inr, ◌↔◌, Bool,
  true, false, ◌||◌, List, [], ◌∷◌, ◌++◌, if◌then◌else◌, elem, length, length-append, Outcome, ok,
  err, panicked, out_of_fuel, arith,
}
use live_programming_prototy.Store.{CodeStore, importers_of}
use live_programming_prototy.Compiler.{Dependents, add_importers, dependents, find_all_dependents}

-- An edge of the graph of imports: a pair of an importer and the unit that it imports
pub data Imports (w v : ℕ) : List (ℕ × ℕ) → Type 0 where
  here : {a b : ℕ} {imports : List (ℕ × ℕ)} → a ≡ w → b ≡ v → Imports w v ((a, b) ∷ imports)
  there : {e : ℕ × ℕ} {imports : List (ℕ × ℕ)} → Imports w v imports → Imports w v (e ∷ imports)

-- The unit itself, and the units that import one that depends on it
pub data Depends (imports : List (ℕ × ℕ)) (uid : ℕ) : ℕ → Type 0 where
  itself : Depends imports uid uid
  importer : {v w : ℕ} → Depends imports uid v → Imports w v imports → Depends imports uid w

importers_of-Imports :
    (w v : ℕ) (imports : List (ℕ × ℕ))
    → elem w (importers_of v imports) ≡ true
    → Imports w v imports
unfolding importers_of
importers_of-Imports w v [] h = absurd (cc)
importers_of-Imports w v ((a, b) ∷ imports) h =
    on_edge (a == w) (b == v) refl refl (importers_of-Imports w v imports)
  where
    on_edge :
        (x y : Bool)
        → (a == w) ≡ x
        → (b == v) ≡ y
        → (elem w (importers_of v imports) ≡ true → Imports w v imports)
        → Imports w v ((a, b) ∷ imports)
    on_edge true true p q k = here (ground (arith, ==_iff a w)) (ground (arith, ==_iff b v))
    on_edge true false p q k = there (k (ground arith))
    on_edge false y p q k = there (k (ground arith))

Imports-importers_of :
    (w v : ℕ) (imports : List (ℕ × ℕ))
    → Imports w v imports
    → elem w (importers_of v imports) ≡ true
unfolding importers_of
Imports-importers_of w v [] h = elim h [ ]
Imports-importers_of w v ((a, b) ∷ imports) (here p q) = ground (arith, ==_iff b v, ==_iff a w)
Imports-importers_of w v ((a, b) ∷ imports) (there h) =
    ground (arith, Imports-importers_of w v imports h)

abbrev firsts : List (ℕ × ℕ) → List ℕ
firsts [] = []
firsts ((a, b) ∷ imports) = a ∷ firsts imports

-- The importers that are not among the units
abbrev fresh : List ℕ → List ℕ → ℕ
fresh uids [] = 0
fresh uids (x ∷ xs) = if elem x uids then fresh uids xs else suc (fresh uids xs)

fresh-length :
    (uids : List ℕ) (imports : List (ℕ × ℕ)) → fresh uids (firsts imports) ≤ length imports
fresh-length uids [] = omega arith
fresh-length uids ((a, b) ∷ imports) = ground (arith, fresh-length uids imports)

fresh-cons : (i : ℕ) (uids xs : List ℕ) → fresh (i ∷ uids) xs ≤ fresh uids xs
fresh-cons i uids [] = omega arith
fresh-cons i uids (x ∷ xs) = ground (arith, fresh-cons i uids xs)

fresh_less :
    (i : ℕ) (uids xs : List ℕ)
    → elem i xs ≡ true
    → elem i uids ≡ false
    → fresh (i ∷ uids) xs < fresh uids xs
fresh_less i uids [] h k = absurd (cc)
fresh_less i uids (x ∷ xs) h k =
    ground (arith, ==_iff x i, ==_iff i x, fresh_less i uids xs, fresh-cons i uids xs)

elem-firsts :
    (i u : ℕ) (imports : List (ℕ × ℕ))
    → elem i (importers_of u imports) ≡ true
    → elem i (firsts imports) ≡ true
unfolding importers_of
elem-firsts i u [] h = h
elem-firsts i u ((a, b) ∷ imports) h = ground (arith, elem-firsts i u imports)

elem-append : (i : ℕ) (xs ys : List ℕ) → elem i (xs ++ ys) ≡ (elem i xs || elem i ys)
elem-append i [] ys = refl
elem-append i (x ∷ xs) ys = ground (arith, elem-append i xs ys)

abbrev Subset : List ℕ → List ℕ → Type 0
Subset xs ys = (i : ℕ) → elem i xs ≡ true → elem i ys ≡ true

-- What the loop over the importers `is` does to the state
record Added (xs is : List ℕ) (d e : Dependents) : Type 0 where
  kept : Subset d.uids e.uids
  there : Subset is e.uids
  waiting : Subset d.queue e.queue
  queued : (i : ℕ) → elem i e.uids ≡ true → (elem i d.uids ≡ true) ⊎ (elem i e.queue ≡ true)
  origin : (i : ℕ) → elem i e.uids ≡ true → (elem i d.uids ≡ true) ⊎ (elem i is ≡ true)
  inside : Subset d.queue d.uids → Subset e.queue e.uids
  measure : length e.queue + fresh e.uids xs ≤ length d.queue + fresh d.uids xs

seen-Added :
    (xs is : List ℕ) (i : ℕ) (d e : Dependents)
    → elem i d.uids ≡ true
    → Added xs is d e
    → Added xs (i ∷ is) d e
seen-Added xs is i d e h a = record {
  kept = a.kept;
  there = λ j q. ground (arith, ==_iff i j, a.there j, a.kept i);
  waiting = a.waiting;
  queued = a.queued;
  origin = λ j q. ground (arith, a.origin j);
  inside = a.inside;
  measure = a.measure;
}

abbrev added : ℕ → Dependents → Dependents
added i d = record { uids = i ∷ d.uids; queue = d.queue ++ i ∷ [] }

new-Added :
    (xs is : List ℕ) (i : ℕ) (d e : Dependents)
    → elem i d.uids ≡ false
    → elem i xs ≡ true
    → Added xs is (added i d) e
    → Added xs (i ∷ is) d e
new-Added xs is i d e h k a = record {
  kept = λ j q. ground (arith, a.kept j);
  there = λ j q. ground (arith, ==_iff i j, a.there j, a.kept i);
  waiting = λ j q. ground (arith, a.waiting j, elem-append j d.queue (i ∷ []));
  queued = λ j q. ground (arith, a.queued j, a.waiting j, elem-append j d.queue (i ∷ []));
  origin = λ j q. ground (arith, a.origin j);
  inside = λ f. a.inside (λ j q. ground (arith, f j, elem-append j d.queue (i ∷ [])));
  measure = omega (arith, a.measure, fresh_less i d.uids xs k h, length-append d.queue (i ∷ []));
}

add_importers-Added :
    (xs is : List ℕ) (d : Dependents) → Subset is xs → Added xs is d (add_importers is d)
unfolding add_importers
add_importers-Added xs [] d h = record {
  kept = λ j q. q;
  there = λ j q. absurd (cc);
  waiting = λ j q. q;
  queued = λ j q. inl q;
  origin = λ j q. inl q;
  inside = λ f. f;
  measure = omega arith;
}
add_importers-Added xs (i ∷ is) d h =
    on_seen (elem i d.uids) refl (add_importers-Added xs is d (λ j q. h j (ground arith)))
      (add_importers-Added xs is (added i d) (λ j q. h j (ground arith)))
  where
    on_seen :
        (b : Bool)
        → elem i d.uids ≡ b
        → Added xs is d (add_importers is d)
        → Added xs is (added i d) (add_importers is (added i d))
        → Added xs (i ∷ is) d (if b then add_importers is d else add_importers is (added i d))
    on_seen true e f g = seen-Added xs is i d _ e f
    on_seen false e f g = new-Added xs is i d _ e (h i (ground (arith, ==_iff i i))) g

elem-cons : (v u : ℕ) (us : List ℕ) → elem v (u ∷ us) ≡ true → (u ≡ v) ⊎ (elem v us ≡ true)
elem-cons v u us h = ground (arith, ==_iff u v)

-- Everything found depends on the unit, what waits is found, and what has been expanded has its importers found.
record Invariant (imports : List (ℕ × ℕ)) (uid : ℕ) (d : Dependents) : Type 0 where
  root : elem uid d.uids ≡ true
  sound : (v : ℕ) → elem v d.uids ≡ true → Depends imports uid v
  inside : Subset d.queue d.uids
  expanded :
      (v w : ℕ)
      → elem v d.uids ≡ true
      → elem w (importers_of v imports) ≡ true
      → (elem w d.uids ≡ true) ⊎ (elem v d.queue ≡ true)

abbrev pub Exactly : (imports : List (ℕ × ℕ)) → ℕ → Outcome ⊥ (List ℕ) → Type 0
Exactly imports uid (ok vs) = (v : ℕ) → (elem v vs ≡ true) ↔ Depends imports uid v
Exactly imports uid (err e) = Unit
Exactly imports uid panicked = ⊥
Exactly imports uid out_of_fuel = ⊥

complete :
    (imports : List (ℕ × ℕ)) (uid : ℕ) (d : Dependents)
    → Invariant imports uid d
    → d.queue ≡ []
    → (v : ℕ) → Depends imports uid v
    → elem v d.uids ≡ true
complete imports uid d h e v itself = h.root
complete imports uid d h e w (importer {v = v} p q) =
    let found = complete imports uid d h e v p in
    ground (arith, h.expanded v w found (Imports-importers_of w v imports q))

round-Invariant :
    (imports : List (ℕ × ℕ)) (uid u : ℕ) (queue : List ℕ) (d e : Dependents)
    → Invariant imports uid d
    → d.queue ≡ u ∷ queue
    → Added (firsts imports) (importers_of u imports) (record { uids = d.uids; queue = queue }) e
    → Invariant imports uid e
round-Invariant imports uid u queue d e h q a = record {
  root = a.kept uid h.root;
  sound = λ v p. elim (a.origin v p) [
    | inl o ↦ h.sound v o
    | inr o ↦
        importer (h.sound u (h.inside u (rw q (ground (arith, ==_iff u u)))))
          (importers_of-Imports v u imports o)
  ];
  inside = a.inside (λ v p. h.inside v (rw q (ground arith)));
  expanded = λ v w p o. elim (a.queued v p) [
    | inr x ↦ inr x
    | inl x ↦ elim (h.expanded v w x o) [
      | inl y ↦ inl (a.kept w y)
      | inr y ↦ elim (elem-cons v u queue (subst (λ l. elem v l ≡ true) q y)) [
        | inl z ↦ inl (a.there w (subst (λ k. elem w (importers_of k imports) ≡ true) (sym z) o))
        | inr z ↦ inr (a.waiting v z)
      ]
    ]
  ];
}

dependents-Exactly :
    (fuel : ℕ) (imports : List (ℕ × ℕ)) (uid : ℕ) (d : Dependents)
    → Invariant imports uid d
    → length d.queue + fresh d.uids (firsts imports) < fuel
    → Exactly imports uid (dependents fuel imports d)
unfolding dependents
dependents-Exactly zero imports uid d h l = absurd (omega arith)
dependents-Exactly (suc fuel) imports uid d h l =
    on_queue d.queue refl (λ e i m. dependents-Exactly fuel imports uid e i m)
  where
    round : (u : ℕ) (queue : List ℕ) → Dependents
    round u queue = add_importers (importers_of u imports) (record { uids = d.uids; queue = queue })

    round-Added :
        (u : ℕ) (queue : List ℕ)
        → Added
            (firsts imports)
            (importers_of u imports)
            (record { uids = d.uids; queue = queue })
            (round u queue)
    round-Added u queue =
        add_importers-Added (firsts imports) (importers_of u imports) _
          (λ i q. elem-firsts i u imports q)

    on_queue :
        (q : List ℕ)
        → d.queue ≡ q
        → ((e : Dependents)
            → Invariant imports uid e
            → length e.queue + fresh e.uids (firsts imports) < fuel
            → Exactly imports uid (dependents fuel imports e))
        → Exactly imports uid (elim q as (λ x. Outcome ⊥ (List ℕ)) [
          | [] ↦ ok d.uids
          | u ∷ queue ↦ dependents fuel imports (round u queue)
        ])
    on_queue [] e next = λ v. (h.sound v, complete imports uid d h e v)
    on_queue (u ∷ queue) e next =
        next (round u queue)
          (round-Invariant imports uid u queue d (round u queue) h e (round-Added u queue))
          (omega (arith, (round-Added u queue).measure, l, ap length e))

-- `find_all_dependents` comes to an end and finds exactly the unit itself and the units that reach it
-- along imports, directly or through others.
pub find_all_dependents-Exactly :
    {L : Type 0} (s : CodeStore L) (uid : ℕ) → Exactly s.imports uid (find_all_dependents s uid)
unfolding find_all_dependents
find_all_dependents-Exactly s uid =
    dependents-Exactly (length s.imports + 2) s.imports uid
      (record { uids = uid ∷ []; queue = uid ∷ [] })
      (record {
        root = ground (arith, ==_iff uid uid);
        sound = λ v p. elim (elem-cons v uid [] p) [
          | inl e ↦ subst (Depends s.imports uid) e itself
          | inr e ↦ absurd (cc)
        ];
        inside = λ v p. p;
        expanded = λ v w p o. inr p;
      })
      (omega (arith, fresh-length (uid ∷ []) s.imports))
