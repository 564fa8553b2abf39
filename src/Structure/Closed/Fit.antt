-- ===== src/Structure/Closed/Fit.antt =====
-- compiler/src/structure.rs: the expressions that the conversion takes apart without a panic.
use live_programming_prototy.Prelude.{
  ℕ, ◌<◌, ◌≡◌, Bool, true, false, ◌&&◌, [], ◌∷◌, some, if◌then◌else◌, All, arith,
}
use live_programming_prototy.Common.{Text, codes, text_eq}
use live_programming_prototy.Expr.{Expr, Exprs, expr, list, nil, cons, try_construct, children}
use live_programming_prototy.Structure.{Converter, Convert, pair_of, tagged, two, each}
use live_programming_prototy.Structure.Builders.{ToNode}
use live_programming_prototy.Structure.Convert.{size, sizes}
use live_programming_prototy.Structure.Closed.{Known, Closed, Grows, Ends, Ends-bind}
use live_programming_prototy.Structure.Closed.Moves.{pure-Ends}

abbrev pub at_least_one : Exprs → Bool
at_least_one nil = false
at_least_one (cons e es) = true

abbrev pub at_least_two : Exprs → Bool
at_least_two (cons a (cons b es)) = true
at_least_two es = false

-- A call has a function, an index an array and an `if` a condition and a branch.
abbrev pub has_parts : Text → Exprs → Bool
has_parts tag es =
    if text_eq tag (codes "call")
    then at_least_one es
    else if text_eq tag (codes "if")
    then at_least_two es
    else if text_eq tag (codes "index")
    then at_least_one es
    else true

unfoldable mutual
  pub shaped : Expr → Bool
  shaped (expr l (list tag es)) = has_parts tag es && shaped_all es
  shaped (expr l c) = true

  pub shaped_all : Exprs → Bool
  shaped_all nil = true
  shaped_all (cons e es) = shaped e && shaped_all es

abbrev pub Fit : ℕ → Expr → Type 0
Fit n e = (size e < n) × (shaped e ≡ true)

abbrev pub Each : (Expr → Type 0) → Exprs → Type 0
Each P nil = Unit
Each P (cons e es) = P e × Each P es

pub and_true : (a b : Bool) → (a && b) ≡ true → (a ≡ true) × (b ≡ true)
and_true a b h = ground arith

pub Each-Fit : (n : ℕ) (es : Exprs) → sizes es < n → shaped_all es ≡ true → Each (Fit n) es
unfolding sizes shaped_all
Each-Fit n nil l h = tt
Each-Fit n (cons e es) l h =
    let both = and_true (shaped e) (shaped_all es) h in
    ((omega arith, both.0), Each-Fit n es (omega arith) both.1)

pub children-Fit : (n : ℕ) (e : Expr) → Fit n e → Each (Fit n) (children e)
unfolding size shaped children
children-Fit n (expr l (list tag es)) h =
    Each-Fit n es (omega arith) (and_true (has_parts tag es) (shaped_all es) h.1).1
children-Fit n (expr l c) h = tt

two-Fit :
    (n : ℕ) (es : Exprs) (a b : Expr) → Each (Fit n) es → two es ≡ some (a, b) → Fit n a × Fit n b
two-Fit n (cons x (cons y nil)) a b h e = ground arith
two-Fit n _ a b h e = absurd (cc)

tagged-two :
    (t tag : Text) (es : Exprs) (p : Expr × Expr)
    → tagged tag (some (t, es)) ≡ some p
    → two es ≡ some p
tagged-two t tag es p h = ground arith

pub pair_of-Fit :
    (n : ℕ) (tag : Text) (e a b : Expr) → Fit n e → pair_of tag e ≡ some (a, b) → Fit n a × Fit n b
unfolding pair_of try_construct children
pair_of-Fit n tag (expr l (list t es)) a b f e =
    two-Fit n es a b (children-Fit n (expr l (list t es)) f) (tagged-two t tag es (a, b) e)
pair_of-Fit n tag (expr l c) a b f h = absurd (cc)

-- The conversion of smaller expressions keeps the state closed.
abbrev pub Good : ℕ → ToNode → Type 0
Good n rec = (e : Expr) → Fit n e → (s : Converter) → Closed s → Ends s Known (rec e s)

module _ {A : Type 0} (P : Converter → A → Type 0)
    (keep : (s t : Converter) (a : A) → Grows s t → P s a → P t a) where
  pub each-Ends :
      (F : Expr → Type 0) (f : Expr → Convert A)
      → ((e : Expr) → F e → (s : Converter) → Closed s → Ends s P (f e s))
      → (es : Exprs) → Each F es
      → (s : Converter) → Closed s
      → Ends s (λ t. All (P t)) (each f es s)
  unfolding each
  each-Ends F f h nil k s c = pure-Ends (λ t. All (P t)) [] s c tt
  each-Ends F f h (cons e es) k s c =
      Ends-bind s P (λ t. All (P t)) (f e) _ (h e k.0 s c)
        λ a t g d p.
          Ends-bind t (λ t. All (P t)) (λ t. All (P t)) (each f es) _ (each-Ends F f h es k.1 t d)
            λ rest u g' d' q. pure-Ends (λ t. All (P t)) (a ∷ rest) u d' (keep t u a g' p, q)
