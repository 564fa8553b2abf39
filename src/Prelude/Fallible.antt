-- ===== src/Prelude/Fallible.antt =====
-- The outcome of a fallible routine of the program.
-- `err` is a `Result::Err`, `panicked` an index out of bounds, an `unwrap` of `None` or a `panic!`,
-- and `out_of_fuel` has no counterpart in the program.
pub data Outcome {ℓ κ} (E : Type ℓ) (A : Type κ) : Type (ℓ ⊔ κ) where
  ok : A → Outcome E A
  err : E → Outcome E A
  panicked out_of_fuel : Outcome E A

infixl 5 ◌>>=◌
abbrev pub ◌>>=◌ {ℓ κ μ} :
    {E : Type ℓ} {A : Type κ} {B : Type μ} → Outcome E A → (A → Outcome E B) → Outcome E B
ok a >>= f = f a
err e >>= f = err e
panicked >>= f = panicked
out_of_fuel >>= f = out_of_fuel
