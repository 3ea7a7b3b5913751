-- ===== src/Prelude/Results.antt =====
-- Fallible code: `Result` with its bind, in which the `?` of the source is a `do` step.
pub data Result {ℓ κ} (E : Type κ) (A : Type ℓ) : Type (ℓ ⊔ κ) where
  err : E → Result E A
  ok : A → Result E A

-- The first error ends the chain.
abbrev pub ◌>>=◌ {ℓ κ μ} :
    {E : Type κ} {A : Type ℓ} {B : Type μ} → Result E A → (A → Result E B) → Result E B
err failure >>= step = err failure
ok value >>= step = step value

infixl 5 ◌>>=◌
