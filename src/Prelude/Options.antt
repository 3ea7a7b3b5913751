-- ===== src/Prelude/Options.antt =====
-- Partial parsers: the `?` on `Option` of the source is a `do` step.
use mathlib.Core.Option.{Option, none, some}

infixl 5 ◌>>=◌
abbrev pub ◌>>=◌ {ℓ κ} : {A : Type ℓ} {B : Type κ} → Option A → (A → Option B) → Option B
none >>= f = none
some a >>= f = f a

abbrev pub unwrap_or {ℓ} : {A : Type ℓ} → Option A → A → A
unwrap_or none d = d
unwrap_or (some a) d = a

abbrev pub map {ℓ κ} : {A : Type ℓ} {B : Type κ} → (A → B) → Option A → Option B
map f none = none
map f (some a) = some (f a)
