-- ===== src/Common/Options.antt =====
-- `?` in a function that returns an `Option`. Files with `Result` chains do not take this in.
use mathlib.Core.Option.{Option, none, some}

infixl 5 ◌>>=◌
abbrev pub ◌>>=◌ {ℓ κ} : {A : Type ℓ} {B : Type κ} → Option A → (A → Option B) → Option B
none >>= f = none
some a >>= f = f a
