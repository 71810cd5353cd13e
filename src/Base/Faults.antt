-- ===== src/Base/Faults.antt =====
-- Code that may fault: `none` stands for an access that C leaves undefined or that the processor
-- answers with an exception.
use mathlib.Core.Option.{Option, none, some}

infixl 5 ◌>>=◌
abbrev pub ◌>>=◌ {ℓ κ} : {A : Type ℓ} {B : Type κ} → Option A → (A → Option B) → Option B
none >>= f = none
some a >>= f = f a
