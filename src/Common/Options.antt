-- ===== src/Common/Options.antt =====
-- Chains and defaults of optional values.
use mathlib.Core.Option.{Option, none, some}
use mathlib.Core.Bool.{Bool, true, false}

infixl 5 ◌>>=◌
abbrev pub ◌>>=◌ {ℓ κ} : {A : Type ℓ} {B : Type κ} → Option A → (A → Option B) → Option B
none >>= k = none
some a >>= k = k a

-- `a ?? b`, where `b` may be undefined too.
abbrev pub first_of {ℓ} : {A : Type ℓ} → Option A → Option A → Option A
first_of none later = later
first_of (some a) later = some a

-- `a ?? b`.
abbrev pub or_else {ℓ} : {A : Type ℓ} → Option A → A → A
or_else none value = value
or_else (some a) value = a

abbrev pub when {ℓ} : {A : Type ℓ} → Bool → Option A → Option A
when true a = a
when false a = none
