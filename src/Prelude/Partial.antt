-- ===== src/Prelude/Partial.antt =====
-- Chains of operations that may have no result.
use mathlib.Core.Path.{◌≡◌, ap}
use mathlib.Core.Option.{Option, none, some}

infixl 5 ◌>>=◌
abbrev pub ◌>>=◌ : {A B : Type 0} → Option A → (A → Option B) → Option B
none >>= f = none
some a >>= f = f a

pub some_injective : {B : Type 0} {x y : B} → some x ≡ some y → x ≡ y
some_injective {B} {x} {y} e = ap (λ o. elim o [ none ↦ x | some z ↦ z ]) e
