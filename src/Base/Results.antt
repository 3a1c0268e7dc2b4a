-- ===== src/Base/Results.antt =====
-- Fallible values: a Go pair `(value, error)` of which one is meant.
use mathlib.Core.Bool.{Bool}
use nephos.Base.Tests.{if◌then◌else◌}

pub data Result {ℓ κ} (E : Type ℓ) (A : Type κ) : Type (ℓ ⊔ κ) where
  ok : A → Result E A
  err : E → Result E A

-- `if !cond { return err }`
abbrev pub require {ℓ} : {E : Type ℓ} → Bool → E → Result E (Unit {0})
require holds e = if holds then ok tt else err e

module _ {ℓ κ κ'} {E : Type ℓ} {A : Type κ} {B : Type κ'} where
  infixl 5 ◌>>=◌
  -- `a, err := first; if err != nil { return err }`, and the rest of the function
  abbrev pub ◌>>=◌ : Result E A → (A → Result E B) → Result E B
  ◌>>=◌ (err e) rest = err e
  ◌>>=◌ (ok a) rest = rest a
