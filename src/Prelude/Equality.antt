-- ===== src/Prelude/Equality.antt =====
-- `PartialEq` of a key type, with the law that the code relies on: the test decides equality.
use mathlib.Core.Path.{◌≡◌}
use mathlib.Core.Logic.{◌↔◌}
use mathlib.Core.Bool.{Bool, true}

pub record KeyEq {ℓ} (K : Type ℓ) : Type ℓ where
  pub same : K → K → Bool
  pub same_iff : (x y : K) → (x ≡ y) ↔ (same x y ≡ true)
