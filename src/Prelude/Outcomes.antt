-- ===== src/Prelude/Outcomes.antt =====
-- What a call of Rust code comes to: a value, or a panic (a failed `assert!`, `unwrap` or
-- `unreachable!`, an index out of bounds, or an arithmetic overflow).
use mathlib.Core.Path.{◌≡◌, refl}
use mathlib.Core.Logic.{◌⊎◌, inl, inr}
use mathlib.Core.Bool.{Bool, true, false}
use mathlib.Core.Option.{Option, none, some}

pub data Outcome {ℓ} (A : Type ℓ) : Type ℓ where
  ok : A → Outcome A
  panic : Outcome A

infixl 5 ◌>>=◌
abbrev pub ◌>>=◌ {ℓ κ} : {X : Type ℓ} {Y : Type κ} → Outcome X → (X → Outcome Y) → Outcome Y
panic >>= _ = panic
ok x >>= rest = rest x

infixl 5 ◌>>◌
abbrev pub ◌>>◌ {κ} : {Y : Type κ} → Outcome (Unit {0}) → Outcome Y → Outcome Y
first >> rest = first >>= λ _. rest

-- `assert!`
abbrev pub assert : Bool → Outcome (Unit {0})
assert true = ok tt
assert false = panic

-- `Option::unwrap`
abbrev pub unwrap {ℓ} : {A : Type ℓ} → Option A → Outcome A
unwrap (some a) = ok a
unwrap none = panic

-- What ran to the end ran its first part to the end.
pub first_ran {ℓ κ} :
    {X : Type ℓ} {Y : Type κ} {rest : X → Outcome Y} {y : Y} (first : Outcome X)
    → ok y ≡ (first >>= rest)
    → (x : X) × (ok y ≡ rest x) × (ok x ≡ first)
first_ran panic e = cc
first_ran (ok x) e = (x, e, refl)

-- A computation has one value.
pub same_value {ℓ} : {X : Type ℓ} {x y : X} {m : Outcome X} → m ≡ ok x → m ≡ ok y → x ≡ y
same_value p q = cc

pub Outcome-cases {ℓ} : {X : Type ℓ} (m : Outcome X) → (m ≡ panic) ⊎ ((x : X) × (m ≡ ok x))
Outcome-cases panic = inl refl
Outcome-cases (ok x) = inr (x, refl)
