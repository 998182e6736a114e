-- ===== src/Prelude/Totals.antt =====
-- The sum of a measure over a list, and what the vector operations do to it.
use Prim.Native.Nat.{ℕ, zero, suc, ◌+◌}
use mathlib.Core.Path.{◌≡◌, refl}
use mathlib.Core.List.{List, [], ◌∷◌, ◌++◌}
use mathlib.Core.Option.{some}
use native.Mathlib.Omega.{arith}
use io.Prelude.Lists.{get_elem?, set}
use io.Prelude.Vectors.{swap_remove, last_first}

abbrev pub total {ℓ} : {A : Type ℓ} → (A → ℕ) → List A → ℕ
total f [] = 0
total f (x ∷ xs) = f x + total f xs

module _ {ℓ} {A : Type ℓ} (f : A → ℕ) where
  pub total-append : (xs ys : List A) → total f (xs ++ ys) ≡ total f xs + total f ys
  total-append [] ys = omega arith
  total-append (x ∷ xs) ys = omega (arith, total-append xs ys)

  total-last_first : (xs : List A) → total f (last_first xs) ≡ total f xs
  total-last_first [] = refl
  total-last_first (x ∷ []) = refl
  total-last_first (x ∷ y ∷ ys) = omega (arith, total-last_first (y ∷ ys))

  pub total-swap_remove :
      (xs : List A) (i : ℕ) (x : A)
      → get_elem? xs i ≡ some x
      → total f (swap_remove xs i) + f x ≡ total f xs
  total-swap_remove [] i x h = cc
  total-swap_remove (y ∷ ys) zero x h = ground (arith, total-last_first ys)
  total-swap_remove (y ∷ ys) (suc i) x h = omega (arith, total-swap_remove ys i x h)

  pub total-set :
      (xs : List A) (i : ℕ) (x v : A)
      → get_elem? xs i ≡ some x
      → total f (set xs i v) + f x ≡ total f xs + f v
  total-set [] i x v h = cc
  total-set (y ∷ ys) zero x v h = ground arith
  total-set (y ∷ ys) (suc i) x v h = omega (arith, total-set ys i x v h)
