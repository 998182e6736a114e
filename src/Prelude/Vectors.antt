-- ===== src/Prelude/Vectors.antt =====
-- `Vec::swap_remove`: the removed element's place is taken by the last one.
use Prim.Native.Nat.{ℕ, zero, suc, ◌+◌, ◌<◌}
use mathlib.Core.Path.{◌≡◌, refl, subst}
use mathlib.Core.List.{List, [], ◌∷◌, Perm}
use mathlib.Core.List.Perm
use mathlib.Core.Option.{some}
use native.Mathlib.Omega.{arith}
use io.Prelude.Lists.{length, get_elem?}

module _ {ℓ} {A : Type ℓ} where
  abbrev pub last : A → List A → A
  last x [] = x
  last x (y ∷ ys) = last y ys

  abbrev pub init : A → List A → List A
  init x [] = []
  init x (y ∷ ys) = x ∷ init y ys

  -- the vector with its last element moved to the front
  abbrev pub last_first : List A → List A
  last_first [] = []
  last_first (x ∷ xs) = last x xs ∷ init x xs

  -- the vector that is left; the caller reads the element, and panics where there is none
  abbrev pub swap_remove : List A → ℕ → List A
  swap_remove [] i = []
  swap_remove (x ∷ xs) zero = last_first xs
  swap_remove (x ∷ xs) (suc i) = x ∷ swap_remove xs i

  last_first-perm : (xs : List A) → Perm (last_first xs) xs
  last_first-perm [] = Perm.refl []
  last_first-perm (x ∷ []) = Perm.refl (x ∷ [])
  last_first-perm (x ∷ y ∷ ys) =
      Perm.trans (Perm.swap _ _ _) (Perm.cons x (last_first-perm (y ∷ ys)))

  -- Nothing but the removed element is lost.
  pub swap_remove-perm :
      (xs : List A) (i : ℕ) (x : A) → get_elem? xs i ≡ some x → Perm (x ∷ swap_remove xs i) xs
  swap_remove-perm [] i x h = cc
  swap_remove-perm (y ∷ ys) zero x h =
      let e : y ≡ x = cc in
      subst (λ a. Perm (a ∷ last_first ys) (y ∷ ys)) e (Perm.cons y (last_first-perm ys))
  swap_remove-perm (y ∷ ys) (suc i) x h =
      Perm.trans (Perm.swap _ _ _) (Perm.cons y (swap_remove-perm ys i x h))

  length-last_first : (xs : List A) → length (last_first xs) ≡ length xs
  length-last_first [] = refl
  length-last_first (x ∷ []) = refl
  length-last_first (x ∷ y ∷ ys) = omega (arith, length-last_first (y ∷ ys))

  pub length-swap_remove :
      (xs : List A) (i : ℕ) → i < length xs → length (swap_remove xs i) + 1 ≡ length xs
  length-swap_remove [] i h = absurd (omega arith)
  length-swap_remove (x ∷ xs) zero h = omega (arith, length-last_first xs)
  length-swap_remove (x ∷ xs) (suc i) h = omega (arith, length-swap_remove xs i (omega arith))
