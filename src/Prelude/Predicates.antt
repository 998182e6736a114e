-- ===== src/Prelude/Predicates.antt =====
-- A predicate on every element of a list, and what the vector operations keep of it.
use Prim.Native.Nat.{ℕ, zero, suc}
use mathlib.Core.Path.{◌≡◌, subst}
use mathlib.Core.List.{List, [], ◌∷◌, ◌++◌}
use mathlib.Core.Option.{some}
use io.Prelude.Lists.{get_elem?, set}
use io.Prelude.Vectors.{swap_remove, last, init}

abbrev pub All {ℓ κ} : {A : Type ℓ} → (A → Type κ) → List A → Type κ
All P [] = Unit
All P (x ∷ xs) = P x × All P xs

module _ {ℓ κ} {A : Type ℓ} (P : A → Type κ) where
  pub All-get_elem? : (xs : List A) (i : ℕ) (x : A) → All P xs → get_elem? xs i ≡ some x → P x
  All-get_elem? [] i x p h = cc
  All-get_elem? (y ∷ ys) zero x p h = let e : y ≡ x = cc in subst P e p.0
  All-get_elem? (y ∷ ys) (suc i) x p h = All-get_elem? ys i x p.1 h

  pub All-append : (xs ys : List A) → All P xs → All P ys → All P (xs ++ ys)
  All-append [] ys p q = q
  All-append (x ∷ xs) ys p q = (p.0, All-append xs ys p.1 q)

  All-last : (x : A) (xs : List A) → P x → All P xs → P (last x xs)
  All-last x [] p q = p
  All-last x (y ∷ ys) p q = All-last y ys q.0 q.1

  All-init : (x : A) (xs : List A) → P x → All P xs → All P (init x xs)
  All-init x [] p q = tt
  All-init x (y ∷ ys) p q = (p, All-init y ys q.0 q.1)

  pub All-swap_remove : (xs : List A) (i : ℕ) → All P xs → All P (swap_remove xs i)
  All-swap_remove [] i p = tt
  All-swap_remove (x ∷ []) zero p = tt
  All-swap_remove (x ∷ y ∷ ys) zero p = (All-last y ys p.1.0 p.1.1, All-init y ys p.1.0 p.1.1)
  All-swap_remove (x ∷ xs) (suc i) p = (p.0, All-swap_remove xs i p.1)

  pub All-set : (xs : List A) (i : ℕ) (v : A) → All P xs → P v → All P (set xs i v)
  All-set [] i v p q = tt
  All-set (x ∷ xs) zero v p q = (q, p.1)
  All-set (x ∷ xs) (suc i) v p q = (p.0, All-set xs i v p.1 q)
