-- ===== src/Prelude/Rearranged.antt =====
-- What a list keeps when its elements change places, and how predicates on it combine.
use Prim.Native.Nat.{ℕ}
use mathlib.Core.Path.{◌≡◌, refl, sym, ap, ◌∙◌, subst}
use mathlib.Core.List.{List, [], ◌∷◌, ◌++◌, Permᴰ, append_assoc}
use mathlib.Core.List.Permᴰ
use native.Mathlib.Omega.{arith}
use io.Prelude.Predicates.{All}
use io.Prelude.Lists.{length}
use io.Prelude.Totals.{total}

module _ {ℓ} {A : Type ℓ} where
  pub All-both {κ μ ν} :
      {P : A → Type κ} {Q : A → Type μ} {R : A → Type ν}
      → ((x : A) → P x → Q x → R x)
      → (xs : List A) → All P xs
      → All Q xs
      → All R xs
  All-both f [] p q = tt
  All-both f (x ∷ xs) p q = (f x p.0 q.0, All-both f xs p.1 q.1)

  pub All-perm {κ} : (P : A → Type κ) {xs ys : List A} → Permᴰ xs ys → All P xs → All P ys
  All-perm P Permᴰ.nil p = tt
  All-perm P (Permᴰ.cons e d) p = (subst P e p.0, All-perm P d p.1)
  All-perm P (Permᴰ.swap e f) p = (subst P f p.1.0, (subst P e p.0, p.1.1))
  All-perm P (Permᴰ.trans c d) p = All-perm P d (All-perm P c p)

  pub total-perm : (f : A → ℕ) {xs ys : List A} → Permᴰ xs ys → total f xs ≡ total f ys
  total-perm f Permᴰ.nil = refl
  total-perm f (Permᴰ.cons e d) = omega (arith, ap f e, total-perm f d)
  total-perm f (Permᴰ.swap e g) = omega (arith, ap f e, ap f g)
  total-perm f (Permᴰ.trans c d) = total-perm f c ∙ total-perm f d

  -- The middle part of three comes to the front.
  pub to_front : (xs ys zs : List A) → Permᴰ (xs ++ (ys ++ zs)) (ys ++ (xs ++ zs))
  to_front xs ys zs =
      subst (λ l. Permᴰ l (ys ++ (xs ++ zs))) (append_assoc xs ys zs)
        (subst (λ l. Permᴰ (xs ++ ys ++ zs) l) (append_assoc ys xs zs)
          (Permᴰ.append_right zs (Permᴰ.append_comm xs ys)))

  -- One element behind a part comes to the front of all.
  pub last_to_front : (x : A) (xs ys : List A) → Permᴰ (x ∷ xs ++ ys) (xs ++ (x ∷ []) ++ ys)
  last_to_front x xs ys =
      subst (λ l. Permᴰ (x ∷ xs ++ ys) l) (sym (append_assoc xs (x ∷ []) ys))
        (Permᴰ.symm (Permᴰ.middle x xs ys))

  -- What two parts have finished comes to the front of all four.
  pub finished_first :
      (a b k' d' : List A) {k d : List A} (q r : List A)
      → Permᴰ k (a ++ k')
      → Permᴰ d (b ++ d')
      → Permᴰ (q ++ (k ++ (r ++ d))) (a ++ b ++ (q ++ (k' ++ (r ++ d'))))
  finished_first a b k' d' {k} {d} q r p s =
      Permᴰ.trans
        (Permᴰ.append_left q (
          Permᴰ.trans (Permᴰ.append_right (r ++ d) p)
            (Permᴰ.append_left (a ++ k') (Permᴰ.trans (Permᴰ.append_left r s) (to_front r b d')))))
        (subst (λ l. Permᴰ (q ++ (a ++ k' ++ (b ++ (r ++ d')))) l)
          (sym (append_assoc a b (q ++ (k' ++ (r ++ d')))))
          (subst (λ l. Permᴰ (q ++ l) (a ++ (b ++ (q ++ (k' ++ (r ++ d'))))))
            (sym (append_assoc a k' (b ++ (r ++ d'))))
            (Permᴰ.trans (to_front q a (k' ++ (b ++ (r ++ d')))) (
              Permᴰ.append_left a (
                Permᴰ.trans (Permᴰ.append_left q (to_front k' b (r ++ d')))
                  (to_front q b (k' ++ (r ++ d'))))))))

  pub total-one : (xs : List A) → total (λ x. 1) xs ≡ length xs
  total-one [] = refl
  total-one (x ∷ xs) = omega (arith, total-one xs)

  pub length-perm : {xs ys : List A} → Permᴰ xs ys → length xs ≡ length ys
  length-perm {xs} {ys} p = omega (arith, total-perm (λ x. 1) p, total-one xs, total-one ys)

  -- A new element at the end of the third of four parts.
  pub new_third :
      (x : A) (q k r d : List A)
      → Permᴰ (x ∷ q ++ (k ++ (r ++ d))) (q ++ (k ++ (r ++ (x ∷ []) ++ d)))
  new_third x q k r d = Permᴰ.trans (Permᴰ.symm (Permᴰ.middle x q (k ++ (r ++ d)))) (
      Permᴰ.append_left q (
        Permᴰ.trans (Permᴰ.symm (Permᴰ.middle x k (r ++ d)))
          (Permᴰ.append_left k (last_to_front x r d))))

  -- The first element of the third of four parts goes to the end of the fourth.
  pub third_to_fourth :
      (x : A) (q k r d : List A)
      → Permᴰ (q ++ (k ++ (x ∷ r ++ d))) (q ++ (k ++ (r ++ (d ++ x ∷ []))))
  third_to_fourth x q k r d = Permᴰ.append_left q (
      Permᴰ.append_left k (
        subst (λ l. Permᴰ (x ∷ r ++ d) l) (append_assoc r d (x ∷ []))
          (Permᴰ.append_comm (x ∷ []) (r ++ d))))

  -- The first element of the first part goes to the end of the second.
  pub first_to_second :
      (x : A) (q k r : List A) → Permᴰ (x ∷ q ++ (k ++ r)) (q ++ (k ++ (x ∷ []) ++ r))
  first_to_second x q k r =
      Permᴰ.trans (Permᴰ.symm (Permᴰ.middle x q (k ++ r)))
        (Permᴰ.append_left q (last_to_front x k r))
