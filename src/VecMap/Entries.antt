-- ===== src/VecMap/Entries.antt =====
-- The pairs that a map of vecmap.rs holds, as an association list with a lookup of its own.
use io.Prelude.{
  ℕ, zero, suc, ◌≡◌, refl, ◌∙◌, List, [], ◌∷◌, ◌++◌, Option, none, some, get_elem?, swap_remove,
  last, last_first, if◌then◌else◌, false, KeyEq, arith, ◌≢◌,
}

module _ {ℓ κ} {K : Type ℓ} {V : Type κ} (eq : KeyEq K) where
  -- The value at the first pair with the key.
  abbrev pub lookup : K → List (K × V) → Option V
  lookup q [] = none
  lookup q ((k, v) ∷ e) = if eq.same k q then some v else lookup q e

  -- No two pairs have one key.
  abbrev pub Distinct : List (K × V) → Type κ
  Distinct [] = Unit
  Distinct ((k, v) ∷ e) = (lookup k e ≡ none) × Distinct e

  -- The last pair is not the first of two: its key is another one.
  lookup-swapped :
      (q k j : K) (v w : V) (e : List (K × V))
      → eq.same k j ≡ false
      → lookup q ((k, v) ∷ (j, w) ∷ e) ≡ lookup q ((j, w) ∷ (k, v) ∷ e)
  lookup-swapped q k j v w e h = ground (arith, eq.same_iff k j, eq.same_iff k q, eq.same_iff j q)

  pub lookup-last_first :
      (q : K) (e : List (K × V)) → Distinct e → lookup q (last_first e) ≡ lookup q e
  lookup-last_first q [] d = refl
  lookup-last_first q ((k, v) ∷ []) d = refl
  lookup-last_first q ((k, v) ∷ (j, w) ∷ e) d =
      let l = last (j, w) e in
      let ih = lookup-last_first q ((j, w) ∷ e) d.1 in
      let at_k : lookup k (last_first ((j, w) ∷ e)) ≡ none =
        lookup-last_first k ((j, w) ∷ e) d.1 ∙ d.0 in
      ground (arith, ih, at_k, eq.same_iff l.0 k, eq.same_iff k q, eq.same_iff l.0 q)

  pub last_first-Distinct : (e : List (K × V)) → Distinct e → Distinct (last_first e)
  last_first-Distinct [] d = tt
  last_first-Distinct ((k, v) ∷ []) d = d
  last_first-Distinct ((k, v) ∷ (j, w) ∷ e) d =
      let l = last (j, w) e in
      let ih = last_first-Distinct ((j, w) ∷ e) d.1 in
      let at_k : lookup k (last_first ((j, w) ∷ e)) ≡ none =
        lookup-last_first k ((j, w) ∷ e) d.1 ∙ d.0 in
      (
        ground (arith, ih, at_k, eq.same_iff l.0 k, eq.same_iff k l.0),
        (ground (arith, ih, at_k), ih.1),
      )

  lookup-ne-none :
      (e : List (K × V)) (i : ℕ) (k : K) (v : V) → get_elem? e i ≡ some (k, v) → lookup k e ≢ none
  lookup-ne-none [] i k v h = cc
  lookup-ne-none ((j, w) ∷ e) zero k v h = ground (arith, eq.same_iff j k)
  lookup-ne-none ((j, w) ∷ e) (suc i) k v h = ground (arith, lookup-ne-none e i k v h)

  -- `swap_remove` of a pair hides its key and nothing else.
  pub lookup-swap_remove :
      (q : K) (e : List (K × V)) (i : ℕ) (k : K) (v : V)
      → Distinct e
      → get_elem? e i ≡ some (k, v)
      → lookup q (swap_remove e i) ≡ (if eq.same k q then none else lookup q e)
  lookup-swap_remove q [] i k v d h = cc
  lookup-swap_remove q ((j, w) ∷ e) zero k v d h =
      ground (arith, lookup-last_first q e d.1, eq.same_iff k q)
  lookup-swap_remove q ((j, w) ∷ e) (suc i) k v d h = ground (
    arith,
    lookup-swap_remove q e i k v d.1 h,
    lookup-ne-none e i k v h,
    eq.same_iff k q,
    eq.same_iff j q,
  )

  pub swap_remove-Distinct :
      (e : List (K × V)) (i : ℕ) (k : K) (v : V)
      → Distinct e
      → get_elem? e i ≡ some (k, v)
      → Distinct (swap_remove e i)
  swap_remove-Distinct [] i k v d h = cc
  swap_remove-Distinct ((j, w) ∷ e) zero k v d h = last_first-Distinct e d.1
  swap_remove-Distinct ((j, w) ∷ e) (suc i) k v d h =
      (ground (arith, lookup-swap_remove j e i k v d.1 h), swap_remove-Distinct e i k v d.1 h)

  pub lookup-append :
      (q k : K) (v : V) (e : List (K × V))
      → lookup k e ≡ none
      → lookup q (e ++ (k, v) ∷ []) ≡ (if eq.same k q then some v else lookup q e)
  lookup-append q k v [] h = refl
  lookup-append q k v ((j, w) ∷ e) h =
      ground (arith, h, lookup-append q k v e, eq.same_iff k q, eq.same_iff j q, eq.same_iff j k)

  pub append-Distinct :
      (k : K) (v : V) (e : List (K × V))
      → Distinct e
      → lookup k e ≡ none
      → Distinct (e ++ (k, v) ∷ [])
  append-Distinct k v [] d h = (refl, tt)
  append-Distinct k v ((j, w) ∷ e) d h = (
    ground (arith, h, d, lookup-append j k v e, eq.same_iff j k, eq.same_iff k j),
    append-Distinct k v e d.1 (ground (arith, h)),
  )
