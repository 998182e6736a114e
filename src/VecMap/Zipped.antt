-- ===== src/VecMap/Zipped.antt =====
-- The loops of vecmap.rs over the keys, and its writes to the two vectors, seen on the pairs.
use io.Prelude.{
  ℕ, zero, suc, ◌+◌, ◌≡◌, refl, ap, ◌∙◌, List, [], ◌∷◌, ◌++◌, none, some, length, get_elem?, set,
  swap_remove, last_first, if◌then◌else◌, KeyEq, arith, Bool-cases, inl, inr,
}
use io.VecMap.{zipped, position}
use io.VecMap.Entries.{lookup, Distinct}

module _ {ℓ κ} {K : Type ℓ} {V : Type κ} where
  zipped-last_first :
      (ks : List K) (vs : List V)
      → length ks ≡ length vs
      → zipped (last_first ks) (last_first vs) ≡ last_first (zipped ks vs)
  zipped-last_first [] [] h = refl
  zipped-last_first [] (v ∷ vs) h = absurd (omega arith)
  zipped-last_first (k ∷ ks) [] h = absurd (omega arith)
  zipped-last_first (k ∷ []) (v ∷ []) h = refl
  zipped-last_first (k ∷ []) (v ∷ w ∷ vs) h = absurd (omega arith)
  zipped-last_first (k ∷ j ∷ ks) (v ∷ []) h = absurd (omega arith)
  zipped-last_first (k ∷ j ∷ ks) (v ∷ w ∷ vs) h =
      cc (zipped-last_first (j ∷ ks) (w ∷ vs) (omega arith))

  pub zipped-swap_remove :
      (ks : List K) (vs : List V) (i : ℕ)
      → length ks ≡ length vs
      → zipped (swap_remove ks i) (swap_remove vs i) ≡ swap_remove (zipped ks vs) i
  zipped-swap_remove [] [] i h = refl
  zipped-swap_remove [] (v ∷ vs) i h = absurd (omega arith)
  zipped-swap_remove (k ∷ ks) [] i h = absurd (omega arith)
  zipped-swap_remove (k ∷ ks) (v ∷ vs) zero h = zipped-last_first ks vs (omega arith)
  zipped-swap_remove (k ∷ ks) (v ∷ vs) (suc i) h =
      ap (◌∷◌ (k, v)) (zipped-swap_remove ks vs i (omega arith))

  pub zipped-append :
      (ks : List K) (vs : List V) (k : K) (v : V)
      → length ks ≡ length vs
      → zipped (ks ++ k ∷ []) (vs ++ v ∷ []) ≡ zipped ks vs ++ (k, v) ∷ []
  zipped-append [] [] k v h = refl
  zipped-append [] (w ∷ vs) k v h = absurd (omega arith)
  zipped-append (j ∷ ks) [] k v h = absurd (omega arith)
  zipped-append (j ∷ ks) (w ∷ vs) k v h = ap (◌∷◌ (j, w)) (zipped-append ks vs k v (omega arith))

module _ {ℓ κ} {K : Type ℓ} {V : Type κ} (eq : KeyEq K) where
  -- What the loop finds, from index `i` on: the pair that `lookup` finds. A write of its value
  -- changes what its key looks up, and nothing else.
  pub record Found (i : ℕ) (ks : List K) (vs : List V) (key : K) (v : V) : Type (ℓ ⊔ κ) where
    pub offset : ℕ
    pub found : position eq i ks key ≡ some (i + offset)
    pub value : get_elem? vs offset ≡ some v
    pub pair : get_elem? (zipped ks vs) offset ≡ some (key, v)
    pub written :
        (w : V) (q : K)
        → lookup eq q (zipped ks (set vs offset w))
          ≡ (if eq.same key q then some w else lookup eq q (zipped ks vs))
    pub distinct : (w : V) → Distinct eq (zipped ks vs) → Distinct eq (zipped ks (set vs offset w))

  pub position_hit :
      (i : ℕ) (ks : List K) (vs : List V) (key : K) (v : V)
      → length ks ≡ length vs
      → lookup eq key (zipped ks vs) ≡ some v
      → Found i ks vs key v
  position_hit i [] vs key v h q = cc
  position_hit i (k ∷ ks) [] key v h q = cc
  position_hit i (k ∷ ks) (w ∷ vs) key v h q = elim (Bool-cases (eq.same k key)) [
    | inl e ↦
        let same : k ≡ key = (eq.same_iff k key).1 e in
        record {
          offset = 0;
          found = rw e (ap some (omega arith));
          value = ground (arith, e);
          pair = ground (arith, e, same);
          written = λ x p. ground (arith, same);
          distinct = λ x d. d;
        }
    | inr e ↦
        let f = position_hit (i + 1) ks vs key v (omega arith) (ground (arith, e)) in
        record {
          offset = suc f.offset;
          found = rw e (f.found ∙ ap some (omega arith));
          value = f.value;
          pair = f.pair;
          written = λ x p.
              ground
                (arith, f.written x p, e, eq.same_iff k p, eq.same_iff key p, eq.same_iff k key);
          distinct = λ x d. (
            ground (arith, f.written x k, e, d, eq.same_iff key k, eq.same_iff k key),
            f.distinct x d.1,
          );
        }
  ]

  pub position_miss :
      (i : ℕ) (ks : List K) (vs : List V) (key : K)
      → length ks ≡ length vs
      → lookup eq key (zipped ks vs) ≡ none
      → position eq i ks key ≡ none
  position_miss i [] vs key h q = refl
  position_miss i (k ∷ ks) [] key h q = absurd (omega arith)
  position_miss i (k ∷ ks) (w ∷ vs) key h q = elim (Bool-cases (eq.same k key)) [
    | inl e ↦ absurd (ground (arith, e))
    | inr e ↦ rw e (position_miss (i + 1) ks vs key (omega arith) (ground (arith, e)))
  ]
