-- ===== src/Slab/FreeList.antt =====
-- The free list of slab.rs: the `next_free` links from an index to one past the last entry.
use io.Prelude.{
  ℕ, zero, suc, ◌+◌, ◌≤◌, ◌<◌, ◌≡◌, refl, ◌≢◌, List, [], ◌∷◌, some, length, get_elem?, set,
  length-set, get_elem?-set_ne, arith,
}
use native.Mathlib.Nat.{add-zero}
use io.Slab.{Entry, free, occupied, free_entries}

abbrev pub NotIn : ℕ → List ℕ → Type 0
NotIn i [] = Unit
NotIn i (j ∷ js) = (i ≢ j) × NotIn i js

abbrev pub Distinct : List ℕ → Type 0
Distinct [] = Unit
Distinct (j ∷ js) = NotIn j js × Distinct js

-- The entries `js` are free, each links to the next, and the last links past the end.
abbrev pub Linked {ℓ} : {T : Type ℓ} → List (Entry T) → ℕ → List ℕ → Type ℓ
Linked elems i [] = (i ≡ length elems) × Unit
Linked elems i (j ∷ js) =
    (n : ℕ) × (i ≡ j) × (get_elem? elems j ≡ some (free n)) × Linked elems n js

abbrev pub range_from : ℕ → ℕ → List ℕ
range_from i zero = []
range_from i (suc n) = i ∷ range_from (i + 1) n

pub NotIn-range : (k i n : ℕ) → k < i → NotIn k (range_from i n)
NotIn-range k i zero h = tt
NotIn-range k i (suc n) h = (omega arith, NotIn-range k (i + 1) n (omega arith))

pub Distinct-range : (i n : ℕ) → Distinct (range_from i n)
Distinct-range i zero = tt
Distinct-range i (suc n) = (NotIn-range i (i + 1) n (omega arith), Distinct-range (i + 1) n)

pub le_of_not-NotIn-range : (k i n : ℕ) → i ≤ k → k < i + n → ¬ NotIn k (range_from i n)
le_of_not-NotIn-range k i zero h l m = absurd (omega arith)
le_of_not-NotIn-range k i (suc n) h l m =
    le_of_not-NotIn-range k (i + 1) n (omega (arith, m.0)) (omega arith) m.1

module _ {ℓ} {T : Type ℓ} where
  -- A write to an entry that is not on the list leaves the list alone.
  pub Linked-set :
      (elems : List (Entry T)) (k : ℕ) (e : Entry T) (i : ℕ) (js : List ℕ)
      → Linked elems i js
      → NotIn k js
      → Linked (set elems k e) i js
  Linked-set elems k e i [] l d = (omega (arith, length-set elems k e), tt)
  Linked-set elems k e i (j ∷ js) (n, p, q, l) (ne, d) =
      (n, p, rw (get_elem?-set_ne elems k j e ne) q, Linked-set elems k e n js l d)

  -- An occupied entry is not on the list.
  pub NotIn-Linked :
      (elems : List (Entry T)) (k g : ℕ) (v : T) (i : ℕ) (js : List ℕ)
      → get_elem? elems k ≡ some (occupied g v)
      → Linked elems i js
      → NotIn k js
  NotIn-Linked elems k g v i [] h l = tt
  NotIn-Linked elems k g v i (j ∷ js) h (n, p, q, l) =
      (λ e. ground (arith, e, h, q), NotIn-Linked elems k g v n js h l)

  -- Where a vector holds what `free_entries` made, from `i` to its end, those entries link up.
  pub Linked-free_entries :
      (elems : List (Entry T)) (n i : ℕ)
      → length elems ≡ i + n
      → ((k : ℕ) → get_elem? elems (i + k) ≡ get_elem? (free_entries {T = T} n i) k)
      → Linked elems i (range_from i n)
  unfolding free_entries
  Linked-free_entries elems zero i h at_offset = (omega arith, tt)
  Linked-free_entries elems (suc n) i h at_offset = (
    i + 1,
    refl,
    rw add-zero at (at_offset 0),
    Linked-free_entries elems n (i + 1) (omega arith)
        (λ k. let e : i + suc k ≡ i + 1 + k = omega arith in rw e at (at_offset (suc k))),
  )

pub length-free_entries {ℓ} : (T : Type ℓ) (n i : ℕ) → length (free_entries {T = T} n i) ≡ n
unfolding free_entries
length-free_entries T zero i = refl
length-free_entries T (suc n) i = omega (arith, length-free_entries T n (i + 1))

-- Fresh entries hold no value.
pub free_entries-ne-occupied {ℓ} :
    {T : Type ℓ} (n i k g : ℕ) (v : T) → get_elem? (free_entries n i) k ≢ some (occupied g v)
unfolding free_entries
free_entries-ne-occupied zero i k g v h = cc
free_entries-ne-occupied (suc n) i zero g v h = cc
free_entries-ne-occupied (suc n) i (suc k) g v h = free_entries-ne-occupied n (i + 1) k g v h
