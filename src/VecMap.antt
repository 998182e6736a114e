-- ===== src/VecMap.antt =====
-- io2/src/vecmap.rs: a map as two vectors, the keys and the values at the same positions.
use io.Prelude.{
  ℕ, zero, suc, ◌+◌, List, [], ◌∷◌, ◌++◌, Option, none, some, length, get_elem?, set, swap_remove,
  Outcome, ok, panic, ◌>>=◌, ◌>>◌, assert, unwrap, ◌==◌, if◌then◌else◌, Bool, true, false, KeyEq,
}
pub mod Entries
pub mod Zipped
pub mod Laws
mod Tests

pub record VecMap {ℓ κ} (K : Type ℓ) (V : Type κ) : Type (ℓ ⊔ κ) where
  pub keys : List K
  pub values : List V

module _ {ℓ κ} {K : Type ℓ} {V : Type κ} where
  -- `with_capacity_in`; a capacity is no part of a vector's value
  unfoldable pub with_capacity_in : ℕ → VecMap K V
  with_capacity_in capacity = record { keys = []; values = [] }

  unfoldable pub clear : VecMap K V → VecMap K V
  clear m = record m { keys = []; values = [] }

  unfoldable pub is_empty : VecMap K V → Outcome Bool
  is_empty m = do assert (length m.keys == length m.values); ok (length m.keys == 0)

  -- the two iterators, zipped
  abbrev pub zipped : List K → List V → List (K × V)
  zipped [] vs = []
  zipped (k ∷ ks) [] = []
  zipped (k ∷ ks) (v ∷ vs) = (k, v) ∷ zipped ks vs

  unfoldable pub iter : VecMap K V → List (K × V)
  iter m = zipped m.keys m.values

  unfoldable pub iter_keys : VecMap K V → List K
  iter_keys m = m.keys

-- The loop `for (i, k) in keys.iter().enumerate()` up to the first key that equals `key`: its index.
abbrev pub position {ℓ} : {K : Type ℓ} → KeyEq K → ℕ → List K → K → Option ℕ
position eq i [] key = none
position eq i (k ∷ ks) key = if eq.same k key then some i else position eq (i + 1) ks key

module _ {ℓ κ} {K : Type ℓ} {V : Type κ} (eq : KeyEq K) where
  unfoldable pub insert : VecMap K V → K → V → Outcome (VecMap K V × Option V)
  insert m key value = elim (position eq 0 m.keys key) [
    | some i ↦ do
      old ← unwrap (get_elem? m.values i)
      ok (record m { values = set m.values i value }, some old)
    | none ↦ ok (record m { keys = m.keys ++ key ∷ []; values = m.values ++ value ∷ [] }, none)
  ]

  unfoldable pub get : VecMap K V → K → Outcome (Option V)
  get m key = elim (position eq 0 m.keys key) [
    | some i ↦ do v ← unwrap (get_elem? m.values i); ok (some v)
    | none ↦ ok none
  ]

  -- The reference that `get_mut` gives is the value and the map after a write through it.
  unfoldable pub get_mut : VecMap K V → K → Outcome (Option (V × (V → VecMap K V)))
  get_mut m key = elim (position eq 0 m.keys key) [
    | some i ↦ do
      v ← unwrap (get_elem? m.values i)
      ok (some (v, λ w. record m { values = set m.values i w }))
    | none ↦ ok none
  ]

  unfoldable pub remove : VecMap K V → K → Outcome (VecMap K V × Option V)
  remove m key = elim (position eq 0 m.keys key) [
    | some i ↦ do
      v ← unwrap (get_elem? m.values i)
      ok (record m { keys = swap_remove m.keys i; values = swap_remove m.values i }, some v)
    | none ↦ ok (m, none)
  ]
