-- ===== src/Slab.antt =====
-- io2/src/slab.rs: a vector of entries with a free list threaded through it. A key holds the index
-- of its entry and the generation at which it was issued.
use io.Prelude.{
  ℕ, zero, suc, ◌+◌, ◌%◌, ◌^◌, max, List, [], ◌∷◌, ◌++◌, Option, none, some, length, get_elem?, set,
  Outcome, ok, panic, ◌>>=◌, ◌>>◌, assert, unwrap, ltb, ◌==◌, if◌then◌else◌,
}
use io.Word.{u32_mod, to_u32, add_u32, next_power_of_two}
pub mod FreeList
pub mod Validity
pub mod Inserting
pub mod Removing
pub mod Agreement
pub mod History
pub mod KeyCode
pub mod Wrap
mod Tests

pub record Key : Type 0 where
  pub index : ℕ
  pub generation : ℕ

pub data Entry {ℓ} (T : Type ℓ) : Type ℓ where
  occupied : ℕ → T → Entry T
  free : ℕ → Entry T

pub record Slab {ℓ} (T : Type ℓ) : Type ℓ where
  pub elems : List (Entry T)
  pub first_free_entry : ℕ
  pub current_generation : ℕ

module _ {ℓ} {T : Type ℓ} where
  -- `for i in from..from + n { elems.push(Entry::Free { next_free: i + 1 }) }`
  unfoldable pub free_entries : ℕ → ℕ → List (Entry T)
  free_entries zero i = []
  free_entries (suc n) i = free (i + 1) ∷ free_entries n (i + 1)

  unfoldable pub with_capacity_in : ℕ → Outcome (Slab T)
  unfolding free_entries next_power_of_two
  with_capacity_in capacity = do
    rounded ← (if ltb 0 capacity then next_power_of_two capacity else ok 0)
    n ← to_u32 rounded
    ok (record { elems = free_entries n 0; first_free_entry = 0; current_generation = 0 })

  -- the arm of `insert` for an index past the end
  unfoldable pub grow : Slab T → Outcome (Slab T)
  grow s = do
    assert (s.first_free_entry == length s.elems)
    initial_len ← to_u32 (length s.elems)
    let extend_len = max initial_len 16
    _ ← add_u32 initial_len extend_len
    ok (record s { elems = s.elems ++ free_entries extend_len initial_len })

  -- the write into the entry that `insert` has found
  unfoldable pub place : Slab T → T → Entry T → Outcome (Slab T × Key)
  place s val (occupied g v) = panic
  place s val (free next_free) = ok (
    record s {
      elems = set s.elems s.first_free_entry (occupied s.current_generation val);
      first_free_entry = next_free;
    },
    record { index = s.first_free_entry; generation = s.current_generation },
  )

  -- the slab whose entry at `first_free_entry` is there to be written
  unfoldable pub with_room : Slab T → Outcome (Slab T)
  with_room s = elim (get_elem? s.elems s.first_free_entry) [ some _ ↦ ok s | none ↦ grow s ]

  unfoldable pub insert : Slab T → T → Outcome (Slab T × Key)
  insert s val = do
    s' ← with_room s
    entry ← unwrap (get_elem? s'.elems s.first_free_entry)
    place s' val entry

  -- the value of an entry, if the key is not older than it
  abbrev pub read : Option (Entry T) → Key → Option T
  read none key = none
  read (some (free n)) key = none
  read (some (occupied g v)) key = if ltb key.generation g then none else some v

  unfoldable pub get : Slab T → Key → Option T
  get s key = read (get_elem? s.elems key.index) key

  -- The reference that `get_mut` gives is the value and the slab after a write through it.
  abbrev pub refer : Slab T → Key → Option (Entry T) → Option (T × (T → Slab T))
  refer s key none = none
  refer s key (some (free n)) = none
  refer s key (some (occupied g v)) =
      if ltb key.generation g
      then none
      else some (v, λ w. record s { elems = set s.elems key.index (occupied g w) })

  unfoldable pub get_mut : Slab T → Key → Option (T × (T → Slab T))
  get_mut s key = refer s key (get_elem? s.elems key.index)

  abbrev pub take_out : Slab T → Key → Option (Entry T) → Slab T × Option T
  take_out s key none = (s, none)
  take_out s key (some (free n)) = (s, none)
  take_out s key (some (occupied g v)) = if ltb key.generation g then (s, none) else (
    record {
      elems = set s.elems key.index (free s.first_free_entry);
      first_free_entry = key.index;
      current_generation = (s.current_generation + 1) % u32_mod;
    },
    some v,
  )

  unfoldable pub remove : Slab T → Key → Slab T × Option T
  remove s key = take_out s key (get_elem? s.elems key.index)
