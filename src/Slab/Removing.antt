-- ===== src/Slab/Removing.antt =====
-- What `remove` of slab.rs does to a valid slab: the invariant is kept, and every read
-- through every key after the call is given by the reads before it.
use io.Prelude.{
  ℕ, ◌+◌, ◌%◌, ◌≤◌, ◌<◌, ◌≡◌, refl, sym, ◌∙◌, ◌∷◌, some, none, Option, length, get_elem?, set,
  length-set, get_elem?-set_ne, get_elem?-set_self, lt_of_get_elem?, arith, ◌==◌, if◌then◌else◌,
}
use native.Mathlib.Decide.{ℕ_discrete}
use io.Word.{u32_mod}
use io.Slab.{Entry, Key, Slab, free, occupied, remove, get, read, take_out}
use io.Slab.FreeList.{NotIn, Linked-set, NotIn-Linked}
use io.Slab.Validity.{IsValid}

module _ {ℓ} {T : Type ℓ} where
  -- the slab that a `remove` of an occupied entry leaves
  abbrev pub emptied : Slab T → ℕ → Slab T
  emptied s i = record {
    elems = set s.elems i (free s.first_free_entry);
    first_free_entry = i;
    current_generation = (s.current_generation + 1) % u32_mod;
  }

  emptied-IsValid :
      (s : Slab T) (i g : ℕ) (w : T)
      → IsValid s
      → get_elem? s.elems i ≡ some (occupied g w)
      → IsValid (emptied s i)
  emptied-IsValid s i g w v h =
      let out : NotIn i v.chain =
        NotIn-Linked s.elems i g w s.first_free_entry v.chain h v.linked in
      let lt : i < length s.elems = lt_of_get_elem? s.elems i h in
      record {
        chain = i ∷ v.chain;
        linked = (
          s.first_free_entry,
          refl,
          get_elem?-set_self s.elems i (free s.first_free_entry) lt,
          Linked-set s.elems i (free s.first_free_entry) s.first_free_entry v.chain v.linked out,
        );
        distinct = (out, v.distinct);
        complete = λ j n q miss.
            v.complete j n
              (sym (get_elem?-set_ne s.elems i j (free s.first_free_entry) (λ e. miss.0 (sym e)))
                ∙ q)
              miss.1;
      }

  get-emptied :
      (s : Slab T) (i : ℕ) (k : Key)
      → i < length s.elems
      → get (emptied s i) k ≡ (if k.index == i then none else get s k)
  unfolding get
  get-emptied s i k h = elim (ℕ_discrete i k.index) [
    | yes e ↦ ground (arith, e, get_elem?-set_self s.elems i (free s.first_free_entry) h)
    | no ne ↦ ground (arith, ne, get_elem?-set_ne s.elems i k.index (free s.first_free_entry) ne)
  ]

  -- A key reads a value exactly where its entry is occupied at a generation not above its own.
  pub get-some :
      (s : Slab T) (k : Key) (w : T)
      → get s k ≡ some w
      → (g : ℕ) × (get_elem? s.elems k.index ≡ some (occupied g w)) × (g ≤ k.generation)
  unfolding get
  get-some s k w h = go (get_elem? s.elems k.index) refl h
    where
      go :
          (o : Option (Entry T))
          → get_elem? s.elems k.index ≡ o
          → read o k ≡ some w
          → (g : ℕ) × (get_elem? s.elems k.index ≡ some (occupied g w)) × (g ≤ k.generation)
      go none e h = cc
      go (some (free n)) e h = cc
      go (some (occupied g x)) e h = (g, ground arith, ground arith)

  pub remove-none : (s : Slab T) (k : Key) → get s k ≡ none → remove s k ≡ (s, none)
  unfolding get remove
  remove-none s k h = go (get_elem? s.elems k.index) h
    where
      go : (o : Option (Entry T)) → read o k ≡ none → take_out s k o ≡ (s, none)
      go none h = refl
      go (some (free n)) h = refl
      go (some (occupied g x)) h = ground arith

  -- what `remove` of a key that reads `w` leaves
  pub record Removed (s : Slab T) (key : Key) (w : T) (s' : Slab T) : Type ℓ where
    pub made : remove s key ≡ (s', some w)
    pub valid : IsValid s'
    pub next_generation : s'.current_generation ≡ (s.current_generation + 1) % u32_mod
    pub same_length : length s'.elems ≡ length s.elems
    pub reused : s'.first_free_entry ≡ key.index
    pub reads : (k : Key) → get s' k ≡ (if k.index == key.index then none else get s k)

  -- `remove` of a key that reads a value returns that value and keeps the invariant; from then on no
  -- key reads anything at that entry, all other entries read as before, the entry is the next one
  -- that `insert` fills, and the generation counter has gone up by one, modulo `2 ^ 32`.
  pub remove-Removed :
      (s : Slab T) (key : Key) (w : T)
      → IsValid s
      → get s key ≡ some w
      → Removed s key w (emptied s key.index)
  unfolding remove
  remove-Removed s key w v h =
      let (g, at_key, le) = get-some s key w h in
      record {
        made = rw at_key (ground arith);
        valid = emptied-IsValid s key.index g w v at_key;
        next_generation = refl;
        same_length = length-set s.elems key.index (free s.first_free_entry);
        reused = refl;
        reads = λ k. get-emptied s key.index k (lt_of_get_elem? s.elems key.index at_key);
      }
