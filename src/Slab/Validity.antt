-- ===== src/Slab/Validity.antt =====
-- The invariant of a slab, and what `insert` finds on a valid one: an entry to write.
use io.Prelude.{
  ℕ, zero, suc, ◌+◌, ◌<◌, ◌≡◌, refl, sym, ap, ◌∙◌, ◌-◌, ◌≢◌, max, List, [], ◌∷◌, ◌++◌, some, none,
  length, get_elem?, length-append, get_elem?-append_left, get_elem?-append_right, first_ran,
  same_value, subst, assert, ◌==◌, get_elem?-append_head, get_elem?-eq-none, lt_of_get_elem?, arith,
  ok,
}
use native.Mathlib.Decide.{dec_lt}
use io.Word.{u32_mod, to_u32, add_u32, to_u32-value}
use io.Slab.{Entry, Key, Slab, free, occupied, free_entries, grow, with_room, get, read}
use io.Slab.FreeList.{
  NotIn, Distinct, Linked, range_from, Distinct-range, le_of_not-NotIn-range, Linked-free_entries,
  length-free_entries,
}

-- `chain` is the free list: linked, without repetition, and with every free entry on it.
pub record IsValid {ℓ} {T : Type ℓ} (s : Slab T) : Type ℓ where
  pub chain : List ℕ
  pub linked : Linked s.elems s.first_free_entry chain
  pub distinct : Distinct chain
  pub complete : (i n : ℕ) → get_elem? s.elems i ≡ some (free n) → ¬ NotIn i chain

-- The slab's vector has indices left for the next growth.
abbrev pub Fits {ℓ} : {T : Type ℓ} → Slab T → Type 0
Fits s = length s.elems + max (length s.elems) 16 < u32_mod

module _ {ℓ} {T : Type ℓ} where
  abbrev pub extended : List (Entry T) → ℕ → List (Entry T)
  extended elems n = elems ++ free_entries n (length elems)

  length-extended : (elems : List (Entry T)) (n : ℕ) → length (extended elems n) ≡ length elems + n
  length-extended elems n = omega (
    arith,
    length-append elems (free_entries n (length elems)),
    length-free_entries T n (length elems),
  )

  -- Fresh entries behind a vector with no free entry make a valid slab.
  pub extended-IsValid :
      (elems : List (Entry T)) (g n : ℕ)
      → ((k m : ℕ) → get_elem? elems k ≢ some (free m))
      → IsValid (record {
        elems = extended elems n;
        first_free_entry = length elems;
        current_generation = g;
      })
  extended-IsValid elems g n full = record {
    chain = range_from (length elems) n;
    linked =
        Linked-free_entries (extended elems n) n (length elems) (length-extended elems n)
          (get_elem?-append_right elems (free_entries n (length elems)));
    distinct = Distinct-range (length elems) n;
    complete = λ i m h. elim (dec_lt i (length elems)) [
      | yes p ↦
          absurd
            (full i m (sym (get_elem?-append_left elems (free_entries n (length elems)) i p) ∙ h))
      | no p ↦
          le_of_not-NotIn-range i (length elems) n (omega arith)
            (omega (arith, lt_of_get_elem? (extended elems n) i h, length-extended elems n))
    ];
  }

  read-free_entries : (n i d : ℕ) (k : Key) → read (get_elem? (free_entries {T = T} n i) d) k ≡ none
  unfolding free_entries
  read-free_entries zero i d k = refl
  read-free_entries (suc n) i zero k = refl
  read-free_entries (suc n) i (suc d) k = read-free_entries n (i + 1) d k

  head-free_entries :
      (n i : ℕ) → 0 < n → get_elem? (free_entries {T = T} n i) 0 ≡ some (free (i + 1))
  unfolding free_entries
  head-free_entries zero i h = elim h [ ]
  head-free_entries (suc n) i h = refl

  -- What is read from an extended vector is what was read before.
  read-extended :
      (elems : List (Entry T)) (n : ℕ) (k : Key)
      → read (get_elem? (extended elems n) k.index) k ≡ read (get_elem? elems k.index) k
  read-extended elems n k = elim (dec_lt k.index (length elems)) [
    | yes p ↦ rw (get_elem?-append_left elems (free_entries n (length elems)) k.index p)
    | no p ↦
        let d : k.index ≡ length elems + (k.index - length elems) = omega arith in
        rw (get_elem?-eq-none elems k.index (omega arith)) (
          ap (λ i. read (get_elem? (extended elems n) i) k) d
          ∙ ap (λ e. read e k)
              (get_elem?-append_right elems (free_entries n (length elems))
                (k.index - length elems))
          ∙ read-free_entries n (length elems) (k.index - length elems) k)
  ]

  -- What `with_room` hands to the write: the old slab, or one with more free entries.
  pub record Roomy (s s' : Slab T) : Type ℓ where
    pub made : with_room s ≡ ok s'
    pub valid : IsValid s'
    pub next : ℕ
    pub slot : get_elem? s'.elems s.first_free_entry ≡ some (free next)
    pub same_first : s'.first_free_entry ≡ s.first_free_entry
    pub same_generation : s'.current_generation ≡ s.current_generation
    pub same_reads : (k : Key) → get s' k ≡ get s k
    pub kept :
        (i g : ℕ) (v : T)
        → get_elem? s.elems i ≡ some (occupied g v)
        → get_elem? s'.elems i ≡ some (occupied g v)
    pub small : length s.elems < u32_mod → length s'.elems < u32_mod

  -- `with_room` gives the slab itself where the free list has an entry.
  Roomy-Linked :
      (s : Slab T) (j : ℕ) (js : List ℕ)
      → IsValid s
      → Linked s.elems s.first_free_entry (j ∷ js)
      → Roomy s s
  unfolding with_room
  Roomy-Linked s j js v (n, e, h, l) =
      let slot : get_elem? s.elems s.first_free_entry ≡ some (free n) = rw e h in
      record {
        made = rw (slot, with_room) refl;
        valid = v;
        next = n;
        slot = slot;
        same_first = refl;
        same_generation = refl;
        same_reads = λ k. refl;
        kept = λ i g w q. q;
        small = λ h. h;
      }

  -- Where it has none, `with_room` appends as many free entries as there are entries, or 16.
  Roomy-grown :
      (s : Slab T)
      → s.first_free_entry ≡ length s.elems
      → ((k m : ℕ) → get_elem? s.elems k ≢ some (free m))
      → Fits s
      → (s' : Slab T) × Roomy s s'
  unfolding with_room grow get
  Roomy-grown s e full fits =
      let ext = max (length s.elems) 16 in
      let missing : get_elem? s.elems s.first_free_entry ≡ none =
        get_elem?-eq-none s.elems s.first_free_entry (omega arith) in
      (
        record s { elems = extended s.elems ext },
        record {
          made = ground (arith, missing);
          valid = rw e (extended-IsValid s.elems s.current_generation ext full);
          next = length s.elems + 1;
          slot = rw e (
              get_elem?-append_head s.elems (free_entries ext (length s.elems))
              ∙ head-free_entries ext (length s.elems) (omega arith));
          same_first = refl;
          same_generation = refl;
          same_reads = read-extended s.elems ext;
          kept = λ i g w q.
              get_elem?-append_left s.elems (free_entries ext (length s.elems)) i
                (lt_of_get_elem? s.elems i q)
              ∙ q;
          small = λ h. omega (arith, fits, length-extended s.elems ext);
        },
      )

  pub with_room-Roomy : (s : Slab T) → IsValid s → Fits s → (s' : Slab T) × Roomy s s'
  with_room-Roomy s v fits = go v.chain v.linked v.complete
    where
      go :
          (js : List ℕ)
          → Linked s.elems s.first_free_entry js
          → ((i n : ℕ) → get_elem? s.elems i ≡ some (free n) → ¬ NotIn i js)
          → (s' : Slab T) × Roomy s s'
      go [] l complete = Roomy-grown s l.0 (λ k m h. complete k m h tt) fits
      go (j ∷ js) l complete = (s, Roomy-Linked s j js v l)

  -- A slab that has grown had indices left.
  grow-Fits : (s s' : Slab T) → grow s ≡ ok s' → Fits s
  unfolding grow
  grow-Fits s s' h =
      let (_, h1, _) = first_ran (assert (s.first_free_entry == length s.elems)) (sym h) in
      let (n, h2, e) = first_ran (to_u32 (length s.elems)) h1 in
      let (_, _, e') = first_ran (add_u32 n (max n 16)) h2 in
      let same : n ≡ length s.elems = (to_u32-value (length s.elems) n (sym e)).0 in
      subst (λ k. k + max k 16 < u32_mod) same (to_u32-value (n + max n 16) _ (sym e')).1

  -- Where `with_room` came to its end, there was room.
  pub ran-Roomy : (s s' : Slab T) → IsValid s → with_room s ≡ ok s' → Roomy s s'
  unfolding with_room
  ran-Roomy s s' v h = go v.chain v.linked v.complete
    where
      go :
          (js : List ℕ)
          → Linked s.elems s.first_free_entry js
          → ((i n : ℕ) → get_elem? s.elems i ≡ some (free n) → ¬ NotIn i js)
          → Roomy s s'
      go [] l complete =
          let missing : get_elem? s.elems s.first_free_entry ≡ none =
            get_elem?-eq-none s.elems s.first_free_entry (omega (arith, l.0)) in
          let grown : grow s ≡ ok s' = rw (missing, with_room) at h in
          let (r, y) = Roomy-grown s l.0 (λ k m q. complete k m q tt) (grow-Fits s s' grown) in
          subst (Roomy s) (same_value y.made h) y
      go (j ∷ js) l complete =
          let y = Roomy-Linked s j js v l in subst (Roomy s) (same_value y.made h) y
