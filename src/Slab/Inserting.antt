-- ===== src/Slab/Inserting.antt =====
-- What `insert` of slab.rs does to a valid slab: the invariant is kept, and every read
-- through every key after the call is given by the reads before it.
use io.Prelude.{
  ℕ, ◌<◌, ◌≡◌, sym, ◌∙◌, ◌≢◌, List, [], ◌∷◌, some, none, Option, length, get_elem?, set, length-set,
  first_ran, same_value, subst, ap, get_elem?-set_ne, get_elem?-set_self, lt_of_get_elem?, arith,
  ok, ltb, ◌==◌, if◌then◌else◌,
}
use native.Mathlib.Decide.{ℕ_discrete}
use io.Word.{u32_mod}
use io.Slab.{Entry, Key, Slab, free, occupied, insert, place, get, with_room}
use io.Slab.FreeList.{NotIn, Distinct, Linked, Linked-set}
use io.Slab.Validity.{IsValid, Fits, Roomy, with_room-Roomy, ran-Roomy}

module _ {ℓ} {T : Type ℓ} where
  -- the slab and the key that the write into a free entry gives
  abbrev pub filled : Slab T → T → ℕ → Slab T
  filled s val next = record s {
    elems = set s.elems s.first_free_entry (occupied s.current_generation val);
    first_free_entry = next;
  }

  abbrev pub next_key : Slab T → Key
  next_key s = record { index = s.first_free_entry; generation = s.current_generation }

  filled-IsValid :
      (s : Slab T) (val : T) (n : ℕ)
      → IsValid s
      → get_elem? s.elems s.first_free_entry ≡ some (free n)
      → IsValid (filled s val n)
  filled-IsValid s val n v slot = go v.chain v.linked v.distinct v.complete
    where
      e : Entry T
      e = occupied s.current_generation val

      go :
          (js : List ℕ)
          → Linked s.elems s.first_free_entry js
          → Distinct js
          → ((i m : ℕ) → get_elem? s.elems i ≡ some (free m) → ¬ NotIn i js)
          → IsValid (filled s val n)
      go [] l d complete =
          absurd (omega (arith, lt_of_get_elem? s.elems s.first_free_entry slot, l.0))
      go (j ∷ js) (m, p, h, l) d complete =
          let same : n ≡ m = ground (arith, p, h, slot) in
          record {
            chain = js;
            linked = rw (same, p) (Linked-set s.elems j e m js l d.0);
            distinct = d.1;
            complete = λ i k q. elim (ℕ_discrete j i) [
              | yes here ↦ absurd (
                  ground (
                    arith,
                    p,
                    here,
                    q,
                    get_elem?-set_self s.elems s.first_free_entry e
                        (lt_of_get_elem? s.elems s.first_free_entry slot),
                  ))
              | no there ↦ λ out.
                  complete i k
                    (sym (get_elem?-set_ne s.elems s.first_free_entry i e (λ w. there (sym p ∙ w)))
                      ∙ q)
                    ((λ w. there (sym w)), out)
            ];
          }

  -- After a write into the free entry, the new key reads the value, and so does every younger key
  -- to that entry. Older keys to it read nothing, and other entries read as before.
  get-filled :
      (s : Slab T) (val : T) (n : ℕ) (k : Key)
      → s.first_free_entry < length s.elems
      → get (filled s val n) k ≡ (
          if k.index == s.first_free_entry
          then (if ltb k.generation s.current_generation then none else some val)
          else get s k)
  unfolding get
  get-filled s val n k h = elim (ℕ_discrete s.first_free_entry k.index) [
    | yes e ↦ ground (
      arith,
      e,
      get_elem?-set_self s.elems s.first_free_entry (occupied s.current_generation val) h,
    )
    | no ne ↦ ground (
      arith,
      ne,
      get_elem?-set_ne s.elems s.first_free_entry k.index (occupied s.current_generation val) ne,
    )
  ]

  occupied-ne-free :
      {o : Option (Entry T)} {g n : ℕ} {v : T} → o ≡ some (free n) → o ≢ some (occupied g v)
  occupied-ne-free p q = cc

  get-free :
      (s : Slab T) (k : Key) (n : ℕ) → get_elem? s.elems k.index ≡ some (free n) → get s k ≡ none
  unfolding get
  get-free s k n h = rw h

  -- what a successful `insert` of `val` into `s` leaves
  pub record Inserted (s : Slab T) (val : T) (s' : Slab T) : Type ℓ where
    pub made : insert s val ≡ ok (s', next_key s)
    pub valid : IsValid s'
    pub same_generation : s'.current_generation ≡ s.current_generation
    pub vacant : (k : Key) → k.index ≡ s.first_free_entry → get s k ≡ none
    pub reads :
        (k : Key)
        → get s' k ≡ (
            if k.index == s.first_free_entry
            then (if ltb k.generation s.current_generation then none else some val)
            else get s k)
    pub written : get_elem? s'.elems s.first_free_entry ≡ some (occupied s.current_generation val)
    pub kept :
        (i g : ℕ) (v : T)
        → get_elem? s.elems i ≡ some (occupied g v)
        → get_elem? s'.elems i ≡ some (occupied g v)
    pub small : length s.elems < u32_mod → length s'.elems < u32_mod

  Inserted-Roomy :
      (s : Slab T) (val : T) (r : Slab T) (y : Roomy s r) → Inserted s val (filled r val y.next)
  unfolding insert place get
  Inserted-Roomy s val r y =
      let slot : get_elem? r.elems r.first_free_entry ≡ some (free y.next) =
        rw y.same_first y.slot in
      record {
        made = rw y.made (rw y.slot (rw (y.same_first, y.same_generation)));
        valid = filled-IsValid r val y.next y.valid slot;
        same_generation = y.same_generation;
        vacant = λ k e. sym (y.same_reads k) ∙ get-free r k y.next (rw e y.slot);
        reads = λ k.
            rw (← y.same_first, ← y.same_generation, ← y.same_reads k)
              (get-filled r val y.next k (lt_of_get_elem? r.elems r.first_free_entry slot));
        written =
            rw (← y.same_first, ← y.same_generation)
              (get_elem?-set_self r.elems r.first_free_entry (occupied r.current_generation val)
                (lt_of_get_elem? r.elems r.first_free_entry slot));
        kept = λ i g w q.
            let old : get_elem? r.elems i ≡ some (occupied g w) = y.kept i g w q in
            get_elem?-set_ne r.elems r.first_free_entry i (occupied r.current_generation val)
              (λ e. occupied-ne-free {g = g} {v = w} slot (rw e old))
            ∙ old;
        small = λ h. omega (
          arith,
          y.small h,
          length-set r.elems r.first_free_entry (occupied r.current_generation val),
        );
      }

  -- On a valid slab that fits, `insert` succeeds, keeps the invariant and returns a key to the
  -- entry at the head of the free list, at the current generation. No key read anything at that
  -- entry before; afterwards it reads the value, to keys not older than the new one. All other
  -- entries read as before.
  pub insert-Inserted :
      (s : Slab T) (val : T) → IsValid s → Fits s → (s' : Slab T) × Inserted s val s'
  insert-Inserted s val v fits =
      let (r, y) = with_room-Roomy s v fits in (filled r val y.next, Inserted-Roomy s val r y)

  -- Where `insert` came to its end, it did what it does with room.
  pub ran-Inserted :
      (s s' : Slab T) (val : T) (k : Key)
      → IsValid s
      → insert s val ≡ ok (s', k)
      → Inserted s val s' × (k ≡ next_key s)
  unfolding insert
  ran-Inserted s s' val k v h =
      let (r, _, e) = first_ran (with_room s) (sym h) in
      let y = ran-Roomy s r v (sym e) in
      let i = Inserted-Roomy s val r y in
      let same = same_value i.made h in
      (subst (Inserted s val) (ap (λ p. p.0) same) i, sym (ap (λ p. p.1) same))
