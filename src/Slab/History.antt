-- ===== src/Slab/History.antt =====
-- Whole runs of a slab of slab.rs: every key ever issued, with what it should read now.
use io.Prelude.{
  ℕ, ◌+◌, ◌<◌, ◌≡◌, refl, [], ◌∷◌, some, none, Option, arith, ok, ltb, subst, sym, if◌then◌else◌,
  first_ran,
}
use io.Word.{u32_mod, to_u32, next_power_of_two}
use io.Slab.{Key, Slab, insert, remove, get, free_entries, with_capacity_in}
use io.Slab.Validity.{IsValid, Fits, extended-IsValid}
use io.Slab.Inserting.{Inserted, insert-Inserted, next_key}
use io.Slab.Removing.{remove-Removed, emptied, remove-none}
use io.Slab.Agreement.{
  Issued, forget, Listed, Agree, Tracked, Agree-read, Agrees-Inserted, Agrees-removed,
  Agrees-forgotten, Agrees-Listed,
}

module _ {ℓ} {T : Type ℓ} where
  -- A client of the slab: it inserts, and removes through keys that it was given, as long as the
  -- vector has room and the generation counter does not wrap.
  pub data Run : Slab T → Issued T → Type ℓ where
    start : (capacity : ℕ) {s : Slab T} → with_capacity_in capacity ≡ ok s → Run s []
    inserted :
        {s s' : Slab T} {h : Issued T} (val : T) (k : Key)
        → Run s h
        → Fits s
        → insert s val ≡ ok (s', k)
        → Run s' ((k, some val) ∷ h)
    removed :
        {s s' : Slab T} {h : Issued T} (k : Key) (o p : Option T)
        → Run s h
        → Listed k o h
        → s.current_generation + 1 < u32_mod
        → remove s k ≡ (s', p)
        → Run s' (forget k h)

  fresh-IsValid :
      (n : ℕ)
      → IsValid {T = T}
          (record { elems = free_entries n 0; first_free_entry = 0; current_generation = 0 })
  fresh-IsValid n = extended-IsValid [] 0 n (λ k m h. cc)

  -- The constructor, where it comes to no panic, gives a valid slab.
  pub with_capacity_in-IsValid :
      (capacity : ℕ) (s : Slab T) → with_capacity_in capacity ≡ ok s → IsValid s
  unfolding with_capacity_in
  with_capacity_in-IsValid capacity s e =
      let (c, e', made) =
        first_ran (if ltb 0 capacity then next_power_of_two capacity else ok 0) (sym e) in
      let (n, e'', narrow) = first_ran (to_u32 c) e' in
      let same : record { elems = free_entries n 0; first_free_entry = 0; current_generation = 0 }
          ≡ s =
        cc (e'') in
      subst IsValid same (fresh-IsValid n)

  Track-inserted :
      (s s' : Slab T) (h : Issued T) (val : T) (k : Key)
      → Tracked s h
      → Fits s
      → insert s val ≡ ok (s', k)
      → Tracked s' ((k, some val) ∷ h)
  Track-inserted s s' h val k (v, a) fits e =
      let (t, ins) = insert-Inserted s val v fits in
      let same : t ≡ s' = cc (ins.made) in
      let issued : next_key s ≡ k = cc (ins.made) in
      let done : Tracked t ((next_key s, some val) ∷ h) = (
        ins.valid,
        ((ins.written, omega (arith, ins.same_generation)), Agrees-Inserted s t val ins h a),
      ) in
      subst (λ x. Tracked x ((k, some val) ∷ h)) same
        (subst (λ y. Tracked t ((y, some val) ∷ h)) issued done)

  Track-removed :
      (s s' : Slab T) (h : Issued T) (k : Key) (o p : Option T)
      → Tracked s h
      → Agree s k o
      → s.current_generation + 1 < u32_mod
      → remove s k ≡ (s', p)
      → Tracked s' (forget k h)
  Track-removed s s' h k none p (v, a) b bound e =
      let same : s ≡ s' = cc (remove-none s k b.0) in
      subst (λ x. Tracked x (forget k h)) same (v, Agrees-forgotten s k b h a)
  Track-removed s s' h k (some w) p (v, a) b bound e =
      let r = remove-Removed s k w v (Agree-read s k (some w) b) in
      let same : emptied s k.index ≡ s' = cc (r.made) in
      subst (λ x. Tracked x (forget k h)) same (r.valid, Agrees-removed s k w v b bound h a)

  Run-Agrees : {s : Slab T} {h : Issued T} → Run s h → Tracked s h
  Run-Agrees (start capacity {s} e) = (with_capacity_in-IsValid capacity s e, tt)
  Run-Agrees (inserted {s} {s'} {h} val k r fits e) =
      Track-inserted s s' h val k (Run-Agrees r) fits e
  Run-Agrees (removed {s} {s'} {h} k o p r l bound e) =
      let t = Run-Agrees r in Track-removed s s' h k o p t (Agrees-Listed s k o h t.1 l) bound e

  -- In a run, the slab is valid, and every key ever issued reads exactly what the history says: its
  -- own value until it is removed, and nothing from then on, whatever else is inserted, also where
  -- its entry is in use again.
  pub Run-reads :
      {s : Slab T} {h : Issued T}
      → Run s h
      → IsValid s × ((k : Key) (o : Option T) → Listed k o h → get s k ≡ o)
  Run-reads {s} {h} r =
      let t = Run-Agrees r in (t.0, λ k o l. Agree-read s k o (Agrees-Listed s k o h t.1 l))

  -- In a run, `insert` succeeds while the vector has room, and the key that it returns is not among
  -- those issued before.
  pub Run-fresh :
      {s : Slab T} {h : Issued T} (val : T)
      → Run s h
      → Fits s
      → (s' : Slab T) × (k : Key) × (insert s val ≡ ok (s', k)) × ((o : Option T) → ¬ Listed k o h)
  Run-fresh {s} {h} val r fits =
      let (v, a) = Run-Agrees r in
      let (t, ins) = insert-Inserted s val v fits in
      (t, next_key s, ins.made, λ o l. unused o (Agrees-Listed s (next_key s) o h a l) ins)
    where
      unused : (o : Option T) {t : Slab T} → Agree s (next_key s) o → Inserted s val t → ⊥
      unused none b ins = absurd (omega (arith, b.1))
      unused (some w) b ins =
          cc (ins.vacant (next_key s) refl, Agree-read s (next_key s) (some w) b)
