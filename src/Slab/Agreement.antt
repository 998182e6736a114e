-- ===== src/Slab/Agreement.antt =====
-- What a history of issued keys says of a slab of slab.rs, and how each operation keeps it.
use io.Prelude.{
  ◌+◌, ◌≤◌, ◌<◌, ◌≡◌, ◌∙◌, ◌≢◌, ◌⊎◌, inl, inr, List, [], ◌∷◌, some, none, Option, get_elem?,
  get_elem?-set_ne, arith, ◌==◌, if◌then◌else◌, Bool-cases, Bool, true, ◌&&◌, ◌↔◌,
}
use io.Word.{u32_mod}
use io.Slab.{Key, Slab, free, occupied, get}
use io.Slab.Validity.{IsValid}
use io.Slab.Inserting.{Inserted}
use io.Slab.Removing.{remove-Removed, emptied}

-- `Key::eq`, as it is derived
abbrev pub same_key : Key → Key → Bool
same_key a b = (a.index == b.index) && (a.generation == b.generation)

-- The keys issued so far, the last first, each with the value that it should read.
abbrev pub Issued {ℓ} : Type ℓ → Type ℓ
Issued T = List (Key × Option T)

-- The history after the removal of a key: the key reads nothing from now on.
abbrev pub forget {ℓ} : {T : Type ℓ} → Key → Issued T → Issued T
forget key [] = []
forget key ((k, o) ∷ h) = (k, if same_key k key then none else o) ∷ forget key h

abbrev pub Listed {ℓ} : {T : Type ℓ} → Key → Option T → Issued T → Type ℓ
Listed k o [] = ⊥ × Unit
Listed k o ((j, p) ∷ h) = ((j ≡ k) × (p ≡ o)) ⊎ Listed k o h

-- What a history says of a slab, key by key: a live key's entry holds its value at its own
-- generation, and a dead key reads nothing and is older than the generation counter.
abbrev pub Agree {ℓ} : {T : Type ℓ} → Slab T → Key → Option T → Type ℓ
Agree s k none = (get s k ≡ none) × (k.generation < s.current_generation)
Agree s k (some v) =
    (get_elem? s.elems k.index ≡ some (occupied k.generation v))
    × (k.generation ≤ s.current_generation)

abbrev pub Agrees {ℓ} : {T : Type ℓ} → Slab T → Issued T → Type ℓ
Agrees s [] = Unit
Agrees s ((k, o) ∷ h) = Agree s k o × Agrees s h

abbrev pub Tracked {ℓ} : {T : Type ℓ} → Slab T → Issued T → Type ℓ
Tracked s h = IsValid s × Agrees s h

module _ {ℓ} {T : Type ℓ} where
  pub Agree-read : (s : Slab T) (k : Key) (o : Option T) → Agree s k o → get s k ≡ o
  unfolding get
  Agree-read s k none a = a.0
  Agree-read s k (some v) a = rw a.0 (ground arith)

  pub Agree-Inserted :
      (s s' : Slab T) (val : T)
      → Inserted s val s'
      → (k : Key) (o : Option T) → Agree s k o
      → Agree s' k o
  Agree-Inserted s s' val ins k none a =
      (ground (arith, ins.reads k, ins.same_generation, a), omega (arith, ins.same_generation))
  Agree-Inserted s s' val ins k (some v) a =
      (ins.kept k.index k.generation v a.0, omega (arith, ins.same_generation))

  pub Agrees-Inserted :
      (s s' : Slab T) (val : T) → Inserted s val s' → (h : Issued T) → Agrees s h → Agrees s' h
  Agrees-Inserted s s' val ins [] a = tt
  Agrees-Inserted s s' val ins ((k, o) ∷ h) a =
      (Agree-Inserted s s' val ins k o a.0, Agrees-Inserted s s' val ins h a.1)

  -- The removal of a live key, seen by another key or by the key itself.
  pub Agree-removed :
      (s : Slab T) (key : Key) (w : T)
      → IsValid s
      → get_elem? s.elems key.index ≡ some (occupied key.generation w)
      → get s key ≡ some w
      → s.current_generation + 1 < u32_mod
      → (k : Key) (o : Option T) → Agree s k o
      → Agree (emptied s key.index) k (if same_key k key then none else o)
  Agree-removed s key w v at_key live bound k none a =
      let r = remove-Removed s key w v live in
      let dead : Agree (emptied s key.index) k none =
        (ground (arith, r.reads k, a.0), omega arith) in
      elim (Bool-cases (same_key k key)) [ inl e ↦ rw e dead | inr e ↦ rw e dead ]
  Agree-removed s key w v at_key live bound k (some x) a =
      let r = remove-Removed s key w v live in
      elim (Bool-cases (same_key k key)) [
        | inl e ↦ rw e (ground (arith, r.reads k), omega arith)
        | inr e ↦
            let ne : key.index ≢ k.index = λ q. ground (arith, q, e) in
            rw e (
              get_elem?-set_ne s.elems key.index k.index (free s.first_free_entry) ne ∙ a.0,
              omega arith,
            )
      ]

  pub Agrees-removed :
      (s : Slab T) (key : Key) (w : T)
      → IsValid s
      → Agree s key (some w)
      → s.current_generation + 1 < u32_mod
      → (h : Issued T) → Agrees s h
      → Agrees (emptied s key.index) (forget key h)
  Agrees-removed s key w v b bound [] a = tt
  Agrees-removed s key w v b bound ((k, o) ∷ h) a = (
    Agree-removed s key w v b.0 (Agree-read s key (some w) b) bound k o a.0,
    Agrees-removed s key w v b bound h a.1,
  )

  -- Removing a key that is dead already changes nothing.
  pub Agrees-forgotten :
      (s : Slab T) (key : Key)
      → Agree s key none
      → (h : Issued T) → Agrees s h
      → Agrees s (forget key h)
  Agrees-forgotten s key d [] a = tt
  Agrees-forgotten s key d ((k, o) ∷ h) a = (
    elim (Bool-cases (same_key k key)) [ inl e ↦ rw e (ground (arith, d)) | inr e ↦ rw e a.0 ],
    Agrees-forgotten s key d h a.1,
  )

  pub Agrees-Listed :
      (s : Slab T) (k : Key) (o : Option T) (h : Issued T) → Agrees s h → Listed k o h → Agree s k o
  Agrees-Listed s k o [] a l = absurd l.0
  Agrees-Listed s k o ((j, p) ∷ h) a (inl (e, q)) = rw (← e, ← q) a.0
  Agrees-Listed s k o ((j, p) ∷ h) a (inr l) = Agrees-Listed s k o h a.1 l

pub same_key_iff : (a b : Key) → (a ≡ b) ↔ (same_key a b ≡ true)
same_key_iff a b = ((λ e. ground (arith, e)), λ e. ground (arith, e))
