-- ===== src/VecMap/Laws.antt =====
-- vecmap.rs as a map: what every operation returns and leaves, by what a key looks up.
use io.Prelude.{
  ℕ, ◌+◌, ◌≡◌, refl, List, [], ◌∷◌, ◌++◌, Option, none, some, length, length-append, length-set,
  length-swap_remove, lt_of_get_elem?, set, swap_remove, if◌then◌else◌, Bool, true, false, KeyEq,
  arith, Option-cases, ◌↔◌, inl, inr, ok,
}
use io.VecMap.{VecMap, zipped, get, get_mut, insert, remove, is_empty, clear, with_capacity_in}
use io.VecMap.Entries.{
  lookup, Distinct, lookup-swap_remove, swap_remove-Distinct, lookup-append, append-Distinct,
}
use io.VecMap.Zipped.{position_hit, position_miss, zipped-swap_remove, zipped-append}

module _ {ℓ κ} {K : Type ℓ} {V : Type κ} (eq : KeyEq K) where
  -- The vectors have one length, and no key stands twice.
  pub record IsValid (m : VecMap K V) : Type κ where
    pub same_length : length m.keys ≡ length m.values
    pub distinct : Distinct eq (zipped m.keys m.values)

  -- the abstract view: the value of a key
  abbrev pub view : VecMap K V → K → Option V
  view m key = lookup eq key (zipped m.keys m.values)

  -- `m'` is `m` with the key's value replaced by `o`, or taken out, and all else as it was.
  pub record Updated (m : VecMap K V) (key : K) (o : Option V) (m' : VecMap K V)
      : Type (ℓ ⊔ κ) where
    pub valid : IsValid m'
    pub views : (q : K) → view m' q ≡ (if eq.same key q then o else view m q)

  -- A new or cleared map is valid and holds no key.
  pub clear-IsValid :
      (m : VecMap K V) (n : ℕ) (q : K)
      → IsValid (clear m) × (view (clear m) q ≡ none) × (with_capacity_in n ≡ clear m)
  unfolding clear with_capacity_in
  clear-IsValid m n q = (record { same_length = refl; distinct = tt }, refl, refl)

  -- On a valid map `get` comes to no panic and returns the value of the key.
  pub get-view : (m : VecMap K V) (key : K) → IsValid m → get eq m key ≡ ok (view m key)
  unfolding get
  get-view m key v = elim (Option-cases (view m key)) [
    | inl miss ↦ ground (arith, position_miss eq 0 m.keys m.values key v.same_length miss, miss)
    | inr (w, hit) ↦
        let f = position_hit eq 0 m.keys m.values key w v.same_length hit in
        ground (arith, f.found, f.value, hit)
  ]

  -- On a valid map `insert` comes to no panic, returns the value that the key had, and leaves a
  -- valid map in which the key has the new value and every other key the value that it had.
  pub insert-Updated :
      (m : VecMap K V) (key : K) (value : V)
      → IsValid m
      → (m' : VecMap K V) × (insert eq m key value ≡ ok (m', view m key))
        × Updated m key (some value) m'
  unfolding insert
  insert-Updated m key value v = elim (Option-cases (view m key)) [
    | inl miss ↦
        let appended = zipped-append m.keys m.values key value v.same_length in
        (
          record m { keys = m.keys ++ key ∷ []; values = m.values ++ value ∷ [] },
          ground (arith, position_miss eq 0 m.keys m.values key v.same_length miss, miss),
          record {
            valid = record {
              same_length = omega (
                arith,
                v.same_length,
                length-append m.keys (key ∷ []),
                length-append m.values (value ∷ []),
              );
              distinct =
                  rw appended
                    (append-Distinct eq key value (zipped m.keys m.values) v.distinct miss);
            };
            views = λ q. rw appended (lookup-append eq q key value (zipped m.keys m.values) miss);
          },
        )
    | inr (w, hit) ↦
        let f = position_hit eq 0 m.keys m.values key w v.same_length hit in
        (
          record m { values = set m.values f.offset value },
          ground (arith, f.found, f.value, hit),
          record {
            valid = record {
              same_length = omega (arith, v.same_length, length-set m.values f.offset value);
              distinct = f.distinct value v.distinct;
            };
            views = f.written value;
          },
        )
  ]

  -- On a valid map `remove` comes to no panic, returns the value that the key had, and leaves a
  -- valid map without the key, in which every other key has the value that it had.
  pub remove-Updated :
      (m : VecMap K V) (key : K)
      → IsValid m
      → (m' : VecMap K V) × (remove eq m key ≡ ok (m', view m key)) × Updated m key none m'
  unfolding remove
  remove-Updated m key v = elim (Option-cases (view m key)) [
    | inl miss ↦ (
      m,
      ground (arith, position_miss eq 0 m.keys m.values key v.same_length miss, miss),
      record { valid = v; views = λ q. ground (arith, miss, eq.same_iff key q) },
    )
    | inr (w, hit) ↦
        let f = position_hit eq 0 m.keys m.values key w v.same_length hit in
        let shrunk = zipped-swap_remove m.keys m.values f.offset v.same_length in
        (
          record m { keys = swap_remove m.keys f.offset; values = swap_remove m.values f.offset },
          ground (arith, f.found, f.value, hit),
          record {
            valid = record {
              same_length = omega (
                arith,
                v.same_length,
                length-swap_remove m.keys f.offset
                    (omega (arith, v.same_length, lt_of_get_elem? m.values f.offset f.value)),
                length-swap_remove m.values f.offset (lt_of_get_elem? m.values f.offset f.value),
              );
              distinct = rw shrunk (
                  swap_remove-Distinct eq (zipped m.keys m.values) f.offset key w v.distinct
                    f.pair);
            };
            views = λ q.
                rw shrunk (
                  lookup-swap_remove eq q (zipped m.keys m.values) f.offset key w v.distinct
                    f.pair);
          },
        )
  ]

  -- On a valid map, where the key has a value, `get_mut` comes to no panic and gives a reference to
  -- that value, and a write through it sets the value of the key and of no other.
  pub get_mut-Updated :
      (m : VecMap K V) (key : K) (w : V)
      → IsValid m
      → view m key ≡ some w
      → (write : V → VecMap K V) × (get_mut eq m key ≡ ok (some (w, write)))
        × ((x : V) → Updated m key (some x) (write x))
  unfolding get_mut
  get_mut-Updated m key w v hit =
      let f = position_hit eq 0 m.keys m.values key w v.same_length hit in
      let start : 0 + f.offset ≡ f.offset = omega arith in
      (
        (λ x. record m { values = set m.values f.offset x }),
        rw (f.found, get_mut) (rw start (rw f.value refl)),
        λ x. record {
          valid = record {
            same_length = omega (arith, v.same_length, length-set m.values f.offset x);
            distinct = f.distinct x v.distinct;
          };
          views = f.written x;
        },
      )

  -- On a valid map `is_empty` comes to no panic, and says whether no key has a value.
  pub is_empty-view :
      (m : VecMap K V)
      → IsValid m
      → (b : Bool) × (is_empty m ≡ ok b) × ((b ≡ true) ↔ ((q : K) → view m q ≡ none))
  unfolding is_empty
  is_empty-view m v = go m.keys m.values v.same_length
    where
      go :
          (ks : List K) (vs : List V)
          → length ks ≡ length vs
          → (b : Bool) × (is_empty (record { keys = ks; values = vs }) ≡ ok b)
            × ((b ≡ true) ↔ ((q : K) → lookup eq q (zipped ks vs) ≡ none))
      go [] [] h = (true, refl, ((λ e q. refl), λ e. refl))
      go [] (w ∷ vs) h = absurd (omega arith)
      go (k ∷ ks) [] h = absurd (omega arith)
      go (k ∷ ks) (w ∷ vs) h =
          (false, ground arith, ((λ e. cc), λ all. absurd (ground (arith, all k, eq.same_iff k k))))
