-- ===== src/LocalAlloc/Deallocate.antt =====
-- `deallocate` of local_alloc.rs keeps the balance of free and held addresses.
use Prim.Native.Nat.{◌∣◌}
use native.Mathlib.Nat.{dvd-add, dvd-add_iff_right, eq-one_of_dvd-one}
use io.Prelude.{
  ℕ, zero, suc, ◌+◌, ◌≤◌, ◌<◌, ◌≡◌, ◌≢◌, refl, ap, ◌∙◌, subst, List, [], ◌∷◌, ◌++◌, some, length,
  get_elem?, set, get_elem?-set_self, lt_of_get_elem?, length-set, length-swap_remove, swap_remove,
  leb, ◌==◌, true, false, ◌&&◌, arith, Bool-cases, inl, inr, All, All-append, All-set,
  All-swap_remove, All-get_elem?, total-append, total-set, total-swap_remove, ok,
}
use io.LocalAlloc.Pages.{Block, Libc, done, call_free}
use io.LocalAlloc.{FreeRange, Page, Layout, State, merge, merge_all, find_page, release, deallocate}
use io.LocalAlloc.Ranges.{hits, hits_range, cover}
use io.LocalAlloc.Units.{UnitLayout, UnitRange}
use io.LocalAlloc.Balance.{hits_page, Sound}

-- No two multiples of a unit above 1 are one apart.
one_apart : (u a b : ℕ) → 1 < u → u ∣ a → u ∣ b → a ≢ b + 1
one_apart u a b h p q e =
    omega (arith, eq-one_of_dvd-one ((dvd-add_iff_right u q).1 (subst (λ n. u ∣ n) e p)))

module _ (u : ℕ) (many : 1 < u) (ptr size : ℕ) (ptr_unit : u ∣ ptr) (size_unit : u ∣ size) where
  -- A range in multiples of the unit is not merged with a block in multiples of the unit.
  merge-unit : (r : FreeRange) → UnitRange u r → merge ptr size (ptr + (size + 1)) r ≡ ok (r, false)
  unfolding merge
  merge-unit r v = ground (arith, v.fits, before, behind)
    where
      before : r.start ≢ ptr + (size + 1)
      before e =
          one_apart u r.start (ptr + size) many v.start_unit (dvd-add u ptr_unit size_unit)
            (omega arith)

      behind : r.start + (r.len + 1) ≢ ptr
      behind e =
          one_apart u ptr (r.start + r.len) many ptr_unit (dvd-add u v.start_unit v.len_unit)
            (omega arith)

  merge_all-unit :
      (rs : List FreeRange)
      → All (UnitRange u) rs
      → merge_all ptr size (ptr + (size + 1)) rs ≡ ok (rs, false)
  unfolding merge_all
  merge_all-unit [] v = refl
  merge_all-unit (r ∷ rs) v = rw (merge-unit r v.0) (rw (merge_all-unit rs v.1))

-- A page that holds the bytes from `ptr` on.
pub record Home (pages : List Page) (ptr size : ℕ) : Type 0 where
  pub index : ℕ
  pub page : Page
  pub there : get_elem? pages index ≡ some page
  pub low : page.ptr ≤ ptr
  pub high : ptr + size ≤ page.ptr + page.size

-- Where some page holds the bytes, `find` finds one.
find_page-Home :
    (pages : List Page) (ptr size idx : ℕ)
    → Home pages ptr size
    → (h : Home pages ptr size) × (find_page ptr size idx pages ≡ some (idx + h.index, h.page))
unfolding find_page
find_page-Home [] ptr size idx h =
    absurd (omega (arith, lt_of_get_elem? {A = Page} [] h.index h.there))
find_page-Home (p ∷ ps) ptr size idx h =
    elim (Bool-cases (leb p.ptr ptr && leb (ptr + size) (p.ptr + p.size))) [
      | inl e ↦ (
        record {
          index = 0;
          page = p;
          there = refl;
          low = ground (arith, e);
          high = ground (arith, e);
        },
        rw e (ap (λ n. some (n, p)) (omega arith)),
      )
      | inr e ↦
          let (k, q) = find_page-Home ps ptr size (idx + 1) (behind e h) in
          (
            record {
              index = suc k.index;
              page = k.page;
              there = k.there;
              low = k.low;
              high = k.high;
            },
            rw e (q ∙ ap (λ n. some (n, k.page)) (omega arith)),
          )
    ]
  where
    behind :
        (leb p.ptr ptr && leb (ptr + size) (p.ptr + p.size)) ≡ false
        → Home (p ∷ ps) ptr size
        → Home ps ptr size
    behind e h = go h.index h.there
      where
        go : (i : ℕ) → get_elem? (p ∷ ps) i ≡ some h.page → Home ps ptr size
        go zero q = let same : p ≡ h.page = cc in absurd (ground (arith, e, same, h.low, h.high))
        go (suc i) q = record { index = i; page = h.page; there = q; low = h.low; high = h.high }

-- To give a page of the state back succeeds, as `munmap` does on a whole mapping of `mmap`.
abbrev pub Frees : Libc → State → Type 0
Frees libc s =
    (i : ℕ) (p : Page) → get_elem? s.pages i ≡ some p → call_free s.free libc p.ptr p.size ≡ done tt

-- The end of `deallocate`: to give a page back that is one free range keeps the balance.
release-Sound :
    (u : ℕ) (libc : Libc) (s : State) (held : List Block) (i : ℕ) (page : Page)
    (ranges : List FreeRange)
    → Frees libc s
    → Sound u s held
    → get_elem? s.pages i ≡ some page
    → get_elem? s.free_list i ≡ some ranges
    → (s' : State) × (release libc i page ranges s ≡ ok s') × Sound u s' held
unfolding release
release-Sound u libc s held i page [] frees v p q = (s, refl, v)
release-Sound u libc s held i page (r ∷ x ∷ xs) frees v p q = (s, refl, v)
release-Sound u libc s held i page (r ∷ []) frees v p q =
    elim (Bool-cases ((r.start == page.ptr) && (r.len == page.size))) [
      | inr e ↦ (s, rw e refl, v)
      | inl e ↦ (
        record s { pages = swap_remove s.pages i; free_list = swap_remove s.free_list i },
        rw e (rw (frees i page p) refl),
        record {
          same_length = omega (
            arith,
            v.same_length,
            length-swap_remove s.pages i (lt_of_get_elem? s.pages i p),
            length-swap_remove s.free_list i (lt_of_get_elem? s.free_list i q),
          );
          balance = λ a. omega (
            arith,
            v.balance a,
            total-swap_remove (hits_page a) s.pages i page p,
            total-swap_remove (cover a) s.free_list i (r ∷ []) q,
            whole e a,
          );
          once = λ a. omega (arith, v.once a, total-swap_remove (hits_page a) s.pages i page p);
          no_null = omega (arith, v.no_null, total-swap_remove (hits_page 0) s.pages i page p);
          units = All-swap_remove (All (UnitRange u)) s.free_list i v.units;
        },
      )
    ]
  where
    whole :
        ((r.start == page.ptr) && (r.len == page.size)) ≡ true
        → (a : ℕ) → hits_range a r ≡ hits_page a page
    whole e a = ground (arith, e)

module _ (u : ℕ) (many : 1 < u) (layout : Layout) (l : UnitLayout u layout) where
  -- Where sizes are multiples of a unit above 1 and the pages of the state can be given back,
  -- `deallocate` of a held block that a page holds comes to no panic and leaves a sound state, in
  -- which the block is no longer held: its addresses are free, or gone with their page.
  pub deallocate_lem :
      (libc : Libc) (s : State) (b : Block) (held : List Block)
      → Frees libc s
      → Sound u s (b ∷ held)
      → b.len ≡ layout.size
      → u ∣ b.ptr
      → Home s.pages b.ptr layout.size
      → (s' : State) × (deallocate libc b.ptr layout s ≡ ok s') × Sound u s' held
  unfolding deallocate
  deallocate_lem libc s b held frees v len ptr_unit home =
      let (h, found) = find_page-Home s.pages b.ptr layout.size 0 home in
      let index : 0 + h.index ≡ h.index = omega arith in
      let in_pages : h.index < length s.pages = lt_of_get_elem? s.pages h.index h.there in
      let (rs, at) = row s.free_list h.index (omega (arith, v.same_length, in_pages)) in
      let rs' : List FreeRange = rs ++ record { start = b.ptr; len = layout.size } ∷ [] in
      let s1 : State = record s { free_list = set s.free_list h.index rs' } in
      let unit : All (UnitRange u) rs =
        All-get_elem? (All (UnitRange u)) s.free_list h.index rs v.units at in
      let sound : Sound u s1 held = record {
        same_length = omega (arith, v.same_length, length-set s.free_list h.index rs');
        balance = λ a. omega (
          arith,
          v.balance a,
          total-set (cover a) s.free_list h.index rs rs' at,
          total-append (hits_range a) rs (record { start = b.ptr; len = layout.size } ∷ []),
          ap (hits a b.ptr) len,
        );
        once = v.once;
        no_null = v.no_null;
        units = All-set (All (UnitRange u)) s.free_list h.index rs' v.units (
            All-append (UnitRange u) rs (record { start = b.ptr; len = layout.size } ∷ []) unit (
              record {
                start_unit = ptr_unit;
                len_unit = l.size_unit;
                fits = omega (arith, l.size_bound);
              },
              tt,
            ));
      } in
      let (s', made, kept) =
        release-Sound u libc s1 held h.index h.page rs' frees sound h.there
          (get_elem?-set_self s.free_list h.index rs' (lt_of_get_elem? s.free_list h.index at)) in
      (
        s',
        ground (
          arith,
          l.size_bound,
          found,
          index,
          at,
          made,
          merge_all-unit u many b.ptr layout.size ptr_unit l.size_unit rs unit,
        ),
        kept,
      )
    where
      row :
          (ls : List (List FreeRange)) (i : ℕ)
          → i < length ls
          → (rs : List FreeRange) × (get_elem? ls i ≡ some rs)
      row [] i h = absurd (omega arith)
      row (x ∷ xs) zero h = (x, refl)
      row (x ∷ xs) (suc i) h = row xs i (omega arith)
