-- ===== src/LocalAlloc/Units.antt =====
-- Allocation in multiples of a unit: where every size asked for is a multiple of the unit and every
-- alignment divides it, the free ranges of local_alloc.rs start and end at multiples of it.
use Prim.Native.Nat.{◌∣◌}
use native.Mathlib.Nat.{
  dvd-add, dvd-sub, dvd_trans, mod-eq-zero_of_dvd, mod_self, sub-zero, add-zero,
}
use io.Prelude.{
  ℕ, ◌+◌, ◌-◌, ◌^◌, ◌≤◌, ◌<◌, ◌≡◌, ◌≢◌, refl, sym, ap, ◌∙◌, subst, List, [], ◌∷◌, Option, none,
  some, swap_remove, ◌==◌, arith, Bool-cases, inl, inr, All, All-append, All-swap_remove,
  All-get_elem?,
}
use io.Word.{u64_mod}
use io.LocalAlloc.Pages.{Block}
use io.LocalAlloc.{FreeRange, Layout, Cut, cut, search, align_offset, push, take_from, replace}
use io.LocalAlloc.Ranges.{Found, search-Found, cut_block}

module _ (u : ℕ) where
  -- the layouts that a client asks for
  pub record UnitLayout (layout : Layout) : Type 0 where
    pub size_unit : u ∣ layout.size
    pub align_unit : layout.align ∣ u
    pub size_bound : layout.size < 2 ^ 63

  pub record UnitRange (r : FreeRange) : Type 0 where
    pub start_unit : u ∣ r.start
    pub len_unit : u ∣ r.len
    pub fits : r.len + 1 < u64_mod

  -- such a range starts at an aligned address
  pub UnitRange-aligned :
      (layout : Layout) (r : FreeRange)
      → UnitLayout layout
      → UnitRange r
      → align_offset r.start layout.align ≡ 0
  UnitRange-aligned layout r l v =
      rw (mod-eq-zero_of_dvd layout.align (dvd_trans layout.align l.align_unit v.start_unit))
        (rw sub-zero (mod_self layout.align))

  pub All-aligned :
      (layout : Layout) (rs : List FreeRange)
      → UnitLayout layout
      → All UnitRange rs
      → All (λ r. align_offset r.start layout.align ≡ 0) rs
  All-aligned layout [] l v = tt
  All-aligned layout (r ∷ rs) l v = (UnitRange-aligned layout r l v.0, All-aligned layout rs l v.1)

  All-push :
      (o : Option FreeRange) (rs : List FreeRange)
      → ((r : FreeRange) → o ≡ some r → UnitRange r)
      → All UnitRange rs
      → All UnitRange (push o rs)
  All-push none rs h v = v
  All-push (some r) rs h v = All-append UnitRange rs (r ∷ []) v (h r refl, tt)

  cut-UnitRange :
      (layout : Layout) (r : FreeRange)
      → UnitLayout layout
      → UnitRange r
      → let c = cut layout r 0 in
        ((x : FreeRange) → c.first ≡ some x → UnitRange x) × (c.second ≡ none)
  unfolding cut
  cut-UnitRange layout r l v = elim (Bool-cases (layout.size == r.len)) [
    | inl e ↦ rw e ((λ x q. cc), refl)
    | inr e ↦ rw e ((λ x q. subst UnitRange (some_inj q) rest), refl)
  ]
    where
      rest : UnitRange (record { start = r.start + layout.size; len = r.len - layout.size })
      rest = record {
        start_unit = dvd-add u v.start_unit l.size_unit;
        len_unit = dvd-sub u v.len_unit l.size_unit;
        fits = omega arith;
      }

      some_inj : {a b : FreeRange} → some a ≡ some b → a ≡ b
      some_inj q = cc

  pub take_from-UnitRange :
      (layout : Layout) (ranges : List FreeRange) (b : Block) (ranges' : List FreeRange)
      → UnitLayout layout
      → All UnitRange ranges
      → take_from layout ranges ≡ some (b, ranges')
      → All UnitRange ranges' × (u ∣ b.ptr)
  unfolding take_from
  take_from-UnitRange layout ranges b ranges' l v h = go (search layout 0 ranges) refl h
    where
      go :
          (o : Option (ℕ × Cut))
          → search layout 0 ranges ≡ o
          → replace ranges o ≡ some (b, ranges')
          → All UnitRange ranges' × (u ∣ b.ptr)
      go none e q = cc
      go (some (i, c)) e q =
          let f = search-Found layout 0 ranges i c e in
          let unit : UnitRange f.range =
            All-get_elem? UnitRange ranges f.offset f.range v f.there in
          let c0 : c ≡ cut layout f.range 0 =
            f.cut_of ∙ ap (cut layout f.range) (UnitRange-aligned layout f.range l unit) in
          let cuts = cut-UnitRange layout f.range l unit in
          let b0 : b ≡ (cut layout f.range 0).block = cc (c0) in
          let rs0 : ranges'
              ≡ push (cut layout f.range 0).second
                  (push (cut layout f.range 0).first (swap_remove ranges i)) =
            cc (c0) in
          (
            subst (All UnitRange) (sym rs0) (
                All-push (cut layout f.range 0).second _
                  (λ x p. absurd (none_some x (sym cuts.1 ∙ p)))
                  (All-push (cut layout f.range 0).first _ cuts.0
                    (All-swap_remove UnitRange ranges i v))),
            subst (λ n. u ∣ n)
                (sym (
                  ap (λ (k : Block). k.ptr) b0
                  ∙ (cut_block layout f.range 0 (large f unit)).0
                  ∙ add-zero f.range.start))
                unit.start_unit,
          )
        where
          none_some : (x : FreeRange) → none ≢ some x
          none_some x h = cc

          large :
              (f : Found layout ranges 0 i c) → UnitRange f.range → 0 + layout.size ≤ f.range.len
          large f unit = omega (arith, f.large)
