-- ===== src/LocalAlloc/Ranges.antt =====
-- What local_alloc.rs does with one free range and with the ranges of one page, by the addresses
-- that they cover.
use io.Prelude.{
  ℕ, suc, ◌+◌, ◌≤◌, ◌≡◌, refl, ap, ◌∙◌, List, [], ◌∷◌, Option, none, some, get_elem?, swap_remove,
  total, total-append, total-swap_remove, All, All-get_elem?, ltb, leb, if◌then◌else◌, ◌&&◌, arith,
  Bool-cases, inl, inr,
}
use io.LocalAlloc.Pages.{Block}
use io.LocalAlloc.{FreeRange, Layout, Cut, cut, search, align_offset, push, take_from, replace}

-- 1 where the address lies in the interval, 0 elsewhere
abbrev pub hits : ℕ → ℕ → ℕ → ℕ
hits a start len = if leb start a && ltb a (start + len) then 1 else 0

-- how many of the ranges hold the address
abbrev pub hits_range : ℕ → FreeRange → ℕ
hits_range a r = hits a r.start r.len

abbrev pub cover : ℕ → List FreeRange → ℕ
cover a = total (hits_range a)

abbrev pub cover_opt : ℕ → Option FreeRange → ℕ
cover_opt a none = 0
cover_opt a (some r) = hits a r.start r.len

pub cover-push :
    (a : ℕ) (o : Option FreeRange) (xs : List FreeRange)
    → cover a (push o xs) ≡ cover_opt a o + cover a xs
cover-push a none xs = omega arith
cover-push a (some x) xs = omega (arith, total-append (hits_range a) xs (x ∷ []))

-- What `search` finds: a range that is large enough behind its first aligned address.
pub record Found (layout : Layout) (ranges : List FreeRange) (idx i : ℕ) (c : Cut) : Type 0 where
  pub offset : ℕ
  pub range : FreeRange
  pub at_index : i ≡ idx + offset
  pub there : get_elem? ranges offset ≡ some range
  pub large : align_offset range.start layout.align + layout.size ≤ range.len
  pub cut_of : c ≡ cut layout range (align_offset range.start layout.align)

pub search-Found :
    (layout : Layout) (idx : ℕ) (ranges : List FreeRange) (i : ℕ) (c : Cut)
    → search layout idx ranges ≡ some (i, c)
    → Found layout ranges idx i c
unfolding search
search-Found layout idx [] i c h = cc
search-Found layout idx (r ∷ rs) i c h =
    elim (Bool-cases (leb (align_offset r.start layout.align + layout.size) r.len)) [
      | inl e ↦ record {
        offset = 0;
        range = r;
        at_index = ground (arith, e);
        there = refl;
        large = ground (arith, e);
        cut_of = ground (arith, e);
      }
      | inr e ↦
          let f = search-Found layout (idx + 1) rs i c (ground (arith, e)) in
          record {
            offset = suc f.offset;
            range = f.range;
            at_index = omega (arith, f.at_index);
            there = f.there;
            large = f.large;
            cut_of = f.cut_of;
          }
    ]

-- The block has the size that was asked for and lies inside the range, behind `start`.
pub cut_block :
    (layout : Layout) (r : FreeRange) (start : ℕ)
    → start + layout.size ≤ r.len
    → ((cut layout r start).block.ptr ≡ r.start + start)
      × ((cut layout r start).block.len ≡ layout.size)
unfolding cut
cut_block layout r start h = ground arith

-- A range that starts at an aligned address is parted into the block and what is left.
pub cut_parts :
    (layout : Layout) (r : FreeRange) (a : ℕ)
    → layout.size ≤ r.len
    → let c = cut layout r 0 in
      hits a c.block.ptr c.block.len + cover_opt a c.first + cover_opt a c.second
      ≡ hits a r.start r.len
unfolding cut
cut_parts layout r a h = ground arith

-- What `take_from` does to a page's ranges where each of them starts at an aligned address: the block
-- has the right size, and the ranges lose exactly the block's addresses.
pub take_from-parts :
    (layout : Layout) (ranges : List FreeRange) (b : Block) (ranges' : List FreeRange)
    → All (λ r. align_offset r.start layout.align ≡ 0) ranges
    → take_from layout ranges ≡ some (b, ranges')
    → (b.len ≡ layout.size) × ((a : ℕ) → hits a b.ptr b.len + cover a ranges' ≡ cover a ranges)
unfolding take_from
take_from-parts layout ranges b ranges' aligned h = go (search layout 0 ranges) refl h
  where
    go :
        (o : Option (ℕ × Cut))
        → search layout 0 ranges ≡ o
        → replace ranges o ≡ some (b, ranges')
        → (b.len ≡ layout.size) × ((a : ℕ) → hits a b.ptr b.len + cover a ranges' ≡ cover a ranges)
    go none e q = cc
    go (some (i, c)) e q =
        let f = search-Found layout 0 ranges i c e in
        let r = f.range in
        let s0 : align_offset r.start layout.align ≡ 0 =
          All-get_elem? (λ x. align_offset x.start layout.align ≡ 0) ranges f.offset r aligned
            f.there in
        let at : i ≡ f.offset = omega (arith, f.at_index) in
        let c0 : c ≡ cut layout r 0 = f.cut_of ∙ ap (cut layout r) s0 in
        let large : layout.size ≤ r.len = omega (arith, f.large, s0) in
        let b0 : b ≡ c.block = cc in
        let rs0 : ranges' ≡ push c.second (push c.first (swap_remove ranges i)) = cc in
        (
          rw (b0, c0) ((cut_block layout r 0 (omega arith)).1),
          λ a.
              rw (b0, rs0, c0, at)
                (omega (
                  arith,
                  cut_parts layout r a large,
                  cover-push a (cut layout r 0).second
                      (push (cut layout r 0).first (swap_remove ranges f.offset)),
                  cover-push a (cut layout r 0).first (swap_remove ranges f.offset),
                  total-swap_remove (hits_range a) ranges f.offset r f.there,
                )),
        )
