-- ===== src/LocalAlloc/Balance.antt =====
-- The allocator as a whole: at every address, free ranges and held blocks add up to the pages.
use Prim.Native.Nat.{◌∣◌}
use io.Prelude.{
  ℕ, ◌+◌, ◌≤◌, ◌≡◌, refl, List, [], ◌∷◌, some, length, arith, Option-cases, inl, inr, All, total,
}
use io.LocalAlloc.Pages.{Block}
use io.LocalAlloc.{FreeRange, Page, Layout, State, take_from, scan}
use io.LocalAlloc.Ranges.{hits, cover, take_from-parts}
use io.LocalAlloc.Units.{UnitLayout, UnitRange, All-aligned, take_from-UnitRange}

abbrev pub hits_block : ℕ → Block → ℕ
hits_block a b = hits a b.ptr b.len

abbrev pub hits_page : ℕ → Page → ℕ
hits_page a p = hits a p.ptr p.size

-- The state with the blocks that clients hold: the two vectors go together, every address of a page
-- is free once or held once, pages do not overlap and none holds address 0, and all is in multiples of
-- the unit.
pub record Sound (u : ℕ) (s : State) (held : List Block) : Type 0 where
  pub same_length : length s.pages ≡ length s.free_list
  pub balance :
      (a : ℕ)
      → total (cover a) s.free_list + total (hits_block a) held ≡ total (hits_page a) s.pages
  pub once : (a : ℕ) → total (hits_page a) s.pages ≤ 1
  pub no_null : total (hits_page 0) s.pages ≡ 0
  pub units : All (All (UnitRange u)) s.free_list

-- The block overlaps no held block and no free range.
abbrev pub Apart : Block → List Block → State → Type 0
Apart b held s =
    (a : ℕ) → hits_block a b + total (hits_block a) held + total (cover a) s.free_list ≤ 1

pub Sound-Apart :
    (u : ℕ) (s : State) (b : Block) (held : List Block) → Sound u s (b ∷ held) → Apart b held s
Sound-Apart u s b held v a = omega (arith, v.balance a, v.once a)

module _ (u : ℕ) (layout : Layout) (l : UnitLayout u layout) where
  -- what the loop over the pages leaves where it finds a block
  pub record Scanned (lists : List (List FreeRange)) (b : Block) (lists' : List (List FreeRange))
      : Type 0 where
    pub len : b.len ≡ layout.size
    pub ptr_unit : u ∣ b.ptr
    pub same_length : length lists' ≡ length lists
    pub parts : (a : ℕ) → hits_block a b + total (cover a) lists' ≡ total (cover a) lists
    pub units : All (All (UnitRange u)) lists'

  pub scan-Scanned :
      (lists : List (List FreeRange)) (b : Block) (lists' : List (List FreeRange))
      → All (All (UnitRange u)) lists
      → scan layout lists ≡ some (b, lists')
      → Scanned lists b lists'
  unfolding scan
  scan-Scanned [] b lists' v h = cc
  scan-Scanned (rs ∷ lists) b lists' v h = elim (Option-cases (take_from layout rs)) [
    | inl e ↦ elim (Option-cases (scan layout lists)) [
      | inl e' ↦ absurd (ground (arith, e, e'))
      | inr ((c, rest'), e') ↦
          let same : b ≡ c = ground (arith, e, e') in
          let rest : lists' ≡ rs ∷ rest' = ground (arith, e, e') in
          let f = scan-Scanned lists c rest' v.1 e' in
          rw (same, rest)
            (record {
              len = f.len;
              ptr_unit = f.ptr_unit;
              same_length = omega (arith, f.same_length);
              parts = λ a. omega (arith, f.parts a);
              units = (v.0, f.units);
            })
    ]
    | inr ((c, rs'), e) ↦
        let same : b ≡ c = ground (arith, e) in
        let rest : lists' ≡ rs' ∷ lists = ground (arith, e) in
        let p = take_from-parts layout rs c rs' (All-aligned u layout rs l v.0) e in
        let w = take_from-UnitRange u layout rs c rs' l v.0 e in
        rw (same, rest)
          (record {
            len = p.0;
            ptr_unit = w.1;
            same_length = refl;
            parts = λ a. omega (arith, p.1 a);
            units = (w.0, v.1);
          })
  ]
