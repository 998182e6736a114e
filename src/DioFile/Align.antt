-- ===== src/DioFile/Align.antt =====
-- The alignment of dio_file.rs, as arithmetic.
use Prim.Native.Nat.{bit_and}
use native.Mathlib.Nat.{
  div-add-mod', mod-lt, one-le-pow, mul-mod_left, mul-add-mod_self_right, mod-eq_of_lt, mod_self,
}
use io.Prelude.{
  ℕ, ◌+◌, ◌-◌, ◌*◌, ◌/◌, ◌%◌, ◌^◌, ◌≤◌, ◌<◌, ◌≡◌, subst, ok, arith, ◌∙◌, sym, ap, Bool-cases, inl,
  inr, ◌↔◌, ◌==◌,
}
use io.Word.{u32_mod, u64_mod}
use io.Word.Bits.{and_high}
use io.DioFile.{align_up, align_down, align_offset, assert_alignment}

-- `&` with the complement of a mask clears the remainder.
clear_low : (k w v : ℕ) → k ≤ w → v < 2 ^ w → bit_and v (2 ^ w - 2 ^ k) ≡ v / 2 ^ k * 2 ^ k
clear_low k w v le h =
    let split : v / 2 ^ k * 2 ^ k + v % 2 ^ k ≡ v = div-add-mod' v (2 ^ k) in
    subst (λ n. bit_and n (2 ^ w - 2 ^ k) ≡ v / 2 ^ k * 2 ^ k) split
      (and_high k w (v / 2 ^ k) (v % 2 ^ k) le (mod-lt v (one-le-pow k 2 (omega arith)))
        (omega (arith, split)))

complement : (m p : ℕ) → 1 ≤ p → m - 1 - (p - 1) ≡ m - p
complement m p h = omega arith

-- The multiple of `p` that `w` is for `v`: the last one up to `v`.
pub record Down (p v w : ℕ) : Type 0 where
  pub multiple : w % p ≡ 0
  pub below : w ≤ v
  pub close : v < w + p

pub record Up (p v w : ℕ) : Type 0 where
  pub multiple : w % p ≡ 0
  pub above : v ≤ w
  pub close : w < v + p

floor-Down : (p v : ℕ) → 1 ≤ p → Down p v (v / p * p)
floor-Down p v h = record {
  multiple = mul-mod_left (v / p) p;
  below = omega (arith, div-add-mod' v p);
  close = omega (arith, div-add-mod' v p, mod-lt v h);
}

-- At a power of two, `align_down` gives the largest multiple that is not above the value.
pub align_down-Down :
    (k v : ℕ) → k ≤ 64 → v < u64_mod → (w : ℕ) × (align_down v (2 ^ k) ≡ ok w) × Down (2 ^ k) v w
unfolding align_down
align_down-Down k v le h =
    let one : 1 ≤ 2 ^ k = one-le-pow k 2 (omega arith) in
    (
      v / 2 ^ k * 2 ^ k,
      ground (arith, one, complement u64_mod (2 ^ k) one, clear_low k 64 v le h),
      floor-Down (2 ^ k) v one,
    )

-- At a power of two, `align_up` gives the least multiple that is not below the value, where the sum
-- of both fits 32 bits.
pub align_up-Up :
    (k v : ℕ)
    → k ≤ 32
    → v + 2 ^ k < u32_mod
    → (w : ℕ) × (align_up v (2 ^ k) ≡ ok w) × Up (2 ^ k) v w
unfolding align_up
align_up-Up k v le h =
    let one : 1 ≤ 2 ^ k = one-le-pow k 2 (omega arith) in
    let top = v + 2 ^ k - 1 in
    let f = floor-Down (2 ^ k) top one in
    (
      top / 2 ^ k * 2 ^ k,
      ground
          (arith, one, complement u32_mod (2 ^ k) one, clear_low k 32 top le (omega (arith, one))),
      record {
        multiple = f.multiple;
        above = omega (arith, f.close);
        close = omega (arith, f.below, one);
      },
    )

-- Two multiples that are less than `p` apart are one.
pub same_multiple : (p v w : ℕ) → v % p ≡ 0 → w % p ≡ 0 → v ≤ w → w < v + p → v ≡ w
same_multiple p v w hv hw le lt =
    let gap : v / p * p + (w - v) ≡ w = omega (arith, div-add-mod' v p, hv) in
    let rest : (v / p * p + (w - v)) % p ≡ w - v =
      mul-add-mod_self_right (v / p) p (w - v) ∙ mod-eq_of_lt (omega arith) in
    let none_left : w - v ≡ 0 = sym rest ∙ ap (λ n. n % p) gap ∙ hw in omega (arith, none_left)

align_offset_iff : (addr p : ℕ) → 1 ≤ p → (align_offset addr p ≡ 0) ↔ (addr % p ≡ 0)
align_offset_iff addr p one = (
  (λ e. elim (Bool-cases (addr % p == 0)) [
    | inl z ↦ ground arith
    | inr s ↦
        absurd (
          ground
            (arith, e, mod-lt addr one, mod-eq_of_lt {n = p - addr % p} {m = p} (ground arith)))
  ]),
  λ e. ground (arith, e, mod_self p),
)

-- Where the alignments are powers of two, the sum of the length and the alignment fits 32 bits, and the
-- offset fits 64 bits, the assertions hold exactly where the address is a multiple of the memory
-- alignment, and the length and the offset are multiples of the offset alignment.
pub assert_alignment_iff :
    (j k ptr len offset : ℕ)
    → k ≤ 31
    → len + 2 ^ k < u32_mod
    → offset < u64_mod
    → (assert_alignment (record { dio_mem_align = 2 ^ j; dio_offset_align = 2 ^ k }) ptr len offset
        ≡ ok tt)
      ↔ ((ptr % 2 ^ j ≡ 0) × (len % 2 ^ k ≡ 0) × (offset % 2 ^ k ≡ 0))
unfolding assert_alignment
assert_alignment_iff j k ptr len offset le fits small =
    let (up, up_eq, u) = align_up-Up k len (omega (arith, le)) fits in
    let (down, down_eq, d) = align_down-Down k offset (omega (arith, le)) small in
    let ptr_iff = align_offset_iff ptr (2 ^ j) (one-le-pow j 2 (omega arith)) in
    (
      (λ e. (
        ground (arith, e, ptr_iff),
        ground (arith, e, up_eq, u.multiple),
        ground (arith, e, up_eq, down_eq, d.multiple),
      )),
      λ t.
          let (p, l, o) = t in
          let same_len = same_multiple (2 ^ k) len up l u.multiple u.above u.close in
          let same_offset = same_multiple (2 ^ k) down offset d.multiple o d.below d.close in
          ground (arith, ptr_iff, p, up_eq, down_eq, same_len, same_offset),
    )
