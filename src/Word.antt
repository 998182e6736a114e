-- ===== src/Word.antt =====
-- Machine integers: the checked conversions and additions that the Rust code makes, on numbers.
pub mod Bits
use io.Prelude.{
  ◌<◌, ◌≡◌, refl, sym, same_value, Bool-cases, inl, inr, arith, ℕ, zero, suc, ◌+◌, ◌-◌, ◌*◌, ◌^◌,
  Outcome, ok, panic, ltb, leb, if◌then◌else◌,
}

abbrev pub u32_mod : ℕ
u32_mod = 2 ^ 32

abbrev pub u64_mod : ℕ
u64_mod = 2 ^ 64

-- `u32::try_from(n).unwrap()`
abbrev pub to_u32 : ℕ → Outcome ℕ
to_u32 n = if ltb n u32_mod then ok n else panic

-- `a + b` on `u32`, with overflow checks
abbrev pub add_u32 : ℕ → ℕ → Outcome ℕ
add_u32 a b = to_u32 (a + b)

-- `a + b` on `u64` and on `usize`, which has 64 bits, with overflow checks
abbrev pub add_u64 : ℕ → ℕ → Outcome ℕ
add_u64 a b = if ltb (a + b) u64_mod then ok (a + b) else panic

-- `usize::checked_sub(…).unwrap()`, and `-` with overflow checks
abbrev pub sub_checked : ℕ → ℕ → Outcome ℕ
sub_checked a b = if ltb a b then panic else ok (a - b)

-- The least power of two from `p` on, a power of two itself, that is at least `n`. It panics
-- when `rounds` doublings do not reach `n`.
unfoldable pub power_of_two_from : ℕ → ℕ → ℕ → Outcome ℕ
power_of_two_from zero p n = panic
power_of_two_from (suc rounds) p n =
    let rest = power_of_two_from rounds (2 * p) n in if leb n p then ok p else rest

-- `usize::next_power_of_two`: the largest power of two of 64 bits is `2 ^ 63`
unfoldable pub next_power_of_two : ℕ → Outcome ℕ
unfolding power_of_two_from
next_power_of_two n = power_of_two_from 64 1 n

-- A conversion, or a sum, that came to no panic is in bounds.
pub to_u32-value : (n m : ℕ) → to_u32 n ≡ ok m → (m ≡ n) × (n < u32_mod)
to_u32-value n m h = elim (Bool-cases (ltb n u32_mod)) [
  | inl small ↦ (sym (same_value (rw small refl) h), ground (arith, small))
  | inr big ↦ absurd (ground (arith, big, h))
]

pub add_u64-value : (a b m : ℕ) → add_u64 a b ≡ ok m → (m ≡ a + b) × (a + b < u64_mod)
add_u64-value a b m h = elim (Bool-cases (ltb (a + b) u64_mod)) [
  | inl small ↦ (sym (same_value (rw small refl) h), ground (arith, small))
  | inr big ↦ absurd (ground (arith, big, h))
]
