-- ===== src/DioFile/Opening.antt =====
-- `DioFile::open` of dio_file.rs: which alignments it takes.
use Prim.Native.Nat.{bit_and}
use native.Mathlib.Nat.{one-le-pow, pow-suc}
use io.Prelude.{
  ℕ, zero, suc, ◌+◌, ◌-◌, ◌*◌, ◌/◌, ◌%◌, ◌^◌, ◌≤◌, ◌≡◌, ◌↔◌, sym, ◌∙◌, subst, ◌==◌, true, arith,
  Bool-cases, inl, inr,
}
use io.Word.Bits.{and_digit, zero_and}
use io.IoError.{done}
use io.DioFile.{DioFile, is_power_of_two, open_checked}

and_self : (fuel n : ℕ) → n ≤ fuel → bit_and n n ≡ n
and_self zero zero le = zero_and 0
and_self zero (suc n) le = absurd (omega arith)
and_self (suc fuel) zero le = zero_and 0
and_self (suc fuel) (suc n) le =
    omega (arith, and_digit (suc n) (suc n), and_self fuel (suc n / 2) (omega arith))

-- A power of two shares no digit with the number before it.
power_clear : (k : ℕ) → bit_and (2 ^ k) (2 ^ k - 1) ≡ 0
power_clear zero = and_digit 1 0 ∙ omega (arith, zero_and 0)
power_clear (suc k) =
    let half : 2 ^ suc k / 2 ≡ 2 ^ k = omega (arith, pow-suc 2 k) in
    let half' : (2 ^ suc k - 1) / 2 ≡ 2 ^ k - 1 = omega (arith, pow-suc 2 k) in
    ground (
      arith,
      and_digit (2 ^ suc k) (2 ^ suc k - 1),
      half,
      half',
      power_clear k,
      pow-suc 2 k,
      one-le-pow k 2,
    )

pub IsPower : ℕ → Type 0
IsPower n = (k : ℕ) × (n ≡ 2 ^ k)

double-IsPower : (n : ℕ) → n % 2 ≡ 0 → IsPower (n / 2) → IsPower n
unfolding IsPower
double-IsPower n h (k, e) = (suc k, omega (arith, h, e, pow-suc 2 k))

clear-IsPower : (fuel n : ℕ) → n ≤ fuel → 1 ≤ n → bit_and n (n - 1) ≡ 0 → IsPower n
unfolding IsPower
clear-IsPower zero n le pos e = absurd (omega arith)
clear-IsPower (suc fuel) n le pos e = elim (Bool-cases (n % 2 == 0)) [
  | inl even ↦
      let half : (n - 1) / 2 ≡ n / 2 - 1 = ground arith in
      let digits : bit_and n (n - 1) ≡ bit_and (n / 2) (n / 2 - 1) * 2 + 0 =
        ground (arith, and_digit n (n - 1), half) in
      double-IsPower n (ground arith)
        (clear-IsPower fuel (n / 2) (omega arith) (ground arith) (omega (arith, e, digits)))
  | inr odd ↦
      let half : (n - 1) / 2 ≡ n / 2 = ground arith in
      let digits : bit_and n (n - 1) ≡ bit_and (n / 2) (n / 2) * 2 + 0 =
        ground (arith, and_digit n (n - 1), half) in
      (0, ground (arith, e, digits, and_self (n / 2) (n / 2) (omega arith)))
]

-- The test says whether the number is a power of two.
pub is_power_of_two-IsPower : (n : ℕ) → (is_power_of_two n ≡ true) ↔ IsPower n
unfolding IsPower
is_power_of_two-IsPower n = (
  (λ e. clear-IsPower n n (omega arith) (ground arith) (ground arith)),
  λ p.
      subst (λ m. is_power_of_two m ≡ true) (sym p.1)
        (ground (arith, power_clear p.0, one-le-pow p.0 2)),
)

-- The test of `open` on what `statx` says passes exactly where both alignments are powers of two, and then
-- keeps them.
pub open_checked_iff :
    (mem offset : ℕ) (file : DioFile)
    → (open_checked mem offset ≡ done file) ↔ (
        IsPower mem
        × IsPower offset
        × (record { dio_mem_align = mem; dio_offset_align = offset } ≡ file))
unfolding open_checked
open_checked_iff mem offset file = (
  (λ e. (
    (is_power_of_two-IsPower mem).0 (ground (arith, e)),
    (is_power_of_two-IsPower offset).0 (ground (arith, e)),
    ground (arith, e),
  )),
  λ p.
      let (m, o, same) = p in
      ground (arith, (is_power_of_two-IsPower mem).1 m, (is_power_of_two-IsPower offset).1 o, same),
)
