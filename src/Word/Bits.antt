-- ===== src/Word/Bits.antt =====
-- The bit operations that the Rust code makes, as arithmetic: `|` of disjoint fields, and `&` with
-- the complement of a low mask.
use Prim.Native.Nat.{digits, bit_and, bit_or, bit_and-bitwise, bit_or-bitwise}
use native.Mathlib.Nat.{pow-suc, one-le-pow}
use io.Prelude.{
  ℕ, zero, suc, ◌+◌, ◌-◌, ◌*◌, ◌/◌, ◌%◌, ◌^◌, ◌≤◌, ◌<◌, ◌≡◌, refl, ap, min, max, arith,
}

-- Two budgets of rounds that both reach the last digit of `a` give the same number, for an operation
-- `op` on digits and `rest` on what is left of the other number.
module _ (rest : ℕ → ℕ) (op : ℕ → ℕ → ℕ) where
  rounds_agree : (a b r s : ℕ) → a ≤ min r s → digits rest op r a b ≡ digits rest op s a b
  rounds_agree (suc a) b (suc r) (suc s) le =
      omega (arith, rounds_agree (suc a / 2) (b / 2) r s (omega arith))
  rounds_agree (suc a) b zero s le = absurd (omega arith)
  rounds_agree (suc a) b (suc r) zero le = absurd (omega arith)
  rounds_agree zero b (suc r) (suc s) le = refl
  rounds_agree zero b (suc r) zero le = refl
  rounds_agree zero b zero (suc s) le = refl
  rounds_agree zero b zero zero le = refl

pub zero_and : (b : ℕ) → bit_and 0 b ≡ 0
zero_and b = bit_and-bitwise 0 b

zero_or : (b : ℕ) → bit_or 0 b ≡ b
zero_or b = bit_or-bitwise 0 b

pub and_digit : (a b : ℕ) → bit_and a b ≡ bit_and (a / 2) (b / 2) * 2 + min (a % 2) (b % 2)
and_digit zero b = omega (arith, zero_and b, zero_and (b / 2))
and_digit (suc a) b = omega (
  arith,
  bit_and-bitwise (suc a) b,
  bit_and-bitwise (suc a / 2) (b / 2),
  rounds_agree (λ x. 0) min (suc a / 2) (b / 2) a (suc a / 2) (omega arith),
)

or_digit : (a b : ℕ) → bit_or a b ≡ bit_or (a / 2) (b / 2) * 2 + max (a % 2) (b % 2)
or_digit zero b = omega (arith, zero_or b, zero_or (b / 2))
or_digit (suc a) b = omega (
  arith,
  bit_or-bitwise (suc a) b,
  bit_or-bitwise (suc a / 2) (b / 2),
  rounds_agree (λ x. x) max (suc a / 2) (b / 2) a (suc a / 2) (omega arith),
)

double : (q k : ℕ) → q * 2 ^ suc k ≡ 2 * (q * 2 ^ k)
double q k = omega (arith, ap (λ (t : ℕ). q * t) (pow-suc 2 k))

-- `r | (q << k)` is a sum where `r` fits `k` bits.
pub or_fields : (k q r : ℕ) → r < 2 ^ k → bit_or r (q * 2 ^ k) ≡ r + q * 2 ^ k
or_fields zero q zero h = omega (arith, zero_or (q * 1))
or_fields zero q (suc r) h = absurd (omega arith)
or_fields (suc k) q r h = ground (
  arith,
  or_digit r (q * 2 ^ suc k),
  double q k,
  or_fields k q (r / 2) (omega (arith, pow-suc 2 k)),
)

and_ones : (w v : ℕ) → v < 2 ^ w → bit_and v (2 ^ w - 1) ≡ v
and_ones zero zero h = refl
and_ones zero (suc v) h = absurd (omega arith)
and_ones (suc w) v h = ground (
  arith,
  pow-suc 2 w,
  one-le-pow w 2,
  and_digit v (2 ^ suc w - 1),
  and_ones w (v / 2) (omega (arith, pow-suc 2 w)),
)

pow-le : (k w : ℕ) → k ≤ w → 2 ^ k ≤ 2 ^ w
pow-le zero w h = one-le-pow w 2 (omega arith)
pow-le (suc k) zero h = absurd (omega arith)
pow-le (suc k) (suc w) h = omega (arith, pow-suc 2 k, pow-suc 2 w, pow-le k w (omega arith))

-- `v & !((1 << k) - 1)` on `w` bits clears the low `k` bits.
pub and_high :
    (k w q r : ℕ)
    → k ≤ w
    → r < 2 ^ k
    → q * 2 ^ k + r < 2 ^ w
    → bit_and (q * 2 ^ k + r) (2 ^ w - 2 ^ k) ≡ q * 2 ^ k
and_high zero w q r le low h = omega (arith, and_ones w (q * 1 + r) h)
and_high (suc k) zero q r le low h = absurd (omega arith)
and_high (suc k) (suc w) q r le low h = ground (
  arith,
  and_digit (q * 2 ^ suc k + r) (2 ^ suc w - 2 ^ suc k),
  pow-suc 2 k,
  pow-suc 2 w,
  pow-le k w,
  double q k,
  and_high k w q (r / 2) (omega arith) (omega (arith, pow-suc 2 k))
      (omega (arith, double q k, pow-suc 2 w)),
)
