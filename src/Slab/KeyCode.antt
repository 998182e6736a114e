-- ===== src/Slab/KeyCode.antt =====
-- `From<Key> for u64` and `From<u64> for Key` of slab.rs, through which a key travels as the
-- `user_data` of an io_uring entry.
use Prim.Native.Nat.{bit_or}
use io.Prelude.{ℕ, ◌*◌, ◌/◌, ◌%◌, ◌^◌, ◌<◌, ◌≡◌, arith}
use io.Word.{u32_mod, u64_mod}
use io.Word.Bits.{or_fields}
use io.Slab.{Key}

-- `key.index as u64 | (key.generation as u64) << 32`; the shift loses no bit of a `u32`
unfoldable pub to_u64 : Key → ℕ
to_u64 key = bit_or key.index ((key.generation * 2 ^ 32) % u64_mod)

-- `val as u32` and `(val >> 32) as u32`
unfoldable pub from_u64 : ℕ → Key
from_u64 val = record { index = val % u32_mod; generation = (val / 2 ^ 32) % u32_mod }

-- A key whose fields are `u32` values comes back from its `u64`.
pub from_u64-to_u64 :
    (k : Key) → k.index < u32_mod → k.generation < u32_mod → from_u64 (to_u64 k) ≡ k
unfolding from_u64 to_u64
from_u64-to_u64 k hi hg =
    let fits : (k.generation * 2 ^ 32) % u64_mod ≡ k.generation * 2 ^ 32 = omega arith in
    ground (arith, fits, or_fields 32 k.generation k.index)

-- Every `u64` is the code of the key that it decodes to.
pub to_u64-from_u64 : (n : ℕ) → n < u64_mod → to_u64 (from_u64 n) ≡ n
unfolding from_u64 to_u64
to_u64-from_u64 n h = ground (arith, or_fields 32 (n / 2 ^ 32) (n % u32_mod))
