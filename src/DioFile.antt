-- ===== src/DioFile.antt =====
-- io2/src/fs/dio_file.rs: files read and written past the page cache, in aligned blocks.
use Prim.Native.Nat.{bit_and}
use io.Prelude.{
  ℕ, ◌+◌, ◌-◌, ◌%◌, List, [], ◌∷◌, Option, none, some, Outcome, ok, panic, ◌>>=◌, ◌>>◌, assert, ltb,
  ◌==◌, if◌then◌else◌, Bool, true, false, ◌&&◌, ◌||◌,
}
use io.IoError.{Result, done, failed, unsupported, not_power_of_two, unexpected_eof, is_interrupted}
use io.Word.{u32_mod, u64_mod, to_u32, add_u32, sub_checked}
pub mod Align
pub mod Opening
pub mod Transfers
pub mod Whole
pub mod Handle
pub mod Granting
mod Tests

-- `!x` on `u32` and on `u64`
abbrev pub not_u32 : ℕ → ℕ
not_u32 x = u32_mod - 1 - x

abbrev pub not_u64 : ℕ → ℕ
not_u64 x = u64_mod - 1 - x

-- `(v + align - 1) & !(align - 1)`
unfoldable pub align_up : ℕ → ℕ → Outcome ℕ
align_up v align = do
  a ← add_u32 v align
  b ← sub_checked a 1
  mask ← sub_checked align 1
  ok (bit_and b (not_u32 mask))

-- `v & !(align - 1)`
unfoldable pub align_down : ℕ → ℕ → Outcome ℕ
align_down v align = do mask ← sub_checked align 1; ok (bit_and v (not_u64 mask))

-- `u32::is_power_of_two`
abbrev pub is_power_of_two : ℕ → Bool
is_power_of_two n = ltb 0 n && (bit_and n (n - 1) == 0)

-- `DioFile`, less the file itself
pub record DioFile : Type 0 where
  pub dio_mem_align : ℕ
  pub dio_offset_align : ℕ

-- The end of `DioFile::open`, on the two alignments that `statx` gave.
unfoldable pub open_checked : ℕ → ℕ → Result DioFile
open_checked mem_align offset_align =
    if (mem_align == 0) || (offset_align == 0)
    then failed unsupported
    else if is_power_of_two mem_align && is_power_of_two offset_align
    then done (record { dio_mem_align = mem_align; dio_offset_align = offset_align })
    else failed not_power_of_two

-- `<*const u8>::align_offset`
abbrev pub align_offset : ℕ → ℕ → ℕ
align_offset addr align = (align - addr % align) % align

-- `assert_alignment` of a buffer at address `ptr` with `len` bytes
unfoldable pub assert_alignment : DioFile → ℕ → ℕ → ℕ → Outcome (Unit {0})
unfolding align_up align_down
assert_alignment file ptr len offset = do
  assert (align_offset ptr file.dio_mem_align == 0)
  len32 ← to_u32 len
  up ← align_up len32 file.dio_offset_align
  assert (up == len32)
  down ← align_down offset file.dio_offset_align
  assert (down == offset)
  ok tt

-- `retry == Some(n)`
abbrev pub seen : Option ℕ → ℕ → Bool
seen none n = false
seen (some m) n = m == n

-- The loop of `write_all_aligned` and of `read_exact_aligned`, over the answers to its requests, one
-- after the other: what the loop returns with the answers that it did not need, or `none` while it
-- still waits for an answer.
unfoldable pub retry_all :
    ℕ → Option ℕ → List (Result ℕ) → Option (Result (Unit {0}) × List (Result ℕ))
retry_all len retry [] = none
retry_all len retry (done n ∷ answers) =
    let again = retry_all len (some n) answers in
    if ltb n len
    then if seen retry n then some (failed unexpected_eof, answers) else again
    else some (done tt, answers)
retry_all len retry (failed e ∷ answers) =
    let again = retry_all len retry answers in
    if is_interrupted e then again else some (failed e, answers)

-- `write_all_aligned` and `read_exact_aligned` of a buffer at address `ptr` with `len` bytes. Each
-- request asserts the alignment of the same buffer and offset, which the first one decides.
unfoldable pub transfer_all_aligned :
    DioFile → ℕ → ℕ → ℕ → List (Result ℕ) → Outcome (Option (Result (Unit {0}) × List (Result ℕ)))
unfolding assert_alignment retry_all
transfer_all_aligned file ptr len offset answers =
    assert_alignment file ptr len offset >> ok (retry_all len none answers)
