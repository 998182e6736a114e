-- ===== src/DioFile/Whole/Tests.antt =====
-- `write_all`, `read` and `read_exact` of dio_file.rs on small inputs, and their theorems at them.
use io.Prelude.{ℕ, ◌^◌, ◌≡◌, refl, List, [], ◌∷◌, Option, some, ok, panic, take, arith}
use io.IoError.{done}
use io.IoBuffer.{IoBufferView, view_slice}
use io.DioFile.{DioFile, align_up, align_down, not_u32, not_u64}
use io.DioFile.Whole.{write_all, write_through, read_range, read, read_exact}
use io.DioFile.Whole.Writing.{write_all_panics}
use io.DioFile.Whole.Exact.{read_exact-Returns}
use io.DioFile.Whole.Reading.{read-Shows, read_exact-ZeroFilled}

-- blocks of eight bytes, at addresses that are multiples of four
abbrev small_blocks : DioFile
small_blocks = record { dio_mem_align = 2 ^ 2; dio_offset_align = 2 ^ 3 }

abbrev exactly : ℕ → ℕ → Option ℕ
exactly size align = some size

abbrev twelve : List ℕ
twelve = 0 ∷ 1 ∷ 2 ∷ 3 ∷ 4 ∷ 5 ∷ 6 ∷ 7 ∷ 8 ∷ 9 ∷ 10 ∷ 11 ∷ []

ranges_there : read_range small_blocks 6 4 ≡ ok (0, 8, 6)
unfolding read_range align_up align_down
ranges_there = refl

starts_there : read_range small_blocks 2 4 ≡ ok (0, 8, 2)
unfolding read_range align_up align_down
starts_there = refl

-- Four bytes were asked for, and the file has them; the view shows two.
read-Shows_example :
    (v : IoBufferView) × (read small_blocks exactly 16 6 4 (done (take 8 twelve)) ≡ ok (done v))
    × (view_slice v ≡ ok (6 ∷ 7 ∷ []))
read-Shows_example =
    read-Shows 2 3 16 6 4 0 8 6 8 exactly twelve (take 8 twelve) (omega arith) (omega arith)
      (omega arith) (omega arith) ranges_there refl refl (omega arith) (omega arith) refl
      (omega arith)

read_exact-ZeroFilled_example :
    (v : IoBufferView) × (read_exact small_blocks exactly 16 2 4 (done [] ∷ [])
      ≡ ok (some (done v)))
    × (view_slice v ≡ ok (0 ∷ 0 ∷ 0 ∷ 0 ∷ []))
read_exact-ZeroFilled_example =
    read_exact-ZeroFilled 2 3 16 2 4 0 8 2 8 exactly [] (omega arith) (omega arith) (omega arith)
      starts_there refl refl (omega arith) (omega arith)

write_all_panics_example :
    write_all small_blocks exactly 4 16 (λ offset len. []) (1 ∷ 2 ∷ 3 ∷ []) 8 [] ≡ panic
write_all_panics_example =
    write_all_panics 2 3 4 16 8 exactly (λ offset len. []) (1 ∷ 2 ∷ 3 ∷ []) [] (omega arith) refl
      (ground arith) (omega arith) (omega arith)

-- At an offset that is not aligned, with an end that is: the block is read, changed and written.
abbrev loaded : ℕ → ℕ → List ℕ
loaded offset len = 7 ∷ 7 ∷ 7 ∷ 7 ∷ 7 ∷ 7 ∷ 7 ∷ 7 ∷ []

writes_the_end :
    write_all small_blocks exactly 4 16 loaded (1 ∷ 2 ∷ 3 ∷ []) 13 (done 8 ∷ done 8 ∷ [])
    ≡ ok (some (done (8, 7 ∷ 7 ∷ 7 ∷ 7 ∷ 7 ∷ 1 ∷ 2 ∷ 3 ∷ [])))
unfolding write_all write_through io.DioFile.Whole.fill align_up align_down
    io.DioFile.transfer_all_aligned io.DioFile.assert_alignment io.DioFile.retry_all io.IoBuffer.new
    io.IoBuffer.as_slice
writes_the_end = refl

-- the view of four bytes, two bytes into the first block
abbrev four_shown : IoBufferView
four_shown = record {
  buf = record { layout_size = 8; layout_align = 4; size = 8; bytes = take 8 twelve };
  offset = 2;
  len = 4;
}

read_exact-Returns_example :
    (v : IoBufferView) × (read_exact small_blocks exactly 16 2 4 (done (take 8 twelve) ∷ [])
      ≡ ok (some (done v)))
    × (view_slice v ≡ ok (2 ∷ 3 ∷ 4 ∷ 5 ∷ []))
read_exact-Returns_example =
    read_exact-Returns 2 3 16 2 4 0 8 2 8 exactly twelve (take 8 twelve) (omega arith) (omega arith)
      (omega arith) (omega arith) starts_there refl refl (omega arith) (omega arith) refl
      (omega arith) (omega arith)
