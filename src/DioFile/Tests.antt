-- ===== src/DioFile/Tests.antt =====
-- Runs of dio_file.rs on small inputs, and its theorems at them.
use io.Prelude.{true, ℕ, ◌%◌, ◌^◌, ◌≡◌, ◌↔◌, ◌⊎◌, refl, List, [], ◌∷◌, none, some, ok, panic, arith}
use io.Executor.{ℤ, pos}
use io.File.Handle.{open_path}
use io.DioFile.Handle.{Opened, checked, open_dio, read_aligned, open_dio-Descriptor}
use io.IoError.{IoError, Result, done, failed, unexpected_eof, os, eintr}
use io.DioFile.{
  DioFile, align_up, align_down, open_checked, assert_alignment, retry_all, transfer_all_aligned,
}
use io.DioFile.Align.{assert_alignment_iff}
use io.DioFile.Opening.{IsPower, open_checked_iff}

abbrev disk : DioFile
disk = record { dio_mem_align = 4; dio_offset_align = 512 }

down_513 : align_down 513 512 ≡ ok 512
unfolding align_down
down_513 = refl

up_513 : align_up 513 512 ≡ ok 1024
unfolding align_up
up_513 = refl

up_overflows : align_up 4294967290 512 ≡ panic
unfolding align_up
up_overflows = refl

opened : open_checked 4 512 ≡ done disk
unfolding open_checked
opened = refl

not_aligned : transfer_all_aligned disk 8 100 512 [] ≡ panic
unfolding transfer_all_aligned
not_aligned = refl

-- a short count, an interruption, and the whole buffer
abbrev eventful : List (Result ℕ)
eventful = done 512 ∷ failed (os eintr) ∷ done 1024 ∷ []

transferred : transfer_all_aligned disk 8 1024 512 eventful ≡ ok (some (done tt, []))
unfolding transfer_all_aligned
transferred = refl

open_checked_iff_example :
    (open_checked 4 512 ≡ done disk)
    ↔ (IsPower 4 × IsPower 512 × (record { dio_mem_align = 4; dio_offset_align = 512 } ≡ disk))
open_checked_iff_example = open_checked_iff 4 512 disk

assert_alignment_iff_example :
    (assert_alignment (record { dio_mem_align = 2 ^ 2; dio_offset_align = 2 ^ 9 }) 8 1024 512
      ≡ ok tt)
    ↔ ((8 % 2 ^ 2 ≡ 0) × (1024 % 2 ^ 9 ≡ 0) × (512 % 2 ^ 9 ≡ 0))
assert_alignment_iff_example =
    assert_alignment_iff 2 9 8 1024 512 (omega arith) (omega arith) (omega arith)

eventful_ends : retry_all 1024 none eventful ≡ some (done tt, [])
unfolding retry_all
eventful_ends = refl

abbrev repeated : List (Result ℕ)
repeated = done 512 ∷ failed (os eintr) ∷ done 512 ∷ done 1024 ∷ []

repeated_ends : retry_all 1024 none repeated ≡ some (failed unexpected_eof, done 1024 ∷ [])
unfolding retry_all
repeated_ends = refl

abbrev no_flags : ℤ → ℤ
no_flags flags = pos 16384

path_there :
    open_path (47 ∷ []) (pos 16384) (pos 0)
    ≡ done (record { path = 47 ∷ 0 ∷ []; flags = 16384; mode = 0; io_id = none })
unfolding open_path io.File.from_path
path_there = refl

-- A file on a system without direct transfers: it is opened, and then closed.
abbrev opened_seven : Opened
opened_seven = record {
  file = record { fd = 7 };
  alignments = record { dio_mem_align = 512; dio_offset_align = 4096 };
}

open_unsupported_closes :
    ((alignments : DioFile) × (open_dio no_flags
          (47 ∷ [])
          (pos 0)
          (pos 0)
          (done 7)
          (done (0, 0))
          (5 ∷ [])
        ≡ (done (record { file = record { fd = 7 }; alignments = alignments }), 5 ∷ []))
      × (checked (done (0, 0)) ≡ done alignments))
    ⊎ ((e : IoError) × (open_dio no_flags (47 ∷ []) (pos 0) (pos 0) (done 7) (done (0, 0)) (5 ∷ [])
          ≡ (failed e, 5 ∷ 7 ∷ []))
        × (checked (done (0, 0)) ≡ failed e))
open_unsupported_closes =
    open_dio-Descriptor no_flags (47 ∷ []) (pos 0) (pos 0) (done 7) (done (0, 0)) (5 ∷ []) 7
      (record { path = 47 ∷ 0 ∷ []; flags = 16384; mode = 0; io_id = none }, path_there, refl)

aligned_read_there :
    read_aligned (record { file = record { fd = 7 }; alignments = disk }) 8 1024 512
    ≡ ok (record {
      fd = 7;
      offset = 512;
      buf_ptr = 8;
      buf_len = 1024;
      io_id = none;
      direct_io = true;
    })
unfolding read_aligned assert_alignment align_up align_down
aligned_read_there = refl
