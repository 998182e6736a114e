-- ===== src/DioFile/Handle.antt =====
-- dio_file.rs: the methods of `DioFile` that go on to its file, the futures of aligned transfers, and `open`
-- from the answers to its two requests.
use io.Prelude.{ℕ, ◌≡◌, ◌⊎◌, inl, inr, refl, List, [], ◌∷◌, ◌++◌, none, Outcome, ok, ◌>>◌, true}
use io.IoError.{IoError, Result, done, failed}
use io.Executor.{ℤ}
use io.File.{Open, Read, Write, SyncAll, Close}
use io.File.Handle.{File, open_path, sync_all, close_file, drop_file}
use io.DioFile.{DioFile, open_checked, assert_alignment}

-- a `DioFile` with its file
pub record Opened : Type 0 where
  pub file : File
  pub alignments : DioFile

unfoldable pub close_dio : Opened → Close
close_dio dio = close_file dio.file

unfoldable pub sync_all_dio : Opened → SyncAll
sync_all_dio dio = sync_all dio.file

unfoldable pub read_aligned : Opened → ℕ → ℕ → ℕ → Outcome Read
read_aligned dio buf_ptr buf_len offset = do
  assert_alignment dio.alignments buf_ptr buf_len offset
  ok (record {
    fd = dio.file.fd;
    offset = offset;
    buf_ptr = buf_ptr;
    buf_len = buf_len;
    io_id = none;
    direct_io = true;
  })

unfoldable pub write_aligned : Opened → ℕ → ℕ → ℕ → Outcome Write
write_aligned dio buf_ptr buf_len offset = do
  assert_alignment dio.alignments buf_ptr buf_len offset
  ok (record {
    fd = dio.file.fd;
    offset = offset;
    buf_ptr = buf_ptr;
    buf_len = buf_len;
    io_id = none;
    direct_io = true;
  })

-- The end of `open`, where it is polled to its end: the file moves into the result, or is still a local
-- variable when an error returns, so that it is dropped and joins the files that the executor closes.
abbrev pub keep_or_drop : File → List ℕ → Result DioFile → Result Opened × List ℕ
keep_or_drop file files_to_close (done alignments) =
    (done (record { file = file; alignments = alignments }), files_to_close)
keep_or_drop file files_to_close (failed e) = (failed e, drop_file file files_to_close)

-- the check of what `statx` said: the two alignments, or its error
abbrev pub checked : Result (ℕ × ℕ) → Result DioFile
checked (failed e) = failed e
checked (done (mem_align, offset_align)) = open_checked mem_align offset_align

-- what comes after the request to open the file, whose answer is its descriptor
abbrev pub after_open : Result ℕ → Result (ℕ × ℕ) → List ℕ → Result Opened × List ℕ
after_open (failed e) stat files_to_close = (failed e, files_to_close)
after_open (done fd) stat files_to_close =
    keep_or_drop (record { fd = fd }) files_to_close (checked stat)

-- `DioFile::open`, polled to its end; `with_direct` sets `O_DIRECT` in the flags.
unfoldable pub open_dio :
    (ℤ → ℤ) → List ℕ → ℤ → ℤ → Result ℕ → Result (ℕ × ℕ) → List ℕ → Result Opened × List ℕ
open_dio with_direct path flags mode opened stat files_to_close =
    elim (open_path path (with_direct flags) mode) [
      | failed e ↦ (failed e, files_to_close)
      | done how ↦ after_open opened stat files_to_close
    ]

-- whether a descriptor was opened
abbrev pub Descriptor : Result Open → Result ℕ → ℕ → Type 0
Descriptor how opened fd = (o : Open) × (how ≡ done o) × (opened ≡ done fd)

-- An `open` that is polled to its end, for which the kernel has opened a descriptor, returns it with the
-- alignments that were checked, or an error, after which it is the last of those that the executor closes.
pub open_dio-Descriptor :
    (with_direct : ℤ → ℤ) (path : List ℕ) (flags mode : ℤ) (opened : Result ℕ)
    (stat : Result (ℕ × ℕ)) (files_to_close : List ℕ) (fd : ℕ)
    → Descriptor (open_path path (with_direct flags) mode) opened fd
    → ((alignments : DioFile) × (open_dio with_direct path flags mode opened stat files_to_close
          ≡ (done (record { file = record { fd = fd }; alignments = alignments }), files_to_close))
        × (checked stat ≡ done alignments))
      ⊎ ((e : IoError) × (open_dio with_direct path flags mode opened stat files_to_close
            ≡ (failed e, files_to_close ++ fd ∷ []))
          × (checked stat ≡ failed e))
unfolding open_dio drop_file
open_dio-Descriptor with_direct path flags mode opened stat files_to_close fd
      (how, path_taken, there) =
    rw (path_taken, open_dio) (rw there (kept (checked stat)))
  where
    kept :
        (result : Result DioFile)
        → ((alignments : DioFile) × (keep_or_drop (record { fd = fd }) files_to_close result ≡ (
          done (record { file = record { fd = fd }; alignments = alignments }),
          files_to_close,
        ))
            × (result ≡ done alignments))
          ⊎ ((e : IoError) × (keep_or_drop (record { fd = fd }) files_to_close result
                ≡ (failed e, files_to_close ++ fd ∷ []))
              × (result ≡ failed e))
    kept (done alignments) = inl (alignments, refl, refl)
    kept (failed e) = inr (e, refl, refl)
