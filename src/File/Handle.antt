-- ===== src/File/Handle.antt =====
-- io2/src/fs/file.rs: the methods of `File` that make futures, its `Drop`, and what reads a whole range.
use io.Prelude.{
  ℕ, ◌+◌, ◌-◌, List, [], ◌∷◌, ◌++◌, Option, none, some, length, Outcome, ok, panic, ◌>>=◌, ltb,
  ◌==◌, if◌then◌else◌, false,
}
use io.Word.{u64_mod, add_u64}
use io.IoError.{Result, done, failed, unexpected_eof, is_interrupted}
use io.Executor.{ℤ, pos, negsuc}
use io.File.{Open, Read, Write, SyncAll, Close, Statx, from_path}

pub record File : Type 0 where
  pub fd : ℕ

-- `as u64` of an `i32`
abbrev pub as_u64 : ℤ → ℕ
as_u64 (pos n) = n
as_u64 (negsuc n) = u64_mod - (n + 1)

-- `File::open`, on the bytes of the path
unfoldable pub open_path : List ℕ → ℤ → ℤ → Result Open
open_path path flags mode = elim (from_path path) [
  | failed e ↦ failed e
  | done c_string ↦
      done (record { path = c_string; flags = as_u64 flags; mode = as_u64 mode; io_id = none })
]

-- `File::read` and `File::write`, of a buffer at an address
unfoldable pub read_at : File → ℕ → ℕ → ℕ → Read
read_at file buf_ptr buf_len offset = record {
  fd = file.fd;
  offset = offset;
  buf_ptr = buf_ptr;
  buf_len = buf_len;
  io_id = none;
  direct_io = false;
}

unfoldable pub write_at : File → ℕ → ℕ → ℕ → Write
write_at file buf_ptr buf_len offset = record {
  fd = file.fd;
  offset = offset;
  buf_ptr = buf_ptr;
  buf_len = buf_len;
  io_id = none;
  direct_io = false;
}

unfoldable pub sync_all : File → SyncAll
sync_all file = record { fd = file.fd; io_id = none }

-- `close` forgets the file, so that it is not dropped
unfoldable pub close_file : File → Close
close_file file = record { io_id = none; fd = file.fd }

-- `statx`, with the zeroed result
unfoldable pub statx_of : {S : Type 0} → S → File → Statx S
statx_of zeroed file = record { fd = file.fd; io_id = none; stat = zeroed }

-- `Drop`: the file joins those that the executor closes
unfoldable pub drop_file : File → List ℕ → List ℕ
drop_file file files_to_close = files_to_close ++ file.fd ∷ []

-- The loop of `read_exact` of `left` bytes over the answers to its requests, each with the bytes that the
-- kernel read: what was read where, and the result, or `none` while the loop waits.
unfoldable pub read_exact :
    ℕ → ℕ → List (Result (List ℕ)) → Outcome (List (ℕ × List ℕ) × Option (Result (Unit {0})))
read_exact left offset [] = ok ([], if left == 0 then some (done tt) else none)
read_exact left offset (done got ∷ answers) =
    if left == 0
    then ok ([], some (done tt))
    else if length got == 0
    then ok ([], some (failed unexpected_eof))
    else if ltb left (length got)
    then panic
    else (do
      offset' ← add_u64 offset (length got)
      (pieces, result) ← read_exact (left - length got) offset' answers
      ok ((offset, got) ∷ pieces, result))
read_exact left offset (failed e ∷ answers) =
    let again = read_exact left offset answers in
    if left == 0
    then ok ([], some (done tt))
    else if is_interrupted e
    then again
    else ok ([], some (failed e))

-- the bytes of some pieces
abbrev pub joined : List (ℕ × List ℕ) → List ℕ
joined [] = []
joined ((at, got) ∷ pieces) = got ++ joined pieces

-- `file_size`, from what `statx` said: the size, or its error
abbrev pub file_size : {S : Type 0} → (S → ℕ) → Result S → Result ℕ
file_size stx_size (failed e) = failed e
file_size stx_size (done stat) = done (stx_size stat)

-- The end of the function `read`, with the size of the file: a vector with that capacity has no bytes
-- yet, and its slice is what `read_exact` fills.
unfoldable pub fill_vector : ℕ → List (Result (List ℕ)) → Outcome (Option (Result (List ℕ)))
unfolding read_exact
fill_vector capacity answers = do
  let buf : List ℕ = []
  (pieces, result) ← read_exact (length buf) 0 answers
  elim result [
    | none ↦ ok none
    | some (failed e) ↦ ok (some (failed e))
    | some (done u) ↦ ok (some (done (joined pieces)))
  ]

-- The file is dropped when `read` returns, and not while it waits.
unfoldable pub drop_after :
    File → List ℕ → Option (Result (List ℕ)) → Outcome (Option (Result (List ℕ)) × List ℕ)
unfolding drop_file
drop_after file files_to_close none = ok (none, files_to_close)
drop_after file files_to_close (some result) = ok (some result, drop_file file files_to_close)

-- The function `read`, from the answers to its requests to open the file, for its size, and for its bytes.
unfoldable pub read_file :
    List ℕ
    → Result ℕ
    → Result ℕ
    → List (Result (List ℕ))
    → List ℕ
    → Outcome (Option (Result (List ℕ)) × List ℕ)
unfolding fill_vector drop_after
read_file path opened size answers files_to_close = elim (open_path path (pos 0) (pos 0)) [
  | failed e ↦ ok (some (failed e), files_to_close)
  | done how ↦ elim opened [
    | failed e ↦ ok (some (failed e), files_to_close)
    | done fd ↦ elim size [
      | failed e ↦ drop_after (record { fd = fd }) files_to_close (some (failed e))
      | done capacity ↦ do
        result ← fill_vector capacity answers
        drop_after (record { fd = fd }) files_to_close result
    ]
  ]
]
