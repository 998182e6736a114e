-- ===== src/DioFile/Whole.antt =====
-- dio_file.rs: `write_all`, `read` and `read_exact`, for any offset and length. The allocator, the address
-- that it gives, and the kernel's answers are parameters.
use io.Prelude.{
  ℕ, ◌+◌, ◌-◌, List, [], ◌∷◌, ◌++◌, Option, none, some, Outcome, ok, panic, ◌>>=◌, ◌>>◌, unwrap,
  assert, ltb, leb, ◌==◌, Bool, true, false, ◌&&◌, ◌||◌, length, take, drop, min, max,
}
use io.IoError.{Result, done, failed, unexpected_eof, is_interrupted}
use io.Word.{to_u32, add_u64, sub_checked}
use io.IoBuffer.{IoBuffer, IoBufferView, as_slice}
use io.IoBuffer
use io.DioFile.{DioFile, align_up, align_down, assert_alignment, seen, transfer_all_aligned}
pub mod Writing
pub mod Ranges
pub mod Filling
pub mod Exact
pub mod Reading
mod Tests

-- the bytes after a write of `got` at `start`
abbrev pub splice : List ℕ → ℕ → List ℕ → List ℕ
splice bytes start got = take start bytes ++ (got ++ drop (start + length got) bytes)

-- `.await?`: what comes after a call, unless it still waits or has failed
abbrev pub after :
    {A B : Type 0}
    → Outcome (Option (Result A))
    → (A → Outcome (Option (Result B)))
    → Outcome (Option (Result B))
after (ok none) rest = ok none
after (ok (some (failed e))) rest = ok (some (failed e))
after (ok (some (done a))) rest = rest a
after panic rest = panic

-- the answers that are left after a transfer of a whole buffer
abbrev pub left_after :
    Option (Result (Unit {0}) × List (Result ℕ)) → Option (Result (List (Result ℕ)))
left_after none = none
left_after (some (done u, answers)) = some (done answers)
left_after (some (failed e, answers)) = some (failed e)

abbrev pub transfer :
    DioFile → ℕ → ℕ → ℕ → List (Result ℕ) → Outcome (Option (Result (List (Result ℕ))))
transfer file ptr len offset answers = do
  r ← transfer_all_aligned file ptr len offset answers
  ok (left_after r)

-- `read_exact_aligned` into the part of a buffer at `ptr` that starts at `start` and has `len` bytes, where
-- `load` says what the kernel finds at an offset.
unfoldable pub fill :
    DioFile
    → ℕ
    → (ℕ → ℕ → List ℕ)
    → IoBuffer
    → ℕ
    → ℕ
    → ℕ
    → List (Result ℕ)
    → Outcome (Option (Result (IoBuffer × List (Result ℕ))))
fill file ptr load buf start len offset answers =
    after (transfer file (ptr + start) len offset answers) λ rest.
      ok (some (done (record buf { bytes = splice buf.bytes start (load offset len) }, rest)))

-- The part of `write_all` that goes through a buffer of its own: it returns where it wrote, and the bytes.
unfoldable pub write_through :
    DioFile
    → IoBuffer
    → ℕ
    → (ℕ → ℕ → List ℕ)
    → List ℕ
    → ℕ
    → ℕ
    → List (Result ℕ)
    → Outcome (Option (Result (ℕ × List ℕ)))
unfolding fill
write_through file write_buf ptr load buf offset write_offset answers = do
  start_diff ← sub_checked offset write_offset
  let head : Outcome (Option (Result (IoBuffer × List (Result ℕ)))) = elim (ltb 0 start_diff) [
    | true ↦
        assert (leb file.dio_offset_align write_buf.size)
        >> fill file ptr load write_buf 0 file.dio_offset_align write_offset answers
    | false ↦ ok (some (done (write_buf, answers)))
  ]
  after head λ s. do
    end ← add_u64 write_offset write_buf.size
    wanted ← add_u64 offset (length buf)
    end_diff ← sub_checked end wanted
    let tail : Outcome (Option (Result (IoBuffer × List (Result ℕ)))) = elim (ltb 0 end_diff) [
      | true ↦
          assert (leb end_diff write_buf.size)
          >> fill file ptr load s.0 end_diff (write_buf.size - end_diff) (write_offset + end_diff)
              s.1
      | false ↦ ok (some (done s))
    ]
    after tail λ t. do
      assert (leb (start_diff + length buf) write_buf.size)
      let filled = record t.0 { bytes = splice t.0.bytes start_diff buf }
      after (transfer file ptr write_buf.size write_offset t.1)
          λ rest. ok (some (done (write_offset, IoBuffer.as_slice filled)))

-- `write_all` of the bytes at `buf_ptr`; `allocate_zeroed` and `ptr` are those of its buffer.
unfoldable pub write_all :
    DioFile
    → (ℕ → ℕ → Option ℕ)
    → ℕ
    → ℕ
    → (ℕ → ℕ → List ℕ)
    → List ℕ
    → ℕ
    → List (Result ℕ)
    → Outcome (Option (Result (ℕ × List ℕ)))
unfolding write_through
write_all file allocate_zeroed buf_ptr ptr load buf offset answers = do
  write_offset ← align_down offset file.dio_offset_align
  len ← to_u32 (length buf)
  write_size ← align_up len file.dio_offset_align
  elim ((write_offset == offset) && (write_size == length buf)) [
    | true ↦
        after (transfer file buf_ptr (length buf) offset answers)
          λ rest. ok (some (done (offset, buf)))
    | false ↦ do
      new ← IoBuffer.new allocate_zeroed write_size file.dio_mem_align
      write_buf ← unwrap new
      write_through file write_buf ptr load buf offset write_offset answers
  ]

-- where `read` and `read_exact` read: the offset, the size of the buffer, and where the view starts
unfoldable pub read_range : DioFile → ℕ → ℕ → Outcome (ℕ × ℕ × ℕ)
read_range file offset size = do
  read_offset ← align_down offset file.dio_offset_align
  size32 ← to_u32 size
  read_size ← align_up size32 file.dio_offset_align
  view_start ← sub_checked offset read_offset
  ok (read_offset, read_size, view_start)

-- `read`, where the answer to its one request is the bytes that were read
unfoldable pub read :
    DioFile → (ℕ → ℕ → Option ℕ) → ℕ → ℕ → ℕ → Result (List ℕ) → Outcome (Result IoBufferView)
unfolding read_range
read file allocate_zeroed ptr offset size answer = do
  (read_offset, read_size, view_start) ← read_range file offset size
  new ← IoBuffer.new allocate_zeroed read_size file.dio_mem_align
  buf ← unwrap new
  assert_alignment file ptr buf.size read_offset
  elim answer [
    | failed e ↦ ok (failed e)
    | done got ↦ do
      let filled = record buf { bytes = splice buf.bytes 0 got }
      v ← IoBuffer.view filled view_start (min size (length got - view_start))
      ok (done v)
  ]

-- The loop of `read_exact`, over the answers to its requests: the bytes of its buffer at `ptr`, or `none`
-- while it waits. It reads from `total` on, at the offset `base + total`, and stops at `wanted` bytes.
unfoldable pub read_from :
    DioFile
    → ℕ
    → ℕ
    → ℕ
    → ℕ
    → List ℕ
    → ℕ
    → Option ℕ
    → List (Result (List ℕ))
    → Outcome (Option (Result (List ℕ)))
read_from file ptr size wanted base bytes total retry [] = ok none
read_from file ptr size wanted base bytes total retry (answer ∷ answers) = do
  offset ← add_u64 base total
  assert_alignment file (ptr + total) (size - total) offset
  let step = max file.dio_offset_align file.dio_mem_align
  elim answer [
    | failed e ↦ elim (is_interrupted e) [
      | true ↦ read_from file ptr size wanted base bytes total retry answers
      | false ↦ ok (some (failed e))
    ]
    | done got ↦
        let n = length got in
        let read = splice bytes total got in
        elim ((n == 0) || leb wanted (total + n)) [
          | true ↦ ok (some (done read))
          | false ↦ elim (leb step n) [
            | true ↦
                assert (leb (total + step) size)
                >> read_from file ptr size wanted base read (total + step) none answers
            | false ↦ elim (seen retry n) [
              | true ↦ ok (some (failed unexpected_eof))
              | false ↦ read_from file ptr size wanted base read total (some n) answers
            ]
          ]
        ]
  ]

unfoldable pub read_exact :
    DioFile
    → (ℕ → ℕ → Option ℕ)
    → ℕ
    → ℕ
    → ℕ
    → List (Result (List ℕ))
    → Outcome (Option (Result IoBufferView))
unfolding read_range read_from
read_exact file allocate_zeroed ptr offset size answers = do
  (read_offset, read_size, view_start) ← read_range file offset size
  new ← IoBuffer.new allocate_zeroed read_size file.dio_mem_align
  buf ← unwrap new
  after (read_from file ptr buf.size (view_start + size) read_offset buf.bytes 0 none answers)
      λ bytes. do
        v ← IoBuffer.view (record buf { bytes = bytes }) view_start size
        ok (some (done v))
