-- ===== src/DioFile/Whole/Writing.antt =====
-- `write_all` of dio_file.rs where the length is not a multiple of the alignment.
use io.Prelude.{
  ℕ, ◌+◌, ◌-◌, ◌^◌, ◌%◌, ◌≤◌, ◌<◌, ◌≡◌, ◌≢◌, inl, inr, refl, ap, ◌∙◌, List, Option, none, some, ok,
  panic, ◌>>=◌, unwrap, ltb, leb, ◌==◌, Outcome-cases, true, false, length, replicate, arith,
  if◌then◌else◌, ◌&&◌,
}
use io.IoError.{Result, done}
use io.Word.{u32_mod, u64_mod, add_u64, sub_checked, to_u32}
use io.IoBuffer.{IoBuffer}
use io.IoBuffer
use io.DioFile.{DioFile, align_up, align_down, assert_alignment, transfer_all_aligned}
use io.DioFile.Align.{align_down-Down, align_up-Up, assert_alignment_iff, same_multiple}
use io.DioFile.Whole.{after, transfer, fill, write_through, write_all}

-- the size of a new buffer is the one asked for
pub new-size :
    (allocate_zeroed : ℕ → ℕ → Option ℕ) (size align : ℕ) (buf : IoBuffer)
    → IoBuffer.new allocate_zeroed size align ≡ ok (some buf)
    → buf.size ≡ size
unfolding io.IoBuffer.new
new-size allocate_zeroed size align buf h = go (allocate_zeroed size align) h
  where
    go :
        (answer : Option ℕ)
        → elim answer [
          | none ↦ ok none
          | some len ↦
              if leb (len + align) (2 ^ 63)
              then ok (
                  some (record {
                    layout_size = len;
                    layout_align = align;
                    size = size;
                    bytes = replicate len 0;
                  }))
              else panic
        ]
          ≡ ok (some buf)
        → buf.size ≡ size
    go none e = cc
    go (some len) e = ground (arith, e)

-- A multiple of `p` and less than `p` more is no multiple.
between : (p a b : ℕ) → a % p ≡ 0 → 1 ≤ b → b < p → (a + b) % p ≢ 0
between p a b m one lt h =
    omega (arith, one, same_multiple p a (a + b) m h (omega arith) (omega (arith, lt)))

-- A transfer at an offset that is no multiple of the alignment panics.
fill_panics :
    (j k ptr start len offset : ℕ) (load : ℕ → ℕ → List ℕ) (buf : IoBuffer)
    (answers : List (Result ℕ))
    → k ≤ 31
    → len + 2 ^ k < u32_mod
    → offset < u64_mod
    → offset % 2 ^ k ≢ 0
    → fill
        (record { dio_mem_align = 2 ^ j; dio_offset_align = 2 ^ k })
        ptr
        load
        buf
        start
        len
        offset
        answers
      ≡ panic
unfolding fill transfer_all_aligned
fill_panics j k ptr start len offset load buf answers le fits small off =
    elim (Outcome-cases (
      assert_alignment (record { dio_mem_align = 2 ^ j; dio_offset_align = 2 ^ k }) (ptr + start)
        len offset)) [
          | inl panics ↦ rw panics refl
          | inr (u, fine) ↦
              absurd
                (off ((assert_alignment_iff j k (ptr + start) len offset le fits small).0 fine).2)
        ]

-- The part of `write_all` that goes through a buffer of its own, at an aligned offset: it reads the last
-- block from behind the data on, at an offset that is not aligned.
write_through_panics :
    (j k ptr offset : ℕ) (load : ℕ → ℕ → List ℕ) (buf : List ℕ) (write_buf : IoBuffer)
    (answers : List (Result ℕ))
    → k ≤ 31
    → offset % 2 ^ k ≡ 0
    → length buf < write_buf.size
    → write_buf.size < length buf + 2 ^ k
    → length buf + 2 ^ k < u32_mod
    → offset + u32_mod < u64_mod
    → write_through
        (record { dio_mem_align = 2 ^ j; dio_offset_align = 2 ^ k })
        write_buf
        ptr
        load
        buf
        offset
        offset
        answers
      ≡ panic
unfolding write_through
write_through_panics j k ptr offset load buf write_buf answers le m more close fits small =
    let e = write_buf.size - length buf in
    let start : sub_checked offset offset ≡ ok 0 = ground arith in
    let end : add_u64 offset write_buf.size ≡ ok (offset + write_buf.size) =
      ground (arith, close, fits, small) in
    let wanted : add_u64 offset (length buf) ≡ ok (offset + length buf) =
      ground (arith, fits, small) in
    let behind : sub_checked (offset + write_buf.size) (offset + length buf) ≡ ok e =
      ground (arith, more) in
    let some_left : ltb 0 e ≡ true = ground (arith, more) in
    let inside : leb e write_buf.size ≡ true = ground arith in
    rw start (
      rw end (
        rw wanted (
          rw behind (
            rw some_left (
              rw inside (
                rw
                  (fill_panics j k ptr e (write_buf.size - e) (offset + e) load write_buf answers le
                    (omega (arith, more, fits)) (omega (arith, close, fits, small))
                    (between (2 ^ k) offset e m (omega (arith, more)) (omega (arith, close))))
                  refl))))))

write_all-tested :
    (file : DioFile) (buf_ptr ptr offset w size len : ℕ) (allocate_zeroed : ℕ → ℕ → Option ℕ)
    (load : ℕ → ℕ → List ℕ) (buf : List ℕ) (answers : List (Result ℕ))
    → align_down offset file.dio_offset_align ≡ ok w
    → to_u32 (length buf) ≡ ok len
    → align_up len file.dio_offset_align ≡ ok size
    → write_all file allocate_zeroed buf_ptr ptr load buf offset answers
      ≡ elim ((w == offset) && (size == length buf)) [
        | true ↦
            after
              (transfer file buf_ptr (length buf) offset answers)
              λ rest. ok (some (done (offset, buf)))
        | false ↦ IoBuffer.new allocate_zeroed size file.dio_mem_align >>= λ new.
            unwrap new >>= λ write_buf. write_through file write_buf ptr load buf offset w answers
      ]
unfolding write_all
write_all-tested file buf_ptr ptr offset w size len allocate_zeroed load buf answers down narrow
      up =
    rw down (rw narrow (rw up refl))

-- At an aligned offset, `write_all` of a buffer whose length is not a multiple of the alignment always
-- panics, whatever the allocator, the address of its buffer and the kernel's answers are.
pub write_all_panics :
    (j k buf_ptr ptr offset : ℕ) (allocate_zeroed : ℕ → ℕ → Option ℕ) (load : ℕ → ℕ → List ℕ)
    (buf : List ℕ) (answers : List (Result ℕ))
    → k ≤ 31
    → offset % 2 ^ k ≡ 0
    → length buf % 2 ^ k ≢ 0
    → length buf + 2 ^ k < u32_mod
    → offset + u32_mod < u64_mod
    → write_all
        (record { dio_mem_align = 2 ^ j; dio_offset_align = 2 ^ k })
        allocate_zeroed
        buf_ptr
        ptr
        load
        buf
        offset
        answers
      ≡ panic
unfolding write_all
write_all_panics j k buf_ptr ptr offset allocate_zeroed load buf answers le m ragged fits small =
    let (w, down, d) = align_down-Down k offset (omega (arith, le)) (omega (arith, small)) in
    let (size, up, u) = align_up-Up k (length buf) (omega (arith, le)) fits in
    let narrow : to_u32 (length buf) ≡ ok (length buf) = ground (arith, fits) in
    let same : w ≡ offset = same_multiple (2 ^ k) w offset d.multiple m d.below d.close in
    let other : length buf ≢ size = λ e. ragged (ap (λ n. n % 2 ^ k) e ∙ u.multiple) in
    let test : ((offset == offset) && (size == length buf)) ≡ false = ground (arith, other) in
    write_all-tested (record { dio_mem_align = 2 ^ j; dio_offset_align = 2 ^ k }) buf_ptr ptr offset
      offset size (length buf) allocate_zeroed load buf answers (down ∙ ap ok same) narrow up
    ∙ rw test (elim (Outcome-cases (IoBuffer.new allocate_zeroed size (2 ^ j))) [
      | inl panics ↦ rw panics refl
      | inr (none, made) ↦ rw made refl
      | inr (some write_buf, made) ↦ rw made (
          write_through_panics j k ptr offset load buf write_buf answers le m
            (omega (arith, new-size allocate_zeroed size (2 ^ j) write_buf made, u.above, other))
            (omega (arith, new-size allocate_zeroed size (2 ^ j) write_buf made, u.close)) fits
            small)
    ])
