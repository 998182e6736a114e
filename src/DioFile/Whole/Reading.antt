-- ===== src/DioFile/Whole/Reading.antt =====
-- `read` and `read_exact` of dio_file.rs: what their views show.
use native.Mathlib.Nat.{zero-mod}
use io.Prelude.{
  drop-drop, ℕ, ◌+◌, ◌-◌, ◌^◌, ◌%◌, ◌≤◌, ◌<◌, ◌≡◌, refl, sym, ap, ◌∙◌, List, [], ◌∷◌, Option, none,
  some, ok, ltb, length, take, drop, replicate, min, arith, ltb→lt, Bool-cases, inl, inr,
}
use io.IoError.{Result, done}
use io.Word.{u32_mod, u64_mod, add_u64}
use io.IoBuffer.{IoBufferView, view_slice}
use io.DioFile.{DioFile, assert_alignment}
use io.DioFile.Align.{same_multiple, assert_alignment_iff}
use io.DioFile.Whole.{splice, read_range, read, read_from, read_exact}
use io.DioFile.Whole.Ranges.{
  Range, ranged, new_buffer, new_made, viewed, take-drop_front, take-drop_part, take-drop-replicate,
}

-- The view of a read lies in its buffer.
inside_buffer :
    (p offset size w rs s n got : ℕ)
    → Range p offset size w rs
    → s ≡ offset - w
    → 1 ≤ size
    → got ≤ rs
    → rs ≤ n
    → s + min size (got - s) ≤ n
inside_buffer p offset size w rs s n got r start one fewer large =
    let block : p ≤ rs = elim (Bool-cases (ltb rs p)) [
      | inl less ↦ absurd (
          omega (
            arith,
            one,
            r.reaches.above,
            less,
            same_multiple p 0 rs (zero-mod p) r.reaches.multiple (omega arith)
                (ground (arith, less)),
          ))
      | inr more ↦ ground (arith, more)
    ] in
    omega (arith, block, start, r.starts.below, r.starts.close, fewer, large)

-- The bytes of a read that a view shows are those of the file.
shown_bytes :
    (offset size w s n : ℕ) (content got : List ℕ)
    → s ≡ offset - w
    → w ≤ offset
    → got ≡ take (length got) (drop w content)
    → take (min size (length got - s)) (drop s (splice (replicate n 0) 0 got))
      ≡ take (min size (length got - (offset - w))) (drop offset content)
shown_bytes offset size w s n content got start below from =
    let count = min size (length got - s) in
    let same : count ≡ min size (length got - (offset - w)) =
      ap (λ i. min size (length got - i)) start in
    let back : w + s ≡ offset = omega (arith, start, below) in
    elim (Bool-cases (ltb (length got) s)) [
      | inl short ↦
          let nothing : count ≡ 0 = omega (arith, ltb→lt (length got) s short) in
          ap (λ i. take i (drop s (splice (replicate n 0) 0 got))) nothing
          ∙ ap (λ i. take i (drop offset content)) (sym nothing ∙ same)
      | inr enough ↦
          let inside : s + count ≤ length got = ground (arith, enough) in
          take-drop_front s count got (drop (0 + length got) (replicate n 0)) inside
          ∙ ap (λ g. take count (drop s g)) from
          ∙ take-drop_part s count (length got) (drop w content) inside
          ∙ ap (take count) (drop-drop s w content)
          ∙ ap (λ i. take count (drop i content)) back
          ∙ ap (λ i. take i (drop offset content)) same
    ]

-- For powers of two as alignments, a size above zero, and a buffer from the allocator that is aligned and
-- large enough, `read` comes to no panic where the kernel answers with bytes of the file from the start of
-- the range on; its view shows the bytes of the file from the offset on, but only so many of them as lie
-- in the range and were read.
pub read-Shows :
    (j k ptr offset size w rs s n : ℕ) (allocate_zeroed : ℕ → ℕ → Option ℕ) (content got : List ℕ)
    → k ≤ 31
    → offset < u64_mod
    → 1 ≤ size
    → size + 2 ^ k + 2 ^ k < u32_mod
    → read_range (record { dio_mem_align = 2 ^ j; dio_offset_align = 2 ^ k }) offset size
      ≡ ok (w, rs, s)
    → ptr % 2 ^ j ≡ 0
    → allocate_zeroed rs (2 ^ j) ≡ some n
    → rs ≤ n
    → n + 2 ^ j ≤ 2 ^ 63
    → got ≡ take (length got) (drop w content)
    → length got ≤ rs
    → (v : IoBufferView) × (read
          (record { dio_mem_align = 2 ^ j; dio_offset_align = 2 ^ k })
          allocate_zeroed
          ptr
          offset
          size
          (done got)
        ≡ ok (done v))
      × (view_slice v ≡ ok (take (min size (length got - (offset - w))) (drop offset content)))
unfolding read new_buffer
read-Shows j k ptr offset size w rs s n allocate_zeroed content got le small one fits range aligned
      memory large room from fewer =
    let (r, start) = ranged j k offset size w rs s le small (omega (arith, fits)) range in
    let filled = record (new_buffer n (2 ^ j) rs) { bytes = splice (replicate n 0) 0 got } in
    let count = min size (length got - s) in
    let (v, made, shows) =
      viewed filled s count
        (inside_buffer (2 ^ k) offset size w rs s n (length got) r start one fewer large)
        (omega (arith, room)) in
    let sound : assert_alignment (record { dio_mem_align = 2 ^ j; dio_offset_align = 2 ^ k }) ptr rs
          w
        ≡ ok tt =
      (assert_alignment_iff j k ptr rs w le (omega (arith, r.reaches.close, fits))
          (omega (arith, r.starts.below, small))).1
        (aligned, r.reaches.multiple, r.starts.multiple) in
    (
      v,
      rw range (rw (new_made allocate_zeroed rs (2 ^ j) n memory room) (rw sound (rw made refl))),
      shows ∙ ap ok (shown_bytes offset size w s n content got start r.starts.below from),
    )

-- Past the end of the file the kernel answers with no bytes: the loop of `read_exact` stops.
read_from-ends :
    (file : DioFile) (ptr size wanted base : ℕ) (bytes : List ℕ) (answers : List (Result (List ℕ)))
    → base < u64_mod
    → assert_alignment file ptr size base ≡ ok tt
    → read_from file ptr size wanted base bytes 0 none (done [] ∷ answers) ≡ ok (some (done bytes))
unfolding read_from
read_from-ends file ptr size wanted base bytes answers small sound =
    let sum : add_u64 base 0 ≡ ok base = ground (arith, small) in
    let same_ptr : ptr + 0 ≡ ptr = omega arith in
    let same_size : size - 0 ≡ size = omega arith in
    rw sum (rw same_ptr (rw same_size (rw sound refl)))

-- For powers of two as alignments and a buffer from the allocator that is aligned and large enough,
-- `read_exact` of a range that lies past the end of the file, where the kernel reads no bytes, returns no
-- error: it returns a view of the whole size, and all the bytes that it shows are zero.
pub read_exact-ZeroFilled :
    (j k ptr offset size w rs s n : ℕ) (allocate_zeroed : ℕ → ℕ → Option ℕ)
    (answers : List (Result (List ℕ)))
    → k ≤ 31
    → offset < u64_mod
    → size + 2 ^ k + 2 ^ k < u32_mod
    → read_range (record { dio_mem_align = 2 ^ j; dio_offset_align = 2 ^ k }) offset size
      ≡ ok (w, rs, s)
    → ptr % 2 ^ j ≡ 0
    → allocate_zeroed rs (2 ^ j) ≡ some n
    → s + size ≤ n
    → n + 2 ^ j ≤ 2 ^ 63
    → (v : IoBufferView) × (read_exact
          (record { dio_mem_align = 2 ^ j; dio_offset_align = 2 ^ k })
          allocate_zeroed
          ptr
          offset
          size
          (done [] ∷ answers)
        ≡ ok (some (done v)))
      × (view_slice v ≡ ok (replicate size 0))
unfolding read_exact new_buffer
read_exact-ZeroFilled j k ptr offset size w rs s n allocate_zeroed answers le small fits range
      aligned memory large room =
    let file : DioFile = record { dio_mem_align = 2 ^ j; dio_offset_align = 2 ^ k } in
    let (r, start) = ranged j k offset size w rs s le small (omega (arith, fits)) range in
    let (v, made, shows) = viewed (new_buffer n (2 ^ j) rs) s size large (omega (arith, room)) in
    let sound : assert_alignment file ptr rs w ≡ ok tt =
      (assert_alignment_iff j k ptr rs w le (omega (arith, r.reaches.close, fits))
          (omega (arith, r.starts.below, small))).1
        (aligned, r.reaches.multiple, r.starts.multiple) in
    (
      v,
      rw range (
          rw (new_made allocate_zeroed rs (2 ^ j) n memory room) (
            rw
              (read_from-ends file ptr rs (s + size) w (replicate n 0) answers
                (omega (arith, r.starts.below, small)) sound)
              (rw made refl))),
      shows ∙ ap ok (take-drop-replicate s size n large),
    )
