-- ===== src/DioFile/Whole/Ranges.antt =====
-- What the reads of dio_file.rs share: the range that they read, their buffer, and parts of lists.
use io.Prelude.{
  ℕ, zero, suc, ◌+◌, ◌-◌, ◌^◌, ◌≤◌, ◌<◌, ◌≡◌, refl, ap, List, [], ◌∷◌, ◌++◌, Option, some, ok, leb,
  true, length, take, drop, subst, same_value, replicate, arith,
}
use io.Word.{u32_mod, u64_mod, to_u32, add_u64, sub_checked}
use io.IoBuffer.{IoBuffer, IoBufferView, view_slice}
use io.IoBuffer
use io.DioFile.Align.{Down, Up, align_down-Down, align_up-Up}
use io.DioFile.Whole.{read_range}

module _ {A : Type 0} where
  -- Of a list in front of another, and of a part of a list, take what lies inside.
  pub take-drop_front :
      (m n : ℕ) (xs ys : List A)
      → m + n ≤ length xs
      → take n (drop m (xs ++ ys)) ≡ take n (drop m xs)
  take-drop_front zero zero xs ys le = refl
  take-drop_front zero (suc n) [] ys le = absurd (omega (arith, le))
  take-drop_front zero (suc n) (x ∷ xs) ys le =
      ap (λ l. x ∷ l) (take-drop_front zero n xs ys (omega (arith, le)))
  take-drop_front (suc m) n [] ys le = absurd (omega (arith, le))
  take-drop_front (suc m) n (x ∷ xs) ys le = take-drop_front m n xs ys (omega (arith, le))

  pub take-drop_part :
      (m n k : ℕ) (xs : List A) → m + n ≤ k → take n (drop m (take k xs)) ≡ take n (drop m xs)
  take-drop_part m zero k xs le = refl
  take-drop_part zero (suc n) zero xs le = absurd (omega (arith, le))
  take-drop_part zero (suc n) (suc k) [] le = refl
  take-drop_part zero (suc n) (suc k) (x ∷ xs) le =
      ap (λ l. x ∷ l) (take-drop_part zero n k xs (omega (arith, le)))
  take-drop_part (suc m) (suc n) zero xs le = absurd (omega (arith, le))
  take-drop_part (suc m) (suc n) (suc k) [] le = refl
  take-drop_part (suc m) (suc n) (suc k) (x ∷ xs) le =
      take-drop_part m (suc n) k xs (omega (arith, le))

pub take-drop-replicate :
    (m n k : ℕ) → m + n ≤ k → take {A = ℕ} n (drop m (replicate k 0)) ≡ replicate n 0
take-drop-replicate zero zero k le = refl
take-drop-replicate zero (suc n) zero le = absurd (omega (arith, le))
take-drop-replicate zero (suc n) (suc k) le =
    ap (λ l. 0 ∷ l) (take-drop-replicate zero n k (omega (arith, le)))
take-drop-replicate (suc m) n zero le = absurd (omega (arith, le))
take-drop-replicate (suc m) n (suc k) le = take-drop-replicate m n k (omega (arith, le))

-- What `read` and `read_exact` read: the blocks from `read_offset` on, `read_size` bytes.
pub record Range (p offset size read_offset read_size : ℕ) : Type 0 where
  pub starts : Down p offset read_offset
  pub reaches : Up p size read_size

read_range-Range :
    (j k offset size : ℕ)
    → k ≤ 31
    → offset < u64_mod
    → size + 2 ^ k < u32_mod
    → (read_offset : ℕ) × (read_size : ℕ) × (read_range
          (record { dio_mem_align = 2 ^ j; dio_offset_align = 2 ^ k })
          offset
          size
        ≡ ok (read_offset, read_size, offset - read_offset))
      × Range (2 ^ k) offset size read_offset read_size
unfolding read_range
read_range-Range j k offset size le small fits =
    let (w, down, d) = align_down-Down k offset (omega (arith, le)) small in
    let (n, up, u) = align_up-Up k size (omega (arith, le)) fits in
    let narrow : to_u32 size ≡ ok size = ground (arith, fits) in
    let start : sub_checked offset w ≡ ok (offset - w) = ground (arith, d.below) in
    (w, n, rw down (rw narrow (rw up (rw start refl))), record { starts = d; reaches = u })

-- what the range of a read must be
pub ranged :
    (j k offset size w rs s : ℕ)
    → k ≤ 31
    → offset < u64_mod
    → size + 2 ^ k < u32_mod
    → read_range (record { dio_mem_align = 2 ^ j; dio_offset_align = 2 ^ k }) offset size
      ≡ ok (w, rs, s)
    → Range (2 ^ k) offset size w rs × (s ≡ offset - w)
ranged j k offset size w rs s le small fits h =
    let (w', rs', e, r) = read_range-Range j k offset size le small fits in
    subst {A = ℕ × ℕ × ℕ} (λ t. Range (2 ^ k) offset size t.0 t.1 × (t.2 ≡ offset - t.0))
      (same_value e h) (r, refl)

-- A new buffer is as large as the allocation, and full of zeros.
unfoldable pub new_buffer : ℕ → ℕ → ℕ → IoBuffer
new_buffer n align size = record {
  layout_size = n;
  layout_align = align;
  size = size;
  bytes = replicate n 0;
}

pub new_made :
    (allocate_zeroed : ℕ → ℕ → Option ℕ) (size align n : ℕ)
    → allocate_zeroed size align ≡ some n
    → n + align ≤ 2 ^ 63
    → IoBuffer.new allocate_zeroed size align ≡ ok (some (new_buffer n align size))
unfolding io.IoBuffer.new new_buffer
new_made allocate_zeroed size align n h fits =
    let small : leb (n + align) (2 ^ 63) ≡ true = ground (arith, fits) in
    rw (h, io.IoBuffer.new) (rw small refl)

-- A view of a buffer shows that part of its bytes.
pub viewed :
    (buf : IoBuffer) (offset len : ℕ)
    → offset + len ≤ buf.layout_size
    → buf.layout_size < u64_mod
    → (v : IoBufferView) × (IoBuffer.view buf offset len ≡ ok v)
      × (view_slice v ≡ ok (take len (drop offset buf.bytes)))
unfolding io.IoBuffer.view view_slice
viewed buf offset len le small =
    let end : add_u64 offset len ≡ ok (offset + len) = ground (arith, le, small) in
    let inside : leb (offset + len) buf.layout_size ≡ true = ground (arith, le) in
    (
      record { buf = buf; offset = offset; len = len },
      rw end (rw inside refl),
      rw end (rw inside refl),
    )
