-- ===== src/IoBuffer/Views.antt =====
-- What a view of io_buffer.rs shows.
use io.Prelude.{
  ℕ, zero, suc, ◌+◌, ◌-◌, ◌^◌, ◌≤◌, ◌<◌, ◌≡◌, ◌≢◌, ◌↔◌, refl, sym, ap, subst, List, [], ◌∷◌, Option,
  none, some, length, take, drop, replicate, ok, panic, leb, if◌then◌else◌, true, arith,
}
use io.Word.{u64_mod}
use io.IoBuffer.{IoBuffer, IoBufferView, new, as_slice, view, view_slice, view_len, view_is_empty}

-- The allocation holds as many bytes as its layout says, and at least those asked for.
pub record IsValid (buf : IoBuffer) : Type 0 where
  pub whole : length buf.bytes ≡ buf.layout_size
  pub enough : buf.size ≤ buf.layout_size
  pub bounded : buf.layout_size < u64_mod

length-replicate : (n v : ℕ) → length (replicate n v) ≡ n
length-replicate zero v = refl
length-replicate (suc n) v = omega (arith, length-replicate n v)

pub length-drop : (n : ℕ) (xs : List ℕ) → length (drop n xs) ≡ length xs - n
length-drop zero xs = omega arith
length-drop (suc n) [] = omega arith
length-drop (suc n) (x ∷ xs) = omega (arith, length-drop n xs)

pub length-take : (n : ℕ) (xs : List ℕ) → n ≤ length xs → length (take n xs) ≡ n
length-take zero xs h = refl
length-take (suc n) [] h = absurd (omega arith)
length-take (suc n) (x ∷ xs) h = omega (arith, length-take n xs (omega arith))

take-replicate : (k n : ℕ) → k ≤ n → take k (replicate {A = ℕ} n 0) ≡ replicate k 0
take-replicate zero n h = refl
take-replicate (suc k) zero h = absurd (omega arith)
take-replicate (suc k) (suc n) h = ap (◌∷◌ 0) (take-replicate k n (omega arith))

-- What is within the first `n` bytes is not changed by cutting behind them.
take-drop-take :
    (n m k : ℕ) (xs : List ℕ) → m + k ≤ n → take k (drop m (take n xs)) ≡ take k (drop m xs)
take-drop-take zero zero zero xs h = refl
take-drop-take zero zero (suc k) xs h = absurd (omega arith)
take-drop-take zero (suc m) k xs h = absurd (omega arith)
take-drop-take (suc n) zero zero xs h = refl
take-drop-take (suc n) zero (suc k) [] h = refl
take-drop-take (suc n) zero (suc k) (x ∷ xs) h =
    ap (◌∷◌ x) (take-drop-take n zero k xs (omega arith))
take-drop-take (suc n) (suc m) k [] h = refl
take-drop-take (suc n) (suc m) k (x ∷ xs) h = take-drop-take n m k xs (omega arith)

-- A new buffer is valid, has the size asked for, and reads as zeros, where the allocator gives at
-- least the size asked for.
pub new-IsValid :
    (allocate_zeroed : ℕ → ℕ → Option ℕ) (size align : ℕ) (buf : IoBuffer)
    → ((n : ℕ) → allocate_zeroed size align ≡ some n → size ≤ n)
    → new allocate_zeroed size align ≡ ok (some buf)
    → IsValid buf × (as_slice buf ≡ replicate size 0)
unfolding new as_slice
new-IsValid allocate_zeroed size align buf large h = go (allocate_zeroed size align) large h
  where
    made :
        (n : ℕ)
        → size ≤ n
        → n + align ≤ 2 ^ 63
        → let b : IoBuffer = record {
          layout_size = n;
          layout_align = align;
          size = size;
          bytes = replicate n 0;
        } in
          b ≡ buf → IsValid buf × (as_slice buf ≡ replicate size 0)
    made n le fits e =
        subst (λ b. IsValid b × (as_slice b ≡ replicate size 0)) e
          (
            record { whole = length-replicate n 0; enough = le; bounded = omega arith },
            take-replicate size n le,
          )

    go :
        (o : Option ℕ)
        → ((n : ℕ) → o ≡ some n → size ≤ n)
        → elim o [
          | none ↦ ok none
          | some len ↦
              if leb (len + align) (2 ^ 63)
              then ok (
                  some (record {
                    layout_size = len;
                    layout_align = align;
                    size = size;
                    bytes = replicate len 0;
                  }))
              else panic
        ]
          ≡ ok (some buf)
        → IsValid buf × (as_slice buf ≡ replicate size 0)
    go none le q = cc
    go (some n) le q = made n (le n refl) (ground arith) (ground arith)

-- A view of a valid buffer is made, without a panic, exactly where it lies inside the allocation.
pub view_iff :
    (buf : IoBuffer) (offset len : ℕ)
    → IsValid buf
    → ((v : IoBufferView) × (view buf offset len ≡ ok v)) ↔ (offset + len ≤ buf.layout_size)
unfolding view
view_iff buf offset len h = (
  (λ p. ground (arith, p.1, h.bounded)),
  λ le. (record { buf = buf; offset = offset; len = len }, ground (arith, le, h.bounded)),
)

-- A view that was made shows, without a panic, as many bytes as its length says; where it lies inside
-- the size asked for, they are the bytes of `as_slice` at its offset.
pub view_slice-as_slice :
    (buf : IoBuffer) (offset len : ℕ) (v : IoBufferView)
    → IsValid buf
    → view buf offset len ≡ ok v
    → (shown : List ℕ) × (view_slice v ≡ ok shown)
      × (length shown ≡ view_len v)
      × (offset + len ≤ buf.size → shown ≡ take len (drop offset (as_slice buf)))
unfolding view view_slice view_len as_slice
view_slice-as_slice buf offset len v h e =
    let fits : offset + len ≤ buf.layout_size = ground (arith, e) in
    let same : record { buf = buf; offset = offset; len = len } ≡ v = ground (arith, e) in
    subst
      (λ w.
        (shown : List ℕ) × (view_slice w ≡ ok shown)
        × (length shown ≡ view_len w)
        × (offset + len ≤ buf.size → shown ≡ take len (drop offset (as_slice buf))))
      same
      (
        take len (drop offset buf.bytes),
        ground (arith, fits, h.bounded),
        length-take len (drop offset buf.bytes)
            (omega (arith, fits, h.whole, length-drop offset buf.bytes)),
        λ le. sym (take-drop-take buf.size offset len buf.bytes le),
      )

-- `is_empty` says the opposite: it is true exactly where the view shows a byte.
pub view_is_empty_inverted : (v : IoBufferView) → (view_is_empty v ≡ true) ↔ (view_len v ≢ 0)
unfolding view_is_empty view_len
view_is_empty_inverted v = ((λ e. ground (arith, e)), λ ne. ground (arith, ne))
