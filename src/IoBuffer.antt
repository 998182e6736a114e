-- ===== src/IoBuffer.antt =====
-- io2/src/io_buffer.rs: a zeroed allocation, read through slices and views.
use io.Prelude.{
  ℕ, zero, suc, ◌+◌, ◌*◌, ◌^◌, List, [], ◌∷◌, ◌++◌, Option, none, some, length, take, drop,
  replicate, Outcome, ok, panic, ◌>>=◌, ◌>>◌, assert, ltb, leb, if◌then◌else◌, Bool, not, ◌==◌,
}
use io.Word.{add_u64}
pub mod Views
pub mod Allocated
mod Tests

-- `layout` is that of the whole allocation, which may be larger than the `size` asked for. The bytes
-- are those of the allocation.
pub record IoBuffer : Type 0 where
  pub layout_size : ℕ
  pub layout_align : ℕ
  pub size : ℕ
  pub bytes : List ℕ

-- `IoBuffer::new`. What the allocator answers to `allocate_zeroed` is a parameter: the length of the
-- slice, or `none` for an `AllocError`. `Layout::from_size_align` fails where the size does not fit.
unfoldable pub new : (ℕ → ℕ → Option ℕ) → ℕ → ℕ → Outcome (Option IoBuffer)
new allocate_zeroed size align = elim (allocate_zeroed size align) [
  | none ↦ ok none
  | some len ↦
      if leb (len + align) (2 ^ 63)
      then ok (
          some (record {
            layout_size = len;
            layout_align = align;
            size = size;
            bytes = replicate len 0;
          }))
      else panic
]

unfoldable pub as_slice : IoBuffer → List ℕ
as_slice buf = take buf.size buf.bytes

-- `as_mut_slice`: the slice, and the buffer after other bytes are written over it
unfoldable pub as_mut_slice : IoBuffer → List ℕ × (List ℕ → IoBuffer)
as_mut_slice buf =
    (take buf.size buf.bytes, λ bytes. record buf { bytes = bytes ++ drop buf.size buf.bytes })

-- `Drop`: the allocator takes back the whole allocation. What it does with its state is a parameter.
unfoldable pub drop_buffer : {D : Type 0} → (ℕ → ℕ → D → D) → IoBuffer → D → D
drop_buffer deallocate buf = deallocate buf.layout_size buf.layout_align

unfoldable pub size_of : IoBuffer → ℕ
size_of buf = buf.size

pub record IoBufferView : Type 0 where
  pub buf : IoBuffer
  pub offset : ℕ
  pub len : ℕ

-- `IoBufferView::new`, and so `IoBuffer::view`
unfoldable pub view : IoBuffer → ℕ → ℕ → Outcome IoBufferView
view buf offset len = do
  end ← add_u64 offset len
  assert (leb end buf.layout_size)
  ok (record { buf = buf; offset = offset; len = len })

-- `IoBufferView::as_slice`
unfoldable pub view_slice : IoBufferView → Outcome (List ℕ)
view_slice v = do
  end ← add_u64 v.offset v.len
  assert (leb end v.buf.layout_size)
  ok (take v.len (drop v.offset v.buf.bytes))

unfoldable pub view_len : IoBufferView → ℕ
view_len v = v.len

-- `IoBufferView::is_empty`
unfoldable pub view_is_empty : IoBufferView → Bool
view_is_empty v = ltb 0 v.len
