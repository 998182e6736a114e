-- ===== src/IoBuffer/Tests.antt =====
-- Runs of io_buffer.rs on small inputs, and its theorems at them.
use io.Prelude.{ℕ, ◌≡◌, refl, List, [], ◌∷◌, Option, some, ok, ◌>>=◌, arith}
use io.IoBuffer.{IoBuffer, IoBufferView, as_mut_slice, drop_buffer, as_slice, view, view_slice}
use io.IoBuffer.Views.{IsValid}

-- an allocator that rounds up to 8 bytes
abbrev in_eights : ℕ → ℕ → Option ℕ
in_eights size align = some 8

abbrev buffer : IoBuffer
buffer = record {
  layout_size = 8;
  layout_align = 4;
  size = 6;
  bytes = 1 ∷ 2 ∷ 3 ∷ 4 ∷ 5 ∷ 6 ∷ 7 ∷ 8 ∷ [];
}

buffer-IsValid : IsValid buffer
buffer-IsValid = omega arith

abbrev middle : IoBufferView
middle = record { buf = buffer; offset = 1; len = 3 }

middle_shown : (view buffer 1 3 >>= view_slice) ≡ ok (2 ∷ 3 ∷ 4 ∷ [])
unfolding view view_slice
middle_shown = refl

-- what is written through the slice, and nothing behind it
written_there :
    as_slice ((as_mut_slice buffer).1 (9 ∷ 9 ∷ 9 ∷ 9 ∷ 9 ∷ 9 ∷ [])) ≡ 9 ∷ 9 ∷ 9 ∷ 9 ∷ 9 ∷ 9 ∷ []
unfolding as_slice as_mut_slice
written_there = refl

given_back :
    drop_buffer {D = List (ℕ × ℕ)} (λ size align freed. (size, align) ∷ freed) buffer []
    ≡ (8, 4) ∷ []
unfolding drop_buffer
given_back = refl
