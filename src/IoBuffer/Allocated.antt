-- ===== src/IoBuffer/Allocated.antt =====
-- A buffer of io_buffer.rs with its memory from the allocator of local_alloc.rs.
use Prim.Native.Nat.{◌∣◌}
use io.Prelude.{
  ℕ, ◌+◌, ◌^◌, ◌≤◌, ◌<◌, ◌≡◌, refl, sym, ◌∙◌, subst, List, ◌∷◌, Option, none, some, Outcome, ok,
  ◌>>=◌, unwrap, leb, true, replicate, arith,
}
use io.LocalAlloc.Pages.{Libc, Block, two_mb}
use io.LocalAlloc.{Layout, State, allocate, deallocate}
use io.LocalAlloc.Units.{UnitLayout}
use io.LocalAlloc.Supply.{Documented}
use io.LocalAlloc.Balance.{Sound, Apart}
use io.LocalAlloc.Allocate.{After, FreshPages, allocate_lem}
use io.LocalAlloc.Deallocate.{Frees, Home, deallocate_lem}
use io.IoBuffer.{IoBuffer, as_slice, drop_buffer}
use io.IoBuffer
use io.IoBuffer.Views.{IsValid, new-IsValid}

-- `IoBuffer::new` over the allocator: `allocate_zeroed` is `allocate`, with the bytes set to zero.
unfoldable pub new_in : Libc → Layout → State → Outcome (State × Option (ℕ × IoBuffer))
new_in libc layout s = do
  (s', block) ← allocate libc layout s
  elim block [
    | none ↦ ok (s', none)
    | some b ↦ do
      made ← IoBuffer.new (λ size align. some b.len) layout.size layout.align
      buf ← unwrap made
      ok (s', some (b.ptr, buf))
  ]

-- `Drop`
unfoldable pub drop_in : Libc → ℕ → IoBuffer → State → Outcome State
unfolding drop_buffer
drop_in libc ptr buf s =
    drop_buffer
      (λ size align freed. do
        s' ← freed
        deallocate libc ptr (record { size = size; align = align }) s')
      buf (ok s)

module _ (u : ℕ) (layout : Layout) (l : UnitLayout u layout) where
  -- What a new buffer is: zeroed, of the size asked for, with a block of its own that the allocator counts
  -- as held.
  pub record Allocated (held : List Block) (s : State) (ptr : ℕ) (buf : IoBuffer) : Type 0 where
    pub valid : IsValid buf
    pub zeroed : as_slice buf ≡ replicate layout.size 0
    pub same_size : buf.layout_size ≡ layout.size
    pub same_align : buf.layout_align ≡ layout.align
    pub sound : Sound u s (record { ptr = ptr; len = buf.layout_size } ∷ held)
    pub ptr_unit : u ∣ ptr
    pub apart : Apart (record { ptr = ptr; len = buf.layout_size }) held s

  -- beside an error, which changes nothing
  abbrev pub AfterNew : List Block → State → State → Option (ℕ × IoBuffer) → Type 0
  AfterNew held s s' none = s' ≡ s
  AfterNew held s s' (some (ptr, buf)) = Allocated held s' ptr buf

  buffer_made :
      (b : Block)
      → layout.size + layout.align ≤ 2 ^ 63
      → b.len ≡ layout.size
      → (buf : IoBuffer) × (IoBuffer.new (λ size align. some b.len) layout.size layout.align
          ≡ ok (some buf))
        × IsValid buf
        × (as_slice buf ≡ replicate layout.size 0)
        × (buf.layout_size ≡ b.len)
        × (buf.layout_align ≡ layout.align)
  unfolding io.IoBuffer.new
  buffer_made b fits len =
      let small : leb (b.len + layout.align) (2 ^ 63) ≡ true = ground (arith, fits, len) in
      let buf : IoBuffer = record {
        layout_size = b.len;
        layout_align = layout.align;
        size = layout.size;
        bytes = replicate b.len 0;
      } in
      let made : IoBuffer.new (λ size align. some b.len) layout.size layout.align ≡ ok (some buf) =
        rw small refl in
      let large : (n : ℕ) → some b.len ≡ some n → layout.size ≤ n = λ n e. ground (arith, e, len) in
      let (valid, zeroed) =
        new-IsValid (λ size align. some b.len) layout.size layout.align buf large made in
      (buf, made, valid, zeroed, refl, refl)

  -- Where sizes are multiples of a unit, alignments divide it, the unit divides 2 MB, libc behaves as
  -- documented and supplies no page that overlaps one of the state, and size and alignment fit a layout, a
  -- new buffer over the allocator comes to no panic on a sound state: an error changes nothing; a buffer
  -- reads as zeros, has the layout asked for, is counted as held in a state that is sound again, and
  -- overlaps no other held block and no free range.
  pub new_in-Allocated :
      (libc : Libc) (s : State) (held : List Block)
      → Documented libc
      → FreshPages libc s
      → u ∣ two_mb
      → layout.size + layout.align ≤ 2 ^ 63
      → Sound u s held
      → (s' : State) × (o : Option (ℕ × IoBuffer)) × (new_in libc layout s ≡ ok (s', o))
        × AfterNew held s s' o
  unfolding new_in
  new_in-Allocated libc s held doc fresh d fits v =
      let (s', o, e, a) = allocate_lem u layout l s held libc doc fresh d v in go s' o e a
    where
      go :
          (s' : State) (o : Option Block)
          → allocate libc layout s ≡ ok (s', o)
          → After u layout l s held s' o
          → (s' : State) × (o : Option (ℕ × IoBuffer)) × (new_in libc layout s ≡ ok (s', o))
            × AfterNew held s s' o
      go s' none e a = (s', none, rw e refl, a)
      go s' (some b) e (sound, len, ptr_unit, apart) =
          let (buf, made, valid, zeroed, size, align) = buffer_made b fits len in
          (
            s',
            some (b.ptr, buf),
            rw e (rw made refl),
            record {
              valid = valid;
              zeroed = zeroed;
              same_size = size ∙ len;
              same_align = align;
              sound =
                  subst (λ n. Sound u s' (record { ptr = b.ptr; len = n } ∷ held)) (sym size) sound;
              ptr_unit = ptr_unit;
              apart = subst (λ n. Apart (record { ptr = b.ptr; len = n }) held s') (sym size) apart;
            },
          )

  -- Where the unit is above 1 and the pages of the state can be given back, the drop of a buffer that was
  -- made, whatever was written to it and allocated since, comes to no panic while a page holds its block,
  -- and leaves a sound state in which its addresses are no longer held.
  pub drop_in-Freed :
      (libc : Libc) (s s' : State) (held others : List Block) (ptr : ℕ) (buf : IoBuffer)
      (bytes : List ℕ)
      → 1 < u
      → Allocated held s ptr buf
      → Frees libc s'
      → Sound u s' (record { ptr = ptr; len = buf.layout_size } ∷ others)
      → Home s'.pages ptr layout.size
      → (s'' : State) × (drop_in libc ptr (record buf { bytes = bytes }) s' ≡ ok s'')
        × Sound u s'' others
  unfolding drop_in drop_buffer
  drop_in-Freed libc s s' held others ptr buf bytes many a frees sound home =
      let (s'', e, v) =
        deallocate_lem u many layout l libc s' (record { ptr = ptr; len = buf.layout_size }) others
          frees sound a.same_size a.ptr_unit home in
      (s'', rw a.same_size (rw a.same_align e), v)
