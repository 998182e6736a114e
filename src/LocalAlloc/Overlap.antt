-- ===== src/LocalAlloc/Overlap.antt =====
-- Two faults of local_alloc.rs: the range that `allocate` puts back for the bytes in front of an
-- aligned block starts at the block, and `deallocate` takes a range one byte behind the block for
-- its neighbour.
use io.Prelude.{
  ℕ, ◌+◌, ◌-◌, ◌%◌, ◌≤◌, ◌<◌, ◌≡◌, ◌⊎◌, inl, inr, List, [], ◌∷◌, some, last_first, ap, sym, ◌∙◌,
  true, false, arith, ok,
}
use native.Mathlib.Nat.{add-zero, mod-one}
use io.LocalAlloc.Ranges.{cut_block, hits, hits_range}
use io.Word.{u64_mod}
use io.LocalAlloc.Pages.{Block, Libc, two_mb}
use io.LocalAlloc.{
  FreeRange, Layout, State, align_offset, cut, search, push, take_from, scan, allocate, merge,
  merge_all, find_page, release, deallocate, Page,
}

-- a state with one page, whose free ranges are given
abbrev pub with_ranges : State → List FreeRange → State
with_ranges s rs = record s { free_list = rs ∷ [] }

-- `allocate` where the first range is large enough behind its first aligned address
allocate-first :
    (libc : Libc) (s : State) (r : FreeRange) (rs : List FreeRange) (layout : Layout) (start : ℕ)
    → 0 < layout.size
    → layout.align ≤ two_mb
    → align_offset r.start layout.align ≡ start
    → start + layout.size ≤ r.len
    → 0 < r.start + start
    → let c = cut layout r start in
      allocate libc layout (with_ranges s (r ∷ rs))
      ≡ ok (with_ranges s (push c.second (push c.first (last_first rs))), some c.block)
unfolding allocate scan take_from search
allocate-first libc s r rs layout start p q e h nz =
    ground (arith, e, (cut_block layout r start h).0)

-- The range put back for the bytes in front of the block starts at the block.
cut-behind :
    (layout : Layout) (r : FreeRange) (start : ℕ)
    → 0 < start
    → let c = cut layout r start in
      (rest : List FreeRange) × (push c.second (push c.first [])
        ≡ record { start = c.block.ptr; len = start } ∷ rest)
unfolding cut
cut-behind layout r start h = (push (cut layout r start).second [], ground arith)

-- Where the first free range of a page is large enough but does not start at an aligned address, and
-- is its only one, the block lies `start` bytes into it, and a request for at most `start` bytes, at
-- an alignment of the block's address, gets the same address while the first block is held.
pub allocate_twice :
    (libc : Libc) (s : State) (r : FreeRange) (first second : Layout) (start : ℕ)
    → 0 < first.size
    → first.align ≤ two_mb
    → align_offset r.start first.align ≡ start
    → 0 < start
    → start + first.size ≤ r.len
    → 0 < second.size
    → second.align ≤ two_mb
    → second.size ≤ start
    → align_offset (r.start + start) second.align ≡ 0
    → (s' : State) × (s'' : State) × (a : Block) × (b : Block) × (allocate libc first
          (with_ranges s (r ∷ []))
        ≡ ok (s', some a))
      × (allocate libc second s' ≡ ok (s'', some b))
      × (a.ptr ≡ b.ptr)
allocate_twice libc s r first second start p1 p2 e p3 p4 q1 q2 q3 q4 =
    let c = cut first r start in
    let at : c.block.ptr ≡ r.start + start = (cut_block first r start p4).0 in
    let (rest, q) = cut-behind first r start p3 in
    let back : FreeRange = record { start = c.block.ptr; len = start } in
    let d = cut second back 0 in
    let aligned : align_offset c.block.ptr second.align ≡ 0 = rw at q4 in
    (
      with_ranges s (back ∷ rest),
      with_ranges s (push d.second (push d.first (last_first rest))),
      c.block,
      d.block,
      (allocate-first libc s r [] first start p1 p2 e p4 (omega arith)
          ∙ ap (λ rs. ok (with_ranges s rs, some c.block)) q),
      allocate-first libc s back rest second 0 q1 q2 aligned (omega arith) (omega (arith, at)),
      sym ((cut_block second back 0 (omega arith)).0 ∙ add-zero c.block.ptr),
    )

-- The merge of a block with a range that starts one byte behind it.
merge_gap :
    (ptr size : ℕ) (r : FreeRange)
    → r.start ≡ ptr + (size + 1)
    → r.start + r.len + 1 < u64_mod
    → 0 < r.len
    → merge_all ptr size (ptr + (size + 1)) (r ∷ [])
      ≡ ok (record { start = ptr; len = r.len + size } ∷ [], true)
unfolding merge_all merge
merge_gap ptr size r e b h = ground (arith, e, b)

-- a state with one page, which has one free range
abbrev pub with_page : State → Page → FreeRange → State
with_page s page r = record s { pages = page ∷ []; free_list = (r ∷ []) ∷ [] }

deallocate-with_page :
    (libc : Libc) (s : State) (page : Page) (r : FreeRange) (ptr : ℕ) (layout : Layout)
    → r.start ≡ ptr + (layout.size + 1)
    → 0 < r.len
    → page.ptr ≤ ptr
    → r.start + r.len ≤ page.ptr + page.size
    → page.ptr + page.size + 1 < u64_mod
    → deallocate libc ptr layout (with_page s page r)
      ≡ ok (with_page s page (record { start = ptr; len = r.len + layout.size }))
unfolding deallocate find_page release
deallocate-with_page libc s page r ptr layout e h low high b =
    ground (arith, e, h, merge_gap ptr layout.size r e (omega arith) h)

-- Where the only page has one free range, and it starts one byte behind a block, `deallocate` of the
-- block comes to no panic, and a request for one byte more than the block is served, after it, with the
-- address of the block and with the byte between, which was not free and was not in the block.
pub deallocate_gap :
    (libc : Libc) (s : State) (page : Page) (r : FreeRange) (ptr : ℕ) (layout : Layout)
    → r.start ≡ ptr + (layout.size + 1)
    → 0 < r.len
    → 0 < ptr
    → page.ptr ≤ ptr
    → r.start + r.len ≤ page.ptr + page.size
    → page.ptr + page.size + 1 < u64_mod
    → (s' : State) × (s'' : State) × (b : Block) × (deallocate libc ptr layout (with_page s page r)
        ≡ ok s')
      × (allocate libc (record { size = layout.size + 1; align = 1 }) s' ≡ ok (s'', some b))
      × (b.ptr ≡ ptr)
      × (hits_range (ptr + layout.size) r ≡ 0)
      × (hits (ptr + layout.size) ptr layout.size ≡ 0)
      × (hits (ptr + layout.size) b.ptr b.len ≡ 1)
deallocate_gap libc s page r ptr layout e h nz low high b =
    let merged : FreeRange = record { start = ptr; len = r.len + layout.size } in
    let more : Layout = record { size = layout.size + 1; align = 1 } in
    let c = cut more merged 0 in
    let (at, len) = cut_block more merged 0 (omega arith) in
    let aligned : align_offset ptr 1 ≡ 0 = mod-one (1 - ptr % 1) in
    (
      with_page s page merged,
      record s { pages = page ∷ []; free_list = push c.second (push c.first []) ∷ [] },
      c.block,
      deallocate-with_page libc s page r ptr layout e h low high b,
      allocate-first libc (with_page s page merged) merged [] more 0 (omega arith) (omega arith)
          aligned (omega arith) (omega arith),
      at ∙ add-zero ptr,
      ground (arith, e),
      ground arith,
      ground (arith, at, len),
    )

-- Two free neighbours are never joined: `deallocate` leaves a range that starts where the block ends,
-- or ends where the block starts, as it is.
pub merge_neighbours :
    (ptr size : ℕ) (r : FreeRange)
    → (r.start ≡ ptr + size) ⊎ (r.start + r.len ≡ ptr)
    → r.len + 1 < u64_mod
    → merge ptr size (ptr + (size + 1)) r ≡ ok (r, false)
unfolding merge
merge_neighbours ptr size r (inl e) b = ground (arith, e, b)
merge_neighbours ptr size r (inr e) b = ground (arith, e, b)
