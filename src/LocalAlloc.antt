-- ===== src/LocalAlloc.antt =====
-- io2/src/local_alloc.rs: an allocator that carves blocks out of large pages. An address is a
-- number; a `NonNull<[u8]>` is its address and its length.
use Prim.Native.String.{String}
use io.Prelude.{
  ℕ, zero, suc, ◌+◌, ◌-◌, ◌%◌, List, [], ◌∷◌, ◌++◌, Option, none, some, length, get_elem?, set,
  swap_remove, Outcome, ok, panic, ◌>>=◌, ◌>>◌, unwrap, ltb, leb, ◌==◌, if◌then◌else◌, Bool, true,
  false, ◌&&◌, ◌||◌,
}
use io.Word.{add_u64}
use Pages.{Libc, Block, Reply, done, failed, AllocFn, FreeFn, call_alloc, call_free, choose, two_mb}
pub mod Pages
pub mod Ranges
pub mod Units
pub mod Supply
pub mod Balance
pub mod Allocate
pub mod Deallocate
pub mod Overlap
mod Tests

pub record Page : Type 0 where
  pub ptr : ℕ
  pub size : ℕ

pub record FreeRange : Type 0 where
  pub start : ℕ
  pub len : ℕ

-- `std::alloc::Layout`: the alignment is a power of two, and the size is below `2 ^ 63`.
pub record Layout : Type 0 where
  pub size : ℕ
  pub align : ℕ

-- `free_list` holds the free ranges of the page at the same index.
pub record State : Type 0 where
  pub alloc : AllocFn
  pub free : FreeFn
  pub pages : List Page
  pub free_list : List (List FreeRange)

unfoldable pub new : Option String → State
new huge_page_size =
    let (alloc, free) = choose huge_page_size in
    record { alloc = alloc; free = free; pages = []; free_list = [] }

-- `<*mut u8>::align_offset`: how many bytes on the next multiple of `align` is
abbrev pub align_offset : ℕ → ℕ → ℕ
align_offset addr align = (align - addr % align) % align

-- A block cut out of a range, with the ranges that replace it. The test of its address by
-- `NonNull::new(..).unwrap()` is in `not_null`.
pub record Cut : Type 0 where
  pub block : Block
  pub first : Option FreeRange
  pub second : Option FreeRange

-- The branches of `allocate` for a range that is large enough; `start` is its `align_offset`.
unfoldable pub cut : Layout → FreeRange → ℕ → Cut
cut layout range start =
    if (start == 0) && (layout.size == range.len)
    then record {
      block = record { ptr = range.start; len = layout.size };
      first = none;
      second = none;
    }
    else if start == 0
    then record {
      block = record { ptr = range.start + start; len = layout.size };
      first = some (record { start = range.start + layout.size; len = range.len - layout.size });
      second = none;
    }
    else record {
      block = record { ptr = range.start + start; len = layout.size };
      first = some (record { start = range.start + start; len = start });
      second =
          if ltb (start + layout.size) range.len
          then some (record {
            start = range.start + (start + layout.size);
            len = range.len - (start + layout.size);
          })
          else none;
    }

-- the loop over the ranges of a page, up to the first that is large enough
unfoldable pub search : Layout → ℕ → List FreeRange → Option (ℕ × Cut)
search layout idx [] = none
search layout idx (range ∷ ranges) =
    let start = align_offset range.start layout.align in
    if leb (start + layout.size) range.len
    then some (idx, cut layout range start)
    else search layout (idx + 1) ranges

abbrev pub push : Option FreeRange → List FreeRange → List FreeRange
push none ranges = ranges
push (some x) ranges = ranges ++ x ∷ []

-- `if let Some((idx, allocated_slice, new_ranges)) = found { … }`
abbrev pub replace : List FreeRange → Option (ℕ × Cut) → Option (Block × List FreeRange)
replace ranges none = none
replace ranges (some (idx, c)) =
    some (c.block, push c.second (push c.first (swap_remove ranges idx)))

-- what `allocate` does with the ranges of one page
unfoldable pub take_from : Layout → List FreeRange → Option (Block × List FreeRange)
take_from layout ranges = replace ranges (search layout 0 ranges)

-- the loop over the pages
unfoldable pub scan : Layout → List (List FreeRange) → Option (Block × List (List FreeRange))
scan layout [] = none
scan layout (ranges ∷ rest) =
    let later = scan layout rest in
    elim (take_from layout ranges) [
      | some (block, ranges') ↦ some (block, ranges' ∷ rest)
      | none ↦ elim later [ some (block, rest') ↦ some (block, ranges ∷ rest') | none ↦ none ]
    ]

-- The `NonNull::new(..).unwrap()` on the address of a block that was found: the panic at address 0.
abbrev pub not_null : Block → Outcome Block
not_null block = if block.ptr == 0 then panic else ok block

-- The new page of `allocate`: the block at its start, and the rest as a free range. `none` is the
-- `AllocError`.
unfoldable pub add_page : State → Layout → Reply Block → Outcome (State × Option Block)
add_page s layout (failed e) = ok (s, none)
add_page s layout (done page) =
    if ltb page.len layout.size
    then panic
    else ok (
      record s {
        pages = s.pages ++ record { ptr = page.ptr; size = page.len } ∷ [];
        free_list =
            s.free_list
            ++ (record { start = page.ptr + layout.size; len = page.len - layout.size } ∷ []) ∷ [];
      },
      some (record { ptr = page.ptr; len = layout.size }),
    )

-- `<LocalAlloc as Allocator>::allocate`; `none` is the `AllocError`
unfoldable pub allocate : Libc → Layout → State → Outcome (State × Option Block)
unfolding add_page
allocate libc layout s =
    if (layout.size == 0) || ltb two_mb layout.align
    then ok (s, none)
    else elim (scan layout s.free_list) [
      | some (found, free_list') ↦ do
        block ← not_null found
        ok (record s { free_list = free_list' }, some block)
      | none ↦ do page ← call_alloc s.alloc libc layout.size; add_page s layout page
    ]

-- the first `if` of the loop of `deallocate`: the block is put before the range
unfoldable pub merge_before : ℕ → ℕ → ℕ → FreeRange → Outcome (FreeRange × Bool)
merge_before ptr size end_ptr range =
    if range.start == end_ptr
    then (do len ← add_u64 range.len size; ok (record { start = ptr; len = len }, true))
    else ok (range, false)

-- the second `if`: the block is put behind the range
unfoldable pub merge_behind : ℕ → ℕ → Bool → FreeRange → Outcome (FreeRange × Bool)
merge_behind ptr size found range = do
  past ← add_u64 range.len 1
  if range.start + past == ptr
      then (do len ← add_u64 range.len size; ok (record range { len = len }, true))
      else ok (range, found)

-- the body of the loop of `deallocate` over the free ranges of the page
unfoldable pub merge : ℕ → ℕ → ℕ → FreeRange → Outcome (FreeRange × Bool)
unfolding merge_before merge_behind
merge ptr size end_ptr range = do
  (range', found) ← merge_before ptr size end_ptr range
  merge_behind ptr size found range'

unfoldable pub merge_all : ℕ → ℕ → ℕ → List FreeRange → Outcome (List FreeRange × Bool)
unfolding merge
merge_all ptr size end_ptr [] = ok ([], false)
merge_all ptr size end_ptr (range ∷ ranges) = do
  (range', here) ← merge ptr size end_ptr range
  (ranges', later) ← merge_all ptr size end_ptr ranges
  ok (range' ∷ ranges', here || later)

-- `pages.iter().enumerate().find(…)`
unfoldable pub find_page : ℕ → ℕ → ℕ → List Page → Option (ℕ × Page)
find_page ptr size idx [] = none
find_page ptr size idx (page ∷ pages) =
    if leb page.ptr ptr && leb (ptr + size) (page.ptr + page.size)
    then some (idx, page)
    else find_page ptr size (idx + 1) pages

-- `.expect("free a page")`
abbrev pub expect_free : Reply (Unit {0}) → State → Outcome State
expect_free (done x) s = ok s
expect_free (failed e) s = panic

-- the end of `deallocate`: a page that is one free range goes back
unfoldable pub release : Libc → ℕ → Page → List FreeRange → State → Outcome State
release libc page_idx page (range ∷ []) s =
    if (range.start == page.ptr) && (range.len == page.size)
    then expect_free (call_free s.free libc page.ptr page.size) (record s {
      pages = swap_remove s.pages page_idx;
      free_list = swap_remove s.free_list page_idx;
    })
    else ok s
release libc page_idx page ranges s = ok s

-- `<LocalAlloc as Allocator>::deallocate`
unfoldable pub deallocate : Libc → ℕ → Layout → State → Outcome State
deallocate libc ptr layout s = do
  past ← add_u64 layout.size 1
  (page_idx, page) ← unwrap (find_page ptr layout.size 0 s.pages)
  free_ranges ← unwrap (get_elem? s.free_list page_idx)
  (merged, found) ← merge_all ptr layout.size (ptr + past) free_ranges
  let ranges = if found then merged else merged ++ record { start = ptr; len = layout.size } ∷ []
  release libc page_idx page ranges (record s { free_list = set s.free_list page_idx ranges })
