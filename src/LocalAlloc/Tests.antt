-- ===== src/LocalAlloc/Tests.antt =====
-- Runs of local_alloc.rs on small inputs, and its theorems at them.
use Prim.Native.Nat.{◌∣◌}
use native.Mathlib.Nat.{dvd_of_mod-eq-zero, dvd_refl, dvd-mul_right}
use io.Prelude.{
  ℕ, zero, suc, ◌+◌, ◌-◌, ◌*◌, ◌≡◌, ◌≢◌, refl, sym, first_ran, [], ◌∷◌, Option, some, ok, arith,
  ◌==◌, if◌then◌else◌, subst, replicate,
}
use io.LocalAlloc.Pages.{
  Block, Libc, Status, AllocFn, FreeFn, two_mb, call_alloc, call_free, next_multiple_of, choose,
}
use io.LocalAlloc.{
  FreeRange, Layout, State, new, allocate, deallocate, scan, take_from, search, cut, merge_all,
  find_page, release,
}
use io.LocalAlloc.Ranges.{hits, hits_range}
use io.LocalAlloc.Units.{UnitLayout}
use io.LocalAlloc.Supply.{Documented}
use io.LocalAlloc.Balance.{Sound}
use io.LocalAlloc.Allocate.{After, FreshPages, allocate_lem}
use io.LocalAlloc.Deallocate.{Home, Frees, deallocate_lem}
use io.IoBuffer.{IoBuffer}
use io.IoBuffer.Allocated.{new_in, drop_in, Allocated, AfterNew, new_in-Allocated, drop_in-Freed}
use io.LocalAlloc.Overlap.{with_ranges, with_page, allocate_twice, deallocate_gap}

program : Unit {0}
unfolding new allocate deallocate scan take_from search cut merge_all find_page release call_alloc
    call_free next_multiple_of choose
program = tt

-- A libc whose next pages lie at 2 MB and at the page size itself.
abbrev libc : Libc
libc = record {
  posix_memalign = λ align size. if align == 0 then (22, 0) else (0, align);
  madvise = λ ptr size. Status.success;
  mmap = λ len page_size. some page_size;
  munmap = λ ptr len. Status.success;
  errno = 0;
}

abbrev empty : State
empty = record {
  alloc = AllocFn.alloc_2mb_explicit_fn;
  free = FreeFn.munmap_fn;
  pages = [];
  free_list = [];
}

abbrev small : Layout
small = record { size = 64; align = 64 }

abbrev one_page : State
one_page = record empty {
  pages = record { ptr = two_mb; size = two_mb } ∷ [];
  free_list = (record { start = two_mb + 64; len = two_mb - 64 } ∷ []) ∷ [];
}

first_block : allocate libc small empty ≡ ok (one_page, some (record { ptr = two_mb; len = 64 }))
unfolding program
first_block = refl

-- What was one page is two ranges, which are not joined.
given_back :
    deallocate libc two_mb small one_page
    ≡ ok (record one_page {
      free_list =
          (record { start = two_mb + 64; len = two_mb - 64 }
            ∷ record { start = two_mb; len = 64 }
            ∷ [])
          ∷ [];
    })
unfolding program
given_back = refl

mib : new (some "2MB") ≡ empty
unfolding program
mib = refl

libc-Documented : Documented libc
libc-Documented = record {
  memalign_aligned = aligned;
  mmap_aligned = λ len page_size ptr e.
      let same : page_size ≡ ptr = cc in subst (λ n. page_size ∣ n) same (dvd_refl page_size);
}
  where
    aligned :
        (align size ptr : ℕ) → libc.posix_memalign align size ≡ (0, ptr) → (align ∣ ptr) × (ptr ≢ 0)
    aligned zero size ptr e = absurd (ground arith)
    aligned (suc n) size ptr e =
        let same : suc n ≡ ptr = ground arith in
        (subst (λ k. suc n ∣ k) same (dvd_refl (suc n)), omega arith)

small-UnitLayout : UnitLayout 64 small
small-UnitLayout = record {
  size_unit = dvd_refl 64;
  align_unit = dvd_refl 64;
  size_bound = omega arith;
}

-- nothing is allocated yet
empty-Sound : Sound 64 empty []
empty-Sound = record {
  same_length = refl;
  balance = λ a. refl;
  once = λ a. omega arith;
  no_null = refl;
  units = tt;
}

abbrev block : Block
block = record { ptr = two_mb; len = 64 }

one_page-Sound : Sound 64 one_page (block ∷ [])
one_page-Sound = record {
  same_length = refl;
  balance = λ a. ground arith;
  once = λ a. ground arith;
  no_null = refl;
  units = (
    (
      record {
        start_unit = dvd_of_mod-eq-zero 64 refl;
        len_unit = dvd_of_mod-eq-zero 64 refl;
        fits = omega arith;
      },
      tt,
    ),
    tt,
  );
}

-- A libc whose next page lies behind the page of `one_page`.
abbrev far_libc : Libc
far_libc = record libc { mmap = λ len page_size. some (page_size * 2) }

far_libc-Documented : Documented far_libc
far_libc-Documented = record {
  memalign_aligned = libc-Documented.memalign_aligned;
  mmap_aligned = λ len page_size ptr e.
      let same : page_size * 2 ≡ ptr = cc in
      subst (λ n. page_size ∣ n) same (dvd-mul_right page_size 2);
}

far_libc-FreshPages : FreshPages far_libc one_page
unfolding program io.LocalAlloc.Pages.alloc_2mb_explicit io.LocalAlloc.Pages.mmap_wrapper
    io.LocalAlloc.Pages.after_mmap
far_libc-FreshPages size page e a =
    let (len, made, _) = first_ran (next_multiple_of size two_mb) (sym e) in
    let far : page ≡ record { ptr = two_mb * 2; len = len } = cc in rw far (ground arith)

-- The page of the state has 64 bytes that are held.
allocate_lem_example :
    (s : State) × (o : Option Block) × (allocate far_libc small one_page ≡ ok (s, o))
    × After 64 small small-UnitLayout one_page (block ∷ []) s o
allocate_lem_example =
    allocate_lem 64 small small-UnitLayout one_page (block ∷ []) far_libc far_libc-Documented
      far_libc-FreshPages (dvd_of_mod-eq-zero 64 refl) one_page-Sound

libc-Frees : Frees libc one_page
unfolding program
libc-Frees i p there = refl

block-Home : Home one_page.pages two_mb 64
block-Home = record {
  index = 0;
  page = record { ptr = two_mb; size = two_mb };
  there = refl;
  low = omega arith;
  high = omega arith;
}

deallocate_lem_example :
    (s : State) × (deallocate libc two_mb small one_page ≡ ok s) × Sound 64 s []
deallocate_lem_example =
    deallocate_lem 64 (omega arith) small small-UnitLayout libc one_page block [] libc-Frees
      one_page-Sound refl (dvd_of_mod-eq-zero 64 refl) block-Home

-- A block of 64 bytes at a multiple of 128, from the range that starts 64 bytes into a page.
allocate_twice_example :
    (s : State) × (s' : State) × (a : Block) × (b : Block) × (allocate libc
        (record { size = 64; align = 128 })
        (with_ranges one_page (record { start = two_mb + 64; len = two_mb - 64 } ∷ []))
      ≡ ok (s, some a))
    × (allocate libc (record { size = 16; align = 16 }) s ≡ ok (s', some b))
    × (a.ptr ≡ b.ptr)
allocate_twice_example =
    allocate_twice libc one_page (record { start = two_mb + 64; len = two_mb - 64 })
      (record { size = 64; align = 128 }) (record { size = 16; align = 16 }) 64 (omega arith)
      (omega arith) refl (omega arith) (omega arith) (omega arith) (omega arith) (omega arith) refl

-- The 8 bytes at 2 MB are given back, where the ninth is held and the others are free.
deallocate_gap_example :
    (s : State) × (s' : State) × (b : Block) × (deallocate libc two_mb
        (record { size = 8; align = 8 })
        (with_page one_page
          (record { ptr = two_mb; size = two_mb })
          (record { start = two_mb + 9; len = two_mb - 9 }))
      ≡ ok s)
    × (allocate libc (record { size = 9; align = 1 }) s ≡ ok (s', some b))
    × (b.ptr ≡ two_mb)
    × (hits_range (two_mb + 8) (record { start = two_mb + 9; len = two_mb - 9 }) ≡ 0)
    × (hits (two_mb + 8) two_mb 8 ≡ 0)
    × (hits (two_mb + 8) b.ptr b.len ≡ 1)
deallocate_gap_example =
    deallocate_gap libc one_page (record { ptr = two_mb; size = two_mb })
      (record { start = two_mb + 9; len = two_mb - 9 }) two_mb (record { size = 8; align = 8 }) refl
      (omega arith) (omega arith) (omega arith) (omega arith) (omega arith)

new_in-Allocated_example :
    (s : State) × (o : Option (ℕ × IoBuffer)) × (new_in far_libc small one_page ≡ ok (s, o))
    × AfterNew 64 small small-UnitLayout (block ∷ []) one_page s o
new_in-Allocated_example =
    new_in-Allocated 64 small small-UnitLayout far_libc one_page (block ∷ []) far_libc-Documented
      far_libc-FreshPages (dvd_of_mod-eq-zero 64 refl) (omega arith) one_page-Sound

abbrev buffer : IoBuffer
buffer = record { layout_size = 64; layout_align = 64; size = 64; bytes = replicate 64 0 }

buffer-Allocated : Allocated 64 small small-UnitLayout [] one_page two_mb buffer
unfolding io.IoBuffer.as_slice
buffer-Allocated = record {
  valid = record { whole = refl; enough = omega arith; bounded = omega arith };
  zeroed = refl;
  same_size = refl;
  same_align = refl;
  sound = one_page-Sound;
  ptr_unit = dvd_of_mod-eq-zero 64 refl;
  apart = λ a. ground arith;
}

drop_in-Freed_example :
    (s : State) × (drop_in libc two_mb (record buffer { bytes = 1 ∷ 2 ∷ [] }) one_page ≡ ok s)
    × Sound 64 s []
drop_in-Freed_example =
    drop_in-Freed 64 small small-UnitLayout libc one_page one_page [] [] two_mb buffer (1 ∷ 2 ∷ [])
      (omega arith) buffer-Allocated libc-Frees one_page-Sound block-Home
