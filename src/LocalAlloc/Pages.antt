-- ===== src/LocalAlloc/Pages.antt =====
-- The lower half of io2/src/local_alloc.rs: pages from the operating system, and the choice between
-- the three ways to get them. What libc answers is a parameter.
use Prim.Native.String.{String}
use text.Mathlib.Text.{◌==◌ as str_eq}
use io.Prelude.{
  ℕ, ◌+◌, ◌-◌, ◌*◌, ◌%◌, Option, none, some, Outcome, ok, panic, ◌>>=◌, ltb, ◌==◌, if◌then◌else◌,
}
use io.Word.{u64_mod}

abbrev pub one_gb : ℕ
one_gb = 1024 * 1024 * 1024

abbrev pub two_mb : ℕ
two_mb = 2 * 1024 * 1024

-- a `NonNull<[u8]>`
pub record Block : Type 0 where
  pub ptr : ℕ
  pub len : ℕ

-- the errors that the wrappers make, each with the number that its message shows
pub data IoError : Type 0 where
  madvise_failed unexpected_madvise memalign_failed mmap_failed mmap_null : ℕ → IoError
  munmap_failed unexpected_munmap : ℕ → IoError

pub data Reply (A : Type 0) : Type 0 where
  done : A → Reply A
  failed : IoError → Reply A

-- a C `int` that the code compares with 0 and -1
pub data Status : Type 0 where
  success minus_one : Status
  other : ℕ → Status

-- What libc answers to a call: `posix_memalign` with its error number and pointer, `mmap` with the
-- pointer or `MAP_FAILED`, and `errno`.
pub record Libc : Type 0 where
  pub posix_memalign : (align size : ℕ) → ℕ × ℕ
  pub madvise : (ptr size : ℕ) → Status
  pub mmap : (len page_size : ℕ) → Option ℕ
  pub munmap : (ptr len : ℕ) → Status
  pub errno : ℕ

-- `usize::next_multiple_of`, with overflow checks
unfoldable pub next_multiple_of : ℕ → ℕ → Outcome ℕ
next_multiple_of n m =
    let up = n + (m - n % m) in if n % m == 0 then ok n else if ltb up u64_mod then ok up else panic

-- `NonNull::new(ptr).unwrap()` with its length
abbrev pub non_null : ℕ → ℕ → Outcome (Reply Block)
non_null ptr len = if ptr == 0 then panic else ok (done (record { ptr = ptr; len = len }))

module _ (libc : Libc) where
  -- the match on the answer of `madvise`
  unfoldable pub after_madvise : ℕ → ℕ → Status → Outcome (Reply Block)
  after_madvise ptr size Status.success = non_null ptr size
  after_madvise ptr size Status.minus_one = ok (failed (IoError.madvise_failed libc.errno))
  after_madvise ptr size (Status.other x) = ok (failed (IoError.unexpected_madvise x))

  unfoldable pub alloc_2mb : ℕ → Outcome (Reply Block)
  unfolding after_madvise next_multiple_of
  alloc_2mb n = do
    size ← next_multiple_of n two_mb
    let (err, ptr) = libc.posix_memalign two_mb size
    if err == 0
        then after_madvise ptr size (libc.madvise ptr size)
        else ok (failed (IoError.memalign_failed err))

  -- the match on the answer of `mmap`
  unfoldable pub after_mmap : ℕ → Option ℕ → Outcome (Reply Block)
  after_mmap len none = ok (failed (IoError.mmap_failed libc.errno))
  after_mmap len (some ptr) =
      if ptr == 0
      then ok (failed (IoError.mmap_null 0))
      else ok (done (record { ptr = ptr; len = len }))

  -- `page_size` stands for the huge page flag
  unfoldable pub mmap_wrapper : ℕ → ℕ → Outcome (Reply Block)
  unfolding after_mmap
  mmap_wrapper len page_size = after_mmap len (libc.mmap len page_size)

  unfoldable pub alloc_2mb_explicit : ℕ → Outcome (Reply Block)
  unfolding mmap_wrapper next_multiple_of
  alloc_2mb_explicit n = do size ← next_multiple_of n two_mb; mmap_wrapper size two_mb

  unfoldable pub alloc_1gb_explicit : ℕ → Outcome (Reply Block)
  unfolding mmap_wrapper next_multiple_of
  alloc_1gb_explicit n = do size ← next_multiple_of n one_gb; mmap_wrapper size one_gb

  abbrev pub after_munmap : Status → Reply (Unit {0})
  after_munmap Status.success = done tt
  after_munmap Status.minus_one = failed (IoError.munmap_failed libc.errno)
  after_munmap (Status.other x) = failed (IoError.unexpected_munmap x)

  unfoldable pub munmap_wrapper : ℕ → ℕ → Reply (Unit {0})
  munmap_wrapper ptr len = after_munmap (libc.munmap ptr len)

  -- `libc::free` gives no answer
  unfoldable pub free_wrapper : ℕ → ℕ → Reply (Unit {0})
  free_wrapper ptr len = done tt

-- the function pointers of `State`
pub data AllocFn : Type 0 where
  alloc_2mb_fn alloc_2mb_explicit_fn alloc_1gb_explicit_fn : AllocFn

pub data FreeFn : Type 0 where
  free_fn munmap_fn : FreeFn

unfoldable pub call_alloc : AllocFn → Libc → ℕ → Outcome (Reply Block)
unfolding alloc_2mb alloc_2mb_explicit alloc_1gb_explicit
call_alloc AllocFn.alloc_2mb_fn libc size = alloc_2mb libc size
call_alloc AllocFn.alloc_2mb_explicit_fn libc size = alloc_2mb_explicit libc size
call_alloc AllocFn.alloc_1gb_explicit_fn libc size = alloc_1gb_explicit libc size

unfoldable pub call_free : FreeFn → Libc → ℕ → ℕ → Reply (Unit {0})
unfolding free_wrapper munmap_wrapper
call_free FreeFn.free_fn libc ptr len = free_wrapper libc ptr len
call_free FreeFn.munmap_fn libc ptr len = munmap_wrapper libc ptr len

-- the pair that `State::new` chooses by the value of LOCAL_ALLOC_HUGE_PAGE_SIZE
unfoldable pub choose : Option String → AllocFn × FreeFn
choose none = (AllocFn.alloc_2mb_fn, FreeFn.free_fn)
choose (some huge_page_size) =
    if str_eq huge_page_size "2MB"
    then (AllocFn.alloc_2mb_explicit_fn, FreeFn.munmap_fn)
    else if str_eq huge_page_size "1GB"
    then (AllocFn.alloc_1gb_explicit_fn, FreeFn.munmap_fn)
    else (AllocFn.alloc_2mb_fn, FreeFn.free_fn)
