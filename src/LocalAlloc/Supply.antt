-- ===== src/LocalAlloc/Supply.antt =====
-- The pages that the operating system supplies to local_alloc.rs.
use Prim.Native.Nat.{◌∣◌}
use native.Mathlib.Nat.{
  dvd_refl, dvd_of_mod-eq-zero, dvd_trans, mod-lt, div-add-mod, mul-suc, mul-mod_right,
}
use native.Mathlib.Decide.{ℕ_discrete}
use io.Prelude.{
  ℕ, zero, suc, ◌+◌, ◌-◌, ◌*◌, ◌/◌, ◌%◌, ◌^◌, ◌≤◌, ◌<◌, ◌≡◌, ◌≢◌, refl, Option, none, some, ◌==◌,
  if◌then◌else◌, false, arith, Bool-cases, inl, inr, Outcome, ok, panic,
}
use io.Word.{u64_mod}
use io.LocalAlloc.Pages.{
  Block, Libc, Status, IoError, Reply, done, failed, AllocFn, call_alloc, alloc_2mb,
  alloc_2mb_explicit, alloc_1gb_explicit, mmap_wrapper, after_mmap, after_madvise, next_multiple_of,
  two_mb, one_gb,
}

-- What the manual pages promise: `posix_memalign` succeeds with an aligned pointer that is not
-- null, and a mapping of huge pages starts at a multiple of their size.
pub record Documented (libc : Libc) : Type 0 where
  pub memalign_aligned :
      (align size ptr : ℕ) → libc.posix_memalign align size ≡ (0, ptr) → (align ∣ ptr) × (ptr ≢ 0)
  pub mmap_aligned : (len page_size ptr : ℕ) → libc.mmap len page_size ≡ some ptr → page_size ∣ ptr

-- a page that serves a request for `size` bytes
pub record Supplies (size : ℕ) (page : Block) : Type 0 where
  pub ptr_unit : two_mb ∣ page.ptr
  pub not_null : 0 < page.ptr
  pub len_unit : two_mb ∣ page.len
  pub enough : size ≤ page.len
  pub bounded : page.len + 1 < u64_mod

-- A request comes to no panic, and what it gives is an error or a page that serves it.
abbrev pub Answers : ℕ → Outcome (Reply Block) → Type 0
Answers size panic = ⊥
Answers size (ok (failed e)) = Unit
Answers size (ok (done page)) = Supplies size page

-- The least multiple of a page size from a size on, and no overflow on the way.
pub next_multiple_of_lem :
    (n m : ℕ)
    → n < 2 ^ 63
    → 0 < m
    → m < 2 ^ 62
    → (k : ℕ) × (next_multiple_of n m ≡ ok k) × (k % m ≡ 0) × (n ≤ k) × (k < n + m)
unfolding next_multiple_of
next_multiple_of_lem n m h p q = elim (ℕ_discrete (n % m) 0) [
  | yes e ↦ (n, ground (arith, e), e, omega arith, omega arith)
  | no ne ↦
      let up = n + (m - n % m) in
      let below : n % m < m = mod-lt n p in
      let multiple : up ≡ m * suc (n / m) =
        omega (arith, div-add-mod n m, mul-suc m (n / m), below) in
      (
        up,
        ground (arith, ne, below),
        rw multiple (mul-mod_right m (suc (n / m))),
        omega (arith, below),
        omega (arith, below, ne),
      )
]

Answers-madvise :
    (libc : Libc) (size n ptr : ℕ) (answer : Status)
    → two_mb ∣ ptr
    → ptr ≢ 0
    → two_mb ∣ n
    → size ≤ n
    → n + 1 < u64_mod
    → Answers size (after_madvise libc ptr n answer)
unfolding after_madvise
Answers-madvise libc size n ptr Status.success a nz d le b = elim (Bool-cases (ptr == 0)) [
  | inl e ↦ absurd (nz (ground (arith, e)))
  | inr e ↦ rw e (record {
    ptr_unit = a;
    not_null = ground (arith, e);
    len_unit = d;
    enough = le;
    bounded = b;
  })
]
Answers-madvise libc size n ptr Status.minus_one a nz d le b = tt
Answers-madvise libc size n ptr (Status.other x) a nz d le b = tt

Answers-mmap :
    (libc : Libc) (size len page_size : ℕ)
    → Documented libc
    → two_mb ∣ page_size
    → two_mb ∣ len
    → size ≤ len
    → len + 1 < u64_mod
    → Answers size (mmap_wrapper libc len page_size)
unfolding mmap_wrapper
Answers-mmap libc size len page_size doc u d le b =
    go (libc.mmap len page_size) (λ ptr e. doc.mmap_aligned len page_size ptr e)
  where
    go :
        (answer : Option ℕ)
        → ((ptr : ℕ) → answer ≡ some ptr → page_size ∣ ptr)
        → Answers size (after_mmap libc len answer)
    go none a = tt
    go (some ptr) a = elim (Bool-cases (ptr == 0)) [
      | inl z ↦ rw z tt
      | inr z ↦ rw z (record {
        ptr_unit = dvd_trans two_mb u (a ptr refl);
        not_null = ground (arith, z);
        len_unit = d;
        enough = le;
        bounded = b;
      })
    ]

two_mb-dvd-one_gb : two_mb ∣ one_gb
two_mb-dvd-one_gb = dvd_of_mod-eq-zero two_mb refl

module _ (libc : Libc) (size : ℕ) (doc : Documented libc) (h : size < 2 ^ 63) where
  Answers-alloc_2mb : Answers size (alloc_2mb libc size)
  unfolding alloc_2mb
  Answers-alloc_2mb =
      let (k, e, multiple, le, lt) =
        next_multiple_of_lem size two_mb h (omega arith) (omega arith) in
      rw e (go k multiple le lt (libc.posix_memalign two_mb k) refl)
    where
      go :
          (k : ℕ)
          → k % two_mb ≡ 0
          → size ≤ k
          → k < size + two_mb
          → (r : ℕ × ℕ) → libc.posix_memalign two_mb k ≡ r
          → Answers size (
              if r.0 == 0
              then after_madvise libc r.1 k (libc.madvise r.1 k)
              else ok (failed (IoError.memalign_failed r.0)))
      go k multiple le lt (zero, ptr) q =
          let (a, nz) = doc.memalign_aligned two_mb k ptr q in
          Answers-madvise libc size k ptr (libc.madvise ptr k) a nz
            (dvd_of_mod-eq-zero two_mb multiple) le (omega arith)
      go k multiple le lt (suc err, ptr) q =
          let z : (suc err == 0) ≡ false = ground arith in rw z tt

  Answers-alloc_2mb_explicit : Answers size (alloc_2mb_explicit libc size)
  unfolding alloc_2mb_explicit
  Answers-alloc_2mb_explicit =
      let (k, e, multiple, le, lt) =
        next_multiple_of_lem size two_mb h (omega arith) (omega arith) in
      rw e (
        Answers-mmap libc size k two_mb doc (dvd_refl two_mb) (dvd_of_mod-eq-zero two_mb multiple)
          le (omega arith))

  Answers-alloc_1gb_explicit : Answers size (alloc_1gb_explicit libc size)
  unfolding alloc_1gb_explicit
  Answers-alloc_1gb_explicit =
      let (k, e, multiple, le, lt) =
        next_multiple_of_lem size one_gb h (omega arith) (omega arith) in
      rw e (
        Answers-mmap libc size k one_gb doc two_mb-dvd-one_gb
          (dvd_trans two_mb two_mb-dvd-one_gb (dvd_of_mod-eq-zero one_gb multiple)) le
          (omega arith))

  pub call_alloc-Answers : (alloc : AllocFn) → Answers size (call_alloc alloc libc size)
  unfolding call_alloc
  call_alloc-Answers AllocFn.alloc_2mb_fn = Answers-alloc_2mb
  call_alloc-Answers AllocFn.alloc_2mb_explicit_fn = Answers-alloc_2mb_explicit
  call_alloc-Answers AllocFn.alloc_1gb_explicit_fn = Answers-alloc_1gb_explicit
