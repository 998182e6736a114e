-- ===== src/File/Polls.antt =====
-- The futures of file.rs over a whole operation, and the paths that they take.
use io.Prelude.{
  ℕ, ◌+◌, ◌-◌, ◌^◌, ap, Bool-cases, inl, inr, ◌<◌, ◌≡◌, ◌≢◌, ◌↔◌, refl, List, [], ◌∷◌, ◌++◌, Option,
  none, some, ok, true, false, arith, ◌==◌, if◌then◌else◌,
}
use io.Word.{to_u32, u32_mod, u64_mod}
use io.Slab.Validity as Slabs
use io.IoError.{Result, done, failed, os, invalid_data}
use io.Executor.{ℤ, pos, negsuc, Context}
use io.Executor.Queueing.{Sound}
use io.Executor.Operations.{Round, operation_Round}
use io.File.{pending, ready, Opcode, read, answer, Read, read_poll, contains_nul, from_path}

-- what a `Read` comes to at a result of the kernel
abbrev pub count_or_error : ℤ → Result ℕ
count_or_error (pos n) = done n
count_or_error (negsuc n) = failed (os (n + 1))

answer-count :
    (result : ℤ)
    → result ≢ negsuc (2 ^ 31 - 1)
    → answer (λ n. n) result ≡ ok (count_or_error result)
unfolding answer
answer-count (pos n) ne = refl
answer-count (negsuc n) ne = elim (Bool-cases (n + 1 == 2 ^ 31)) [
  | inl least ↦ absurd (ne (ap negsuc (ground (arith, least))))
  | inr other ↦ ground (arith, other)
]

module _ {T : Type 0} where
  -- the two polls of a `Read`, around the completion of its operation
  pub record Reads (fut : Read) (result : ℤ) (ctx : Context T Opcode) : Type 0 where
    pub round : Round (read fut.fd fut.buf_ptr fut.buf_len fut.offset) fut.direct_io result ctx
    pub waits :
        read_poll fut ctx ≡ ok (round.queued, record fut { io_id = some round.io_id }, pending)
    pub returns :
        read_poll (record fut { io_id = some round.io_id }) round.completed
        ≡ ok (round.taken, record fut { io_id = some round.io_id }, ready (count_or_error result))

  -- A `Read` of a buffer of less than `2 ^ 32` bytes, polled for the first time with room in the slab
  -- and in the count, queues its entry and waits; polled again when the result is there, it takes it
  -- and returns the count, or the error number where the result is negative and not the least `i32`.
  pub read_poll-Reads :
      (fut : Read) (result : ℤ) (ctx : Context T Opcode)
      → fut.io_id ≡ none
      → fut.buf_len < u32_mod
      → result ≢ negsuc (2 ^ 31 - 1)
      → Sound ctx
      → Slabs.Fits ctx.io
      → ctx.num_dio_running + 1 < u64_mod
      → Reads fut result ctx
  unfolding read_poll
  read_poll-Reads fut result ctx new small ne v fits few =
      let r =
        operation_Round (read fut.fd fut.buf_ptr fut.buf_len fut.offset) fut.direct_io result ctx v
          fits few in
      let sized : to_u32 fut.buf_len ≡ ok fut.buf_len = ground (arith, small) in
      record {
        round = r;
        waits = rw new (rw sized (rw r.queues.made refl));
        returns = rw r.takes (rw (answer-count result ne) refl);
      }

-- the bytes of a C string: those before the first NUL, and none where there is no NUL
pub c_string : List ℕ → Option (List ℕ)
c_string [] = none
c_string (b ∷ bytes) =
    let rest = c_string bytes in
    if b == 0 then some [] else elim rest [ some s ↦ some (b ∷ s) | none ↦ none ]

c_string-append :
    (path : List ℕ) → contains_nul path ≡ false → c_string (path ++ 0 ∷ []) ≡ some path
unfolding c_string
c_string-append [] h = refl
c_string-append (b ∷ path) h = ground (arith, h, c_string-append path (ground (arith, h)))

-- A path is taken exactly where it holds no NUL, and what the kernel then reads as a C string is the
-- path.
pub from_path-c_string :
    (path : List ℕ)
    → ((contains_nul path ≡ true) ↔ (from_path path ≡ failed invalid_data))
      × ((bytes : List ℕ) → from_path path ≡ done bytes → c_string bytes ≡ some path)
unfolding from_path
from_path-c_string path = (
  ((λ e. ground (arith, e)), λ e. ground (arith, e)),
  λ bytes e. elim (Bool-cases (contains_nul path)) [
    | inl nul ↦ absurd (ground (arith, e, nul))
    | inr clean ↦ ground (arith, e, clean, c_string-append path clean)
  ],
)
