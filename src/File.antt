-- ===== src/File.antt =====
-- io2/src/fs/file.rs: the futures of the file operations, and what is built from them. A buffer that is
-- handed to the kernel is its address and its length.
use io.Prelude.{
  ℕ, ◌+◌, ◌-◌, ◌^◌, List, [], ◌∷◌, ◌++◌, Option, none, some, length, take, drop, Outcome, ok, panic,
  ◌>>=◌, ltb, ◌==◌, if◌then◌else◌, Bool, true, false, ◌||◌,
}
use io.Word.{to_u32, add_u64}
use io.Slab.{Key}
use io.IoError.{Result, done, failed, os, unexpected_eof, invalid_data, is_interrupted}
use io.Executor.{ℤ, pos, negsuc, Context, queue_io, take_io_result}
pub mod Polls
pub mod Writing
pub mod Handle
pub mod Reading
mod Tests

-- `std::task::Poll`
pub data Poll (A : Type 0) : Type 0 where
  pending : Poll A
  ready : A → Poll A

-- the entries of `io_uring::opcode` that are built here; a path and the `open_how` are those of `Open`
pub data Opcode : Type 0 where
  close fsync statx : ℕ → Opcode
  open_at2 : List ℕ → ℕ → ℕ → Opcode
  read write : ℕ → ℕ → ℕ → ℕ → Opcode

-- The result of an operation as `io::Result`: `Err(from_raw_os_error(-io_result))` where it is
-- negative. The negation of the least `i32` overflows.
unfoldable pub answer : {A : Type 0} → (ℕ → A) → ℤ → Outcome (Result A)
answer value (pos n) = ok (done (value n))
answer value (negsuc n) = if n + 1 == 2 ^ 31 then panic else ok (failed (os (n + 1)))

module _ {T A : Type 0} where
  -- What all the futures do: the first poll queues the entry, and later ones take the result.
  unfoldable pub poll_io :
      Outcome Opcode
      → Bool
      → (ℤ → Outcome (Result A))
      → Option Key
      → Context T Opcode
      → Outcome (Context T Opcode × Option Key × Poll (Result A))
  poll_io entry direct_io finish none ctx = do
    operation ← entry
    (ctx', io_id) ← queue_io operation direct_io ctx
    ok (ctx', some io_id, pending)
  poll_io entry direct_io finish (some io_id) ctx = do
    (ctx', result) ← take_io_result io_id ctx
    elim result [
      | some io_result ↦ do out ← finish io_result; ok (ctx', some io_id, ready out)
      | none ↦ ok (ctx', some io_id, pending)
    ]

pub record Close : Type 0 where
  pub io_id : Option Key
  pub fd : ℕ

pub record Open : Type 0 where
  pub path : List ℕ
  pub flags : ℕ
  pub mode : ℕ
  pub io_id : Option Key

pub record Read : Type 0 where
  pub fd : ℕ
  pub offset : ℕ
  pub buf_ptr : ℕ
  pub buf_len : ℕ
  pub io_id : Option Key
  pub direct_io : Bool

pub record Write : Type 0 where
  pub fd : ℕ
  pub offset : ℕ
  pub buf_ptr : ℕ
  pub buf_len : ℕ
  pub io_id : Option Key
  pub direct_io : Bool

pub record Statx (S : Type 0) : Type 0 where
  pub fd : ℕ
  pub io_id : Option Key
  pub stat : S

pub record SyncAll : Type 0 where
  pub fd : ℕ
  pub io_id : Option Key

module _ {T : Type 0} where
  unfoldable pub close_poll :
      Close → Context T Opcode → Outcome (Context T Opcode × Close × Poll (Result (Unit {0})))
  unfolding poll_io answer
  close_poll fut ctx = do
    (ctx', io_id, out) ← poll_io (ok (close fut.fd)) false (answer (λ n. tt)) fut.io_id ctx
    ok (ctx', record fut { io_id = io_id }, out)

  -- the value is the descriptor of the `File`
  unfoldable pub open_poll :
      Open → Context T Opcode → Outcome (Context T Opcode × Open × Poll (Result ℕ))
  unfolding poll_io answer
  open_poll fut ctx = do
    (ctx', io_id, out) ←
        poll_io (ok (open_at2 fut.path fut.flags fut.mode)) false (answer (λ n. n)) fut.io_id ctx
    ok (ctx', record fut { io_id = io_id }, out)

  unfoldable pub read_poll :
      Read → Context T Opcode → Outcome (Context T Opcode × Read × Poll (Result ℕ))
  unfolding poll_io answer
  read_poll fut ctx = do
    let entry : Outcome Opcode = do
      len ← to_u32 fut.buf_len
      ok (read fut.fd fut.buf_ptr len fut.offset)
    (ctx', io_id, out) ← poll_io entry fut.direct_io (answer (λ n. n)) fut.io_id ctx
    ok (ctx', record fut { io_id = io_id }, out)

  unfoldable pub write_poll :
      Write → Context T Opcode → Outcome (Context T Opcode × Write × Poll (Result ℕ))
  unfolding poll_io answer
  write_poll fut ctx = do
    let entry : Outcome Opcode = do
      len ← to_u32 fut.buf_len
      ok (write fut.fd fut.buf_ptr len fut.offset)
    (ctx', io_id, out) ← poll_io entry fut.direct_io (answer (λ n. n)) fut.io_id ctx
    ok (ctx', record fut { io_id = io_id }, out)

  -- the kernel has written `stat` by the time of the result
  unfoldable pub statx_poll :
      {S : Type 0}
      → Statx S
      → Context T Opcode
      → Outcome (Context T Opcode × Statx S × Poll (Result S))
  unfolding poll_io answer
  statx_poll fut ctx = do
    (ctx', io_id, out) ← poll_io (ok (statx fut.fd)) false (answer (λ n. fut.stat)) fut.io_id ctx
    ok (ctx', record fut { io_id = io_id }, out)

  unfoldable pub sync_all_poll :
      SyncAll → Context T Opcode → Outcome (Context T Opcode × SyncAll × Poll (Result (Unit {0})))
  unfolding poll_io answer
  sync_all_poll fut ctx = do
    (ctx', io_id, out) ← poll_io (ok (fsync fut.fd)) false (answer (λ n. tt)) fut.io_id ctx
    ok (ctx', record fut { io_id = io_id }, out)

abbrev pub contains_nul : List ℕ → Bool
contains_nul [] = false
contains_nul (b ∷ bytes) = (b == 0) || contains_nul bytes

-- `LocalCString::from_path`, on the bytes of the path
unfoldable pub from_path : List ℕ → Result (List ℕ)
from_path path = if contains_nul path then failed invalid_data else done (path ++ 0 ∷ [])

abbrev pub nothing_left : List ℕ → Bool
nothing_left [] = true
nothing_left (b ∷ bytes) = false

-- The loop of `write_all` over the answers to its requests: what was written where, and the result, or
-- `none` while the loop waits.
unfoldable pub write_all :
    List ℕ → ℕ → List (Result ℕ) → Outcome (List (ℕ × List ℕ) × Option (Result (Unit {0})))
write_all buf offset [] = ok ([], if nothing_left buf then some (done tt) else none)
write_all buf offset (done n ∷ answers) =
    if nothing_left buf
    then ok ([], some (done tt))
    else if n == 0
    then ok ([], some (failed unexpected_eof))
    else if ltb (length buf) n
    then panic
    else (do
      offset' ← add_u64 offset n
      (written, result) ← write_all (drop n buf) offset' answers
      ok ((offset, take n buf) ∷ written, result))
write_all buf offset (failed e ∷ answers) =
    let again = write_all buf offset answers in
    if nothing_left buf
    then ok ([], some (done tt))
    else if is_interrupted e
    then again
    else ok ([], some (failed e))
