-- ===== src/Executor/Words.antt =====
-- The numbers that leave executor.rs with an operation fit the types of the source.
use io.Prelude.{◌<◌, ◌≡◌, ◌*◌, ◌^◌, ◌%◌, ok, [], ◌∷◌, ◌++◌, Bool, arith}
use io.Word.{u32_mod, u64_mod}
use io.Word.Bits.{or_fields}
use io.Slab.{Key}
use io.Slab.KeyCode.{to_u64, from_u64}
use io.Executor.Queueing.{queue, ran-Queued}
use io.Executor.Machine.{Machine, Reach}
use io.Executor.Starting.{Reach-Consistent}
use io.Executor.{Sqe, Context, queue_io}

to_u64-lt : (k : Key) → k.index < u32_mod → k.generation < u32_mod → to_u64 k < u64_mod
unfolding to_u64
to_u64-lt k hi hg =
    let fits : (k.generation * 2 ^ 32) % u64_mod ≡ k.generation * 2 ^ 32 = omega arith in
    ground (arith, fits, or_fields 32 k.generation k.index)

module _ {T O : Type 0} where
  -- In every machine that a run comes to, a task that queues an operation gets a key whose index and
  -- generation are `u32` values, and the entry behind its queue carries a `u64` that decodes to the key.
  pub queue_io-Words :
      {close_id : Key} {m : Machine T O} (operation : O) (direct_io : Bool) (ctx : Context T O)
      (io_id : Key)
      → Reach close_id m
      → queue_io operation direct_io m.ctx ≡ ok (ctx, io_id)
      → (io_id.index < u32_mod)
        × (io_id.generation < u32_mod)
        × (e : Sqe O) × (queue direct_io ctx ≡ queue direct_io m.ctx ++ e ∷ [])
        × (e.operation ≡ operation)
        × (e.user_data < u64_mod)
        × (from_u64 e.user_data ≡ io_id)
  queue_io-Words {m = m} operation direct_io ctx io_id r h =
      let q = ran-Queued operation direct_io m.ctx ctx io_id (Reach-Consistent r).tracks.sound h in
      (
        q.small_index,
        q.small_generation,
        q.entry,
        q.behind,
        q.same_operation,
        rw q.coded (to_u64-lt io_id q.small_index q.small_generation),
        q.comes_back,
      )
