-- ===== src/Executor/Consistent.antt =====
-- The invariant of the machine of executor.rs, and the completions: they come to no panic.
use mathlib.Core.List.{map-append}
use io.Prelude.{
  ℕ, ◌+◌, ◌-◌, ◌<◌, ◌≡◌, refl, sym, ap, ◌∙◌, List, [], ◌∷◌, ◌++◌, ok, arith, Permᴰ, subst, length,
  map, length-append, length-perm, finished_first,
}
use io.Word.{u32_mod, sub_checked}
use io.Slab.{Key}
use io.Executor.Operations.{SameQueues}
use io.Executor.Outstanding.{Tracks, Tracks-perm}
use io.Executor.Finishing.{on_completion-Tracks}
use io.Executor.Taking.{Tracks-kept}
use io.Executor.Machine.{Machine, on_completions, reap}
use io.Executor.{ℤ, Sqe, Context}

module _ {O : Type 0} where
  abbrev pub finished_entries : List (Sqe O × ℤ) → List (Sqe O)
  finished_entries = map (λ c. c.0)

  pub length-finished_entries : (cq : List (Sqe O × ℤ)) → length (finished_entries cq) ≡ length cq
  length-finished_entries [] = refl
  length-finished_entries (x ∷ cq) = omega (arith, length-finished_entries cq)

module _ {T O : Type 0} where
  -- every entry that has no result yet
  abbrev pub all_out : Context T O → List (Sqe O) → List (Sqe O) → List (Sqe O)
  all_out ctx kernel dio_kernel = ctx.io_queue ++ (kernel ++ (ctx.dio_queue ++ dio_kernel))

  -- Every operation that is out belongs to a task that has no result for it; files that close, and
  -- direct operations, are as many as their counts say; and every timer has a task.
  pub record Consistent (close_id : Key) (m : Machine T O) : Type 0 where
    pub tracks : Tracks close_id m.ctx (all_out m.ctx m.kernel m.dio_kernel) m.files_closing
    pub direct : m.ctx.num_dio_running ≡ length m.ctx.dio_queue + length m.dio_kernel
    pub timers : length m.ctx.notify_when.timer ≡ length m.ctx.notify_when.task_id
    pub close_index : close_id.index < u32_mod
    pub close_generation : close_id.generation < u32_mod

  on_completions-Tracks :
      (close_id : Key) (cq : List (Sqe O × ℤ)) (ctx : Context T O) (out : List (Sqe O)) (n : ℕ)
      → Tracks close_id ctx (finished_entries cq ++ out) n
      → (n' : ℕ) × (ctx' : Context T O) × (on_completions close_id cq (n, ctx) ≡ ok (n', ctx'))
        × Tracks close_id ctx' out n'
        × SameQueues ctx ctx'
  unfolding on_completions
  on_completions-Tracks close_id [] ctx out n t = (
    n,
    ctx,
    refl,
    t,
    record { same_io_queue = refl; same_dio_queue = refl; same_count = refl; same_timers = refl },
  )
  on_completions-Tracks close_id ((e, result) ∷ cq) ctx out n t =
      let (n1, ctx1, e1, t1, s1, _) =
        on_completion-Tracks close_id ctx e (finished_entries cq ++ out) n result t in
      let (n2, ctx2, e2, t2, s2) = on_completions-Tracks close_id cq ctx1 out n1 t1 in
      (
        n2,
        ctx2,
        rw e1 e2,
        t2,
        record {
          same_io_queue = s2.same_io_queue ∙ s1.same_io_queue;
          same_dio_queue = s2.same_dio_queue ∙ s1.same_dio_queue;
          same_count = s2.same_count ∙ s1.same_count;
          same_timers = s2.same_timers ∙ s1.same_timers;
        },
      )

  -- The count of direct operations goes down, and what has finished stands first among what is out.
  pub reap-Tracks :
      (close_id : Key) (m : Machine T O) (cq dio_cq : List (Sqe O × ℤ))
      (kernel dio_kernel : List (Sqe O))
      → Consistent close_id m
      → Permᴰ m.kernel (finished_entries cq ++ kernel)
      → Permᴰ m.dio_kernel (finished_entries dio_cq ++ dio_kernel)
      → (left : ℕ) × (sub_checked m.ctx.num_dio_running (length dio_cq) ≡ ok left)
        × (left ≡ length m.ctx.dio_queue + length dio_kernel)
        × Tracks close_id
            (record m.ctx { num_dio_running = left })
            (finished_entries (cq ++ dio_cq) ++ all_out m.ctx kernel dio_kernel)
            m.files_closing
  reap-Tracks close_id m cq dio_cq kernel dio_kernel c p q =
      let counted : length m.dio_kernel ≡ length dio_cq + length dio_kernel = omega (
        arith,
        length-perm q,
        length-append (finished_entries dio_cq) dio_kernel,
        length-finished_entries dio_cq,
      ) in
      let left = m.ctx.num_dio_running - length dio_cq in
      let subtracted : sub_checked m.ctx.num_dio_running (length dio_cq) ≡ ok left =
        ground (arith, c.direct, counted) in
      let ctx0 = record m.ctx { num_dio_running = left } in
      let out = all_out m.ctx kernel dio_kernel in
      let t0 =
        Tracks-perm close_id
          (finished_first (finished_entries cq) (finished_entries dio_cq) kernel dio_kernel
            m.ctx.io_queue m.ctx.dio_queue p q)
          c.tracks in
      let t1 : Tracks close_id ctx0 (finished_entries cq ++ finished_entries dio_cq ++ out)
          m.files_closing =
        Tracks-kept close_id m.ctx ctx0 (finished_entries cq ++ finished_entries dio_cq ++ out)
          m.files_closing t0
          (record {
            running = t0.sound.running;
            generation = t0.sound.generation;
            small = t0.sound.small;
            results = t0.sound.results;
            notified = t0.sound.notified;
          })
          refl (λ k. refl) in
      (
        left,
        subtracted,
        omega (arith, c.direct, counted),
        subst (λ l. Tracks close_id ctx0 (l ++ out) m.files_closing)
            (sym (map-append (λ c. c.0) cq dio_cq)) t1,
      )

  -- Whatever the rings have finished, in any order, the loop over the completions comes to no panic,
  -- and what it leaves is consistent.
  pub reap-Consistent :
      (close_id : Key) (m : Machine T O) (cq dio_cq : List (Sqe O × ℤ))
      (kernel dio_kernel : List (Sqe O))
      → Consistent close_id m
      → Permᴰ m.kernel (finished_entries cq ++ kernel)
      → Permᴰ m.dio_kernel (finished_entries dio_cq ++ dio_kernel)
      → (n : ℕ) × (ctx : Context T O) × (reap close_id cq dio_cq (m.files_closing, m.ctx)
          ≡ ok (n, ctx))
        × Consistent close_id
            (record { ctx = ctx; kernel = kernel; dio_kernel = dio_kernel; files_closing = n })
  unfolding reap
  reap-Consistent close_id m cq dio_cq kernel dio_kernel c p q =
      let (left, subtracted, count, t0) =
        reap-Tracks close_id m cq dio_cq kernel dio_kernel c p q in
      let (n, ctx, e, t, s) =
        on_completions-Tracks close_id (cq ++ dio_cq) (record m.ctx { num_dio_running = left })
          (all_out m.ctx kernel dio_kernel) m.files_closing t0 in
      (
        n,
        ctx,
        rw subtracted e,
        record {
          tracks = rw s.same_io_queue (rw s.same_dio_queue t);
          direct = omega (arith, s.same_count, count, ap length s.same_dio_queue);
          timers = rw s.same_timers c.timers;
          close_index = c.close_index;
          close_generation = c.close_generation;
        },
      )
