-- ===== src/Executor/Starting.antt =====
-- The start of `run` of executor.rs is consistent, and so is every machine that a run comes to.
use io.Prelude.{
  ℕ, ◌*◌, ◌≡◌, refl, sym, List, [], ◌++◌, ok, arith, Permᴰ, subst, same_value, first_ran,
}
use io.Slab.{Key, Slab, free_entries}
use io.Slab
use io.Slab.Validity as Slabs
use io.Slab.FreeList.{length-free_entries}
use io.Slab.Inserting.{insert-Inserted, next_key}
use io.Slab.History.{with_capacity_in-IsValid}
use io.VecMap
use io.Executor.Machine.{Machine, Reach, starts, steps, reaps, start_up, reap}
use io.Executor.Consistent.{Consistent, finished_entries, reap-Consistent}
use io.Executor.Reachable.{Step-Consistent}
use io.Executor.{ℤ, Sqe, Context}

abbrev empty_slab : Slab Key
unfolding free_entries
empty_slab = record { elems = free_entries 128 0; first_free_entry = 0; current_generation = 0 }

room_for_128 : Slab.with_capacity_in {T = Key} 128 ≡ ok empty_slab
unfolding Slab.with_capacity_in empty_slab
room_for_128 = refl

module _ {T O : Type 0} where
  -- the machine that `start_up` makes
  abbrev started : ℕ → ℕ → ℕ → Slab T → Key → Slab Key → Machine T O
  started ring_depth start preempt_duration tasks close_task_id io = record {
    ctx = record {
      start = start;
      task_id = close_task_id;
      tasks = tasks;
      io_results = VecMap.with_capacity_in (ring_depth * 4);
      io_queue = [];
      dio_queue = [];
      preempt_duration = preempt_duration;
      io = io;
      to_notify = VecMap.with_capacity_in 128;
      notify_when = record { timer = []; task_id = [] };
      num_dio_running = 0;
    };
    kernel = [];
    dio_kernel = [];
    files_closing = 0;
  }

  started-Consistent :
      (ring_depth start preempt_duration : ℕ) (tasks : Slab T) (close_task_id close_id : Key)
      (io : Slab Key)
      → Slab.insert empty_slab close_task_id ≡ ok (io, close_id)
      → Consistent close_id (started ring_depth start preempt_duration tasks close_task_id io)
  unfolding io.VecMap.with_capacity_in empty_slab
  started-Consistent ring_depth start preempt_duration tasks close_task_id close_id io h =
      let valid : Slabs.IsValid empty_slab = with_capacity_in-IsValid 128 empty_slab room_for_128 in
      let (io', ins) =
        insert-Inserted empty_slab close_task_id valid
          (omega (arith, length-free_entries Key 128 0)) in
      subst
        (λ p. Consistent p.1 (started ring_depth start preempt_duration tasks close_task_id p.0))
        (same_value ins.made h)
        (record {
          tracks = record {
            sound = record {
              running = ins.valid;
              generation = omega (arith, ins.same_generation);
              small = ins.small (omega (arith, length-free_entries Key 128 0));
              results = record { same_length = refl; distinct = tt };
              notified = record { same_length = refl; distinct = tt };
            };
            live = tt;
            once = λ i ne. omega arith;
            counted = refl;
            closer = (close_task_id, ground (arith, ins.reads (next_key empty_slab)));
            finished = λ k r there. absurd (cc there);
            single = λ k q r s there also i. absurd (cc there);
          };
          direct = refl;
          timers = refl;
          close_index = omega arith;
          close_generation = omega arith;
        })

  start_up-Consistent :
      (close_task : T) (ring_depth start preempt_duration : ℕ) (close_id : Key) (m : Machine T O)
      → start_up close_task ring_depth start preempt_duration ≡ ok (close_id, m)
      → Consistent close_id m
  unfolding start_up
  start_up-Consistent close_task ring_depth start preempt_duration close_id m h =
      let (tasks, h1, e1) = first_ran (Slab.with_capacity_in 128) (sym h) in
      let (io, h2, e2) = first_ran (Slab.with_capacity_in 128) h1 in
      let ((tasks', close_task_id), h3, e3) = first_ran (Slab.insert tasks close_task) h2 in
      let ((io', id), h4, e4) = first_ran (Slab.insert io close_task_id) h3 in
      let same_io : io ≡ empty_slab = same_value (sym e2) room_for_128 in
      subst (λ p. Consistent p.0 p.1) (sym (same_value {m = ok (close_id, m)} refl h4))
        (started-Consistent ring_depth start preempt_duration tasks' close_task_id id io'
          (rw (← same_io) (sym e4)))

  -- In every machine that a run comes to, every operation that is out belongs to a task that has no
  -- result for it, and the counts are right.
  pub Reach-Consistent :
      {close_id : Key} {m : Machine T O} → Reach close_id m → Consistent close_id m
  Reach-Consistent (starts close_task ring_depth start preempt_duration m h) =
      start_up-Consistent close_task ring_depth start preempt_duration _ m h
  Reach-Consistent (steps r s) = Step-Consistent _ s (Reach-Consistent r)

  -- In every machine that a run comes to, whatever the rings have finished, in any order, the loop over
  -- the completions comes to no panic: it finds the task of every operation, and no count falls below
  -- zero.
  pub Reach-reap :
      {close_id : Key} {m : Machine T O} (cq dio_cq : List (Sqe O × ℤ))
      (kernel dio_kernel : List (Sqe O))
      → Reach close_id m
      → Permᴰ m.kernel (finished_entries cq ++ kernel)
      → Permᴰ m.dio_kernel (finished_entries dio_cq ++ dio_kernel)
      → (n : ℕ) × (ctx : Context T O) × (reap close_id cq dio_cq (m.files_closing, m.ctx)
          ≡ ok (n, ctx))
        × Reach close_id
            (record { ctx = ctx; kernel = kernel; dio_kernel = dio_kernel; files_closing = n })
  Reach-reap {close_id} {m} cq dio_cq kernel dio_kernel r p q =
      let (n, ctx, e, c) =
        reap-Consistent close_id m cq dio_cq kernel dio_kernel (Reach-Consistent r) p q in
      (n, ctx, e, steps r (reaps m cq dio_cq kernel dio_kernel n ctx p q e))
