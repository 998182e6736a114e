-- ===== src/Executor/Steps.antt =====
-- Every step of the machine of executor.rs keeps its invariant.
use io.Prelude.{
  ◌≡◌, refl, ap, List, [], ◌∷◌, ◌++◌, ok, Bool, true, false, arith, subst, same_value, length,
  length-append, last_to_front, new_third,
}
use io.Slab.{Key}
use io.VecMap
use io.VecMap.Laws.{IsValid, insert-Updated, clear-IsValid}
use io.Executor.Queueing.{Queued}
use io.Executor.Operations.{SameQueues}
use io.Executor.Outstanding.{Tracks, Tracks-perm, queue_io-Tracks}
use io.Executor.Taking.{Tracks-kept}
use io.Executor.Machine.{Machine}
use io.Executor.Consistent.{Consistent, all_out}
use io.Executor.{Sqe, Context, key_eq, notify}

module _ {T O : Type 0} (close_id : Key) where
  pub same_out :
      (ctx ctx' : Context T O) (kernel dio_kernel : List (Sqe O))
      → ctx'.io_queue ≡ ctx.io_queue
      → ctx'.dio_queue ≡ ctx.dio_queue
      → all_out ctx kernel dio_kernel ≡ all_out ctx' kernel dio_kernel
  same_out ctx ctx' kernel dio_kernel p q = rw p (rw q refl)

  -- A context that differs in what no operation depends on, with as many tasks as timers.
  pub Consistent-kept :
      (m : Machine T O) (ctx : Context T O)
      → Consistent close_id m
      → IsValid key_eq ctx.to_notify
      → ctx.io ≡ m.ctx.io
      → ctx.io_results ≡ m.ctx.io_results
      → SameQueues (record m.ctx { notify_when = ctx.notify_when }) ctx
      → length ctx.notify_when.timer ≡ length ctx.notify_when.task_id
      → Consistent close_id (record m { ctx = ctx })
  Consistent-kept m ctx c valid same_io same_results q timers =
      let v = c.tracks.sound in
      record {
        tracks =
            subst (λ l. Tracks close_id ctx l m.files_closing)
              (same_out m.ctx ctx m.kernel m.dio_kernel q.same_io_queue q.same_dio_queue)
              ((Tracks-kept close_id m.ctx ctx (all_out m.ctx m.kernel m.dio_kernel) m.files_closing
                c.tracks
                (record {
                  running = rw same_io v.running;
                  generation = rw same_io v.generation;
                  small = rw same_io v.small;
                  results = rw same_results v.results;
                  notified = valid;
                })
                same_io (λ k. ap (λ r. VecMap.Laws.view key_eq r k) same_results)));
        direct = omega (arith, q.same_count, c.direct, ap length q.same_dio_queue);
        timers = timers;
        close_index = c.close_index;
        close_generation = c.close_generation;
      }

  -- `notify` changes nothing but the tasks to notify.
  pub notify-Consistent :
      (m : Machine T O) (base ctx : Context T O) (task_id : Key)
      → Consistent close_id m
      → Consistent close_id (record m { ctx = base })
      → notify task_id base ≡ ok ctx
      → Consistent close_id (record m { ctx = ctx })
  unfolding notify
  notify-Consistent m base ctx task_id c b h =
      let (n, noted, u) = insert-Updated key_eq base.to_notify task_id tt b.tracks.sound.notified in
      let made : notify task_id base ≡ ok (record base { to_notify = n }) = rw noted refl in
      subst (λ x. Consistent close_id (record m { ctx = x })) (same_value made h)
        (Consistent-kept (record m { ctx = base }) (record base { to_notify = n }) b u.valid refl
          refl
          (record {
            same_io_queue = refl;
            same_dio_queue = refl;
            same_count = refl;
            same_timers = refl;
          })
          b.timers)

  -- A new operation joins those that are out.
  pub queue_io-Consistent :
      (m : Machine T O) (ctx : Context T O) (operation : O) (direct_io : Bool) (io_id : Key)
      → Consistent close_id m
      → Queued operation direct_io m.ctx ctx io_id
      → Consistent close_id (record m { ctx = ctx })
  queue_io-Consistent m ctx operation true io_id c q = record {
    tracks =
        Tracks-perm close_id
          (rw q.behind (
            rw q.other_queue
              (new_third q.entry m.ctx.io_queue m.kernel m.ctx.dio_queue m.dio_kernel)))
          (queue_io-Tracks close_id m.ctx ctx operation true io_id
            (all_out m.ctx m.kernel m.dio_kernel) m.files_closing c.tracks q);
    direct = omega (
      arith,
      c.direct,
      q.counted,
      ap length q.behind,
      length-append m.ctx.dio_queue (q.entry ∷ []),
    );
    timers = rw q.same_timers c.timers;
    close_index = c.close_index;
    close_generation = c.close_generation;
  }
  queue_io-Consistent m ctx operation false io_id c q = record {
    tracks =
        Tracks-perm close_id
          (rw q.behind (
            rw q.other_queue (
              last_to_front q.entry m.ctx.io_queue
                (m.kernel ++ (m.ctx.dio_queue ++ m.dio_kernel)))))
          (queue_io-Tracks close_id m.ctx ctx operation false io_id
            (all_out m.ctx m.kernel m.dio_kernel) m.files_closing c.tracks q);
    direct = omega (arith, c.direct, q.counted, ap length q.other_queue);
    timers = rw q.same_timers c.timers;
    close_index = c.close_index;
    close_generation = c.close_generation;
  }
