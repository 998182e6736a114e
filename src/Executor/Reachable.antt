-- ===== src/Executor/Reachable.antt =====
-- What holds of every machine that a run of executor.rs comes to.
use io.Prelude.{
  ◌-◌, ◌≡◌, refl, sym, ap, [], ◌∷◌, ◌++◌, ok, true, false, arith, subst, same_value, first_ran,
  length, length-append, third_to_fourth, first_to_second, ltb, Bool-cases, inl, inr,
}
use io.Slab.{Key, Slab}
use io.Slab
use io.VecMap
use io.VecMap.Laws.{clear-IsValid}
use io.Executor.Timers.{notify_timers-Fired}
use io.Executor.Queueing.{ran-Queued}
use io.Executor.Outstanding.{Tracks, Tracks-perm}
use io.Executor.Taking.{take_io_result-Tracks}
use io.Executor.Machine.{
  Machine, Step, queues, takes, sets_timer, yields, spawns, notifies, turns, wakes, submits,
  submits_direct, reaps, fires, closes,
}
use io.Executor.Consistent.{Consistent, all_out, reap-Consistent}
use io.Executor.Steps.{Consistent-kept, same_out, notify-Consistent, queue_io-Consistent}
use io.Executor.{Context, key_eq, notify, notify_when, yield_if_needed, spawn}
use io.Executor.Closing.{close_files-Consistent, Tracks-requeued}

module _ {T O : Type 0} (close_id : Key) where
  -- Every step keeps the invariant.
  pub Step-Consistent :
      {m m' : Machine T O} → Step close_id m m' → Consistent close_id m → Consistent close_id m'
  unfolding notify_when yield_if_needed spawn
  Step-Consistent (queues m operation direct_io ctx io_id h) c =
      queue_io-Consistent close_id m ctx operation direct_io io_id c
        (ran-Queued operation direct_io m.ctx ctx io_id c.tracks.sound h)
  Step-Consistent (takes m io_id found ctx h) c =
      let (t, s) =
        take_io_result-Tracks close_id m.ctx ctx io_id found (all_out m.ctx m.kernel m.dio_kernel)
          m.files_closing c.tracks h in
      record {
        tracks =
            subst (λ l. Tracks close_id ctx l m.files_closing)
              (same_out close_id m.ctx ctx m.kernel m.dio_kernel s.same_io_queue s.same_dio_queue)
              t;
        direct = omega (arith, s.same_count, c.direct, ap length s.same_dio_queue);
        timers = rw s.same_timers c.timers;
        close_index = c.close_index;
        close_generation = c.close_generation;
      }
  Step-Consistent (sets_timer m instant) c =
      Consistent-kept close_id m (notify_when instant m.ctx) c c.tracks.sound.notified refl refl
        (record {
          same_io_queue = refl;
          same_dio_queue = refl;
          same_count = refl;
          same_timers = refl;
        })
        (omega (
          arith,
          c.timers,
          length-append m.ctx.notify_when.timer (instant ∷ []),
          length-append m.ctx.notify_when.task_id (m.ctx.task_id ∷ []),
        ))
  Step-Consistent (yields m now given_way ctx h) c =
      elim (Bool-cases (ltb (now - m.ctx.start) m.ctx.preempt_duration)) [
        | inl stays ↦
            let made : yield_if_needed now m.ctx ≡ ok (m.ctx, false) = rw stays refl in
            subst (λ x. Consistent close_id (record m { ctx = x }))
              (ap (λ p. p.0) (same_value made h)) c
        | inr leaves ↦
            let (ctx1, out, made) =
              first_ran {rest = λ x. ok (x, true)} (notify m.ctx.task_id m.ctx)
                (sym (rw leaves at h)) in
            let same : ctx1 ≡ ctx =
              sym (ap (λ p. p.0) (same_value {m = ok (ctx, given_way)} refl (out))) in
            subst (λ x. Consistent close_id (record m { ctx = x })) same
              (notify-Consistent close_id m m.ctx ctx1 m.ctx.task_id c c (sym made))
      ]
  Step-Consistent (spawns m task ctx h) c =
      let ((tasks, task_id), h', made) =
        first_ran (Slab.insert m.ctx.tasks (task m.ctx.task_id)) (sym h) in
      notify-Consistent close_id m (record m.ctx { tasks = tasks }) ctx task_id c
        (Consistent-kept close_id m (record m.ctx { tasks = tasks }) c c.tracks.sound.notified refl
          refl
          (record {
            same_io_queue = refl;
            same_dio_queue = refl;
            same_count = refl;
            same_timers = refl;
          })
          c.timers)
        (sym h')
  Step-Consistent (notifies m task_id ctx h) c =
      notify-Consistent close_id m m.ctx ctx task_id c c h
  Step-Consistent (turns m start task_id tasks) c =
      Consistent-kept close_id m (record m.ctx { start = start; task_id = task_id; tasks = tasks })
        c c.tracks.sound.notified refl refl
        (record {
          same_io_queue = refl;
          same_dio_queue = refl;
          same_count = refl;
          same_timers = refl;
        })
        c.timers
  Step-Consistent (wakes m) c =
      Consistent-kept close_id m (record m.ctx { to_notify = VecMap.clear m.ctx.to_notify }) c
        (clear-IsValid key_eq m.ctx.to_notify 0 close_id).0 refl refl
        (record {
          same_io_queue = refl;
          same_dio_queue = refl;
          same_count = refl;
          same_timers = refl;
        })
        c.timers
  Step-Consistent (submits m e rest h) c =
      let t =
        subst
          (λ q.
            Tracks close_id m.ctx (q ++ (m.kernel ++ (m.ctx.dio_queue ++ m.dio_kernel)))
              m.files_closing)
          h c.tracks in
      let ctx : Context T O = record m.ctx { io_queue = rest } in
      record {
        tracks =
            Tracks-requeued close_id m.ctx ctx (all_out ctx (m.kernel ++ e ∷ []) m.dio_kernel)
              m.files_closing
              (Tracks-perm close_id
                (first_to_second e rest m.kernel (m.ctx.dio_queue ++ m.dio_kernel)) t)
              refl refl refl;
        direct = c.direct;
        timers = c.timers;
        close_index = c.close_index;
        close_generation = c.close_generation;
      }
  Step-Consistent (submits_direct m e rest h) c =
      let t =
        subst
          (λ q.
            Tracks close_id m.ctx (m.ctx.io_queue ++ (m.kernel ++ (q ++ m.dio_kernel)))
              m.files_closing)
          h c.tracks in
      let ctx : Context T O = record m.ctx { dio_queue = rest } in
      record {
        tracks =
            Tracks-requeued close_id m.ctx ctx (all_out ctx m.kernel (m.dio_kernel ++ e ∷ []))
              m.files_closing
              (Tracks-perm close_id (third_to_fourth e m.ctx.io_queue m.kernel rest m.dio_kernel) t)
              refl refl refl;
        direct = omega (arith, c.direct, ap length h, length-append m.dio_kernel (e ∷ []));
        timers = c.timers;
        close_index = c.close_index;
        close_generation = c.close_generation;
      }
  Step-Consistent (reaps m cq dio_cq kernel dio_kernel n ctx p q h) c =
      let (n', ctx', e, d) = reap-Consistent close_id m cq dio_cq kernel dio_kernel c p q in
      subst
        (λ x.
          Consistent close_id
            (record { ctx = x.1; kernel = kernel; dio_kernel = dio_kernel; files_closing = x.0 }))
        (same_value e h) d
  Step-Consistent (fires m now when to_notify h) c =
      let (w, n, e, f) =
        notify_timers-Fired now m.ctx.notify_when m.ctx.to_notify c.timers
          c.tracks.sound.notified in
      subst
        (λ x.
          Consistent close_id
            (record m { ctx = record m.ctx { notify_when = x.0; to_notify = x.1 } }))
        (same_value e h)
        (Consistent-kept close_id m (record m.ctx { notify_when = w; to_notify = n }) c f.valid refl
          refl
          (record {
            same_io_queue = refl;
            same_dio_queue = refl;
            same_count = refl;
            same_timers = refl;
          })
          f.same_length)
  Step-Consistent (closes m close_op files n ctx h) c =
      close_files-Consistent close_id close_op files m n ctx c h
