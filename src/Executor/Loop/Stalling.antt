-- ===== src/Executor/Loop/Stalling.antt =====
-- A state of the loop of executor.rs from which `run` never comes on, though tasks wait in `notifying`.
use io.Prelude.{
  ℕ, zero, suc, ◌≡◌, inl, inr, refl, ap, ◌∙◌, [], ok, true, false, length, arith, length-perm,
  length-append,
}
use io.Slab.{Key}
use io.VecMap
use io.Executor.Consistent.{finished_entries, length-finished_entries}
use io.Executor.Loop.{World, Run, is_nil, is_idle, wait_turn, wait, begin_round, goes_on, run}
use io.Executor.Loop.Submitting.{WorldLaws}
use io.Executor.Loop.Waiting.{wait_dio, wait-tested}
use io.Executor.{ℤ, Sqe, Context, NotifyWhen, ToNotify, notify_timers}

module _ {T O W R : Type 0} (world : World T O W R) (laws : WorldLaws world) where
  -- The rings hold nothing, no direct operation runs, no timer is set, and no task is in `to_notify`. Nothing is said of the tasks
  -- in `notifying`.
  pub record Stalled (s : Run T O W R) : Type 0 where
    pub no_entries : laws.laws.held s.ring ≡ []
    pub no_dio_entries : laws.laws.held s.dio_ring ≡ []
    pub no_dio_running : s.ctx.num_dio_running ≡ 0
    pub no_timers : s.ctx.notify_when ≡ record { timer = []; task_id = [] }
    pub nobody : VecMap.is_empty s.ctx.to_notify ≡ ok true

  -- A ring that holds nothing has completed nothing.
  completed_nothing : (r : R) → laws.laws.held r ≡ [] → is_nil (world.completed r) ≡ true
  completed_nothing r h = ground (
    arith,
    length-perm (laws.take_held r),
    length-append (finished_entries (world.completed r)) (laws.laws.held (world.take_completed r)),
    length-finished_entries (world.completed r),
    ap length h,
  )

  no_timers_fire :
      (time : ℕ) (when : NotifyWhen) (to_notify : ToNotify)
      → when ≡ record { timer = []; task_id = [] }
      → notify_timers time when to_notify ≡ ok (when, to_notify)
  unfolding notify_timers io.Executor.notify_from
  no_timers_fire time when to_notify h = rw h refl

  wait_turn-Stalled :
      (s : Run T O W R)
      → Stalled s
      → (s' : Run T O W R) × (wait_turn world s ≡ ok s') × Stalled s' × (s'.notifying ≡ s.notifying)
  unfolding wait_turn
  wait_turn-Stalled s still =
      let (time, outside) = world.now s.outside in
      elim (wait_dio world laws s) [
        | inr (some_run, _) ↦ absurd (ground (arith, some_run, still.no_dio_running))
        | inl (dio_ring, e, held) ↦ (
          record s { outside = outside; ring = world.sync_completed s.ring; dio_ring = dio_ring },
          rw (no_timers_fire time s.ctx.notify_when s.ctx.to_notify still.no_timers) (rw e refl),
          record {
            no_entries = laws.sync_completed_held s.ring ∙ still.no_entries;
            no_dio_entries = held ∙ still.no_dio_entries;
            no_dio_running = still.no_dio_running;
            no_timers = still.no_timers;
            nobody = still.nobody;
          },
          refl,
        )
      ]

  wait-Stalled :
      (turns : ℕ) (s : Run T O W R)
      → Stalled s
      → (s' : Run T O W R) × (wait world turns s ≡ ok (s', false)) × (s'.notifying ≡ s.notifying)
  unfolding wait
  wait-Stalled zero s still = (s, refl, refl)
  wait-Stalled (suc turns) s still =
      let (s1, e1, still1, same1) = wait_turn-Stalled s still in
      let (s2, e2, same2) = wait-Stalled turns s1 still1 in
      (
        s2,
        wait-tested world turns s true still.nobody
            ∙ rw (completed_nothing s.ring still.no_entries)
                (rw (completed_nothing s.dio_ring still.no_dio_entries) (rw e1 e2)),
        same2 ∙ same1,
      )

  -- Where the value of the first task is still missing and the loop finds itself idle, with rings that
  -- hold nothing, no direct operation and no timer, `run` waits for ever: no number of rounds and turns is enough, and the
  -- tasks that were left in `notifying` stay there.
  pub run-Stalled :
      (rounds turns : ℕ) (close_id : Key) (close_op : ℕ → O) (s : Run T O W R)
      → goes_on world s ≡ true
      → is_idle world (record s {
        ring = world.sync_completed s.ring;
        dio_ring = world.sync_completed s.dio_ring;
      })
        ≡ ok true
      → Stalled s
      → (s' : Run T O W R) × (run world rounds turns close_id close_op s ≡ ok (s', false))
        × (s'.notifying ≡ s.notifying)
  unfolding run begin_round
  run-Stalled zero turns close_id close_op s goes idle still = (s, refl, refl)
  run-Stalled (suc rounds) turns close_id close_op s goes idle still =
      let (s1, e, same) =
        wait-Stalled turns
          (record s {
            ring = world.sync_completed s.ring;
            dio_ring = world.sync_completed s.dio_ring;
          })
          (record {
            no_entries = laws.sync_completed_held s.ring ∙ still.no_entries;
            no_dio_entries = laws.sync_completed_held s.dio_ring ∙ still.no_dio_entries;
            no_dio_running = still.no_dio_running;
            no_timers = still.no_timers;
            nobody = still.nobody;
          }) in
      (s1, rw (goes, run) (rw idle (rw e refl)), same)
