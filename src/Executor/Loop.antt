-- ===== src/Executor/Loop.antt =====
-- The loop of `run` of executor.rs. The tasks, the clock, the list of dropped files and the two rings are
-- parameters; a task is the pointer that the slab holds, and `W` is all that lies behind it.
pub mod Submitting
pub mod Panics
pub mod Polling
pub mod Ending
pub mod Leaving
pub mod Waiting
pub mod Returning
pub mod Stalling
pub mod Beginning
pub mod Config
mod Tests
use io.Prelude.{
  ℕ, zero, suc, ◌-◌, List, [], ◌∷◌, ◌++◌, Option, none, some, Outcome, ok, panic, ◌>>=◌, ltb, leb,
  length, ◌==◌, if◌then◌else◌, Bool, true, false, ◌&&◌, ◌||◌, not, reverse,
}
use io.Slab.{Key}
use io.Slab
use io.VecMap
use io.Executor.Machine.{Machine, reap, start_up}
use io.Executor.Ring.{Ring, busy, try_submit_io}
use io.Executor.{ℤ, Sqe, Context, key_eq, notify_timers, close_files}

-- What the loop uses of the tasks, of `std`, and of the completion side of a ring. `poll` says whether
-- the task is ready; `wait` is `submit_and_wait(0)`.
pub record World (T O W R : Type 0) : Type 0 where
  pub ring : Ring R O
  pub completed : R → List (Sqe O × ℤ)
  pub take_completed : R → R
  pub sync_completed : R → R
  pub wait : R → R × Option ℕ
  pub poll : T → Context T O × W → Outcome ((Context T O × W) × Bool)
  pub now : W → ℕ × W
  pub files_to_close : W → List ℕ
  pub clear_files : W → W
  pub out_is_some : W → Bool

-- what the loop keeps between its rounds
pub record Run (T O W R : Type 0) : Type 0 where
  pub ctx : Context T O
  pub outside : W
  pub ring : R
  pub dio_ring : R
  pub notifying : List Key
  pub files_closing : ℕ

abbrev pub is_nil : {A : Type 0} → List A → Bool
is_nil xs = leb (length xs) 0

module _ {T O W R : Type 0} (world : World T O W R) where
  -- the two calls of `try_submit_io`; `force` is for the ring for direct operations
  unfoldable pub submit_both : Bool → Run T O W R → Outcome (Run T O W R)
  submit_both force s = do
    (io_queue, ring) ← try_submit_io world.ring s.ctx.io_queue s.ring false
    (dio_queue, dio_ring) ← try_submit_io world.ring s.ctx.dio_queue s.dio_ring force
    ok (record s {
      ctx = record s.ctx { io_queue = io_queue; dio_queue = dio_queue };
      ring = ring;
      dio_ring = dio_ring;
    })

  -- the end of a turn of the task `task_id`: it leaves the slab where it is ready
  abbrev pub end_turn : Key → Bool → Context T O → Context T O
  end_turn task_id true ctx = record ctx { tasks = (Slab.remove ctx.tasks task_id).0 }
  end_turn task_id false ctx = ctx

  -- The loop over `notifying`, the last one first, from the time `start`. What the warning about a slow
  -- task reads of the clock is left out.
  unfoldable pub poll_all : ℕ → List Key → Run T O W R → Outcome (Run T O W R)
  unfolding submit_both
  poll_all start [] s = ok (record s { notifying = [] })
  poll_all start (task_id ∷ notifying) s = elim (Slab.get_mut s.ctx.tasks task_id) [
    | none ↦
        poll_all start notifying
          (record s { ctx = record s.ctx { start = start; task_id = task_id } })
    | some (task, write) ↦ do
      ((ctx, outside), is_ready) ←
          world.poll task (record s.ctx { start = start; task_id = task_id }, s.outside)
      let (time, outside') = world.now outside
      let polled = record s { ctx = end_turn task_id is_ready ctx; outside = outside' }
      elim (ltb s.ctx.preempt_duration (time - start)) [
        | true ↦ ok (record polled { notifying = notifying })
        | false ↦ do submitted ← submit_both false polled; poll_all start notifying submitted
      ]
  ]

  -- the part of a round that polls tasks
  unfoldable pub poll_notified : Run T O W R → Outcome (Run T O W R)
  unfolding poll_all
  poll_notified s = do
    let (start, outside) = world.now s.outside
    idle ← VecMap.is_empty s.ctx.to_notify
    elim idle [
      | true ↦ ok (record s { outside = outside })
      | false ↦
          poll_all start (reverse (VecMap.iter_keys s.ctx.to_notify) ++ s.notifying) (record s {
            ctx = record s.ctx { to_notify = VecMap.clear s.ctx.to_notify };
            outside = outside;
          })
    ]

  -- The rest of a round: submissions, completions, timers, and the files that were dropped.
  unfoldable pub end_round : Key → (ℕ → O) → Run T O W R → Outcome (Run T O W R)
  unfolding submit_both
  end_round close_id close_op s = do
    r ← submit_both true s
    let ring = world.sync_completed r.ring
    let dio_ring = world.sync_completed r.dio_ring
    (n, ctx) ←
        reap close_id (world.completed ring) (world.completed dio_ring) (r.files_closing, r.ctx)
    let (time, outside) = world.now r.outside
    (when, to_notify) ← notify_timers time ctx.notify_when ctx.to_notify
    (files_closing, ctx') ←
        close_files close_id close_op (world.files_to_close outside)
          (n, record ctx { notify_when = when; to_notify = to_notify })
    ok (record r {
      ctx = ctx';
      outside = world.clear_files outside;
      ring = world.take_completed ring;
      dio_ring = world.take_completed dio_ring;
      files_closing = files_closing;
    })

  unfoldable pub round : Key → (ℕ → O) → Run T O W R → Outcome (Run T O W R)
  unfolding poll_notified end_round
  round close_id close_op s = do polled ← poll_notified s; end_round close_id close_op polled

  -- Whether there is nothing to submit, nothing completed, and no task to run, by the tests of `run`;
  -- `nobody` is that of `to_notify`.
  abbrev pub idle_tests : Bool → Run T O W R → Bool
  idle_tests nobody s =
      world.ring.is_empty s.ring
      && is_nil (world.completed s.ring)
      && nobody
      && is_nil s.ctx.io_queue
      && is_nil (world.files_to_close s.outside)
      && world.ring.is_empty s.dio_ring
      && is_nil (world.completed s.dio_ring)
      && is_nil s.ctx.dio_queue

  unfoldable pub is_idle : Run T O W R → Outcome Bool
  is_idle s = do nobody ← VecMap.is_empty s.ctx.to_notify; ok (idle_tests nobody s)

  -- what `'wait` does each time that it finds nothing
  unfoldable pub wait_turn : Run T O W R → Outcome (Run T O W R)
  wait_turn s = do
    let (time, outside) = world.now s.outside
    (when, to_notify) ← notify_timers time s.ctx.notify_when s.ctx.to_notify
    dio_ring ← elim (ltb 0 s.ctx.num_dio_running) [
      | true ↦ do
        refused ← busy world.ring (world.wait s.dio_ring).1
        ok (world.sync_completed (world.wait s.dio_ring).0)
      | false ↦ ok s.dio_ring
    ]
    ok (record s {
      ctx = record s.ctx { notify_when = when; to_notify = to_notify };
      outside = outside;
      ring = world.sync_completed s.ring;
      dio_ring = dio_ring;
    })

  -- The loop `'wait`, with a bound on its turns, and whether it came to its end. The pause after each
  -- sixteen turns is left out.
  unfoldable pub wait : ℕ → Run T O W R → Outcome (Run T O W R × Bool)
  unfolding wait_turn
  wait zero s = ok (s, false)
  wait (suc turns) s = do
    nobody ← VecMap.is_empty s.ctx.to_notify
    elim (is_nil (world.completed s.ring) && is_nil (world.completed s.dio_ring) && nobody) [
      | true ↦ do s' ← wait_turn s; wait turns s'
      | false ↦ ok (s, true)
    ]

  -- The start of a round: `split` reads the completion queues anew, and an idle loop waits.
  unfoldable pub begin_round : ℕ → Run T O W R → Outcome (Run T O W R × Bool)
  unfolding is_idle wait
  begin_round turns s = do
    let split = record s {
      ring = world.sync_completed s.ring;
      dio_ring = world.sync_completed s.dio_ring;
    }
    idle ← is_idle split
    elim idle [ true ↦ wait turns split | false ↦ ok (split, true) ]

  -- the condition of the loop of `run`
  unfoldable pub goes_on : Run T O W R → Bool
  goes_on s =
      not (world.out_is_some s.outside)
      || ltb 0 s.files_closing
      || not (is_nil (world.files_to_close s.outside))

  -- The loop of `run`, with a bound on its rounds and on the turns of each wait, and whether it came to
  -- its end.
  unfoldable pub run : ℕ → ℕ → Key → (ℕ → O) → Run T O W R → Outcome (Run T O W R × Bool)
  unfolding begin_round round goes_on
  run zero turns close_id close_op s = ok (s, false)
  run (suc rounds) turns close_id close_op s = elim (goes_on s) [
    | false ↦ ok (s, true)
    | true ↦ do
      (begun, woken) ← begin_round turns s
      elim woken [
        | false ↦ ok (begun, false)
        | true ↦ do s' ← round close_id close_op begun; run rounds turns close_id close_op s'
      ]
  ]

-- The start of `run`: the rings are new, and the first task is there and to be notified. The result of
-- the task, and the guard of the thread-local context, are left out.
unfoldable pub start_run :
    {T O W R : Type 0} → T → T → ℕ → ℕ → ℕ → W → R → R → Outcome (Key × Run T O W R)
unfolding start_up
start_run close_task task ring_depth start preempt_duration outside ring dio_ring = do
  (close_id, m) ← start_up close_task ring_depth start preempt_duration
  (tasks, task_id) ← Slab.insert m.ctx.tasks task
  (to_notify, old) ← VecMap.insert key_eq m.ctx.to_notify task_id tt
  ok (
    close_id,
    record {
      ctx = record m.ctx { tasks = tasks; to_notify = to_notify };
      outside = outside;
      ring = ring;
      dio_ring = dio_ring;
      notifying = [];
      files_closing = 0;
    },
  )
