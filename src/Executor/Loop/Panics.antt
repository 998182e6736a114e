-- ===== src/Executor/Loop/Panics.antt =====
-- The panics that a run of the loop of executor.rs can come to: which poll, which call of a ring, or which
-- count, after which rounds.
use io.Prelude.{
  ℕ, suc, ◌+◌, ◌-◌, ◌≤◌, ◌≡◌, List, ◌∷◌, ◌++◌, reverse, length, none, some, ok, panic, Bool, true,
  false, ltb,
}
use io.Word.{u64_mod}
use io.Slab.{Key, Slab}
use io.Slab
use io.VecMap
use io.Executor.Ring.{try_submit_io}
use io.Executor.Ring.Passing.{OtherError, Refused}
use io.Executor.Loop.{
  World, Run, is_nil, end_turn, submit_both, poll_notified, wait_turn, is_idle, begin_round, round,
  goes_on,
}
use io.Executor.{Sqe, Context}

-- why a run panics: a task does when it is polled, a ring answers an error other than `EBUSY`, or there are
-- more files to close than a `usize` counts
pub data Cause : Type 0 where
  poll_panics ring_refuses too_many_files : Cause

module _ {T O W R : Type 0} (world : World T O W R) where
  abbrev pub turned : ℕ → Key → Run T O W R → Run T O W R
  turned start task_id s = record s { ctx = record s.ctx { start = start; task_id = task_id } }

  -- One of the two submissions answers an error other than `EBUSY`.
  pub data SubmitRefused (force : Bool) (s : Run T O W R) : Type 0 where
    in_io : Refused world.ring s.ctx.io_queue s.ring false → SubmitRefused force s
    in_dio :
        (io_queue : List (Sqe O)) (ring : R)
        → try_submit_io world.ring s.ctx.io_queue s.ring false ≡ ok (io_queue, ring)
        → Refused world.ring s.ctx.dio_queue s.dio_ring force
        → SubmitRefused force s

  -- One of the tasks, in this order, panics when it is polled, or the submissions after its turn are
  -- refused, after those before it were polled.
  pub data TaskPanics (start : ℕ) : Cause → List Key → Run T O W R → Type 0 where
    here :
        {task_id : Key} {notifying : List Key} {s : Run T O W R} (task : T) (write : T → Slab T)
        → Slab.get_mut s.ctx.tasks task_id ≡ some (task, write)
        → world.poll task ((turned start task_id s).ctx, s.outside) ≡ panic
        → TaskPanics start poll_panics (task_id ∷ notifying) s
    refused :
        {task_id : Key} {notifying : List Key} {s : Run T O W R} (task : T) (write : T → Slab T)
        (ctx : Context T O) (outside : W) (is_ready : Bool)
        → Slab.get_mut s.ctx.tasks task_id ≡ some (task, write)
        → world.poll task ((turned start task_id s).ctx, s.outside) ≡ ok ((ctx, outside), is_ready)
        → ltb s.ctx.preempt_duration ((world.now outside).0 - start) ≡ false
        → SubmitRefused false (record s {
          ctx = end_turn world task_id is_ready ctx;
          outside = (world.now outside).1;
        })
        → TaskPanics start ring_refuses (task_id ∷ notifying) s
    past_none :
        {cause : Cause} {task_id : Key} {notifying : List Key} {s : Run T O W R}
        → Slab.get_mut s.ctx.tasks task_id ≡ none
        → TaskPanics start cause notifying (turned start task_id s)
        → TaskPanics start cause (task_id ∷ notifying) s
    past_task :
        {cause : Cause} {task_id : Key} {notifying : List Key} {s s' : Run T O W R} (task : T)
        (write : T → Slab T) (ctx : Context T O) (outside : W) (is_ready : Bool)
        → Slab.get_mut s.ctx.tasks task_id ≡ some (task, write)
        → world.poll task ((turned start task_id s).ctx, s.outside) ≡ ok ((ctx, outside), is_ready)
        → ltb s.ctx.preempt_duration ((world.now outside).0 - start) ≡ false
        → submit_both world false (record s {
          ctx = end_turn world task_id is_ready ctx;
          outside = (world.now outside).1;
        })
          ≡ ok s'
        → TaskPanics start cause notifying s'
        → TaskPanics start cause (task_id ∷ notifying) s

  -- A poll of a round panics, or a submission between its polls is refused.
  pub record PollPanics (cause : Cause) (s : Run T O W R) : Type 0 where
    pub notified : VecMap.is_empty s.ctx.to_notify ≡ ok false
    pub panics :
        TaskPanics
          (world.now s.outside).0
          cause
          (reverse (VecMap.iter_keys s.ctx.to_notify) ++ s.notifying)
          (record s {
            ctx = record s.ctx { to_notify = VecMap.clear s.ctx.to_notify };
            outside = (world.now s.outside).1;
          })

  -- So does a round: in its polls, in the submissions after them, or where more files are closing, or were
  -- dropped, than a `usize` counts.
  pub data RoundPanics : Cause → Run T O W R → Type 0 where
    in_polls : {cause : Cause} {s : Run T O W R} → PollPanics cause s → RoundPanics cause s
    after_polls :
        {s : Run T O W R} (polled : Run T O W R)
        → poll_notified world s ≡ ok polled
        → SubmitRefused true polled
        → RoundPanics ring_refuses s
    too_many :
        {s : Run T O W R} (polled : Run T O W R)
        → poll_notified world s ≡ ok polled
        → u64_mod
          ≤ polled.files_closing + length (world.files_to_close (world.now polled.outside).1)
        → RoundPanics too_many_files s

  -- `'wait` finds nothing that was completed, and nobody to notify.
  pub record FindsNothing (s : Run T O W R) : Type 0 where
    pub no_completions : is_nil (world.completed s.ring) ≡ true
    pub no_dio_completions : is_nil (world.completed s.dio_ring) ≡ true
    pub nobody : VecMap.is_empty s.ctx.to_notify ≡ ok true

  -- In one of its turns, the call that waits for direct operations answers an error other than `EBUSY`.
  pub data WaitRefused : ℕ → Run T O W R → Type 0 where
    in_turn :
        {turns : ℕ} {s : Run T O W R}
        → FindsNothing s
        → ltb 0 s.ctx.num_dio_running ≡ true
        → OtherError (world.wait s.dio_ring).1
        → WaitRefused (suc turns) s
    past_turn :
        {turns : ℕ} {s s' : Run T O W R}
        → FindsNothing s
        → wait_turn world s ≡ ok s'
        → WaitRefused turns s'
        → WaitRefused (suc turns) s

  -- So does the wait at the start of a round.
  pub record BeginRefused (turns : ℕ) (s : Run T O W R) : Type 0 where
    pub idle :
        is_idle world (record s {
          ring = world.sync_completed s.ring;
          dio_ring = world.sync_completed s.dio_ring;
        })
        ≡ ok true
    pub waits : WaitRefused turns (record s {
      ring = world.sync_completed s.ring;
      dio_ring = world.sync_completed s.dio_ring;
    })

  -- One of the first rounds of a run panics, or the wait in front of it does.
  pub data RunPanics (turns : ℕ) (close_id : Key) (close_op : ℕ → O)
      : Cause → ℕ → Run T O W R → Type 0 where
    in_wait :
        {rounds : ℕ} {s : Run T O W R}
        → goes_on world s ≡ true
        → BeginRefused turns s
        → RunPanics turns close_id close_op ring_refuses (suc rounds) s
    in_round :
        {cause : Cause} {rounds : ℕ} {s s1 : Run T O W R}
        → goes_on world s ≡ true
        → begin_round world turns s ≡ ok (s1, true)
        → RoundPanics cause s1
        → RunPanics turns close_id close_op cause (suc rounds) s
    past_round :
        {cause : Cause} {rounds : ℕ} {s s1 s2 : Run T O W R}
        → goes_on world s ≡ true
        → begin_round world turns s ≡ ok (s1, true)
        → round world close_id close_op s1 ≡ ok s2
        → RunPanics turns close_id close_op cause rounds s2
        → RunPanics turns close_id close_op cause (suc rounds) s
