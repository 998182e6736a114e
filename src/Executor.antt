-- ===== src/Executor.antt =====
-- io2/src/executor.rs: the state that a running task reaches through its context, and the parts of the
-- run loop that change it. A time is a number; a task and an operation of the kernel are parameters.
use io.Prelude.{
  ℕ, zero, suc, ◌+◌, ◌-◌, List, [], ◌∷◌, ◌++◌, Option, none, some, length, get_elem?, swap_remove,
  Outcome, ok, panic, ◌>>=◌, unwrap, ltb, leb, if◌then◌else◌, Bool, true, false, KeyEq,
}
use io.Word.{add_u64}
use io.Slab.{Key, Slab}
use io.Slab
use io.Slab.KeyCode.{to_u64, from_u64}
use io.Slab.Agreement.{same_key, same_key_iff}
use io.VecMap.{VecMap}
use io.VecMap
pub mod Timers
pub mod Queueing
pub mod Operations
pub mod Outstanding
pub mod Finishing
pub mod Taking
pub mod Machine
pub mod Consistent
pub mod Steps
pub mod Closing
pub mod Reachable
pub mod Starting
pub mod Delivering
pub mod Keeping
pub mod Local
pub mod Words
pub mod Ring
pub mod Places
pub mod Loop
mod Runs
mod Tests

-- `==` on keys, derived
abbrev pub key_eq : KeyEq Key
key_eq = record { same = same_key; same_iff = same_key_iff }

abbrev pub ToNotify : Type 0
ToNotify = VecMap Key (Unit {0})

-- the result of an operation, an `i32`
pub data ℤ : Type 0 where
  pos negsuc : ℕ → ℤ

abbrev pub IoResults : Type 0
IoResults = VecMap Key ℤ

pub record NotifyWhen : Type 0 where
  pub timer : List ℕ
  pub task_id : List Key

-- `squeue::Entry`: the operation, and the number that comes back with its result
pub record Sqe (O : Type 0) : Type 0 where
  pub operation : O
  pub user_data : ℕ

-- `CurrentTaskContext`, with what its pointers lead to
pub record Context (T O : Type 0) : Type 0 where
  pub start : ℕ
  pub task_id : Key
  pub tasks : Slab T
  pub io_results : IoResults
  pub io_queue : List (Sqe O)
  pub dio_queue : List (Sqe O)
  pub preempt_duration : ℕ
  pub io : Slab Key
  pub to_notify : ToNotify
  pub notify_when : NotifyWhen
  pub num_dio_running : ℕ

module _ {T O : Type 0} where
  unfoldable pub notify : Key → Context T O → Outcome (Context T O)
  notify task_id ctx = do
    (to_notify, old) ← VecMap.insert key_eq ctx.to_notify task_id tt
    ok (record ctx { to_notify = to_notify })

  unfoldable pub take_io_result : Key → Context T O → Outcome (Context T O × Option ℤ)
  take_io_result io_id ctx = do
    (io_results, result) ← VecMap.remove key_eq ctx.io_results io_id
    elim result [
      | some res ↦
          ok (record ctx { io_results = io_results; io = (Slab.remove ctx.io io_id).0 }, some res)
      | none ↦ ok (record ctx { io_results = io_results }, none)
    ]

  -- `now` is the time of the call
  unfoldable pub yield_if_needed : ℕ → Context T O → Outcome (Context T O × Bool)
  unfolding notify
  yield_if_needed now ctx =
      if ltb (now - ctx.start) ctx.preempt_duration
      then ok (ctx, false)
      else (do ctx' ← notify ctx.task_id ctx; ok (ctx', true))

  -- the end of `queue_io`
  unfoldable pub enqueue : Sqe O → Bool → Context T O → Outcome (Context T O)
  enqueue entry true ctx = do
    n ← add_u64 ctx.num_dio_running 1
    ok (record ctx { num_dio_running = n; dio_queue = ctx.dio_queue ++ entry ∷ [] })
  enqueue entry false ctx = ok (record ctx { io_queue = ctx.io_queue ++ entry ∷ [] })

  unfoldable pub queue_io : O → Bool → Context T O → Outcome (Context T O × Key)
  queue_io operation direct_io ctx = do
    (io, io_id) ← Slab.insert ctx.io ctx.task_id
    ctx' ←
        enqueue (record { operation = operation; user_data = to_u64 io_id }) direct_io
          (record ctx { io = io })
    ok (ctx', io_id)

  unfoldable pub notify_when : ℕ → Context T O → Context T O
  notify_when instant ctx = record ctx {
    notify_when = record {
      timer = ctx.notify_when.timer ++ instant ∷ [];
      task_id = ctx.notify_when.task_id ++ ctx.task_id ∷ [];
    };
  }

  -- `spawn`, where `task` is the future that runs the given one and then notifies the task `caller`
  -- The cell of the join handle is in io.Task.
  unfoldable pub spawn : (Key → T) → Context T O → Outcome (Context T O)
  unfolding notify
  spawn task ctx = do
    (tasks, task_id) ← Slab.insert ctx.tasks (task ctx.task_id)
    notify task_id (record ctx { tasks = tasks })

  -- The body of the loop over the completions, for an operation that a task has queued.
  unfoldable pub complete : ℕ → ℤ → Context T O → Outcome (Context T O)
  unfolding notify
  complete user_data result ctx = do
    let io_id = from_u64 user_data
    task_id ← unwrap (Slab.get ctx.io io_id)
    (io_results, old) ← VecMap.insert key_eq ctx.io_results io_id result
    notify task_id (record ctx { io_results = io_results })

  -- The whole body. An operation of `close_id` closes a file that was dropped; `files_closing` counts
  -- those that run.
  unfoldable pub on_completion : Key → ℕ → ℤ → ℕ × Context T O → Outcome (ℕ × Context T O)
  unfolding complete
  on_completion close_id user_data result (files_closing, ctx) =
      if same_key (from_u64 user_data) close_id
      then (if ltb files_closing 1 then panic else ok (files_closing - 1, ctx))
      else (do ctx' ← complete user_data result ctx; ok (files_closing, ctx'))

  -- the loop over `FILES_TO_CLOSE`; `close_op` is the operation that closes a file
  unfoldable pub close_files : Key → (ℕ → O) → List ℕ → ℕ × Context T O → Outcome (ℕ × Context T O)
  close_files close_id close_op [] s = ok s
  close_files close_id close_op (fd ∷ files) (files_closing, ctx) = do
    n ← add_u64 files_closing 1
    let entry : Sqe O = record { operation = close_op fd; user_data = to_u64 close_id }
    close_files close_id close_op files (n, record ctx { io_queue = ctx.io_queue ++ entry ∷ [] })

-- The loop of `notify_timers` from position `i`, at the time `time`, with a bound on its rounds.
unfoldable pub notify_from : ℕ → ℕ → ℕ → NotifyWhen → ToNotify → Outcome (NotifyWhen × ToNotify)
notify_from zero i time when to_notify =
    if leb (length when.timer) i then ok (when, to_notify) else panic
notify_from (suc rounds) i time when to_notify = elim (leb (length when.timer) i) [
  | true ↦ ok (when, to_notify)
  | false ↦ do
    timer ← unwrap (get_elem? when.timer i)
    elim (leb time timer) [
      | true ↦ notify_from rounds (i + 1) time when to_notify
      | false ↦ do
        task_id ← unwrap (get_elem? when.task_id i)
        (to_notify', old) ← VecMap.insert key_eq to_notify task_id tt
        notify_from rounds i time
            (record { timer = swap_remove when.timer i; task_id = swap_remove when.task_id i })
            to_notify'
    ]
]

-- every round passes a timer or removes one
unfoldable pub notify_timers : ℕ → NotifyWhen → ToNotify → Outcome (NotifyWhen × ToNotify)
unfolding notify_from
notify_timers time when to_notify = notify_from (length when.timer) 0 time when to_notify
