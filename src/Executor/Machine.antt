-- ===== src/Executor/Machine.antt =====
-- executor.rs as a machine: what its tasks, its loop and the kernel may do, one step after the other.
-- The loop of `run` makes these steps; which of them comes next is up to the tasks and the kernel.
use io.Prelude.{
  ℕ, ◌*◌, ◌≡◌, List, [], ◌∷◌, ◌++◌, Option, ok, Bool, Outcome, ◌>>=◌, length, Permᴰ, map,
}
use io.Word.{sub_checked}
use io.Slab.{Key, Slab}
use io.Slab
use io.VecMap
use io.Executor.{
  ℤ, Sqe, Context, NotifyWhen, ToNotify, notify, notify_when, yield_if_needed, spawn, queue_io,
  take_io_result, on_completion, close_files, notify_timers,
}

-- The context, the entries that the two rings hold, and the count of files that are being closed.
pub record Machine (T O : Type 0) : Type 0 where
  pub ctx : Context T O
  pub kernel : List (Sqe O)
  pub dio_kernel : List (Sqe O)
  pub files_closing : ℕ

module _ {T O : Type 0} where
  -- The loop over completions: entries that the kernel has finished, with their results.
  unfoldable pub on_completions :
      Key → List (Sqe O × ℤ) → ℕ × Context T O → Outcome (ℕ × Context T O)
  on_completions close_id [] s = ok s
  on_completions close_id ((e, result) ∷ cq) s = do
    s' ← on_completion close_id e.user_data result s
    on_completions close_id cq s'

  -- The part of a round of `run` that takes the completions of both rings.
  unfoldable pub reap :
      Key → List (Sqe O × ℤ) → List (Sqe O × ℤ) → ℕ × Context T O → Outcome (ℕ × Context T O)
  unfolding on_completions
  reap close_id cq dio_cq (files_closing, ctx) = do
    n ← sub_checked ctx.num_dio_running (length dio_cq)
    on_completions close_id (cq ++ dio_cq) (files_closing, record ctx { num_dio_running = n })

  -- the start of `run`, before the first task is there; `close_task` is the empty task for closing
  unfoldable pub start_up : T → ℕ → ℕ → ℕ → Outcome (Key × Machine T O)
  start_up close_task ring_depth start preempt_duration = do
    tasks ← Slab.with_capacity_in 128
    io ← Slab.with_capacity_in 128
    (tasks', close_task_id) ← Slab.insert tasks close_task
    (io', close_id) ← Slab.insert io close_task_id
    ok (
      close_id,
      record {
        ctx = record {
          start = start;
          task_id = close_task_id;
          tasks = tasks';
          io_results = VecMap.with_capacity_in (ring_depth * 4);
          io_queue = [];
          dio_queue = [];
          preempt_duration = preempt_duration;
          io = io';
          to_notify = VecMap.with_capacity_in 128;
          notify_when = record { timer = []; task_id = [] };
          num_dio_running = 0;
        };
        kernel = [];
        dio_kernel = [];
        files_closing = 0;
      },
    )

  -- The steps say what may happen, in any order, and no more than their equations: what one poll does is told
  -- by `ContextCall` of Task/Polling.antt, and what a round does by Loop.antt.
  pub data Step (close_id : Key) : Machine T O → Machine T O → Type 0 where
    -- a task queues an operation
    queues :
        (m : Machine T O) (operation : O) (direct_io : Bool) (ctx : Context T O) (io_id : Key)
        → queue_io operation direct_io m.ctx ≡ ok (ctx, io_id)
        → Step close_id m (record m { ctx = ctx })
    -- a task looks for a result, with any key
    takes :
        (m : Machine T O) (io_id : Key) (found : Option ℤ) (ctx : Context T O)
        → take_io_result io_id m.ctx ≡ ok (ctx, found)
        → Step close_id m (record m { ctx = ctx })
    -- a task sets a timer
    sets_timer :
        (m : Machine T O) (instant : ℕ)
        → Step close_id m (record m { ctx = notify_when instant m.ctx })
    -- a task gives way, or does not
    yields :
        (m : Machine T O) (now : ℕ) (given_way : Bool) (ctx : Context T O)
        → yield_if_needed now m.ctx ≡ ok (ctx, given_way)
        → Step close_id m (record m { ctx = ctx })
    -- a task spawns another
    spawns :
        (m : Machine T O) (task : Key → T) (ctx : Context T O)
        → spawn task m.ctx ≡ ok ctx
        → Step close_id m (record m { ctx = ctx })
    -- a task notifies another, as a spawned one does at its end
    notifies :
        (m : Machine T O) (task_id : Key) (ctx : Context T O)
        → notify task_id m.ctx ≡ ok ctx
        → Step close_id m (record m { ctx = ctx })
    -- The loop turns to another task, or takes the wake-ups. A turn may change the slab of tasks.
    turns :
        (m : Machine T O) (start : ℕ) (task_id : Key) (tasks : Slab T)
        → Step close_id m
            (record m { ctx = record m.ctx { start = start; task_id = task_id; tasks = tasks } })
    wakes :
        (m : Machine T O)
        → Step close_id m
            (record m { ctx = record m.ctx { to_notify = VecMap.clear m.ctx.to_notify } })
    -- the first entry of a queue goes to its ring
    submits :
        (m : Machine T O) (e : Sqe O) (rest : List (Sqe O))
        → m.ctx.io_queue ≡ e ∷ rest
        → Step close_id m
            (record m { ctx = record m.ctx { io_queue = rest }; kernel = m.kernel ++ e ∷ [] })
    submits_direct :
        (m : Machine T O) (e : Sqe O) (rest : List (Sqe O))
        → m.ctx.dio_queue ≡ e ∷ rest
        → Step close_id m (record m {
          ctx = record m.ctx { dio_queue = rest };
          dio_kernel = m.dio_kernel ++ e ∷ [];
        })
    -- The loop takes completions: each ring has finished some of its entries, in any order.
    reaps :
        (m : Machine T O) (cq dio_cq : List (Sqe O × ℤ)) (kernel dio_kernel : List (Sqe O))
        (files_closing : ℕ) (ctx : Context T O)
        → Permᴰ m.kernel (map (λ c. c.0) cq ++ kernel)
        → Permᴰ m.dio_kernel (map (λ c. c.0) dio_cq ++ dio_kernel)
        → reap close_id cq dio_cq (m.files_closing, m.ctx) ≡ ok (files_closing, ctx)
        → Step close_id m (record {
          ctx = ctx;
          kernel = kernel;
          dio_kernel = dio_kernel;
          files_closing = files_closing;
        })
    -- the timers that have expired
    fires :
        (m : Machine T O) (now : ℕ) (when : NotifyWhen) (to_notify : ToNotify)
        → notify_timers now m.ctx.notify_when m.ctx.to_notify ≡ ok (when, to_notify)
        → Step close_id m
            (record m { ctx = record m.ctx { notify_when = when; to_notify = to_notify } })
    -- files that were dropped are queued for closing
    closes :
        (m : Machine T O) (close_op : ℕ → O) (files : List ℕ) (files_closing : ℕ)
        (ctx : Context T O)
        → close_files close_id close_op files (m.files_closing, m.ctx) ≡ ok (files_closing, ctx)
        → Step close_id m (record m { ctx = ctx; files_closing = files_closing })

  -- the machines that a run comes to
  pub data Reach (close_id : Key) : Machine T O → Type 0 where
    starts :
        (close_task : T) (ring_depth start preempt_duration : ℕ) (m : Machine T O)
        → start_up close_task ring_depth start preempt_duration ≡ ok (close_id, m)
        → Reach close_id m
    steps : {m m' : Machine T O} → Reach close_id m → Step close_id m m' → Reach close_id m'
