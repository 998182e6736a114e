-- ===== src/Executor/Runs.antt =====
-- A run of the machine of executor.rs that closes a dropped file, and its theorems at it.
use Prim.Native.String.{String}
use mathlib.Core.List.Permᴰ
use io.Prelude.{
  false, true, ℕ, ◌≡◌, ◌≢◌, ◌<◌, ◌++◌, ◌⊎◌, refl, ap, List, [], ◌∷◌, some, ok, panic, set, arith,
}
use io.Slab.{Key, Slab, free_entries, occupied}
use io.Slab
use io.VecMap
use io.Executor.Machine.{
  Machine, Reach, starts, steps, closes, queues, sets_timer, submits, submits_direct, reaps,
  start_up, reap,
}
use io.Executor.Consistent.{Consistent}
use io.Executor.Starting.{Reach-Consistent}
use io.Executor.Ring.{try_submit_io}
use io.Executor.Ring.Passing.{Passed, Refused, try_submit_io-Passed}
use io.Executor.Places.{Places, two_places, two_places_laws, empty_places}
use io.VecMap.Laws.{view}
use io.Executor.Outstanding.{id_of}
use io.Executor.Loop.Submitting.{Steps, rests, then_step}
use io.Executor.Keeping.{Steps-Kept}
use io.Word.{u32_mod, u64_mod}
use io.Slab.KeyCode.{from_u64}
use io.Executor.Queueing.{queue}
use io.Executor.Words.{queue_io-Words}
use io.Executor.Delivering.{reap-Delivered}
use io.Executor.{pos, Sqe, Context, key_eq, close_files, queue_io, notify_when, take_io_result}

abbrev pub first : Key
first = record { index = 0; generation = 0 }

abbrev pub start : Machine String String
unfolding free_entries
start = record {
  ctx = record {
    start = 0;
    task_id = first;
    tasks = record {
      elems = set (free_entries 128 0) 0 (occupied 0 "nothing");
      first_free_entry = 1;
      current_generation = 0;
    };
    io_results = record { keys = []; values = [] };
    io_queue = [];
    dio_queue = [];
    preempt_duration = 10;
    io = record {
      elems = set (free_entries 128 0) 0 (occupied 0 first);
      first_free_entry = 1;
      current_generation = 0;
    };
    to_notify = record { keys = []; values = [] };
    notify_when = record { timer = []; task_id = [] };
    num_dio_running = 0;
  };
  kernel = [];
  dio_kernel = [];
  files_closing = 0;
}

starts_there : start_up "nothing" 64 0 10 ≡ ok (first, start)
unfolding start_up start io.VecMap.with_capacity_in io.Slab.with_capacity_in io.Slab.insert
    io.Slab.with_room io.Slab.place
starts_there = refl

abbrev entry : Sqe String
entry = record { operation = "close"; user_data = 0 }

abbrev queued : Machine String String
unfolding start
queued = record start { ctx = record start.ctx { io_queue = entry ∷ [] }; files_closing = 1 }

queues_there :
    close_files first (λ fd. "close") (5 ∷ []) (start.files_closing, start.ctx) ≡ ok (1, queued.ctx)
unfolding close_files queued io.Slab.KeyCode.to_u64
queues_there = refl

abbrev submitted : Machine String String
unfolding queued
submitted = record queued { ctx = record queued.ctx { io_queue = [] }; kernel = entry ∷ [] }

submitted-Reach : Reach first submitted
unfolding submitted
submitted-Reach =
    steps
      (steps (starts "nothing" 64 0 10 start starts_there)
        (closes start (λ fd. "close") (5 ∷ []) 1 queued.ctx queues_there))
      (submits queued entry [] refl)

Reach-Consistent_example : Consistent first submitted
Reach-Consistent_example = Reach-Consistent submitted-Reach

abbrev read_at : ℕ → Sqe String
read_at n = record { operation = "read"; user_data = n }

try_submit_io-Passed_example :
    ((queue' : List (Sqe String)) × (r' : Places String) × (try_submit_io two_places
          (read_at 1 ∷ read_at 2 ∷ read_at 3 ∷ [])
          empty_places
          false
        ≡ ok (queue', r'))
      × Passed two_places two_places_laws
          (read_at 1 ∷ read_at 2 ∷ read_at 3 ∷ [])
          empty_places
          queue'
          r')
    ⊎ ((try_submit_io two_places (read_at 1 ∷ read_at 2 ∷ read_at 3 ∷ []) empty_places false
          ≡ panic)
        × Refused two_places (read_at 1 ∷ read_at 2 ∷ read_at 3 ∷ []) empty_places false)
try_submit_io-Passed_example =
    try_submit_io-Passed two_places two_places_laws (read_at 1 ∷ read_at 2 ∷ read_at 3 ∷ [])
      empty_places false

-- The task reads: its operation goes to the ring of direct operations.
abbrev reading : Machine String String
unfolding start
reading = record start {
  ctx = record start.ctx {
    io = record {
      elems = set (set (free_entries 128 0) 0 (occupied 0 first)) 1 (occupied 0 first);
      first_free_entry = 2;
      current_generation = 0;
    };
    dio_queue = read_at 1 ∷ [];
    num_dio_running = 1;
  };
}

reads_there :
    queue_io "read" true start.ctx ≡ ok (reading.ctx, record { index = 1; generation = 0 })
unfolding queue_io start reading io.Executor.enqueue io.Slab.insert io.Slab.with_room io.Slab.place
    io.Slab.KeyCode.to_u64
reads_there = refl

abbrev in_kernel : Machine String String
unfolding reading
in_kernel = record reading {
  ctx = record reading.ctx { dio_queue = [] };
  dio_kernel = read_at 1 ∷ [];
}

in_kernel-Reach : Reach first in_kernel
unfolding in_kernel
in_kernel-Reach =
    steps
      (steps (starts "nothing" 64 0 10 start starts_there)
        (queues start "read" true reading.ctx (record { index = 1; generation = 0 }) reads_there))
      (submits_direct reading (read_at 1) [] refl)

second_is_not_first : id_of (read_at 1) ≢ first
unfolding io.Slab.KeyCode.from_u64
second_is_not_first e = absurd (omega (arith, ap (λ k. k.index) e))

reap-Delivered_example :
    (n : ℕ) × (ctx : Context String String) × (reap first []
        ((read_at 1, pos 512) ∷ [])
        (in_kernel.files_closing, in_kernel.ctx)
      ≡ ok (n, ctx))
    × (task : Key) × (Slab.get in_kernel.ctx.io (id_of (read_at 1)) ≡ some task)
    × (view key_eq ctx.to_notify task ≡ some tt)
    × (ctx' : Context String String) × (take_io_result (id_of (read_at 1)) ctx
        ≡ ok (ctx', some (pos 512)))
unfolding in_kernel
reap-Delivered_example =
    reap-Delivered [] ((read_at 1, pos 512) ∷ []) [] [] 0 (read_at 1) (pos 512) in_kernel-Reach
      Permᴰ.nil (Permᴰ.refl (read_at 1 ∷ [])) refl second_is_not_first

-- The result has come in, and the task is to be notified.
abbrev delivered : Machine String String
unfolding in_kernel
delivered = record in_kernel {
  ctx = record in_kernel.ctx {
    io_results = record { keys = record { index = 1; generation = 0 } ∷ []; values = pos 512 ∷ [] };
    to_notify = record { keys = first ∷ []; values = tt ∷ [] };
    num_dio_running = 0;
  };
  dio_kernel = [];
}

delivers_there :
    reap first [] ((read_at 1, pos 512) ∷ []) (in_kernel.files_closing, in_kernel.ctx)
    ≡ ok (0, delivered.ctx)
unfolding reap delivered io.Executor.Machine.on_completions io.Executor.on_completion io.Slab.get
    io.VecMap.insert io.Slab.KeyCode.from_u64
delivers_there = refl

delivered-Reach : Reach first delivered
unfolding delivered
delivered-Reach = steps in_kernel-Reach (
    reaps in_kernel [] ((read_at 1, pos 512) ∷ []) [] [] 0 delivered.ctx Permᴰ.nil
      (Permᴰ.refl (read_at 1 ∷ [])) delivers_there)

abbrev with_timer : Machine String String
with_timer = record delivered { ctx = notify_when 99 delivered.ctx }

Steps-Kept_example :
    (view key_eq with_timer.ctx.io_results (record { index = 1; generation = 0 }) ≡ some (pos 512))
    ⊎ ((m1 : Machine String String) × (ctx : Context String String) × Steps first delivered m1
        × (take_io_result (record { index = 1; generation = 0 }) m1.ctx ≡ ok (ctx, some (pos 512)))
        × Steps first (record m1 { ctx = ctx }) with_timer)
unfolding delivered
Steps-Kept_example =
    Steps-Kept (record { index = 1; generation = 0 }) (pos 512) delivered-Reach
      (then_step rests (sets_timer delivered 99)) refl

queue_io-Words_example :
    (1 < u32_mod)
    × (0 < u32_mod)
    × (e : Sqe String) × (queue true reading.ctx ≡ queue true start.ctx ++ e ∷ [])
    × (e.operation ≡ "read")
    × (e.user_data < u64_mod)
    × (from_u64 e.user_data ≡ record { index = 1; generation = 0 })
queue_io-Words_example =
    queue_io-Words {m = start} "read" true reading.ctx (record { index = 1; generation = 0 })
      (starts "nothing" 64 0 10 start starts_there) reads_there
