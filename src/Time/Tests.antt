-- ===== src/Time/Tests.antt =====
-- The futures of time.rs on a context with one timer, and their theorems at it.
use Prim.Native.String.{String}
use io.Prelude.{ℕ, ◌+◌, ◌≡◌, refl, [], ◌∷◌, Option, none, some, ok}
use io.Slab.{Key}
use io.Executor.{Context, NotifyWhen, ToNotify, notify_timers}
use io.File.{pending, ready}
use io.Time.{sleep, sleep_until, notify_when_poll, join_poll}
use io.Time.Sleeping.{Sleeps, sleep_until-Sleeps}

abbrev sleeper : Key
sleeper = record { index = 3; generation = 1 }

abbrev other : Key
other = record { index = 2; generation = 0 }

abbrev sleepy : Context String String
sleepy = record {
  start = 5;
  task_id = sleeper;
  tasks = record { elems = []; first_free_entry = 0; current_generation = 0 };
  io_results = record { keys = []; values = [] };
  io_queue = [];
  dio_queue = [];
  preempt_duration = 10;
  io = record { elems = []; first_free_entry = 0; current_generation = 0 };
  to_notify = record { keys = []; values = [] };
  notify_when = record { timer = 40 ∷ []; task_id = other ∷ [] };
  num_dio_running = 0;
}

sleep_until-Sleeps_example :
    (ctx : Context String String) × (notify_when_poll (sleep_until 20) sleepy
      ≡ (ctx, record { timer = none }, pending))
    × ((ctx2 : Context String String)
        → notify_when_poll (record { timer = none }) ctx2
          ≡ (ctx2, record { timer = none }, ready tt))
    × (w : NotifyWhen) × (n : ToNotify) × (notify_timers 30 ctx.notify_when ctx.to_notify
        ≡ ok (w, n))
    × Sleeps 20 30 sleeper w n
sleep_until-Sleeps_example =
    sleep_until-Sleeps 20 30 sleepy refl (record { same_length = refl; distinct = tt })

-- the sum of two instants, where there is one
abbrev later : ℕ → ℕ → Option ℕ
later now duration = some (now + duration)

sleeps_until : sleep later 10 5 ≡ ok (sleep_until 15)
unfolding sleep sleep_until
sleeps_until = refl

joins_once : join_poll {A = String} (some "value") ≡ (none, ready "value")
unfolding join_poll
joins_once = refl
