-- ===== src/Executor/Tests.antt =====
-- Runs of executor.rs on small inputs, and its theorems at them.
use Prim.Native.String.{String}
use io.Prelude.{ℕ, zero, suc, ◌≡◌, refl, [], ◌∷◌, some, ok, true, false, arith, get_elem?}
use io.Slab.{Key, Slab, Entry, free, occupied, get}
use io.Slab
use io.Slab.FreeList.{NotIn}
use io.Slab.KeyCode.{from_u64}
use io.Slab.Validity as Slabs
use io.Slab.Validity.{extended-IsValid}
use io.VecMap
use io.VecMap.Laws.{IsValid}
use io.Executor.{pos, negsuc, Context, NotifyWhen, ToNotify, key_eq, yield_if_needed, notify_timers}
use io.Executor.Timers.{Fired, notify_timers-Fired}
use io.Executor.Queueing.{Sound}
use io.Executor.Operations.{Round, operation_Round}

abbrev key : ℕ → Key
key i = record { index = i; generation = 0 }

abbrev clock : NotifyWhen
clock = record { timer = 5 ∷ 9 ∷ 3 ∷ []; task_id = key 0 ∷ key 1 ∷ key 2 ∷ [] }

abbrev quiet : ToNotify
quiet = record { keys = []; values = [] }

quiet-IsValid : IsValid key_eq quiet
quiet-IsValid = record { same_length = refl; distinct = tt }

fired :
    notify_timers 6 clock quiet
    ≡ ok (
      record { timer = 9 ∷ []; task_id = key 1 ∷ [] },
      record { keys = key 0 ∷ key 2 ∷ []; values = tt ∷ tt ∷ [] },
    )
unfolding notify_timers io.VecMap.insert
fired = refl

notify_timers-Fired_example :
    (w : NotifyWhen) × (n : ToNotify) × (notify_timers 6 clock quiet ≡ ok (w, n))
    × Fired 6 clock quiet w n
notify_timers-Fired_example = notify_timers-Fired 6 clock quiet refl quiet-IsValid

abbrev running : Slab Key
running = record { elems = []; first_free_entry = 0; current_generation = 0 }

running-IsValid : Slabs.IsValid running
unfolding io.Slab.free_entries
running-IsValid = extended-IsValid [] 0 0 (λ k m h. cc)

-- a task at its first turn, with no operation running
abbrev turn : Context String String
turn = record {
  start = 100;
  task_id = key 7;
  tasks = record { elems = []; first_free_entry = 0; current_generation = 0 };
  io_results = record { keys = []; values = [] };
  io_queue = [];
  dio_queue = [];
  preempt_duration = 10;
  io = running;
  to_notify = quiet;
  notify_when = clock;
  num_dio_running = 0;
}

turn-Sound : Sound turn
turn-Sound = record {
  running = running-IsValid;
  generation = omega arith;
  small = omega arith;
  results = record { same_length = refl; distinct = tt };
  notified = quiet-IsValid;
}

operation_Round_example : Round "read" true (pos 512) turn
operation_Round_example =
    operation_Round "read" true (pos 512) turn turn-Sound (omega arith) (omega arith)

yields :
    (yield_if_needed 109 turn ≡ ok (turn, false))
    × (yield_if_needed 110 turn
        ≡ ok (record turn { to_notify = record { keys = key 7 ∷ []; values = tt ∷ [] } }, true))
unfolding yield_if_needed io.VecMap.insert
yields = (refl, refl)

-- the same task with one operation running, whose result has come in
abbrev busy : Slab Key
busy = record { elems = occupied 0 (key 7) ∷ []; first_free_entry = 1; current_generation = 0 }

busy-IsValid : Slabs.IsValid busy
busy-IsValid = record { chain = []; linked = (refl, tt); distinct = tt; complete = no_free }
  where
    no_free : (i n : ℕ) → get_elem? busy.elems i ≡ some (free n) → ¬ NotIn i []
    no_free zero n h = cc
    no_free (suc i) n h = cc

abbrev answered : Context String String
answered = record turn {
  io = busy;
  io_results = record { keys = key 0 ∷ []; values = negsuc 3 ∷ [] };
}

answered-Sound : Sound answered
answered-Sound = record {
  running = busy-IsValid;
  generation = omega arith;
  small = omega arith;
  results = record { same_length = refl; distinct = (refl, tt) };
  notified = quiet-IsValid;
}

owner : get busy (from_u64 0) ≡ some (key 7)
unfolding get from_u64
owner = refl

owner_at_key : get busy (key 0) ≡ some (key 7)
unfolding get
owner_at_key = refl
