-- ===== src/Executor/Loop/Tests.antt =====
-- The loop of `run` of executor.rs with a task that takes too long, and its theorems at it.
use Prim.Native.String.{String}
use mathlib.Core.List.Permᴰ
use io.Prelude.{
  sym, ℕ, ◌+◌, ◌≡◌, ◌⊎◌, refl, ap, subst, List, [], ◌∷◌, ◌++◌, map, none, set, Outcome, ok, panic,
  Bool, true, false, leb, Permᴰ, same_value,
}
use io.Slab.{Key, free_entries, occupied}
use io.Slab
use io.VecMap
use io.Executor.Machine.{Reach}
use io.Executor.Consistent.{finished_entries}
use io.Executor.Places.{Places, two_places, two_places_laws, empty_places}
use io.Executor.Loop.{World, Run, poll_notified, poll_all, goes_on, is_idle, run, start_run}
use io.IoError.{IoError, Result, done, failed}
use io.Executor.Loop.Config.{
  ExecutorConfig, new, with_ring_depth, with_preempt_duration, execute, Ends, execute-Ends,
}
use io.Executor.Loop.Submitting.{WorldLaws, Steps, rests, machine}
use io.Executor.Loop.Stalling.{run-Stalled}
use io.Executor.Loop.Beginning.{holds_two, key_at, fresh, begun, begun-Reach}
use io.Executor.{ℤ, pos, Sqe}

abbrev taken_of : Places String → List (Sqe String × ℤ)
taken_of p = map (λ e. (e, pos 0)) p.taken

-- A task takes 100 and is ready; the value of the first task is there from 150 on.
abbrev slow : World String String ℕ (Places String)
slow = record {
  ring = two_places;
  completed = taken_of;
  take_completed = λ p. record p { taken = [] };
  sync_completed = λ p. p;
  wait = λ p. (p, none);
  poll = λ task s. ok ((s.0, s.1 + 100), true);
  now = λ time. (time, time);
  files_to_close = λ time. [];
  clear_files = λ time. time;
  out_is_some = λ time. leb 150 time;
}

finished_taken : (es : List (Sqe String)) → es ≡ finished_entries (map (λ e. (e, pos 0)) es)
finished_taken [] = refl
finished_taken (e ∷ es) = ap (λ l. e ∷ l) (finished_taken es)

abbrev slow_laws : WorldLaws slow
slow_laws = record {
  laws = two_places_laws;
  sync_completed_held = λ p. refl;
  wait_held = λ p. refl;
  take_held = λ p.
      subst (λ l. Permᴰ (p.taken ++ p.waiting) (l ++ p.waiting)) (finished_taken p.taken)
        (Permᴰ.refl (p.taken ++ p.waiting));
  polls = λ close_id m task outside outside' ctx is_ready r e.
      subst (λ s. Steps close_id m (record m { ctx = s.0.0 })) (same_value refl e) rests;
}

abbrev main_run : Run String String ℕ (Places String)
unfolding holds_two fresh begun
main_run = begun "nothing" "main" 0 10 7 empty_places empty_places

main_run-Reach : Reach (key_at 0) (machine slow slow_laws (key_at 0) main_run)
unfolding main_run
main_run-Reach =
    begun-Reach slow slow_laws "nothing" "main" 0 10 7 empty_places empty_places refl refl

-- two tasks beside the first, and both are notified
abbrev two_notified : Run String String ℕ (Places String)
unfolding main_run
two_notified = record main_run {
  ctx = record main_run.ctx {
    tasks = record (holds_two "nothing" "main") {
      elems =
          set (set (set (free_entries 128 0) 0 (occupied 0 "nothing")) 1 (occupied 0 "main")) 2
            (occupied 0 "other");
      first_free_entry = 3;
    };
    to_notify = record { keys = key_at 1 ∷ key_at 2 ∷ []; values = tt ∷ tt ∷ [] };
  };
}

abbrev left_over : Outcome (Run String String ℕ (Places String)) → List Key
left_over (ok s) = s.notifying
left_over panic = []

-- The last one is polled first, and takes so long that the other stays in `notifying`.
slow_leaves_one : left_over (poll_notified slow two_notified) ≡ key_at 1 ∷ []
unfolding poll_notified poll_all two_notified io.Slab.get_mut io.Slab.remove io.VecMap.is_empty
    io.VecMap.clear io.VecMap.iter_keys
slow_leaves_one = refl

abbrev stalled : Run String String ℕ (Places String)
unfolding main_run
stalled = record main_run {
  ctx = record main_run.ctx { to_notify = record { keys = []; values = [] } };
  notifying = key_at 1 ∷ [];
}

run-Stalled_example :
    (s : Run String String ℕ (Places String)) × (run slow 1000 1000000
        (key_at 0)
        (λ fd. "close")
        stalled
      ≡ ok (s, false))
    × (s.notifying ≡ key_at 1 ∷ [])
unfolding stalled goes_on is_idle io.VecMap.is_empty
run-Stalled_example =
    run-Stalled slow slow_laws 1000 1000000 (key_at 0) (λ fd. "close") stalled refl refl
      (record {
        no_entries = refl;
        no_dio_entries = refl;
        no_dio_running = refl;
        no_timers = refl;
        nobody = refl;
      })

-- a ring of half the size, and turns of 10 nanoseconds
abbrev config : ExecutorConfig
config = record { ring_depth = 32; preempt_duration = 10 }

config_made : with_preempt_duration (with_ring_depth new 32) 10 ≡ config
unfolding with_preempt_duration with_ring_depth
config_made = refl

abbrev new_ring : Bool → ℕ → Result (Places String)
new_ring iopoll depth = done empty_places

new_ring_holds :
    (iopoll : Bool) (depth : ℕ) (ring : Places String)
    → new_ring iopoll depth ≡ done ring
    → ring.taken ++ ring.waiting ≡ []
new_ring_holds iopoll depth ring h =
    let same : empty_places ≡ ring = cc in ap (λ p. p.taken ++ p.waiting) (sym same)

execute-Ends_example :
    ((e : IoError) × (execute slow new_ring 3 100 (λ fd. "close") config "nothing" "main" 0 7
        ≡ ok (failed e))
      × (iopoll : Bool) × (new_ring iopoll 32 ≡ failed e))
    ⊎ ((ring : Places String) × (dio_ring : Places String) × (new_ring false 32 ≡ done ring)
        × (new_ring true 32 ≡ done dio_ring)
        × Ends slow slow_laws
            (λ fd. "close")
            3
            100
            (start_run "nothing" "main" 32 0 10 7 ring dio_ring)
            (execute slow new_ring 3 100 (λ fd. "close") config "nothing" "main" 0 7))
execute-Ends_example =
    execute-Ends slow slow_laws new_ring 3 100 (λ fd. "close") config "nothing" "main" 0 7
      new_ring_holds
