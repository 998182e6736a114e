-- ===== src/Executor/Loop/Beginning.antt =====
-- The start of `run` of executor.rs: it comes to no panic, on a machine that a run comes to.
use io.Prelude.{ℕ, ◌≡◌, refl, [], ◌∷◌, ok, set}
use io.Slab.{Key, Slab, Entry, free_entries, occupied}
use io.Slab
use io.VecMap
use io.Executor.Machine.{Machine, Reach, starts, steps, turns, notifies, start_up}
use io.Executor.Loop.{World, Run, start_run}
use io.Executor.Loop.Submitting.{WorldLaws, machine}
use io.Executor.{Context, notify}

-- the slab with room for 128 values, of which it holds one at the first place
abbrev pub holds_one : {A : Type 0} → A → Slab A
unfolding free_entries
holds_one a = record {
  elems = set (free_entries 128 0) 0 (occupied 0 a);
  first_free_entry = 1;
  current_generation = 0;
}

unfoldable pub holds_two : {A : Type 0} → A → A → Slab A
unfolding free_entries
holds_two a b = record {
  elems = set (set (free_entries 128 0) 0 (occupied 0 a)) 1 (occupied 0 b);
  first_free_entry = 2;
  current_generation = 0;
}

abbrev pub key_at : ℕ → Key
key_at i = record { index = i; generation = 0 }

module _ {T O : Type 0} where
  unfoldable pub fresh : Slab T → ℕ → ℕ → Context T O
  unfolding holds_one
  fresh tasks start preempt_duration = record {
    start = start;
    task_id = key_at 0;
    tasks = tasks;
    io_results = record { keys = []; values = [] };
    io_queue = [];
    dio_queue = [];
    preempt_duration = preempt_duration;
    io = holds_one (key_at 0);
    to_notify = record { keys = []; values = [] };
    notify_when = record { timer = []; task_id = [] };
    num_dio_running = 0;
  }

  abbrev fresh_machine : T → ℕ → ℕ → Machine T O
  unfolding holds_one fresh
  fresh_machine close_task start preempt_duration = record {
    ctx = fresh (holds_one close_task) start preempt_duration;
    kernel = [];
    dio_kernel = [];
    files_closing = 0;
  }

  fresh_made :
      (close_task : T) (ring_depth start preempt_duration : ℕ)
      → start_up close_task ring_depth start preempt_duration
        ≡ ok (key_at 0, fresh_machine close_task start preempt_duration)
  unfolding start_up fresh_machine io.VecMap.with_capacity_in io.Slab.with_capacity_in
      io.Slab.insert io.Slab.with_room io.Slab.place
  fresh_made close_task ring_depth start preempt_duration = refl

module _ {T O W R : Type 0} where
  unfoldable pub begun : T → T → ℕ → ℕ → W → R → R → Run T O W R
  unfolding holds_two fresh
  begun close_task task start preempt_duration outside ring dio_ring = record {
    ctx = record (fresh (holds_two close_task task) start preempt_duration) {
      to_notify = record { keys = key_at 1 ∷ []; values = tt ∷ [] };
    };
    outside = outside;
    ring = ring;
    dio_ring = dio_ring;
    notifying = [];
    files_closing = 0;
  }

  pub begun_made :
      (close_task task : T) (ring_depth start preempt_duration : ℕ) (outside : W)
      (ring dio_ring : R)
      → start_run close_task task ring_depth start preempt_duration outside ring dio_ring
        ≡ ok (key_at 0, begun close_task task start preempt_duration outside ring dio_ring)
  unfolding start_run begun fresh_machine io.Slab.insert io.Slab.with_room io.Slab.place
      io.VecMap.insert
  begun_made close_task task ring_depth start preempt_duration outside ring dio_ring =
      rw (fresh_made close_task ring_depth start preempt_duration) refl

  pub begun-Reach :
      (world : World T O W R) (laws : WorldLaws world) (close_task task : T)
      (start preempt_duration : ℕ) (outside : W) (ring dio_ring : R)
      → laws.laws.held ring ≡ []
      → laws.laws.held dio_ring ≡ []
      → Reach (key_at 0) (
          machine world laws
            (key_at 0)
            (begun close_task task start preempt_duration outside ring dio_ring))
  unfolding begun notify io.VecMap.insert fresh_machine
  begun-Reach world laws close_task task start preempt_duration outside ring dio_ring p q =
      let m0 = fresh_machine close_task start preempt_duration in
      let m1 = record m0 { ctx = record m0.ctx { tasks = holds_two close_task task } } in
      rw p (
        rw q (
          steps
            (steps
              (starts close_task 0 start preempt_duration m0
                (fresh_made close_task 0 start preempt_duration))
              (turns m0 start (key_at 0) (holds_two close_task task)))
            (notifies m1 (key_at 1)
              (begun close_task task start preempt_duration outside ring dio_ring).ctx refl)))

  -- With rings that hold nothing, the start of `run` comes to no panic, and the loop begins on a machine
  -- that a run comes to.
  pub start_run-Reach :
      (world : World T O W R) (laws : WorldLaws world) (close_task task : T)
      (ring_depth start preempt_duration : ℕ) (outside : W) (ring dio_ring : R)
      → laws.laws.held ring ≡ []
      → laws.laws.held dio_ring ≡ []
      → (close_id : Key) × (s : Run T O W R) × (start_run close_task task ring_depth start
            preempt_duration outside ring dio_ring
          ≡ ok (close_id, s))
        × Reach close_id (machine world laws close_id s)
  start_run-Reach world laws close_task task ring_depth start preempt_duration outside ring dio_ring
        p q =
      (
        key_at 0,
        begun close_task task start preempt_duration outside ring dio_ring,
        begun_made close_task task ring_depth start preempt_duration outside ring dio_ring,
        begun-Reach world laws close_task task start preempt_duration outside ring dio_ring p q,
      )
