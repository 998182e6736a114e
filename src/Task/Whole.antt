-- ===== src/Task/Whole.antt =====
-- A whole run of executor.rs over tasks that are made of the library's futures.
use io.Prelude.{ℕ, ◌+◌, ◌≡◌, ◌⊎◌, List, [], Option, none, some, ok, Bool, true, false, Permᴰ, ◌++◌}
use io.IoError.{IoError, Result, done, failed}
use io.Executor.{ℤ, Sqe}
use io.Executor.Consistent.{finished_entries}
use io.Executor.Ring.{Ring, RingLaws}
use io.Executor.Loop.{World, start_run}
use io.Executor.Loop.Submitting.{WorldLaws}
use io.Executor.Loop.Config.{ExecutorConfig, execute, Ends, execute-Ends}
use io.File.{Opcode}
use io.Task.{Program, Store, poll_task, close_op, new_store}
use io.Task.Polling.{Calls-Steps}
use io.Task.Running.{poll_task-Calls}

-- the two sides of a ring
pub record Rings (R O : Type 0) : Type 0 where
  pub ring : Ring R O
  pub completed : R → List (Sqe O × ℤ)
  pub take_completed : R → R
  pub sync_completed : R → R
  pub wait : R → R × Option ℕ

-- What the loop relies on: a ring holds an entry until its completion is taken.
pub record RingsLaws {R O : Type 0} (rings : Rings R O) : Type 0 where
  pub laws : RingLaws rings.ring
  pub sync_completed_held : (r : R) → laws.held (rings.sync_completed r) ≡ laws.held r
  pub wait_held : (r : R) → laws.held (rings.wait r).0 ≡ laws.held r
  pub take_held :
      (r : R)
      → Permᴰ
          (laws.held r)
          (finished_entries (rings.completed r) ++ laws.held (rings.take_completed r))

abbrev pub is_some : {A : Type 0} → Option A → Bool
is_some none = false
is_some (some a) = true

module _ {S V R : Type 0} (rings : Rings R Opcode) (clock : ℕ → ℕ) where
  -- the world of such tasks, where `clock` says what each reading of the clock gives
  abbrev pub library : World ℕ Opcode (Store S V) R
  library = record {
    ring = rings.ring;
    completed = rings.completed;
    take_completed = rings.take_completed;
    sync_completed = rings.sync_completed;
    wait = rings.wait;
    poll = poll_task clock;
    now = λ store. (clock store.clock_reads, record store { clock_reads = store.clock_reads + 1 });
    files_to_close = λ store. store.files_to_close;
    clear_files = λ store. record store { files_to_close = [] };
    out_is_some = λ store. is_some store.out;
  }

  module _ (laws : RingsLaws rings) where
    abbrev pub library_laws : WorldLaws library
    library_laws = record {
      laws = laws.laws;
      sync_completed_held = laws.sync_completed_held;
      wait_held = laws.wait_held;
      take_held = laws.take_held;
      polls = λ close_id m address store store' ctx is_ready r e.
          Calls-Steps close_id m m.ctx ctx
            (poll_task-Calls clock m address store store' ctx is_ready e);
    }

    -- Over rings that hold what they are given until its completion is taken, and hold nothing when
    -- they are new, and for every clock, a whole run of any block that is made of the library's
    -- futures and has no endless loop, with whatever it spawns, returns the error of a ring that
    -- was not built, or begins with both rings and comes to a state whose machine a run comes to,
    -- for any number of rounds and turns, unless in one of its rounds a block panics when it is
    -- polled, a ring answers a submission or a wait with an error other than `EBUSY`, or more files
    -- are to be closed than a `usize` counts. Where
    -- it ends, the value of the block is there, no dropped file waits to be closed, and no entry
    -- that closes a file is out.
    pub execute-library-Ends :
        (build : Bool → ℕ → Result R) (rounds turns : ℕ) (config : ExecutorConfig)
        (program : Program S V) (start : ℕ)
        → ((iopoll : Bool) (depth : ℕ) (ring : R)
            → build iopoll depth ≡ done ring
            → laws.laws.held ring ≡ [])
        → ((e : IoError) × (execute library build rounds turns close_op config 0 1 start
                (new_store program)
              ≡ ok (failed e))
            × (iopoll : Bool) × (build iopoll config.ring_depth ≡ failed e))
          ⊎ ((ring : R) × (dio_ring : R) × (build false config.ring_depth ≡ done ring)
              × (build true config.ring_depth ≡ done dio_ring)
              × Ends library library_laws close_op rounds turns
                  (start_run 0 1 config.ring_depth start config.preempt_duration
                    (new_store program)
                    ring
                    dio_ring)
                  (execute library build rounds turns close_op config 0 1 start
                    (new_store program)))
    execute-library-Ends build rounds turns config program start =
        execute-Ends library library_laws build rounds turns close_op config 0 1 start
          (new_store program)
