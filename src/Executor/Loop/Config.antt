-- ===== src/Executor/Loop/Config.antt =====
-- `ExecutorConfig` and the whole of `run` of executor.rs: the rings are built, the loop begins, and it ends.
use io.Prelude.{ℕ, ◌≡◌, ◌⊎◌, inl, inr, refl, [], Outcome, ok, ◌>>=◌, Bool, true, false}
use io.IoError.{IoError, Result, done, failed, Result-cases}
use io.Slab.{Key}
use io.Executor.Machine.{Reach}
use io.Executor.Loop.{World, Run, start_run, run}
use io.Executor.Loop.Submitting.{WorldLaws, machine}
use io.Executor.Loop.Panics.{Cause, RunPanics}
use io.Executor.Loop.Returning.{Returned, run-Returned}
use io.Executor.Loop.Beginning.{start_run-Reach}

-- a duration is in nanoseconds
pub record ExecutorConfig : Type 0 where
  pub ring_depth : ℕ
  pub preempt_duration : ℕ

-- `ExecutorConfig::new`
abbrev pub new : ExecutorConfig
new = record { ring_depth = 64; preempt_duration = 10000000 }

-- the setters
unfoldable pub with_ring_depth : ExecutorConfig → ℕ → ExecutorConfig
with_ring_depth config ring_depth = record config { ring_depth = ring_depth }

unfoldable pub with_preempt_duration : ExecutorConfig → ℕ → ExecutorConfig
with_preempt_duration config preempt_duration = record config {
  preempt_duration = preempt_duration;
}

-- a case of a result, and what to do with its value
abbrev pub if_done : {A B : Type 0} → Result A → (A → Outcome (Result B)) → Outcome (Result B)
if_done (failed e) rest = ok (failed e)
if_done (done a) rest = rest a

module _ {T O W R : Type 0} (world : World T O W R) where
  -- `ExecutorConfig::run`, with bounds on the rounds and on the turns of a wait. `build` makes a ring, with
  -- polling for completions or without, and `start` is the time that stands in the context until the first
  -- turn.
  unfoldable pub execute :
      (Bool → ℕ → Result R)
      → ℕ
      → ℕ
      → (ℕ → O)
      → ExecutorConfig
      → T
      → T
      → ℕ
      → W
      → Outcome (Result (Run T O W R × Bool))
  execute build rounds turns close_op config close_task task start outside =
      if_done (build false config.ring_depth) λ ring.
        if_done (build true config.ring_depth) λ dio_ring. do
          (close_id, s) ←
              start_run close_task task config.ring_depth start config.preempt_duration outside ring
                dio_ring
          r ← run world rounds turns close_id close_op s
          ok (done r)

  module _ (laws : WorldLaws world) where
    -- What a run comes to that begins as `begun` says.
    abbrev pub Ends :
        (ℕ → O)
        → ℕ
        → ℕ
        → Outcome (Key × Run T O W R)
        → Outcome (Result (Run T O W R × Bool))
        → Type 0
    Ends close_op rounds turns begun out =
        (close_id : Key) × (s0 : Run T O W R) × (begun ≡ ok (close_id, s0))
        × (((s : Run T O W R) × (b : Bool) × (out ≡ ok (done (s, b)))
              × Reach close_id (machine world laws close_id s)
              × (b ≡ true → Returned world laws close_id s))
            ⊎ ((cause : Cause) × RunPanics world turns close_id close_op cause rounds s0))

    -- Over rings that hold what they are given until its completion is taken, and hold nothing when they
    -- are new, and with tasks that act by the operations of their context, a whole run returns the error
    -- of a ring that was not built, or begins with both rings and comes to a state whose machine a run
    -- comes to, for any number of rounds and turns, unless in one of its rounds a poll panics, a ring
    -- answers a submission or a wait with an error other than `EBUSY`, or more files are to be closed than
    -- a `usize` counts. Where it ends, the value of the task is there, no
    -- dropped file waits to be closed, and no entry that closes a file is out.
    pub execute-Ends :
        (build : Bool → ℕ → Result R) (rounds turns : ℕ) (close_op : ℕ → O)
        (config : ExecutorConfig) (close_task task : T) (start : ℕ) (outside : W)
        → ((iopoll : Bool) (depth : ℕ) (ring : R)
            → build iopoll depth ≡ done ring
            → laws.laws.held ring ≡ [])
        → ((e : IoError) × (execute build rounds turns close_op config close_task task start outside
              ≡ ok (failed e))
            × (iopoll : Bool) × (build iopoll config.ring_depth ≡ failed e))
          ⊎ ((ring : R) × (dio_ring : R) × (build false config.ring_depth ≡ done ring)
              × (build true config.ring_depth ≡ done dio_ring)
              × Ends close_op rounds turns
                  (start_run close_task task config.ring_depth start config.preempt_duration outside
                    ring dio_ring)
                  (execute build rounds turns close_op config close_task task start outside))
    unfolding execute
    execute-Ends build rounds turns close_op config close_task task start outside new_rings =
        elim (Result-cases (build false config.ring_depth)) [
          | inr (e, no_ring) ↦ inl (e, rw no_ring refl, false, no_ring)
          | inl (ring, built) ↦ elim (Result-cases (build true config.ring_depth)) [
            | inr (e, no_ring) ↦ inl (e, rw built (rw no_ring refl), true, no_ring)
            | inl (dio_ring, dio_built) ↦
                let (close_id, s0, begun, r) =
                  start_run-Reach world laws close_task task config.ring_depth start
                    config.preempt_duration outside ring dio_ring
                    (new_rings false config.ring_depth ring built)
                    (new_rings true config.ring_depth dio_ring dio_built) in
                inr (
                  ring,
                  dio_ring,
                  built,
                  dio_built,
                  (
                    close_id,
                    s0,
                    begun,
                    elim (run-Returned world laws close_id close_op rounds turns s0 r) [
                      | inr panics ↦ inr panics
                      | inl (s, b, ran, r', returned) ↦
                          inl (s, b, rw built (rw dio_built (rw begun (rw ran refl))), r', returned)
                    ],
                  ),
                )
          ]
        ]
