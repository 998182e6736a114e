-- ===== src/Task/Returning.antt =====
-- A whole run of executor.rs returns the value of a block that does not wait.
use io.Prelude.{ℕ, suc, ◌≡◌, ◌⊎◌, inl, inr, refl, ap, [], some, ok, Bool, true, false, set}
use io.Slab.{Key}
use io.Slab
use io.VecMap
use io.IoError.{Result, done}
use io.Executor.{Context}
use io.Executor.Loop.{Run, goes_on}
use io.Executor.Loop.Panics.{ring_refuses, RunPanics}
use io.Executor.Loop.Config.{ExecutorConfig, execute}
use io.Executor.Loop.Beginning.{key_at, begun, begun_made, begun-Reach}
use io.File.{Opcode, ready}
use io.Task.{Program, Store, Place, completed, advance, poll_box, poll_task, close_op, new_store}
use io.Task.Whole.{Rings, RingsLaws, library, library_laws}
use io.Task.Finishing.{run_finishes}

module _ {S V R : Type 0} (rings : Rings R Opcode) (laws : RingsLaws rings) (clock : ℕ → ℕ) where
  -- the context and the store at the first turn of the first block
  abbrev pub first_turn : ℕ → ℕ → Program S V → R → R → Place S V
  first_turn start preempt_duration program ring dio_ring =
      let s = begun {O = Opcode} 0 1 start preempt_duration (new_store program) ring dio_ring in
      (
        record s.ctx {
          to_notify = VecMap.clear s.ctx.to_notify;
          start = clock 0;
          task_id = key_at 1;
        },
        record (new_store program) { clock_reads = 1 },
      )

  polled_there :
      (start preempt_duration : ℕ) (program program' : Program S V) (ring dio_ring : R)
      (ctx : Context ℕ Opcode) (store : Store S V) (v : V)
      → advance clock program (first_turn start preempt_duration program ring dio_ring)
        ≡ ok ((ctx, store), program', ready v)
      → poll_task clock 1 (first_turn start preempt_duration program ring dio_ring)
        ≡ ok ((ctx, record store { out = some v; boxes = set store.boxes 1 completed }), true)
  unfolding poll_task poll_box
  polled_there start preempt_duration program program' ring dio_ring ctx store v h = rw h refl

  -- With new rings that hold nothing, and for every clock, a whole run of a block that spawns what it will
  -- and comes to its value without waiting and without dropping a file ends within two rounds, whatever the
  -- bound on the turns of a wait, and the value of the block is there, unless a ring answers a submission
  -- or a wait of the run with an error other than `EBUSY`, which is its only panic.
  pub execute-library-Returns :
      (build : Bool → ℕ → Result R) (rounds turns : ℕ) (config : ExecutorConfig)
      (program program' : Program S V) (start : ℕ) (ring dio_ring : R) (ctx : Context ℕ Opcode)
      (store : Store S V) (v : V)
      → build false config.ring_depth ≡ done ring
      → build true config.ring_depth ≡ done dio_ring
      → laws.laws.held ring ≡ []
      → laws.laws.held dio_ring ≡ []
      → advance clock program (first_turn start config.preempt_duration program ring dio_ring)
        ≡ ok ((ctx, store), program', ready v)
      → store.files_to_close ≡ []
      → ((s : Run ℕ Opcode (Store S V) R) × (execute
              (library rings clock)
              build
              (suc (suc rounds))
              turns
              close_op
              config
              0
              1
              start
              (new_store program)
            ≡ ok (done (s, true)))
          × (s.outside.out ≡ some v))
        ⊎ RunPanics
            (library rings clock)
            turns
            (key_at 0)
            close_op
            ring_refuses
            (suc (suc rounds))
            (begun 0 1 start config.preempt_duration (new_store program) ring dio_ring)
  unfolding execute begun goes_on io.VecMap.is_empty io.VecMap.iter_keys io.VecMap.clear
      io.Slab.get_mut
  execute-library-Returns build rounds turns config program program' start ring dio_ring ctx store v
        built dio_built new dio_new comes no_drops =
      let world = library rings clock in
      let s0 : Run ℕ Opcode (Store S V) R =
        begun 0 1 start config.preempt_duration (new_store program) ring dio_ring in
      elim (run_finishes world (library_laws rings clock laws) (key_at 0) rounds turns close_op
        (key_at 1) s0 1 _ ctx (record store { out = some v; boxes = set store.boxes 1 completed })
        true
        (begun-Reach world (library_laws rings clock laws) 0 1 start config.preempt_duration
          (new_store program) ring dio_ring new dio_new)
        refl refl refl refl refl
        (polled_there start config.preempt_duration program program' ring dio_ring ctx store v
          comes)
        (no_drops, refl, refl)) [
          | inr panics ↦ inr panics
          | inl (s, ran, _, last) ↦ inl (
            s,
            rw built (
                rw dio_built (
                  rw
                    (begun_made {T = ℕ} {O = Opcode} 0 1 config.ring_depth start
                      config.preempt_duration (new_store program) ring dio_ring)
                    (rw ran refl))),
            ap (λ x. x.out) last,
          )
        ]
