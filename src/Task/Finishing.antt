-- ===== src/Task/Finishing.antt =====
-- A whole run of executor.rs comes to its end where its block does not wait.
use io.Prelude.{
  ℕ, suc, ◌-◌, ◌≡◌, ◌≢◌, ◌⊎◌, refl, sym, ap, ◌∙◌, [], ◌∷◌, ◌++◌, reverse, some, ok, panic, Bool,
  true, false, ltb, Bool-cases, inl, inr, first_ran, arith, subst, same_value, length,
}
use io.Slab.{Key, Slab}
use io.Slab
use io.VecMap
use io.Executor.Machine.{Reach}
use io.Executor.Loop.{
  World, Run, is_nil, idle_tests, begin_round, poll_all, poll_notified, round, goes_on, run,
  end_turn, submit_both, is_idle,
}
use io.Executor.Loop.Submitting.{WorldLaws, machine}
use io.Executor.Loop.Waiting.{begin_round-Waits}
use io.Executor.Loop.Ending.{end_round-Reach}
use io.Executor.Loop.Polling.{poll_all-polled, poll_notified-Goes}
use io.Executor.Loop.Panics.{
  Cause, ring_refuses, TaskPanics, here, refused, past_none, past_task, PollPanics, in_polls,
  after_polls, RunPanics, in_wait, in_round,
}
use io.Executor.Loop.Leaving.{ok_same, submit_both_leaves, end_round_leaves}
use io.Executor.{Context}
use io.Task.{close_op}

some_same : {A : Type 0} {x y : A} → some x ≡ some y → x ≡ y
some_same e = cc

no_panic : {A : Type 0} {x : A} → ok x ≢ panic
no_panic e = cc

module _ {T O W R : Type 0} (world : World T O W R) where
  awake :
      (turns : ℕ) (s : Run T O W R)
      → VecMap.is_empty s.ctx.to_notify ≡ ok false
      → begin_round world turns s
        ≡ ok (
          record s {
            ring = world.sync_completed s.ring;
            dio_ring = world.sync_completed s.dio_ring;
          },
          true,
        )
  unfolding begin_round is_idle
  awake turns s notified =
      let split : Run T O W R = record s {
        ring = world.sync_completed s.ring;
        dio_ring = world.sync_completed s.dio_ring;
      } in
      let no_rest : idle_tests world false split ≡ false = busy split in
      rw notified (rw no_rest refl)
    where
      busy : (s : Run T O W R) → idle_tests world false s ≡ false
      busy s = ground arith

  none_panic : {start : ℕ} {cause : Cause} {s : Run T O W R} → ¬ TaskPanics world start cause [] s
  none_panic p = elim p [ ]

  -- Where the only task is there and its poll does not panic, it is a ring that refuses.
  one_polled :
      (start : ℕ) (cause : Cause) (task_id : Key) (s : Run T O W R) (task : T) (write : T → Slab T)
      (r : (Context T O × W) × Bool)
      → Slab.get_mut s.ctx.tasks task_id ≡ some (task, write)
      → world.poll task (record s.ctx { start = start; task_id = task_id }, s.outside) ≡ ok r
      → TaskPanics world start cause (task_id ∷ []) s
      → cause ≡ ring_refuses
  one_polled start cause task_id s task write r there polled (here task' write' there' panics) =
      let pairs : (task', write') ≡ (task, write) = some_same (sym there' ∙ there) in
      let same : task' ≡ task = ap (λ p. p.0) pairs in
      let stops : world.poll task (record s.ctx { start = start; task_id = task_id }, s.outside)
          ≡ panic =
        ap (λ t. world.poll t (record s.ctx { start = start; task_id = task_id }, s.outside))
          (sym same)
        ∙ panics in
      absurd (no_panic (sym polled ∙ stops))
  one_polled start cause task_id s task write r there polled (refused t w c o b h q late p) = refl
  one_polled start cause task_id s task write r there polled (past_none gone p) = cc
  one_polled start cause task_id s task write r there polled (past_task t w c o b h q late e p) =
      absurd (none_panic p)

  one_leaves :
      (start : ℕ) (task_id : Key) (s s' : Run T O W R) (task : T) (write : T → Slab T)
      (ctx : Context T O) (outside : W) (is_ready : Bool)
      → Slab.get_mut s.ctx.tasks task_id ≡ some (task, write)
      → world.poll task (record s.ctx { start = start; task_id = task_id }, s.outside)
        ≡ ok ((ctx, outside), is_ready)
      → poll_all world start (task_id ∷ []) s ≡ ok s'
      → s'.outside ≡ (world.now outside).1
  unfolding poll_all
  one_leaves start task_id s s' task write ctx outside is_ready there polled h =
      let h1 =
        sym h
        ∙ poll_all-polled world start task_id [] s task write ctx outside is_ready there polled in
      let after : Run T O W R = record s {
        ctx = end_turn world task_id is_ready ctx;
        outside = (world.now outside).1;
      } in
      elim (Bool-cases (ltb s.ctx.preempt_duration ((world.now outside).0 - start))) [
        | inl late ↦ ap (λ x. x.outside) (ok_same (rw late at h1))
        | inr early ↦
            let (s2, h2, e2) = first_ran (submit_both world false after) (rw early at h1) in
            ap (λ x. x.outside) (ok_same h2) ∙ (submit_both_leaves world false after s2 (sym e2)).0
      ]

module _ {T O W R : Type 0} (world : World T O W R) (laws : WorldLaws world) (close_id : Key) where
  -- A turn of the only task that is to be notified.
  one_turn :
      (task_id : Key) (s : Run T O W R) (task : T) (write : T → Slab T) (ctx : Context T O)
      (outside : W) (is_ready : Bool)
      → Reach close_id (machine world laws close_id s)
      → VecMap.is_empty s.ctx.to_notify ≡ ok false
      → reverse (VecMap.iter_keys s.ctx.to_notify) ++ s.notifying ≡ task_id ∷ []
      → Slab.get_mut s.ctx.tasks task_id ≡ some (task, write)
      → world.poll task (
        record s.ctx {
          to_notify = VecMap.clear s.ctx.to_notify;
          start = (world.now s.outside).0;
          task_id = task_id;
        },
        (world.now s.outside).1,
      )
        ≡ ok ((ctx, outside), is_ready)
      → ((s' : Run T O W R) × (poll_notified world s ≡ ok s')
          × Reach close_id (machine world laws close_id s')
          × (s'.files_closing ≡ s.files_closing)
          × (s'.outside ≡ (world.now outside).1))
        ⊎ PollPanics world ring_refuses s
  unfolding poll_notified
  one_turn task_id s task write ctx outside is_ready r notified alone there polled =
      let s0 : Run T O W R = record s {
        ctx = record s.ctx { to_notify = VecMap.clear s.ctx.to_notify };
        outside = (world.now s.outside).1;
      } in
      elim (poll_notified-Goes world laws close_id s r) [
        | inr (cause, p) ↦
            let refuses : cause ≡ ring_refuses =
              one_polled world (world.now s.outside).0 cause task_id s0 task write
                ((ctx, outside), is_ready) there polled
                (subst (λ ids. TaskPanics world (world.now s.outside).0 cause ids s0) alone
                  p.panics) in
            inr (subst (λ c. PollPanics world c s) refuses p)
        | inl (s', made, r', same) ↦
            let all : poll_all world (world.now s.outside).0 (task_id ∷ []) s0 ≡ ok s' =
              subst (λ ids. poll_all world (world.now s.outside).0 ids s0 ≡ ok s') alone
                (rw notified at made) in
            inl (
              s',
              made,
              r',
              same,
              one_leaves world (world.now s.outside).0 task_id s0 s' task write ctx outside is_ready
                  there polled all,
            )
      ]

  pub run_finishes :
      (rounds turns : ℕ) (close_op : ℕ → O) (task_id : Key) (s : Run T O W R) (task : T)
      (write : T → Slab T) (ctx : Context T O) (outside : W) (is_ready : Bool)
      → Reach close_id (machine world laws close_id s)
      → goes_on world s ≡ true
      → s.files_closing ≡ 0
      → VecMap.is_empty s.ctx.to_notify ≡ ok false
      → reverse (VecMap.iter_keys s.ctx.to_notify) ++ s.notifying ≡ task_id ∷ []
      → Slab.get_mut s.ctx.tasks task_id ≡ some (task, write)
      → world.poll task (
        record s.ctx {
          to_notify = VecMap.clear s.ctx.to_notify;
          start = (world.now s.outside).0;
          task_id = task_id;
        },
        (world.now s.outside).1,
      )
        ≡ ok ((ctx, outside), is_ready)
      → (let left = (world.now (world.now outside).1).1 in
          (world.files_to_close left ≡ [])
          × (world.files_to_close (world.clear_files left) ≡ [])
          × (world.out_is_some (world.clear_files left) ≡ true))
      → ((s' : Run T O W R) × (run world (suc (suc rounds)) turns close_id close_op s
            ≡ ok (s', true))
          × Reach close_id (machine world laws close_id s')
          × (s'.outside ≡ world.clear_files (world.now (world.now outside).1).1))
        ⊎ RunPanics world turns close_id close_op ring_refuses (suc (suc rounds)) s
  unfolding run round goes_on
  run_finishes rounds turns close_op task_id s task write ctx outside is_ready r goes zero_files
        notified alone there polled (no_drops, still_none, out) =
      let split : Run T O W R = record s {
        ring = world.sync_completed s.ring;
        dio_ring = world.sync_completed s.dio_ring;
      } in
      let begins : begin_round world turns s ≡ ok (split, true) = awake world turns s notified in
      elim (begin_round-Waits world laws close_id turns s r) [
        | inr no_wait ↦ inr (in_wait goes no_wait)
        | inl (s1, b, begun1, r1) ↦
            let r0 : Reach close_id (machine world laws close_id split) =
              subst (λ x. Reach close_id (machine world laws close_id x.0))
                (same_value begun1 begins) r1 in
            elim (one_turn task_id split task write ctx outside is_ready r0 notified alone there
              polled) [
                | inr p ↦ inr (in_round goes begins (in_polls p))
                | inl (s2, e2, r2, count, out2) ↦
                    let no_files : world.files_to_close (world.now s2.outside).1 ≡ [] =
                      ap (λ w. world.files_to_close (world.now w).1) out2 ∙ no_drops in
                    elim (end_round-Reach world laws close_id close_op s2 r2) [
                      | inr (inl no_submission) ↦
                          inr (in_round goes begins (after_polls s2 e2 no_submission))
                      | inr (inr many) ↦
                          absurd (omega (arith, many, ap length no_files, count, zero_files))
                      | inl (s3, e3, r3) ↦
                          let (out3, less) =
                            end_round_leaves world close_id close_op s2 s3 no_files e3 in
                          let last : s3.outside
                              ≡ world.clear_files (world.now (world.now outside).1).1 =
                            out3 ∙ ap (λ w. world.clear_files (world.now w).1) out2 in
                          let ends : goes_on world s3 ≡ false =
                            ended s3 (ap world.out_is_some last ∙ out)
                              (ap (λ w. is_nil (world.files_to_close w)) last
                                ∙ ap is_nil still_none)
                              (ground (arith, less, count, zero_files)) in
                          let rest : run world (suc rounds) turns close_id close_op s3
                              ≡ ok (s3, true) =
                            rw (ends, run) refl in
                          inl (s3, rw (goes, run) (rw begins (rw e2 (rw e3 rest))), r3, last)
                    ]
              ]
      ]
    where
      ended :
          (s : Run T O W R)
          → world.out_is_some s.outside ≡ true
          → is_nil (world.files_to_close s.outside) ≡ true
          → ltb 0 s.files_closing ≡ false
          → goes_on world s ≡ false
      ended s there none_dropped none_closing = rw there (rw none_closing (rw none_dropped refl))
