-- ===== src/Executor/Loop/Polling.antt =====
-- The part of a round of executor.rs that polls tasks: its steps, and what its panics come from.
use io.Prelude.{
  ℕ, ◌-◌, ◌≡◌, ◌⊎◌, inl, inr, refl, ◌∙◌, List, [], ◌∷◌, ◌++◌, reverse, some, Outcome, ok, ◌>>=◌,
  Bool, true, false, ltb, Bool-cases, Option-cases, Outcome-cases,
}
use io.Slab.{Key, Slab}
use io.Slab
use io.VecMap
use io.VecMap.Laws.{is_empty-view}
use io.Executor.Machine.{Machine, Reach, steps, turns, wakes}
use io.Executor.Starting.{Reach-Consistent}
use io.Executor.Loop.{World, Run, end_turn, submit_both, poll_all, poll_notified}
use io.Executor.Loop.Submitting.{WorldLaws, machine, submit_both-Reach, Reach-Steps}
use io.Executor.Loop.Panics.{
  Cause, poll_panics, ring_refuses, TaskPanics, here, refused, past_none, past_task, PollPanics,
}
use io.Executor.{Context, key_eq}

module _ {T O W R : Type 0} (world : World T O W R) where
  -- where a task is there and its poll does not panic
  pub poll_all-polled :
      (start : ℕ) (task_id : Key) (notifying : List Key) (s : Run T O W R) (task : T)
      (write : T → Slab T) (ctx : Context T O) (outside : W) (is_ready : Bool)
      → Slab.get_mut s.ctx.tasks task_id ≡ some (task, write)
      → world.poll task (record s.ctx { start = start; task_id = task_id }, s.outside)
        ≡ ok ((ctx, outside), is_ready)
      → (let polled : Run T O W R = record s {
        ctx = end_turn world task_id is_ready ctx;
        outside = (world.now outside).1;
      } in
          poll_all world start (task_id ∷ notifying) s
          ≡ elim (ltb s.ctx.preempt_duration ((world.now outside).0 - start)) [
            | true ↦ ok (record polled { notifying = notifying })
            | false ↦ submit_both world false polled >>= λ submitted.
                poll_all world start notifying submitted
          ])
  unfolding poll_all
  poll_all-polled start task_id notifying s task write ctx outside is_ready there polled =
      rw (there, poll_all) (rw polled refl)

  module _ (laws : WorldLaws world) (close_id : Key) where
    -- What a part of the loop comes to from `s`: a state whose machine is one that a run comes to, with
    -- no more files that close, or a panic.
    abbrev pub Goes : Run T O W R → Outcome (Run T O W R) → Type 0 → Type 0
    Goes s out Panics =
        ((s' : Run T O W R) × (out ≡ ok s')
          × Reach close_id (machine world laws close_id s')
          × (s'.files_closing ≡ s.files_closing))
        ⊎ Panics

    Goes-later :
        (s s' : Run T O W R) {out out' : Outcome (Run T O W R)} {P Q : Type 0}
        → s'.files_closing ≡ s.files_closing
        → out ≡ out'
        → (P → Q)
        → Goes s' out' P
        → Goes s out Q
    Goes-later s s' same e f (inl (s2, made, r, q)) = inl (s2, e ∙ made, r, q ∙ same)
    Goes-later s s' same e f (inr panics) = inr (f panics)

    end_turn-Reach :
        (m : Machine T O) (task_id : Key) (is_ready : Bool)
        → Reach close_id m
        → Reach close_id (record m { ctx = end_turn world task_id is_ready m.ctx })
    end_turn-Reach m task_id false r = r
    end_turn-Reach m task_id true r =
        steps r (turns m m.ctx.start m.ctx.task_id (Slab.remove m.ctx.tasks task_id).0)

    poll_all-Goes :
        (start : ℕ) (notifying : List Key) (s : Run T O W R)
        → Reach close_id (machine world laws close_id s)
        → Goes s
            (poll_all world start notifying s)
            ((cause : Cause) × TaskPanics world start cause notifying s)
    unfolding poll_all
    poll_all-Goes start [] s r = inl (record s { notifying = [] }, refl, r, refl)
    poll_all-Goes start (task_id ∷ notifying) s r =
        let s0 = record s { ctx = record s.ctx { start = start; task_id = task_id } } in
        let m0 = machine world laws close_id s0 in
        let r0 = steps r (turns (machine world laws close_id s) start task_id s.ctx.tasks) in
        elim (Option-cases (Slab.get_mut s.ctx.tasks task_id)) [
          | inl gone ↦
              Goes-later s s0 refl (rw (gone, poll_all) refl) (λ p. (p.0, past_none gone p.1))
                (poll_all-Goes start notifying s0 r0)
          | inr ((task, write), there) ↦
              elim (Outcome-cases (world.poll task (m0.ctx, s.outside))) [
                | inl panics ↦ inr (poll_panics, here task write there panics)
                | inr (((ctx, outside), is_ready), polled) ↦
                    let r1 =
                      Reach-Steps r0
                        (laws.polls close_id m0 task s.outside outside ctx is_ready r0 polled) in
                    let r2 = end_turn-Reach (record m0 { ctx = ctx }) task_id is_ready r1 in
                    let s2 = record s {
                      ctx = end_turn world task_id is_ready ctx;
                      outside = (world.now outside).1;
                    } in
                    elim (Bool-cases (ltb s.ctx.preempt_duration ((world.now outside).0 - start))) [
                      | inl late ↦ inl (
                        record s2 { notifying = notifying },
                        poll_all-polled start task_id notifying s task write ctx outside is_ready
                              there polled
                            ∙ rw late refl,
                        r2,
                        refl,
                      )
                      | inr early ↦ elim (submit_both-Reach world laws close_id false s2 r2) [
                        | inr no_submission ↦ inr (
                          ring_refuses,
                          refused task write ctx outside is_ready there polled early no_submission,
                        )
                        | inl (s3, made, r3, same, _) ↦
                            Goes-later s s3 same
                              (poll_all-polled start task_id notifying s task write ctx outside
                                  is_ready there polled
                                ∙ rw early (rw made refl))
                              (λ p. (
                                p.0,
                                past_task task write ctx outside is_ready there polled early made
                                    p.1,
                              ))
                              (poll_all-Goes start notifying s3 r3)
                      ]
                    ]
              ]
        ]

    -- The part of a round that polls tasks panics only where a task does, or where a ring refuses.
    pub poll_notified-Goes :
        (s : Run T O W R)
        → Reach close_id (machine world laws close_id s)
        → Goes s (poll_notified world s) ((cause : Cause) × PollPanics world cause s)
    unfolding poll_notified
    poll_notified-Goes s r =
        let c = Reach-Consistent r in
        let (nobody, e, means) = is_empty-view key_eq s.ctx.to_notify c.tracks.sound.notified in
        let (start, outside) = world.now s.outside in
        elim (Bool-cases nobody) [
          | inl idle ↦ inl (record s { outside = outside }, rw e (rw idle refl), r, refl)
          | inr busy ↦
              Goes-later s s refl (rw e (rw busy refl))
                (λ p. (p.0, record { notified = rw busy at e; panics = p.1 }))
                (poll_all-Goes start (reverse (VecMap.iter_keys s.ctx.to_notify) ++ s.notifying)
                  (record s {
                    ctx = record s.ctx { to_notify = VecMap.clear s.ctx.to_notify };
                    outside = outside;
                  })
                  (steps r (wakes (machine world laws close_id s))))
        ]
