-- ===== src/Executor/Loop/Waiting.antt =====
-- How the loop of executor.rs waits: it makes steps of the machine, and panics only where a ring refuses.
use io.Prelude.{
  ℕ, zero, suc, ◌≡◌, ◌⊎◌, arith, ap, inl, inr, refl, ◌∙◌, Outcome, ok, ◌>>=◌, Bool-cases, Bool,
  true, false, ltb, ◌&&◌,
}
use io.Slab.{Key}
use io.VecMap
use io.VecMap.Laws.{is_empty-view}
use io.Executor.Machine.{Reach, steps, fires}
use io.Executor.Starting.{Reach-Consistent}
use io.Executor.Timers.{notify_timers-Fired}
use io.Executor.Ring.{busy}
use io.Executor.Ring.Passing.{busy-cases, OtherError}
use io.Executor.Loop.{World, Run, is_nil, idle_tests, is_idle, wait_turn, wait, begin_round}
use io.Executor.Loop.Submitting.{WorldLaws, machine}
use io.Executor.Loop.Panics.{FindsNothing, WaitRefused, in_turn, past_turn, BeginRefused}
use io.Executor.{key_eq}

module _ {T O W R : Type 0} (world : World T O W R) where
  pub wait-tested :
      (turns : ℕ) (s : Run T O W R) (nobody : Bool)
      → VecMap.is_empty s.ctx.to_notify ≡ ok nobody
      → wait world (suc turns) s
        ≡ elim (is_nil (world.completed s.ring) && is_nil (world.completed s.dio_ring) && nobody) [
          | true ↦ wait_turn world s >>= λ s'. wait world turns s'
          | false ↦ ok (s, true)
        ]
  unfolding wait
  wait-tested turns s nobody e = rw e refl

  module _ (laws : WorldLaws world) where
    -- the ring for direct operations in a turn of a wait
    pub wait_dio :
        (s : Run T O W R)
        → ((ring : R) × (elim (ltb 0 s.ctx.num_dio_running) [
          | true ↦ busy world.ring (world.wait s.dio_ring).1 >>= λ refused.
              ok (world.sync_completed (world.wait s.dio_ring).0)
          | false ↦ ok s.dio_ring
        ]
              ≡ ok ring)
            × (laws.laws.held ring ≡ laws.laws.held s.dio_ring))
          ⊎ ((ltb 0 s.ctx.num_dio_running ≡ true) × OtherError (world.wait s.dio_ring).1)
    wait_dio s = elim (Bool-cases (ltb 0 s.ctx.num_dio_running)) [
      | inr none_runs ↦ inl (s.dio_ring, rw none_runs refl, refl)
      | inl some_run ↦
          let held =
            laws.sync_completed_held (world.wait s.dio_ring).0 ∙ laws.wait_held s.dio_ring in
          elim (busy-cases world.ring (world.wait s.dio_ring).1) [
            | inl (b, answered) ↦ inl (
              world.sync_completed (world.wait s.dio_ring).0,
              rw some_run (rw answered refl),
              held,
            )
            | inr other ↦ inr (some_run, other)
          ]
    ]

module _ {T O W R : Type 0} (world : World T O W R) (laws : WorldLaws world) (close_id : Key) where
  -- A wait, or the start of a round, makes steps of the machine, or is refused.
  abbrev pub Waits : Outcome (Run T O W R × Bool) → Type 0 → Type 0
  Waits out Refuses =
      ((s' : Run T O W R) × (b : Bool) × (out ≡ ok (s', b))
        × Reach close_id (machine world laws close_id s'))
      ⊎ Refuses

  -- the rings of a machine that a run comes to may change, but for what they hold
  Reach-rings :
      (s : Run T O W R) (ring dio_ring : R)
      → laws.laws.held ring ≡ laws.laws.held s.ring
      → laws.laws.held dio_ring ≡ laws.laws.held s.dio_ring
      → Reach close_id (machine world laws close_id s)
      → Reach close_id (machine world laws close_id (record s { ring = ring; dio_ring = dio_ring }))
  Reach-rings s ring dio_ring p q r = rw p (rw q r)

  wait_turn-Reach :
      (s : Run T O W R)
      → Reach close_id (machine world laws close_id s)
      → ((s' : Run T O W R) × (wait_turn world s ≡ ok s')
          × Reach close_id (machine world laws close_id s'))
        ⊎ ((ltb 0 s.ctx.num_dio_running ≡ true) × OtherError (world.wait s.dio_ring).1)
  unfolding wait_turn
  wait_turn-Reach s r =
      let c = Reach-Consistent r in
      let (time, outside) = world.now s.outside in
      let (when, to_notify, e, fired) =
        notify_timers-Fired time s.ctx.notify_when s.ctx.to_notify c.timers
          c.tracks.sound.notified in
      let s1 = record s {
        ctx = record s.ctx { notify_when = when; to_notify = to_notify };
        outside = outside;
      } in
      elim (wait_dio world laws s) [
        | inr refused ↦ inr refused
        | inl (dio_ring, e', held) ↦ inl (
          record s1 { ring = world.sync_completed s.ring; dio_ring = dio_ring },
          rw e (rw e' refl),
          Reach-rings s1 (world.sync_completed s.ring) dio_ring (laws.sync_completed_held s.ring)
              held (steps r (fires (machine world laws close_id s) time when to_notify e)),
        )
      ]

  wait-Waits :
      (turns : ℕ) (s : Run T O W R)
      → Reach close_id (machine world laws close_id s)
      → Waits (wait world turns s) (WaitRefused world turns s)
  unfolding wait
  wait-Waits zero s r = inl (s, false, refl, r)
  wait-Waits (suc turns) s r =
      let (nobody, e, means) =
        is_empty-view key_eq s.ctx.to_notify (Reach-Consistent r).tracks.sound.notified in
      elim (Bool-cases
        (is_nil (world.completed s.ring) && is_nil (world.completed s.dio_ring) && nobody)) [
          | inl nothing ↦
              let finds : FindsNothing world s = record {
                no_completions = ground (arith, nothing);
                no_dio_completions = ground (arith, nothing);
                nobody = let empty : nobody ≡ true = ground (arith, nothing) in e ∙ ap ok empty;
              } in
              elim (wait_turn-Reach s r) [
                | inr (some_run, other) ↦ inr (in_turn finds some_run other)
                | inl (s1, e1, r1) ↦ elim (wait-Waits turns s1 r1) [
                  | inr refused ↦ inr (past_turn finds e1 refused)
                  | inl (s2, b, e2, r2) ↦
                      inl (s2, b, wait-tested world turns s nobody e ∙ rw nothing (rw e1 e2), r2)
                ]
              ]
          | inr something ↦ inl (s, true, wait-tested world turns s nobody e ∙ rw something refl, r)
        ]

  is_idle-total :
      (s : Run T O W R)
      → Reach close_id (machine world laws close_id s)
      → (b : Bool) × (is_idle world s ≡ ok b)
  unfolding is_idle
  is_idle-total s r =
      let (nobody, e, means) =
        is_empty-view key_eq s.ctx.to_notify (Reach-Consistent r).tracks.sound.notified in
      (idle_tests world nobody s, rw e refl)

  pub begin_round-Waits :
      (turns : ℕ) (s : Run T O W R)
      → Reach close_id (machine world laws close_id s)
      → Waits (begin_round world turns s) (BeginRefused world turns s)
  unfolding begin_round
  begin_round-Waits turns s r =
      let ring = world.sync_completed s.ring in
      let dio_ring = world.sync_completed s.dio_ring in
      let s1 = record s { ring = ring; dio_ring = dio_ring } in
      let r1 =
        Reach-rings s ring dio_ring (laws.sync_completed_held s.ring)
          (laws.sync_completed_held s.dio_ring) r in
      let (idle, e) = is_idle-total s1 r1 in
      elim (Bool-cases idle) [
        | inl waits ↦ elim (wait-Waits turns s1 r1) [
          | inr refused ↦ inr (record { idle = e ∙ ap ok waits; waits = refused })
          | inl (s2, b, e2, r2) ↦ inl (s2, b, rw e (rw waits e2), r2)
        ]
        | inr begins ↦ inl (s1, true, rw e (rw begins refl), r1)
      ]
