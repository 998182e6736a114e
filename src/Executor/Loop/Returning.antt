-- ===== src/Executor/Loop/Returning.antt =====
-- The loop of `run` of executor.rs as a whole: it waits and makes rounds, and what holds when it returns.
use io.Prelude.{
  ℕ, zero, suc, ◌≡◌, ◌≢◌, ◌⊎◌, inl, inr, refl, sym, ◌∙◌, List, [], ◌∷◌, ok, Bool-cases, Bool, true,
  false, arith, All, total,
}
use io.Slab.{Key}
use io.Slab.Agreement.{same_key_iff}
use io.Executor.Machine.{Reach}
use io.Executor.Outstanding.{id_of, closing}
use io.Executor.Consistent.{all_out}
use io.Executor.Starting.{Reach-Consistent}
use io.Executor.Loop.{World, Run, is_nil, begin_round, goes_on, run}
use io.Executor.Loop.Submitting.{WorldLaws, machine}
use io.Executor.Loop.Panics.{Cause, ring_refuses, RunPanics, in_wait, in_round, past_round}
use io.Executor.Loop.Waiting.{begin_round-Waits}
use io.Executor.Loop.Ending.{round-Reach}
use io.Executor.{Sqe}

pub is_nil-eq : {A : Type 0} (xs : List A) → is_nil xs ≡ true → xs ≡ []
is_nil-eq [] h = refl
is_nil-eq (x ∷ xs) h = absurd (ground (arith, h))

-- No entry closes a file, where none is counted.
none_closes :
    {O : Type 0} (close_id : Key) (out : List (Sqe O))
    → total (closing close_id) out ≡ 0
    → All (λ e. id_of e ≢ close_id) out
none_closes close_id [] h = tt
none_closes close_id (e ∷ out) h = (
  (λ same. ground (arith, h, same_key_iff (id_of e) close_id, same)),
  none_closes close_id out (omega (arith, h)),
)

module _ {T O W R : Type 0} (world : World T O W R) (laws : WorldLaws world) (close_id : Key) where
  -- What holds when `run` returns: the task has left its value, nothing that was dropped waits to be
  -- closed, and no entry that closes a file is in a queue or in the kernel.
  pub record Returned (s : Run T O W R) : Type 0 where
    pub out_there : world.out_is_some s.outside ≡ true
    pub nothing_dropped : world.files_to_close s.outside ≡ []
    pub nothing_closes :
        All
          (λ e. id_of e ≢ close_id)
          (all_out s.ctx (laws.laws.held s.ring) (laws.laws.held s.dio_ring))

  goes_on-Returned :
      (s : Run T O W R)
      → Reach close_id (machine world laws close_id s)
      → goes_on world s ≡ false
      → Returned s
  unfolding goes_on
  goes_on-Returned s r h = record {
    out_there = ground (arith, h);
    nothing_dropped = is_nil-eq (world.files_to_close s.outside) (ground (arith, h));
    nothing_closes =
        none_closes close_id _ (sym (Reach-Consistent r).tracks.counted ∙ ground (arith, h));
  }

  -- From a machine that a run comes to, the loop of `run` comes to such a machine again, for any number of
  -- rounds and turns, unless in one of its rounds a poll panics, a ring answers a submission or a wait with
  -- an error other than `EBUSY`, or more files are to be closed than a `usize` counts; and when it returns, the value of the task is there, no dropped file waits to be
  -- closed, and no entry that closes a file is out.
  pub run-Returned :
      (close_op : ℕ → O) (rounds turns : ℕ) (s : Run T O W R)
      → Reach close_id (machine world laws close_id s)
      → ((s' : Run T O W R) × (b : Bool) × (run world rounds turns close_id close_op s ≡ ok (s', b))
          × Reach close_id (machine world laws close_id s')
          × (b ≡ true → Returned s'))
        ⊎ ((cause : Cause) × RunPanics world turns close_id close_op cause rounds s)
  unfolding run
  run-Returned close_op zero turns s r = inl (s, false, refl, r, λ h. cc)
  run-Returned close_op (suc rounds) turns s r = elim (Bool-cases (goes_on world s)) [
    | inr ends ↦ inl (s, true, rw (ends, run) refl, r, λ h. goes_on-Returned s r ends)
    | inl goes ↦ elim (begin_round-Waits world laws close_id turns s r) [
      | inr refused ↦ inr (ring_refuses, in_wait goes refused)
      | inl (s1, b, e1, r1) ↦ elim (Bool-cases b) [
        | inr asleep ↦ inl (s1, false, rw (goes, run) (rw e1 (rw asleep refl)), r1, λ h. cc)
        | inl woken ↦
            let begun : begin_round world turns s ≡ ok (s1, true) = rw woken at e1 in
            elim (round-Reach world laws close_id close_op s1 r1) [
              | inr (cause, panics) ↦ inr (cause, in_round goes begun panics)
              | inl (s2, e2, r2) ↦ elim (run-Returned close_op rounds turns s2 r2) [
                | inr (cause, panics) ↦ inr (cause, past_round goes begun e2 panics)
                | inl (s3, b3, e3, r3, returned) ↦
                    inl (s3, b3, rw (goes, run) (rw e1 (rw woken (rw e2 e3))), r3, returned)
              ]
            ]
      ]
    ]
  ]
