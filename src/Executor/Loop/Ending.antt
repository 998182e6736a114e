-- ===== src/Executor/Loop/Ending.antt =====
-- A round of the loop of executor.rs: it makes steps of the machine, and what its panics come from.
use io.Prelude.{
  ℕ, ◌+◌, ◌<◌, ◌≤◌, ◌≡◌, ◌⊎◌, inl, inr, refl, sym, ap, ◌∙◌, subst, List, [], ◌∷◌, ◌++◌, ok, ◌>>=◌,
  Bool-cases, length, arith, first_ran, same_value, Permᴰ, true,
}
use native.Mathlib.Decide.{dec_lt}
use io.Word.{u64_mod, add_u64, sub_checked}
use io.Slab.{Key}
use io.Slab.Agreement.{same_key}
use io.Slab.KeyCode.{from_u64, to_u64}
use io.Executor.Machine.{Reach, steps, fires, closes, on_completions, reap}
use io.Executor.Consistent.{finished_entries}
use io.Executor.Starting.{Reach-Consistent, Reach-reap}
use io.Executor.Timers.{notify_timers-Fired}
use io.Executor.Loop.{World, Run, end_round, round}
use io.Executor.Loop.Submitting.{WorldLaws, machine, submit_both-Reach}
use io.Executor.Loop.Panics.{
  Cause, ring_refuses, too_many_files, SubmitRefused, RoundPanics, in_polls, after_polls, too_many,
}
use io.Executor.Loop.Polling.{poll_notified-Goes}
use io.Executor.{ℤ, Sqe, Context, complete, on_completion, close_files}

module _ {T O : Type 0} (close_id : Key) where
  on_completion_le :
      (user_data : ℕ) (result : ℤ) (n n' : ℕ) (ctx ctx' : Context T O)
      → on_completion close_id user_data result (n, ctx) ≡ ok (n', ctx')
      → n' ≤ n
  unfolding on_completion
  on_completion_le user_data result n n' ctx ctx' h =
      elim (Bool-cases (same_key (from_u64 user_data) close_id)) [
        | inl same ↦ ground (arith, h, same)
        | inr other ↦
            let split : ok (n', ctx') ≡ (complete user_data result ctx >>= λ ctx1. ok (n, ctx1)) =
              sym h ∙ rw other refl in
            let (ctx1, e, made) = first_ran (complete user_data result ctx) split in
            let same_pair : (n', ctx') ≡ (n, ctx1) = same_value refl e in
            omega (arith, ap (λ s. s.0) same_pair)
      ]

  on_completions_le :
      (cq : List (Sqe O × ℤ)) (n n' : ℕ) (ctx ctx' : Context T O)
      → on_completions close_id cq (n, ctx) ≡ ok (n', ctx')
      → n' ≤ n
  unfolding on_completions
  on_completions_le [] n n' ctx ctx' h =
      omega (arith, ap (λ s. s.0) (same_value {m = ok (n, ctx)} refl h))
  on_completions_le ((e, result) ∷ cq) n n' ctx ctx' h =
      let ((n1, ctx1), rest, made) =
        first_ran (on_completion close_id e.user_data result (n, ctx)) (sym h) in
      omega (
        arith,
        on_completion_le e.user_data result n n1 ctx ctx1 (sym made),
        on_completions_le cq n1 n' ctx1 ctx' (sym rest),
      )

  -- The completions make no file close.
  pub reap_le :
      (cq dio_cq : List (Sqe O × ℤ)) (n n' : ℕ) (ctx ctx' : Context T O)
      → reap close_id cq dio_cq (n, ctx) ≡ ok (n', ctx')
      → n' ≤ n
  unfolding reap
  reap_le cq dio_cq n n' ctx ctx' h =
      let (left, rest, made) =
        first_ran (sub_checked ctx.num_dio_running (length dio_cq)) (sym h) in
      on_completions_le (cq ++ dio_cq) n n' (record ctx { num_dio_running = left }) ctx' (sym rest)

  close_files-total :
      (close_op : ℕ → O) (files : List ℕ) (n : ℕ) (ctx : Context T O)
      → n + length files < u64_mod
      → (n' : ℕ) × (ctx' : Context T O) × (close_files close_id close_op files (n, ctx)
          ≡ ok (n', ctx'))
  unfolding close_files
  close_files-total close_op [] n ctx room = (n, ctx, refl)
  close_files-total close_op (fd ∷ files) n ctx room =
      let added : add_u64 n 1 ≡ ok (n + 1) = ground (arith, room) in
      let entry : Sqe O = record { operation = close_op fd; user_data = to_u64 close_id } in
      let (n', ctx', e) =
        close_files-total close_op files (n + 1)
          (record ctx { io_queue = ctx.io_queue ++ entry ∷ [] }) (omega (arith, room)) in
      (n', ctx', rw added e)

module _ {T O W R : Type 0} (world : World T O W R) (laws : WorldLaws world) (close_id : Key)
    (close_op : ℕ → O) where
  -- After the tasks, a round comes to no panic where no submission is refused and the files to close can
  -- be counted.
  pub end_round-Reach :
      (s : Run T O W R)
      → Reach close_id (machine world laws close_id s)
      → ((s' : Run T O W R) × (end_round world close_id close_op s ≡ ok s')
          × Reach close_id (machine world laws close_id s'))
        ⊎ (SubmitRefused world true s
            ⊎ (u64_mod ≤ s.files_closing + length (world.files_to_close (world.now s.outside).1)))
  unfolding end_round
  end_round-Reach s r = elim (submit_both-Reach world laws close_id true s r) [
    | inr refused ↦ inr (inl refused)
    | inl (s1, e1, r1, same, same_outside) ↦
        let ring = world.sync_completed s1.ring in
        let dio_ring = world.sync_completed s1.dio_ring in
        let (n, ctx, e2, r2) =
          Reach-reap (world.completed ring) (world.completed dio_ring)
            (laws.laws.held (world.take_completed ring))
            (laws.laws.held (world.take_completed dio_ring)) r1
            (subst
              (λ k. Permᴰ k (
                finished_entries (world.completed ring)
                ++ laws.laws.held (world.take_completed ring)))
              (laws.sync_completed_held s1.ring) (laws.take_held ring))
            (subst
              (λ k. Permᴰ k (
                finished_entries (world.completed dio_ring)
                ++ laws.laws.held (world.take_completed dio_ring)))
              (laws.sync_completed_held s1.dio_ring) (laws.take_held dio_ring)) in
        let (time, outside) = world.now s1.outside in
        let c = Reach-Consistent r2 in
        let (when, to_notify, e3, fired) =
          notify_timers-Fired time ctx.notify_when ctx.to_notify c.timers c.tracks.sound.notified in
        let r3 = steps r2 (fires _ time when to_notify e3) in
        let files = world.files_to_close outside in
        elim (dec_lt (n + length files) u64_mod) [
          | no many ↦ inr (
              inr (
                omega (
                  arith,
                  many,
                  same,
                  ap (λ w. length (world.files_to_close (world.now w).1)) same_outside,
                  reap_le close_id (world.completed ring) (world.completed dio_ring)
                      s1.files_closing n s1.ctx ctx e2,
                )))
          | yes room ↦
              let (n', ctx', e4) =
                close_files-total close_id close_op files n
                  (record ctx { notify_when = when; to_notify = to_notify }) room in
              inl (
                record s1 {
                  ctx = ctx';
                  outside = world.clear_files outside;
                  ring = world.take_completed ring;
                  dio_ring = world.take_completed dio_ring;
                  files_closing = n';
                },
                rw e1 (rw e2 (rw e3 (rw e4 refl))),
                steps r3 (closes _ close_op files n' ctx' e4),
              )
        ]
  ]

  -- From a state whose machine a run comes to, a round comes to such a state again, unless one of its
  -- polls panics, a ring answers one of its submissions with an error other than `EBUSY`, or after the
  -- polls there are more files to close than a `usize` counts.
  pub round-Reach :
      (s : Run T O W R)
      → Reach close_id (machine world laws close_id s)
      → ((s' : Run T O W R) × (round world close_id close_op s ≡ ok s')
          × Reach close_id (machine world laws close_id s'))
        ⊎ ((cause : Cause) × RoundPanics world cause s)
  unfolding round
  round-Reach s r = elim (poll_notified-Goes world laws close_id s r) [
    | inr (cause, panics) ↦ inr (cause, in_polls panics)
    | inl (s1, e1, r1, same) ↦ elim (end_round-Reach s1 r1) [
      | inr (inl refused) ↦ inr (ring_refuses, after_polls s1 e1 refused)
      | inr (inr many) ↦ inr (too_many_files, too_many s1 e1 many)
      | inl (s2, e2, r2) ↦ inl (s2, rw e1 e2, r2)
    ]
  ]
