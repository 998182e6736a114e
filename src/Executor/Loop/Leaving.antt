-- ===== src/Executor/Loop/Leaving.antt =====
-- What the end of a round of executor.rs leaves beside the machine: what lies outside, and the count of files.
use io.Prelude.{ℕ, ◌≤◌, ◌≡◌, sym, ap, ◌∙◌, List, [], ◌∷◌, ok, Bool, false, first_ran, arith, true}
use io.Slab.{Key}
use io.Executor.Machine.{reap}
use io.Executor.Ring.{try_submit_io}
use io.Executor.Loop.{World, Run, submit_both, end_round}
use io.Executor.Loop.Ending.{reap_le}
use io.Executor.{Context, notify_timers, close_files}

pub ok_same : {A : Type 0} {x y : A} → ok x ≡ ok y → x ≡ y
ok_same e = cc

module _ {T O W R : Type 0} (world : World T O W R) where
  pub submit_both_leaves :
      (force : Bool) (s s' : Run T O W R)
      → submit_both world force s ≡ ok s'
      → (s'.outside ≡ s.outside) × (s'.files_closing ≡ s.files_closing)
  unfolding submit_both
  submit_both_leaves force s s' h =
      let ((q, r), h1, _) =
        first_ran (try_submit_io world.ring s.ctx.io_queue s.ring false) (sym h) in
      let ((q', r'), h2, _) =
        first_ran (try_submit_io world.ring s.ctx.dio_queue s.dio_ring force) h1 in
      (ap (λ x. x.outside) (ok_same h2), ap (λ x. x.files_closing) (ok_same h2))

  close_none :
      (close_id : Key) (close_op : ℕ → O) (files : List ℕ) (n n' : ℕ) (ctx ctx' : Context T O)
      → files ≡ []
      → close_files close_id close_op files (n, ctx) ≡ ok (n', ctx')
      → n' ≡ n
  unfolding close_files
  close_none close_id close_op [] n n' ctx ctx' e h = sym (ap (λ p. p.0) (ok_same h))
  close_none close_id close_op (fd ∷ files) n n' ctx ctx' e h = cc

  pub end_round_leaves :
      (close_id : Key) (close_op : ℕ → O) (s s' : Run T O W R)
      → world.files_to_close (world.now s.outside).1 ≡ []
      → end_round world close_id close_op s ≡ ok s'
      → (s'.outside ≡ world.clear_files (world.now s.outside).1)
        × (s'.files_closing ≤ s.files_closing)
  unfolding end_round
  end_round_leaves close_id close_op s s' none h =
      let (s1, h1, e1) = first_ran (submit_both world true s) (sym h) in
      let (same_outside, same_count) = submit_both_leaves true s s1 (sym e1) in
      let ring = world.sync_completed s1.ring in
      let dio_ring = world.sync_completed s1.dio_ring in
      let ((n, ctx), h2, e2) =
        first_ran
          (reap close_id (world.completed ring) (world.completed dio_ring)
            (s1.files_closing, s1.ctx))
          h1 in
      let less =
        reap_le close_id (world.completed ring) (world.completed dio_ring) s1.files_closing n s1.ctx
          ctx (sym e2) in
      let ((when, to_notify), h3, _) =
        first_ran (notify_timers (world.now s1.outside).0 ctx.notify_when ctx.to_notify) h2 in
      let files_none : world.files_to_close (world.now s1.outside).1 ≡ [] =
        ap (λ w. world.files_to_close (world.now w).1) same_outside ∙ none in
      let ((n', ctx'), h4, e4) =
        first_ran
          (close_files close_id close_op (world.files_to_close (world.now s1.outside).1)
            (n, record ctx { notify_when = when; to_notify = to_notify }))
          h3 in
      let last = ok_same h4 in
      let closed = close_none close_id close_op _ n n' _ ctx' files_none (sym e4) in
      (
        ap (λ x. x.outside) last ∙ ap (λ w. world.clear_files (world.now w).1) same_outside,
        omega (arith, less, closed, same_count, ap (λ x. x.files_closing) last),
      )
