-- ===== src/Executor/Keeping.antt =====
-- A result of executor.rs stays until its key is used to take it, whatever else happens.
use io.Prelude.{
  ℕ, ◌≡◌, ◌⊎◌, inl, inr, refl, sym, ap, ◌∙◌, subst, List, [], ◌∷◌, ◌++◌, Option, some, ok, arith,
  Bool-cases, Option-cases, first_ran, same_value, total-append, Bool, true, false, ltb, ◌-◌, total,
}
use io.Word.{add_u64}
use io.Slab.{Key}
use io.Slab
use io.VecMap
use io.VecMap.Laws.{view}
use io.Executor.Queueing.{ran-Queued}
use io.Executor.Operations.{take_io_result-Taken, take_io_result-Unanswered}
use io.Executor.Outstanding.{at_index}
use io.Executor.Machine.{
  Machine, Step, Reach, on_completions, reap, queues, takes, sets_timer, yields, spawns, notifies,
  turns, wakes, submits, submits_direct, reaps, fires, closes,
}
use io.Executor.Consistent.{Consistent, finished_entries, all_out, reap-Tracks}
use io.Executor.Starting.{Reach-Consistent}
use io.Executor.Loop.Submitting.{Steps, rests, then_step, Reach-Steps}
use io.Executor.Delivering.{on_completions-Passed}
use io.Executor.{
  ℤ, Sqe, Context, IoResults, key_eq, notify, take_io_result, yield_if_needed, spawn, close_files,
}

module _ {T O : Type 0} where
  notify_keeps :
      (task_id : Key) (ctx ctx' : Context T O)
      → notify task_id ctx ≡ ok ctx'
      → ctx'.io_results ≡ ctx.io_results
  unfolding notify
  notify_keeps task_id ctx ctx' h =
      let (made, h1, _) = first_ran (VecMap.insert key_eq ctx.to_notify task_id tt) (sym h) in
      ap (λ c. c.io_results) (same_value {m = ok ctx'} refl h1)

  yield_keeps :
      (now : ℕ) (ctx ctx' : Context T O) (given_way : Bool)
      → yield_if_needed now ctx ≡ ok (ctx', given_way)
      → ctx'.io_results ≡ ctx.io_results
  unfolding yield_if_needed
  yield_keeps now ctx ctx' given_way h =
      elim (Bool-cases (ltb (now - ctx.start) ctx.preempt_duration)) [
        | inl stays ↦
            let made : yield_if_needed now ctx ≡ ok (ctx, false) = rw stays refl in
            ap (λ p. p.0.io_results) (same_value h made)
        | inr leaves ↦
            let (ctx1, out, made) =
              first_ran {rest = λ x. ok (x, true)} (notify ctx.task_id ctx)
                (sym (rw leaves at h)) in
            ap (λ p. p.0.io_results) (same_value {m = ok (ctx', given_way)} refl out)
            ∙ notify_keeps ctx.task_id ctx ctx1 (sym made)
      ]

  spawn_keeps :
      (task : Key → T) (ctx ctx' : Context T O)
      → spawn task ctx ≡ ok ctx'
      → ctx'.io_results ≡ ctx.io_results
  unfolding spawn
  spawn_keeps task ctx ctx' h =
      let ((tasks, task_id), h', _) =
        first_ran (Slab.insert ctx.tasks (task ctx.task_id)) (sym h) in
      notify_keeps task_id (record ctx { tasks = tasks }) ctx' (sym h')

  close_files_keeps :
      (close_id : Key) (close_op : ℕ → O) (files : List ℕ) (n n' : ℕ) (ctx ctx' : Context T O)
      → close_files close_id close_op files (n, ctx) ≡ ok (n', ctx')
      → ctx'.io_results ≡ ctx.io_results
  unfolding close_files
  close_files_keeps close_id close_op [] n n' ctx ctx' h =
      ap (λ p. p.1.io_results) (same_value {m = ok (n', ctx')} refl (sym h))
  close_files_keeps close_id close_op (fd ∷ files) n n' ctx ctx' h =
      let (n1, rest, _) = first_ran (add_u64 n 1) (sym h) in
      close_files_keeps close_id close_op files n1 n' _ ctx' (sym rest)

  -- Taking with another key leaves the result.
  take_keeps :
      {close_id : Key} (m : Machine T O) (k io_id : Key) (r : ℤ) (found : Option ℤ)
      (ctx : Context T O)
      → Consistent close_id m
      → view key_eq m.ctx.io_results k ≡ some r
      → key_eq.same io_id k ≡ false
      → take_io_result io_id m.ctx ≡ ok (ctx, found)
      → view key_eq ctx.io_results k ≡ some r
  take_keeps m k io_id r found ctx c there other h =
      elim (Option-cases (view key_eq m.ctx.io_results io_id)) [
        | inl absent ↦
            let (ctx1, made, u) = take_io_result-Unanswered io_id m.ctx c.tracks.sound absent in
            subst (λ x. view key_eq x.io_results k ≡ some r) (ap (λ p. p.0) (same_value made h))
              (u.same_results k ∙ there)
        | inr (s, has) ↦
            let (_, _, task, owned) = c.tracks.finished io_id s has in
            let (ctx1, made, t) =
              take_io_result-Taken io_id task s m.ctx c.tracks.sound owned has in
            subst (λ x. view key_eq x.io_results k ≡ some r) (ap (λ p. p.0) (same_value made h))
              (t.no_result k ∙ rw other there)
      ]

  -- In a machine that a run comes to, a result that is there stays in every step, but for the one in which
  -- its key takes it: and that one finds it.
  Step-Kept :
      {close_id : Key} {m m' : Machine T O} (k : Key) (r : ℤ)
      → Reach close_id m
      → Step close_id m m'
      → view key_eq m.ctx.io_results k ≡ some r
      → (view key_eq m'.ctx.io_results k ≡ some r)
        ⊎ ((ctx : Context T O) × (take_io_result k m.ctx ≡ ok (ctx, some r))
            × (m' ≡ record m { ctx = ctx }))
  unfolding reap io.Executor.notify_when
  Step-Kept k r reach (queues m operation direct_io ctx io_id h) there =
      let q =
        ran-Queued operation direct_io m.ctx ctx io_id (Reach-Consistent reach).tracks.sound h in
      inl (ap (λ x. view key_eq x k) q.same_results ∙ there)
  Step-Kept k r reach (takes m io_id found ctx h) there =
      let c = Reach-Consistent reach in
      elim (Bool-cases (key_eq.same io_id k)) [
        | inr other ↦ inl (take_keeps m k io_id r found ctx c there other h)
        | inl mine ↦
            let same : io_id ≡ k = (key_eq.same_iff io_id k).1 mine in
            let (_, _, task, owned) = c.tracks.finished k r there in
            let (ctx1, made, _) = take_io_result-Taken k task r m.ctx c.tracks.sound owned there in
            let made' : take_io_result io_id m.ctx ≡ ok (ctx1, some r) = rw same made in
            inr (ctx1, made, ap (λ p. record m { ctx = p.0 }) (same_value h made'))
      ]
  Step-Kept k r reach (sets_timer m instant) there = inl there
  Step-Kept k r reach (yields m now given_way ctx h) there =
      inl (ap (λ x. view key_eq x k) (yield_keeps now m.ctx ctx given_way h) ∙ there)
  Step-Kept k r reach (spawns m task ctx h) there =
      inl (ap (λ x. view key_eq x k) (spawn_keeps task m.ctx ctx h) ∙ there)
  Step-Kept k r reach (notifies m task_id ctx h) there =
      inl (ap (λ x. view key_eq x k) (notify_keeps task_id m.ctx ctx h) ∙ there)
  Step-Kept k r reach (turns m start task_id tasks) there = inl there
  Step-Kept k r reach (wakes m) there = inl there
  Step-Kept k r reach (submits m e rest h) there = inl there
  Step-Kept k r reach (submits_direct m e rest h) there = inl there
  Step-Kept {close_id} k r reach (reaps m cq dio_cq kernel dio_kernel n ctx p q h) there =
      let c = Reach-Consistent reach in
      let (left, subtracted, _, t) = reap-Tracks close_id m cq dio_cq kernel dio_kernel c p q in
      let ran : on_completions close_id (cq ++ dio_cq)
            (m.files_closing, record m.ctx { num_dio_running = left })
          ≡ ok (n, ctx) =
        rw subtracted at h in
      let (_, gone, _, _) = t.finished k r there in
      let none_there : total (at_index k.index) (finished_entries (cq ++ dio_cq)) ≡ 0 = omega (
        arith,
        gone,
        total-append (at_index k.index) (finished_entries (cq ++ dio_cq))
            (all_out m.ctx kernel dio_kernel),
      ) in
      let passed =
        on_completions-Passed close_id k k (cq ++ dio_cq) (record m.ctx { num_dio_running = left })
          ctx (all_out m.ctx kernel dio_kernel) m.files_closing n t none_there ran in
      inl (passed.same_result ∙ there)
  Step-Kept k r reach (fires m now when to_notify h) there = inl there
  Step-Kept {close_id} k r reach (closes m close_op files n ctx h) there = inl (
      ap (λ x. view key_eq x k)
        (close_files_keeps close_id close_op files m.files_closing n m.ctx ctx h)
      ∙ there)

  -- From a machine that a run comes to, in which a result is there for a key, any steps lead to machines in
  -- which it is still there, unless on the way the key was used to take it, and found it.
  pub Steps-Kept :
      {close_id : Key} {m m' : Machine T O} (k : Key) (r : ℤ)
      → Reach close_id m
      → Steps close_id m m'
      → view key_eq m.ctx.io_results k ≡ some r
      → (view key_eq m'.ctx.io_results k ≡ some r)
        ⊎ ((m1 : Machine T O) × (ctx : Context T O) × Steps close_id m m1
            × (take_io_result k m1.ctx ≡ ok (ctx, some r))
            × Steps close_id (record m1 { ctx = ctx }) m')
  Steps-Kept k r reach rests there = inl there
  Steps-Kept {close_id} {m} {m'} k r reach (then_step s t) there =
      elim (Steps-Kept k r reach s there) [
        | inr (m1, ctx, before, taken, later) ↦ inr (m1, ctx, before, taken, then_step later t)
        | inl kept ↦ elim (Step-Kept k r (Reach-Steps reach s) t kept) [
          | inl still ↦ inl still
          | inr (ctx, taken, same) ↦
              inr (_, ctx, s, taken, subst (λ x. Steps close_id x m') same rests)
        ]
      ]
