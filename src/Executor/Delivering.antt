-- ===== src/Executor/Delivering.antt =====
-- What the loop over the completions of executor.rs delivers: every finished operation has its result, and
-- its task is to be notified.
use io.Prelude.{
  ℕ, zero, suc, ◌≡◌, ◌≢◌, inl, inr, refl, sym, ap, ◌∙◌, subst, List, [], ◌∷◌, ◌++◌, some, ok, true,
  arith, Permᴰ, get_elem?, total, total-append, same_value,
}
use io.Slab.{Key}
use io.Slab
use io.VecMap.Laws.{view}
use io.Executor.Operations.{take_io_result-Taken}
use io.Executor.Outstanding.{id_of, at_index, Tracks}
use io.Executor.Finishing.{Effect, on_completion-Tracks}
use io.Executor.Machine.{Machine, Reach, on_completions, reap}
use io.Executor.Consistent.{finished_entries, all_out, reap-Tracks, reap-Consistent}
use io.Executor.Starting.{Reach-Consistent}
use io.Executor.{ℤ, Sqe, Context, key_eq, take_io_result}

first_same : {A : Type 0} {x y : A} → some x ≡ some y → x ≡ y
first_same e = cc

module _ {T O : Type 0} where
  -- What no completion of another operation changes: the result of a key, a notification, and who owns what.
  pub record Passed (k task : Key) (ctx ctx' : Context T O) : Type 0 where
    pub same_result : view key_eq ctx'.io_results k ≡ view key_eq ctx.io_results k
    pub still_notified :
        view key_eq ctx.to_notify task ≡ some tt → view key_eq ctx'.to_notify task ≡ some tt
    pub same_io : ctx'.io ≡ ctx.io

  Effect-Passed :
      (close_id k task : Key) (e : Sqe O) (result : ℤ) (ctx ctx' : Context T O)
      → (id_of e).index ≢ k.index
      → Effect close_id e result ctx ctx'
      → Passed k task ctx ctx'
  Effect-Passed close_id k task e result ctx ctx' apart (inl (_, same)) =
      subst (Passed k task ctx) same
        (record { same_result = refl; still_notified = λ h. h; same_io = refl })
  Effect-Passed close_id k task e result ctx ctx' apart (inr (owner, _, a)) = record {
    same_result = ground (arith, a.results k, apart);
    still_notified = λ h. ground (arith, a.notified task, h);
    same_io = a.same_io;
  }

  Passed-trans :
      (k task : Key) (a b c : Context T O)
      → Passed k task a b
      → Passed k task b c
      → Passed k task a c
  Passed-trans k task a b c p q = record {
    same_result = q.same_result ∙ p.same_result;
    still_notified = λ h. q.still_notified (p.still_notified h);
    same_io = q.same_io ∙ p.same_io;
  }

  -- The completions of entries with other indices.
  pub on_completions-Passed :
      (close_id k task : Key) (cq : List (Sqe O × ℤ)) (ctx ctx' : Context T O) (out : List (Sqe O))
      (n n' : ℕ)
      → Tracks close_id ctx (finished_entries cq ++ out) n
      → total (at_index k.index) (finished_entries cq) ≡ 0
      → on_completions close_id cq (n, ctx) ≡ ok (n', ctx')
      → Passed k task ctx ctx'
  unfolding on_completions
  on_completions-Passed close_id k task [] ctx ctx' out n n' t none h =
      subst (Passed k task ctx) (ap (λ p. p.1) (same_value {m = ok (n, ctx)} refl h))
        (record { same_result = refl; still_notified = λ q. q; same_io = refl })
  on_completions-Passed close_id k task ((e, result) ∷ cq) ctx ctx' out n n' t none h =
      let (n1, ctx1, e1, t1, _, did) =
        on_completion-Tracks close_id ctx e (finished_entries cq ++ out) n result t in
      let apart : (id_of e).index ≢ k.index = λ same. ground (arith, none, same) in
      Passed-trans k task ctx ctx1 ctx' (Effect-Passed close_id k task e result ctx ctx1 apart did)
        (on_completions-Passed close_id k task cq ctx1 ctx' out n1 n' t1 (omega (arith, none))
          (rw e1 at h))

  -- What the completion of an operation of a task comes to at the end of the loop.
  pub record Delivered (io_id task : Key) (result : ℤ) (ctx ctx' : Context T O) : Type 0 where
    pub owner : Slab.get ctx.io io_id ≡ some task
    pub stored : view key_eq ctx'.io_results io_id ≡ some result
    pub notified : view key_eq ctx'.to_notify task ≡ some tt
    pub same_io : ctx'.io ≡ ctx.io

  -- The first completion, and those behind it.
  first-Delivered :
      (close_id : Key) (cq : List (Sqe O × ℤ)) (e : Sqe O) (result : ℤ) (ctx ctx' : Context T O)
      (out : List (Sqe O)) (n n' : ℕ)
      → Tracks close_id ctx (finished_entries ((e, result) ∷ cq) ++ out) n
      → id_of e ≢ close_id
      → on_completions close_id ((e, result) ∷ cq) (n, ctx) ≡ ok (n', ctx')
      → (task : Key) × Delivered (id_of e) task result ctx ctx'
  unfolding on_completions
  first-Delivered close_id cq e result ctx ctx' out n n' t ne h =
      let (n1, ctx1, e1, t1, _, did) =
        on_completion-Tracks close_id ctx e (finished_entries cq ++ out) n result t in
      elim did [
        | inl (same, _) ↦ absurd (ne same)
        | inr (task, owned, a) ↦
            let io_id = id_of e in
            let itself : key_eq.same io_id io_id ≡ true = (key_eq.same_iff io_id io_id).0 refl in
            let own : key_eq.same task task ≡ true = (key_eq.same_iff task task).0 refl in
            let stored : view key_eq ctx1.io_results io_id ≡ some result =
              a.results io_id ∙ rw itself refl in
            let (_, gone, _, _) = t1.finished io_id result stored in
            let none : total (at_index io_id.index) (finished_entries cq) ≡ 0 =
              omega (arith, gone, total-append (at_index io_id.index) (finished_entries cq) out) in
            let p =
              on_completions-Passed close_id io_id task cq ctx1 ctx' out n1 n' t1 none
                (rw e1 at h) in
            (
              task,
              record {
                owner = owned;
                stored = p.same_result ∙ stored;
                notified = p.still_notified (a.notified task ∙ rw own refl);
                same_io = p.same_io ∙ a.same_io;
              },
            )
      ]

  on_completions-Delivered :
      (close_id : Key) (cq : List (Sqe O × ℤ)) (i : ℕ) (e : Sqe O) (result : ℤ)
      (ctx ctx' : Context T O) (out : List (Sqe O)) (n n' : ℕ)
      → Tracks close_id ctx (finished_entries cq ++ out) n
      → get_elem? cq i ≡ some (e, result)
      → id_of e ≢ close_id
      → on_completions close_id cq (n, ctx) ≡ ok (n', ctx')
      → (task : Key) × Delivered (id_of e) task result ctx ctx'
  unfolding on_completions
  on_completions-Delivered close_id [] i e result ctx ctx' out n n' t there ne h = cc
  on_completions-Delivered close_id ((x, r) ∷ cq) (suc i) e result ctx ctx' out n n' t there ne h =
      let (n1, ctx1, e1, t1, _, did) =
        on_completion-Tracks close_id ctx x (finished_entries cq ++ out) n r t in
      let (task, d) =
        on_completions-Delivered close_id cq i e result ctx1 ctx' out n1 n' t1 there ne
          (rw e1 at h) in
      let same : ctx1.io ≡ ctx.io = effect_same_io x r ctx ctx1 did in
      (
        task,
        record {
          owner = rw (← same) d.owner;
          stored = d.stored;
          notified = d.notified;
          same_io = d.same_io ∙ same;
        },
      )
    where
      effect_same_io :
          (x : Sqe O) (r : ℤ) (ctx ctx1 : Context T O)
          → Effect close_id x r ctx ctx1
          → ctx1.io ≡ ctx.io
      effect_same_io x r ctx ctx1 (inl (_, same)) = ap (λ c. c.io) (sym same)
      effect_same_io x r ctx ctx1 (inr (_, _, a)) = a.same_io
  on_completions-Delivered close_id ((x, r) ∷ cq) zero e result ctx ctx' out n n' t there ne h =
      let same : (x, r) ≡ (e, result) = first_same there in
      let other : id_of x ≢ close_id = λ q. ne (ap (λ p. id_of p.0) (sym same) ∙ q) in
      subst {A = Sqe O × ℤ} (λ p. (task : Key) × Delivered (id_of p.0) task p.1 ctx ctx') same
        (first-Delivered close_id cq x r ctx ctx' out n n' t other h)

  -- In every machine that a run comes to, whatever the rings have finished, in any order, the loop over the
  -- completions delivers each operation of a task: its key reads a task, that task is to be notified,
  -- and the next look for the result with that key finds it.
  pub reap-Delivered :
      {close_id : Key} {m : Machine T O} (cq dio_cq : List (Sqe O × ℤ))
      (kernel dio_kernel : List (Sqe O)) (i : ℕ) (e : Sqe O) (result : ℤ)
      → Reach close_id m
      → Permᴰ m.kernel (finished_entries cq ++ kernel)
      → Permᴰ m.dio_kernel (finished_entries dio_cq ++ dio_kernel)
      → get_elem? (cq ++ dio_cq) i ≡ some (e, result)
      → id_of e ≢ close_id
      → (n : ℕ) × (ctx : Context T O) × (reap close_id cq dio_cq (m.files_closing, m.ctx)
          ≡ ok (n, ctx))
        × (task : Key) × (Slab.get m.ctx.io (id_of e) ≡ some task)
        × (view key_eq ctx.to_notify task ≡ some tt)
        × (ctx' : Context T O) × (take_io_result (id_of e) ctx ≡ ok (ctx', some result))
  unfolding reap
  reap-Delivered {close_id} {m} cq dio_cq kernel dio_kernel i e result r p q there ne =
      let c = Reach-Consistent r in
      let (n, ctx, made, after) = reap-Consistent close_id m cq dio_cq kernel dio_kernel c p q in
      let (left, subtracted, _, t) = reap-Tracks close_id m cq dio_cq kernel dio_kernel c p q in
      let ran : on_completions close_id (cq ++ dio_cq)
            (m.files_closing, record m.ctx { num_dio_running = left })
          ≡ ok (n, ctx) =
        rw subtracted at made in
      let (task, d) =
        on_completions-Delivered close_id (cq ++ dio_cq) i e result
          (record m.ctx { num_dio_running = left }) ctx (all_out m.ctx kernel dio_kernel)
          m.files_closing n t there ne ran in
      let (ctx', taken, _) =
        take_io_result-Taken (id_of e) task result ctx after.tracks.sound (rw d.same_io d.owner)
          d.stored in
      (n, ctx, made, task, d.owner, d.notified, ctx', taken)
