-- ===== src/Executor/Finishing.antt =====
-- A completion, and the taking of a result, keep what holds of the operations of executor.rs; a
-- completion of an entry that is out comes to no panic.
use io.Prelude.{
  ℕ, ◌-◌, ◌≡◌, ◌≢◌, ◌⊎◌, inl, inr, refl, sym, ap, ◌∙◌, List, ◌∷◌, some, ok, false, arith, All-both,
  total, Bool-cases,
}
use io.Slab.{Key}
use io.Slab
use io.Slab.Agreement.{same_key, same_key_iff}
use io.VecMap.Laws.{view}
use io.Executor.Operations.{SameQueues, Answered, complete-Answered}
use io.Executor.Outstanding.{id_of, at_index, elsewhere, Live, Tracks}
use io.Executor.{ℤ, Sqe, Context, key_eq, on_completion}

module _ {T O : Type 0} (close_id : Key) where
  -- An operation of a task, the first entry, completes.
  complete-Tracks :
      (ctx ctx' : Context T O) (e : Sqe O) (out : List (Sqe O)) (n : ℕ) (result : ℤ) (task_id : Key)
      → Tracks close_id ctx (e ∷ out) n
      → (id_of e).index ≢ close_id.index
      → Slab.get ctx.io (id_of e) ≡ some task_id
      → Answered result (id_of e) task_id ctx ctx'
      → Tracks close_id ctx' out n
  complete-Tracks ctx ctx' e out n result task_id t apart owned a =
      let io_id = id_of e in
      let once : total (at_index io_id.index) out ≡ 0 = ground (arith, t.once io_id.index apart) in
      let others = elsewhere io_id.index out once in
      let reads : (k : Key) → Slab.get ctx'.io k ≡ Slab.get ctx.io k =
        λ k. ap (λ s. Slab.get s k) a.same_io in
      let earlier : (k : Key) (r : ℤ)
          → view key_eq ctx'.io_results k ≡ some r
          → key_eq.same io_id k ≡ false
          → view key_eq ctx.io_results k ≡ some r =
        λ k r h old. ground (arith, a.results k, old, h) in
      let away : (k : Key) (r : ℤ) → view key_eq ctx.io_results k ≡ some r → k.index ≢ io_id.index =
        λ k r h i. let (ne, at, task, has) = t.finished k r h in ground (arith, at, i) in
      let (closer, closes) = t.closer in
      record {
        sound = a.sound;
        live =
            All-both {P = Live close_id ctx} {R = Live close_id ctx'}
              (λ x l ne. elim l [
                | inl same ↦ inl same
                | inr other ↦
                    let (c, task, has, waits) = other in
                    inr (
                      c,
                      task,
                      reads (id_of x) ∙ has,
                      ground (arith, a.results (id_of x), waits, ne),
                    )
              ])
              out t.live.1 others;
        once = λ i ne. omega (arith, t.once i ne);
        counted = ground (arith, t.counted, apart);
        closer = (closer, reads close_id ∙ closes);
        finished = λ k r h. elim (Bool-cases (key_eq.same io_id k)) [
          | inl new ↦
              let same : io_id ≡ k = (key_eq.same_iff io_id k).1 new in
              (
                (λ i. apart (ap (λ q. q.index) same ∙ i)),
                ap (λ q. total (at_index q.index) out) (sym same) ∙ once,
                task_id,
                reads k ∙ ap (Slab.get ctx.io) (sym same) ∙ owned,
              )
          | inr old ↦
              let (ne, at, task, has) = t.finished k r (earlier k r h old) in
              (ne, omega (arith, at), task, reads k ∙ has)
        ];
        single = λ k p r s h g i. elim (Bool-cases (key_eq.same io_id k)) [
          | inl new ↦ elim (Bool-cases (key_eq.same io_id p)) [
            | inl also ↦ sym ((key_eq.same_iff io_id k).1 new) ∙ (key_eq.same_iff io_id p).1 also
            | inr old ↦ absurd (
                away p s (earlier p s g old)
                  (sym i ∙ sym (ap (λ q. q.index) ((key_eq.same_iff io_id k).1 new))))
          ]
          | inr old ↦ elim (Bool-cases (key_eq.same io_id p)) [
            | inl new ↦ absurd (
                away k r (earlier k r h old)
                  (i ∙ sym (ap (λ q. q.index) ((key_eq.same_iff io_id p).1 new))))
            | inr also ↦ t.single k p r s (earlier k r h old) (earlier p s g also) i
          ]
        ];
      }

  -- What a completion does to the context: nothing for a file that was closed, or the task that queued the
  -- operation has its answer.
  abbrev pub Effect : Sqe O → ℤ → Context T O → Context T O → Type 0
  Effect e result ctx ctx' =
      ((id_of e ≡ close_id) × (ctx ≡ ctx'))
      ⊎ ((task : Key) × (Slab.get ctx.io (id_of e) ≡ some task)
          × Answered result (id_of e) task ctx ctx')

  -- A completion of an entry that is out comes to no panic, and keeps what holds.
  pub on_completion-Tracks :
      (ctx : Context T O) (e : Sqe O) (out : List (Sqe O)) (n : ℕ) (result : ℤ)
      → Tracks close_id ctx (e ∷ out) n
      → (n' : ℕ) × (ctx' : Context T O) × (on_completion close_id e.user_data result (n, ctx)
          ≡ ok (n', ctx'))
        × Tracks close_id ctx' out n'
        × SameQueues ctx ctx'
        × Effect e result ctx ctx'
  unfolding on_completion
  on_completion-Tracks ctx e out n result t = elim (Bool-cases (same_key (id_of e) close_id)) [
    | inl close ↦ (
      n - 1,
      ctx,
      ground (arith, close, t.counted),
      record {
        sound = t.sound;
        live = t.live.1;
        once = λ i ne. omega (arith, t.once i ne);
        counted = ground (arith, t.counted, close);
        closer = t.closer;
        finished = λ k r h.
            let (ne, at, task, has) = t.finished k r h in (ne, omega (arith, at), task, has);
        single = t.single;
      },
      record { same_io_queue = refl; same_dio_queue = refl; same_count = refl; same_timers = refl },
      inl ((same_key_iff (id_of e) close_id).1 close, refl),
    )
    | inr other ↦ elim t.live.0 [
      | inl same ↦ absurd (ground (arith, (same_key_iff (id_of e) close_id).0 same, other))
      | inr live ↦
          let (apart, task, has, waits) = live in
          let (ctx', e', a) = complete-Answered e.user_data result task ctx t.sound has in
          (
            n,
            ctx',
            rw other (rw e' refl),
            complete-Tracks ctx ctx' e out n result task t apart has a,
            a.queues,
            inr (task, has, a),
          )
    ]
  ]
