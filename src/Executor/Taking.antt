-- ===== src/Executor/Taking.antt =====
-- What a task does between two turns of the kernel keeps what holds of the operations of executor.rs.
use io.Prelude.{
  ℕ, ◌≡◌, ◌≢◌, inl, inr, sym, ap, ◌∙◌, List, Option, some, ok, arith, All-both, Option-cases, subst,
  same_value,
}
use io.Slab.{Key}
use io.Slab
use io.VecMap.Laws.{view}
use io.Executor.Queueing.{Sound}
use io.Executor.Operations.{SameQueues, Taken, take_io_result-Taken, take_io_result-Unanswered}
use io.Executor.Outstanding.{id_of, elsewhere, Live, Tracks}
use io.Executor.{ℤ, Sqe, Context, key_eq, take_io_result}

module _ {T O : Type 0} (close_id : Key) where
  -- Where the slab of operations and the results are as before, all is as before.
  pub Tracks-kept :
      (ctx ctx' : Context T O) (out : List (Sqe O)) (n : ℕ)
      → Tracks close_id ctx out n
      → Sound ctx'
      → ctx'.io ≡ ctx.io
      → ((q : Key) → view key_eq ctx'.io_results q ≡ view key_eq ctx.io_results q)
      → Tracks close_id ctx' out n
  Tracks-kept ctx ctx' out n t sound same_io same_results =
      let reads : (k : Key) → Slab.get ctx'.io k ≡ Slab.get ctx.io k =
        λ k. ap (λ s. Slab.get s k) same_io in
      let (closer, closes) = t.closer in
      record {
        sound = sound;
        live =
            All-both {P = Live close_id ctx} {R = Live close_id ctx'}
              (λ x l m. elim l [
                | inl same ↦ inl same
                | inr other ↦
                    let (c, task, has, waits) = other in
                    inr (c, task, reads (id_of x) ∙ has, same_results (id_of x) ∙ waits)
              ])
              out t.live t.live;
        once = t.once;
        counted = t.counted;
        closer = (closer, reads close_id ∙ closes);
        finished = λ k r h.
            let (ne, at, task, has) = t.finished k r (sym (same_results k) ∙ h) in
            (ne, at, task, reads k ∙ has);
        single = λ k p r s h g i.
            t.single k p r s (sym (same_results k) ∙ h) (sym (same_results p) ∙ g) i;
      }

  -- A result is taken, and its key given back.
  Taken-Tracks :
      (ctx ctx' : Context T O) (io_id : Key) (result : ℤ) (out : List (Sqe O)) (n : ℕ)
      → Tracks close_id ctx out n
      → view key_eq ctx.io_results io_id ≡ some result
      → Taken io_id ctx ctx'
      → Tracks close_id ctx' out n
  Taken-Tracks ctx ctx' io_id result out n t there a =
      let (apart, zero_at, owner, owned) = t.finished io_id result there in
      let others = elsewhere io_id.index out zero_at in
      let reads : (k : Key) → k.index ≢ io_id.index → Slab.get ctx'.io k ≡ Slab.get ctx.io k =
        λ k ne. ground (arith, a.retired k, ne) in
      let (closer, closes) = t.closer in
      let earlier : (k : Key) (r : ℤ)
          → view key_eq ctx'.io_results k ≡ some r
          → view key_eq ctx.io_results k ≡ some r =
        λ k r h. ground (arith, a.no_result k, h) in
      record {
        sound = a.sound;
        live =
            All-both {P = Live close_id ctx} {R = Live close_id ctx'}
              (λ x l ne. elim l [
                | inl same ↦ inl same
                | inr other ↦
                    let (c, task, has, waits) = other in
                    inr (
                      c,
                      task,
                      reads (id_of x) ne ∙ has,
                      ground (arith, a.no_result (id_of x), waits),
                    )
              ])
              out t.live others;
        once = t.once;
        counted = t.counted;
        closer = (closer, reads close_id (λ i. apart (sym i)) ∙ closes);
        finished = λ k r h.
            let (ne, at, task, has) = t.finished k r (earlier k r h) in
            let away : k.index ≢ io_id.index = λ i.
              let same : io_id ≡ k = t.single io_id k result r there (earlier k r h) (sym i) in
              absurd (ground (arith, a.no_result k, h, (key_eq.same_iff io_id k).0 same)) in
            (ne, at, task, reads k away ∙ has);
        single = λ k p r s h g i. t.single k p r s (earlier k r h) (earlier p s g) i;
      }

  -- Whatever key a task looks for a result with, `take_io_result` keeps what holds.
  pub take_io_result-Tracks :
      (ctx ctx' : Context T O) (io_id : Key) (found : Option ℤ) (out : List (Sqe O)) (n : ℕ)
      → Tracks close_id ctx out n
      → take_io_result io_id ctx ≡ ok (ctx', found)
      → Tracks close_id ctx' out n × SameQueues ctx ctx'
  take_io_result-Tracks ctx ctx' io_id found out n t h =
      elim (Option-cases (view key_eq ctx.io_results io_id)) [
        | inl absent ↦
            let (c, e, u) = take_io_result-Unanswered io_id ctx t.sound absent in
            let same : c ≡ ctx' = ap (λ p. p.0) (same_value e h) in
            subst (λ (x : Context T O). Tracks close_id x out n × SameQueues ctx x) same
              (Tracks-kept ctx c out n t u.sound u.same_io u.same_results, u.queues)
        | inr (r, there) ↦
            let (apart, zero_at, owner, owned) = t.finished io_id r there in
            let (c, e, a) = take_io_result-Taken io_id owner r ctx t.sound owned there in
            let same : c ≡ ctx' = ap (λ p. p.0) (same_value e h) in
            subst (λ (x : Context T O). Tracks close_id x out n × SameQueues ctx x) same
              (Taken-Tracks ctx c io_id r out n t there a, a.queues)
      ]
