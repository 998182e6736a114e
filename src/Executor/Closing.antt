-- ===== src/Executor/Closing.antt =====
-- The closing of dropped files keeps the invariant of executor.rs.
use io.Prelude.{
  ℕ, ◌+◌, ◌≡◌, refl, sym, ap, List, [], ◌∷◌, ◌++◌, ok, arith, subst, same_value, first_ran,
  last_to_front, inl,
}
use io.Word.{add_u64}
use io.Slab.{Key}
use io.Slab.KeyCode.{to_u64, from_u64-to_u64}
use io.VecMap
use io.VecMap.Laws.{IsValid, insert-Updated, clear-IsValid}
use io.Executor.Outstanding.{id_of, Tracks, Tracks-perm}
use io.Executor.Taking.{Tracks-kept}
use io.Executor.Machine.{Machine}
use io.Executor.Consistent.{Consistent, all_out}
use io.Executor.{Sqe, Context, key_eq, close_files}

module _ {T O : Type 0} (close_id : Key) where
  -- An entry that closes a file joins those that are out.
  Tracks-closing :
      (ctx : Context T O) (e : Sqe O) (out : List (Sqe O)) (n : ℕ)
      → Tracks close_id ctx out n
      → id_of e ≡ close_id
      → Tracks close_id ctx (e ∷ out) (n + 1)
  Tracks-closing ctx e out n t same =
      let index : (id_of e).index ≡ close_id.index = ap (λ k. k.index) same in
      let generation : (id_of e).generation ≡ close_id.generation = ap (λ k. k.generation) same in
      record {
        sound = t.sound;
        live = (inl same, t.live);
        once = λ i ne. ground (arith, t.once i ne, index, ne);
        counted = ground (arith, t.counted, index, generation);
        closer = t.closer;
        finished = λ k r h.
            let (ne, at, task, has) = t.finished k r h in
            (ne, ground (arith, at, index, ne), task, has);
        single = t.single;
      }

  -- The queues themselves do not matter, beside the entries.
  pub Tracks-requeued :
      (ctx ctx' : Context T O) (out : List (Sqe O)) (n : ℕ)
      → Tracks close_id ctx out n
      → ctx'.io ≡ ctx.io
      → ctx'.io_results ≡ ctx.io_results
      → ctx'.to_notify ≡ ctx.to_notify
      → Tracks close_id ctx' out n
  Tracks-requeued ctx ctx' out n t same_io same_results same_notify =
      let v = t.sound in
      Tracks-kept close_id ctx ctx' out n t
        (record {
          running = rw same_io v.running;
          generation = rw same_io v.generation;
          small = rw same_io v.small;
          results = rw same_results v.results;
          notified = rw same_notify v.notified;
        })
        same_io (λ k. ap (λ r. VecMap.Laws.view key_eq r k) same_results)

  pub close_files-Consistent :
      (close_op : ℕ → O) (files : List ℕ) (m : Machine T O) (n : ℕ) (ctx : Context T O)
      → Consistent close_id m
      → close_files close_id close_op files (m.files_closing, m.ctx) ≡ ok (n, ctx)
      → Consistent close_id (record m { ctx = ctx; files_closing = n })
  unfolding close_files
  close_files-Consistent close_op [] m n ctx c h =
      subst (λ p. Consistent close_id (record m { ctx = p.1; files_closing = p.0 }))
        (same_value {m = ok (m.files_closing, m.ctx)} refl h) c
  close_files-Consistent close_op (fd ∷ files) m n ctx c h =
      let (n1, rest, sum) = first_ran (add_u64 m.files_closing 1) (sym h) in
      let entry : Sqe O = record { operation = close_op fd; user_data = to_u64 close_id } in
      let ctx1 = record m.ctx { io_queue = m.ctx.io_queue ++ entry ∷ [] } in
      let back : id_of entry ≡ close_id =
        from_u64-to_u64 close_id c.close_index c.close_generation in
      let more : m.files_closing + 1 ≡ n1 = ground (arith, sum) in
      let m1 : Machine T O = record m { ctx = ctx1; files_closing = n1 } in
      close_files-Consistent close_op files m1 n ctx
        (record {
          tracks = subst (Tracks close_id ctx1 (all_out ctx1 m.kernel m.dio_kernel)) more (
              Tracks-perm close_id
                (last_to_front entry m.ctx.io_queue (m.kernel ++ (m.ctx.dio_queue ++ m.dio_kernel)))
                (Tracks-requeued m.ctx ctx1 (entry ∷ all_out m.ctx m.kernel m.dio_kernel)
                  (m.files_closing + 1)
                  (Tracks-closing m.ctx entry (all_out m.ctx m.kernel m.dio_kernel) m.files_closing
                    c.tracks back)
                  refl refl refl));
          direct = c.direct;
          timers = c.timers;
          close_index = c.close_index;
          close_generation = c.close_generation;
        })
        (sym rest)
