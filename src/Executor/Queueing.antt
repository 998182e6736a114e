-- ===== src/Executor/Queueing.antt =====
-- `queue_io` of executor.rs: a new key for the operation, and its entry at the end of a queue.
use io.Prelude.{
  ℕ, ◌+◌, ◌≤◌, ◌<◌, ◌≡◌, ◌≢◌, not, refl, ap, ◌∙◌, List, [], ◌∷◌, ◌++◌, none, some, ok, length,
  if◌then◌else◌, Bool, true, false, arith, lt_of_get_elem?, sym, subst, first_ran, same_value,
}
use io.Word.{u32_mod, u64_mod, add_u64, add_u64-value}
use io.Slab.{Key, Slab}
use io.Slab
use io.Slab.KeyCode.{to_u64, from_u64, from_u64-to_u64}
use io.Slab.FreeList.{Linked}
use io.Slab.Validity as Slabs
use io.Slab.Inserting.{Inserted, insert-Inserted, ran-Inserted, next_key}
use io.VecMap.Laws.{IsValid}
use io.Executor.{Sqe, Context, key_eq, queue_io, enqueue}

-- The free list of a valid slab starts at an entry or just past the last.
first-le : (s : Slab Key) → Slabs.IsValid s → s.first_free_entry ≤ length s.elems
first-le s v = go v.chain v.linked
  where
    go : (js : List ℕ) → Linked s.elems s.first_free_entry js → s.first_free_entry ≤ length s.elems
    go [] (e, l) = omega (arith, e)
    go (j ∷ js) (n, p, q, l) = omega (arith, p, lt_of_get_elem? s.elems j q)

module _ {T O : Type 0} where
  -- The tables of the context are valid, and the generation and the length of the slab are `u32`s.
  pub record Sound (ctx : Context T O) : Type 0 where
    pub running : Slabs.IsValid ctx.io
    pub generation : ctx.io.current_generation < u32_mod
    pub small : length ctx.io.elems < u32_mod
    pub results : IsValid key_eq ctx.io_results
    pub notified : IsValid key_eq ctx.to_notify

  -- the queue that an operation goes to
  abbrev pub queue : Bool → Context T O → List (Sqe O)
  queue true ctx = ctx.dio_queue
  queue false ctx = ctx.io_queue

  -- What `queue_io` leaves: a new key, which reads the task, at the end of the queue.
  pub record Queued (operation : O) (direct_io : Bool) (ctx ctx' : Context T O) (io_id : Key)
      : Type 0 where
    pub made : queue_io operation direct_io ctx ≡ ok (ctx', io_id)
    pub sound : Sound ctx'
    pub unused : Slab.get ctx.io io_id ≡ none
    pub owned : Slab.get ctx'.io io_id ≡ some ctx.task_id
    pub entry : Sqe O
    pub behind : queue direct_io ctx' ≡ queue direct_io ctx ++ entry ∷ []
    pub same_operation : entry.operation ≡ operation
    pub coded : entry.user_data ≡ to_u64 io_id
    pub comes_back : from_u64 entry.user_data ≡ io_id
    pub small_index : io_id.index < u32_mod
    pub small_generation : io_id.generation < u32_mod
    pub same_results : ctx'.io_results ≡ ctx.io_results
    pub vacant : (k : Key) → k.index ≡ io_id.index → Slab.get ctx.io k ≡ none
    pub others : (k : Key) → k.index ≢ io_id.index → Slab.get ctx'.io k ≡ Slab.get ctx.io k
    pub other_queue : queue (not direct_io) ctx' ≡ queue (not direct_io) ctx
    pub counted : ctx'.num_dio_running ≡ ctx.num_dio_running + (if direct_io then 1 else 0)
    pub same_timers : ctx'.notify_when ≡ ctx.notify_when

  -- what `enqueue` leaves
  record Enqueued (entry : Sqe O) (direct_io : Bool) (ctx ctx' : Context T O) : Type 0 where
    pub made : enqueue entry direct_io ctx ≡ ok ctx'
    pub behind : queue direct_io ctx' ≡ queue direct_io ctx ++ entry ∷ []
    pub same_io : ctx'.io ≡ ctx.io
    pub same_results : ctx'.io_results ≡ ctx.io_results
    pub same_notified : ctx'.to_notify ≡ ctx.to_notify
    pub other_queue : queue (not direct_io) ctx' ≡ queue (not direct_io) ctx
    pub counted : ctx'.num_dio_running ≡ ctx.num_dio_running + (if direct_io then 1 else 0)
    pub same_timers : ctx'.notify_when ≡ ctx.notify_when

  enqueue-Enqueued :
      (entry : Sqe O) (direct_io : Bool) (ctx : Context T O)
      → (direct_io ≡ true → ctx.num_dio_running + 1 < u64_mod)
      → (ctx' : Context T O) × Enqueued entry direct_io ctx ctx'
  unfolding enqueue
  enqueue-Enqueued entry true ctx few = (
    record ctx {
      num_dio_running = ctx.num_dio_running + 1;
      dio_queue = ctx.dio_queue ++ entry ∷ [];
    },
    record {
      made = ground (arith, few refl);
      behind = refl;
      same_io = refl;
      same_results = refl;
      same_notified = refl;
      other_queue = refl;
      counted = omega arith;
      same_timers = refl;
    },
  )
  enqueue-Enqueued entry false ctx few = (
    record ctx { io_queue = ctx.io_queue ++ entry ∷ [] },
    record {
      made = refl;
      behind = refl;
      same_io = refl;
      same_results = refl;
      same_notified = refl;
      other_queue = refl;
      counted = omega arith;
      same_timers = refl;
    },
  )

  queue-io :
      (direct_io : Bool) (ctx : Context T O) (s : Slab Key)
      → queue direct_io (record ctx { io = s }) ≡ queue direct_io ctx
  queue-io true ctx s = refl
  queue-io false ctx s = refl

  -- Where `enqueue` came to its end, the count had room if it went up.
  ran-Enqueued :
      (entry : Sqe O) (direct_io : Bool) (ctx ctx' : Context T O)
      → enqueue entry direct_io ctx ≡ ok ctx'
      → Enqueued entry direct_io ctx ctx'
  unfolding enqueue
  ran-Enqueued entry direct_io ctx ctx' h =
      let (x, q) = enqueue-Enqueued entry direct_io ctx (few direct_io h) in
      subst (Enqueued entry direct_io ctx) (same_value q.made h) q
    where
      few :
          (d : Bool) → enqueue entry d ctx ≡ ok ctx' → d ≡ true → ctx.num_dio_running + 1 < u64_mod
      few true e _ =
          let (n, _, sum) = first_ran (add_u64 ctx.num_dio_running 1) (sym e) in
          (add_u64-value ctx.num_dio_running 1 n (sym sum)).1
      few false e f = cc

  -- A key that is inserted, and its entry at the end of a queue.
  Queued-Inserted :
      (operation : O) (direct_io : Bool) (ctx ctx' : Context T O) (s' : Slab Key)
      → Sound ctx
      → Inserted ctx.io ctx.task_id s'
      → Enqueued
          (record { operation = operation; user_data = to_u64 (next_key ctx.io) })
          direct_io
          (record ctx { io = s' })
          ctx'
      → Queued operation direct_io ctx ctx' (next_key ctx.io)
  unfolding queue_io
  Queued-Inserted operation direct_io ctx ctx' s' v ins q =
      let id = next_key ctx.io in
      let generation : s'.current_generation < u32_mod =
        omega (arith, ins.same_generation, v.generation) in
      let entry : Sqe O = record { operation = operation; user_data = to_u64 id } in
      let index : id.index < u32_mod = omega (arith, first-le ctx.io v.running, v.small) in
      record {
        made = rw ins.made (rw q.made refl);
        sound = record {
          running = rw q.same_io ins.valid;
          generation = rw q.same_io generation;
          small = rw q.same_io (ins.small v.small);
          results = rw q.same_results v.results;
          notified = rw q.same_notified v.notified;
        };
        unused = ins.vacant id refl;
        owned = rw q.same_io (ground (arith, ins.reads id));
        entry = entry;
        behind = q.behind ∙ ap (λ xs. xs ++ entry ∷ []) (queue-io direct_io ctx s');
        same_operation = refl;
        coded = refl;
        comes_back = from_u64-to_u64 id index v.generation;
        small_index = index;
        small_generation = v.generation;
        same_results = q.same_results;
        vacant = ins.vacant;
        others = λ k ne. rw q.same_io (ground (arith, ins.reads k, ne));
        other_queue = q.other_queue ∙ queue-io (not direct_io) ctx s';
        counted = q.counted;
        same_timers = q.same_timers;
      }

  -- With room in the slab and in the count, `queue_io` comes to no panic: it returns a key that read
  -- nothing before and now reads the task, and puts the operation at the end of its queue with a number
  -- that decodes to the key.
  pub queue_io-Queued :
      (operation : O) (direct_io : Bool) (ctx : Context T O)
      → Sound ctx
      → Slabs.Fits ctx.io
      → ctx.num_dio_running + 1 < u64_mod
      → (ctx' : Context T O) × (io_id : Key) × Queued operation direct_io ctx ctx' io_id
  queue_io-Queued operation direct_io ctx v fits few =
      let (s', ins) = insert-Inserted ctx.io ctx.task_id v.running fits in
      let (ctx', q) =
        enqueue-Enqueued (record { operation = operation; user_data = to_u64 (next_key ctx.io) })
          direct_io (record ctx { io = s' }) (λ _. few) in
      (ctx', next_key ctx.io, Queued-Inserted operation direct_io ctx ctx' s' v ins q)

  -- Wherever `queue_io` comes to its end, it has done so.
  pub ran-Queued :
      (operation : O) (direct_io : Bool) (ctx ctx' : Context T O) (io_id : Key)
      → Sound ctx
      → queue_io operation direct_io ctx ≡ ok (ctx', io_id)
      → Queued operation direct_io ctx ctx' io_id
  unfolding queue_io
  ran-Queued operation direct_io ctx ctx' io_id v h =
      let ((s', id), h1, e) = first_ran (Slab.insert ctx.io ctx.task_id) (sym h) in
      let (ins, same) = ran-Inserted ctx.io s' ctx.task_id id v.running (sym e) in
      let (c, h2, e') =
        first_ran
          (enqueue (record { operation = operation; user_data = to_u64 id }) direct_io
            (record ctx { io = s' }))
          h1 in
      let made : enqueue (record { operation = operation; user_data = to_u64 (next_key ctx.io) })
            direct_io (record ctx { io = s' })
          ≡ ok c =
        subst
          (λ k.
            enqueue (record { operation = operation; user_data = to_u64 k }) direct_io
              (record ctx { io = s' })
            ≡ ok c)
          same (sym e') in
      let q =
        Queued-Inserted operation direct_io ctx c s' v ins (ran-Enqueued _ direct_io _ c made) in
      subst (λ p. Queued operation direct_io ctx p.0 p.1) (same_value q.made h) q
