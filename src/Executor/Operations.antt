-- ===== src/Executor/Operations.antt =====
-- An operation's way through executor.rs: it is queued, its result comes in, and its task takes it.
use io.Prelude.{ℕ, ◌+◌, ◌<◌, ◌≡◌, refl, none, some, ok, if◌then◌else◌, Bool, arith, ◌==◌}
use io.Word.{u64_mod}
use io.Slab.{Key, Slab}
use io.Slab
use io.Slab.KeyCode.{from_u64}
use io.Slab.Validity as Slabs
use io.Slab.Removing.{remove-Removed, emptied}
use io.VecMap.Laws.{view, insert-Updated, remove-Updated}
use io.Executor.Queueing.{Sound, Queued, queue_io-Queued}
use io.Executor.{ℤ, Context, key_eq, complete, take_io_result}

module _ {T O : Type 0} where
  -- The queues, the count of direct operations and the timers are those from before.
  pub record SameQueues (ctx ctx' : Context T O) : Type 0 where
    pub same_io_queue : ctx'.io_queue ≡ ctx.io_queue
    pub same_dio_queue : ctx'.dio_queue ≡ ctx.dio_queue
    pub same_count : ctx'.num_dio_running ≡ ctx.num_dio_running
    pub same_timers : ctx'.notify_when ≡ ctx.notify_when

  -- What a completion leaves: the result under its key, and the task to be notified.
  pub record Answered (result : ℤ) (io_id task_id : Key) (ctx ctx' : Context T O) : Type 0 where
    pub sound : Sound ctx'
    pub same_io : ctx'.io ≡ ctx.io
    pub queues : SameQueues ctx ctx'
    pub results :
        (q : Key)
        → view key_eq ctx'.io_results q
          ≡ (if key_eq.same io_id q then some result else view key_eq ctx.io_results q)
    pub notified :
        (q : Key)
        → view key_eq ctx'.to_notify q
          ≡ (if key_eq.same task_id q then some tt else view key_eq ctx.to_notify q)

  -- A completion of an operation that runs comes to no panic: its result is stored, the task that
  -- queued it is notified, and all other results and notifications stay.
  pub complete-Answered :
      (user_data : ℕ) (result : ℤ) (task_id : Key) (ctx : Context T O)
      → Sound ctx
      → Slab.get ctx.io (from_u64 user_data) ≡ some task_id
      → (ctx' : Context T O) × (complete user_data result ctx ≡ ok ctx')
        × Answered result (from_u64 user_data) task_id ctx ctx'
  unfolding complete
  complete-Answered user_data result task_id ctx v owned =
      let (r, stored, ur) =
        insert-Updated key_eq ctx.io_results (from_u64 user_data) result v.results in
      let (n, noted, un) = insert-Updated key_eq ctx.to_notify task_id tt v.notified in
      (
        record ctx { io_results = r; to_notify = n },
        rw owned (rw stored (rw noted refl)),
        record {
          sound = record {
            running = v.running;
            generation = v.generation;
            small = v.small;
            results = ur.valid;
            notified = un.valid;
          };
          same_io = refl;
          queues = record {
            same_io_queue = refl;
            same_dio_queue = refl;
            same_count = refl;
            same_timers = refl;
          };
          results = ur.views;
          notified = un.views;
        },
      )

  -- What `take_io_result` leaves where the operation has finished: neither its result nor its key.
  pub record Taken (io_id : Key) (ctx ctx' : Context T O) : Type 0 where
    pub sound : Sound ctx'
    pub queues : SameQueues ctx ctx'
    pub no_result :
        (q : Key)
        → view key_eq ctx'.io_results q
          ≡ (if key_eq.same io_id q then none else view key_eq ctx.io_results q)
    pub retired :
        (q : Key)
        → Slab.get ctx'.io q ≡ (if q.index == io_id.index then none else Slab.get ctx.io q)

  -- `take_io_result` of an operation that has finished returns its result and forgets the operation;
  -- all other operations and results stay.
  pub take_io_result-Taken :
      (io_id task_id : Key) (result : ℤ) (ctx : Context T O)
      → Sound ctx
      → Slab.get ctx.io io_id ≡ some task_id
      → view key_eq ctx.io_results io_id ≡ some result
      → (ctx' : Context T O) × (take_io_result io_id ctx ≡ ok (ctx', some result))
        × Taken io_id ctx ctx'
  unfolding take_io_result
  take_io_result-Taken io_id task_id result ctx v owned there =
      let (r, removed, ur) = remove-Updated key_eq ctx.io_results io_id v.results in
      let gone = remove-Removed ctx.io io_id task_id v.running owned in
      (
        record ctx { io_results = r; io = emptied ctx.io io_id.index },
        rw removed (rw there (rw gone.made refl)),
        record {
          sound = record {
            running = gone.valid;
            generation = omega (arith, gone.next_generation);
            small = omega (arith, gone.same_length, v.small);
            results = ur.valid;
            notified = v.notified;
          };
          queues = record {
            same_io_queue = refl;
            same_dio_queue = refl;
            same_count = refl;
            same_timers = refl;
          };
          no_result = ur.views;
          retired = gone.reads;
        },
      )

  -- What `take_io_result` leaves where the operation has not finished: everything.
  pub record Unanswered (ctx ctx' : Context T O) : Type 0 where
    pub sound : Sound ctx'
    pub queues : SameQueues ctx ctx'
    pub same_io : ctx'.io ≡ ctx.io
    pub same_results : (q : Key) → view key_eq ctx'.io_results q ≡ view key_eq ctx.io_results q

  pub take_io_result-Unanswered :
      (io_id : Key) (ctx : Context T O)
      → Sound ctx
      → view key_eq ctx.io_results io_id ≡ none
      → (ctx' : Context T O) × (take_io_result io_id ctx ≡ ok (ctx', none)) × Unanswered ctx ctx'
  unfolding take_io_result
  take_io_result-Unanswered io_id ctx v absent =
      let (r, removed, ur) = remove-Updated key_eq ctx.io_results io_id v.results in
      (
        record ctx { io_results = r },
        rw removed (rw absent refl),
        record {
          sound = record {
            running = v.running;
            generation = v.generation;
            small = v.small;
            results = ur.valid;
            notified = v.notified;
          };
          queues = record {
            same_io_queue = refl;
            same_dio_queue = refl;
            same_count = refl;
            same_timers = refl;
          };
          same_io = refl;
          same_results = λ q. ground (arith, ur.views q, absent, key_eq.same_iff io_id q);
        },
      )

  -- the stages of one operation: queued, completed, and taken
  pub record Round (operation : O) (direct_io : Bool) (result : ℤ) (ctx : Context T O)
      : Type 0 where
    pub io_id : Key
    pub queued : Context T O
    pub completed : Context T O
    pub taken : Context T O
    pub queues : Queued operation direct_io ctx queued io_id
    pub completes : complete queues.entry.user_data result queued ≡ ok completed
    pub wakes : view key_eq completed.to_notify ctx.task_id ≡ some tt
    pub takes : take_io_result io_id completed ≡ ok (taken, some result)
    pub sound : Sound taken
    pub forgets : Slab.get taken.io io_id ≡ none
    pub no_result : view key_eq taken.io_results io_id ≡ none

  -- With room in the slab and in the count, an operation that is queued, and whose result comes in,
  -- wakes the task that queued it; `take_io_result` then returns that result, and forgets the
  -- operation, so that neither its key nor its result is there again. No step comes to a panic.
  pub operation_Round :
      (operation : O) (direct_io : Bool) (result : ℤ) (ctx : Context T O)
      → Sound ctx
      → Slabs.Fits ctx.io
      → ctx.num_dio_running + 1 < u64_mod
      → Round operation direct_io result ctx
  operation_Round operation direct_io result ctx v fits few =
      let (c1, io_id, q) = queue_io-Queued operation direct_io ctx v fits few in
      let (c2, completes, a) =
        complete-Answered q.entry.user_data result ctx.task_id c1 q.sound
          (rw q.comes_back q.owned) in
      let there : view key_eq c2.io_results io_id ≡ some result =
        ground (arith, a.results io_id, q.comes_back) in
      let (c3, takes, t) =
        take_io_result-Taken io_id ctx.task_id result c2 a.sound (rw a.same_io q.owned) there in
      record {
        io_id = io_id;
        queued = c1;
        completed = c2;
        taken = c3;
        queues = q;
        completes = completes;
        wakes = ground (arith, a.notified ctx.task_id);
        takes = takes;
        sound = t.sound;
        forgets = ground (arith, t.retired io_id);
        no_result = ground (arith, t.no_result io_id);
      }
