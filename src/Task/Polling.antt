-- ===== src/Task/Polling.antt =====
-- The polls of the library's futures, by the calls of executor.rs that they make.
use io.Prelude.{
  ℕ, ◌≡◌, refl, sym, ap, ◌∙◌, subst, get_elem?, Option, none, some, Outcome, ok, ◌>>=◌, unwrap,
  Bool, true, false, first_ran,
}
use io.Slab.{Key}
use io.Word.{to_u32}
use io.IoError.{Result}
use io.Executor.{ℤ, Context, queue_io, take_io_result, yield_if_needed, notify_when, spawn, notify}
use io.Executor.Machine.{Machine, Step}
use io.Executor.Machine
use io.Executor.Loop.Submitting.{Steps, rests, then_step}
use io.File.{
  Poll, pending, ready, Opcode, close, open_at2, read, write, statx, fsync, poll_io, answer,
  close_poll, open_poll, read_poll, write_poll, statx_poll, sync_all_poll,
}
use io.Time.{notify_when_poll, yield_poll}
use io.Task.{
  Future, Answer, Store, closes, opens, reads, writes, stats, syncs, sleeps, gives_way, joins,
  poll_future, polled, over, count, status,
}

pub ok_same : {A : Type 0} {x y : A} → ok x ≡ ok y → x ≡ y
ok_same e = cc

-- What a task can do to its context while it is polled: a call of one of the operations of its context.
pub data ContextCall {T O : Type 0} (ctx : Context T O) : Context T O → Type 0 where
  queues :
      (operation : O) (direct_io : Bool) (ctx' : Context T O) (io_id : Key)
      → queue_io operation direct_io ctx ≡ ok (ctx', io_id)
      → ContextCall ctx ctx'
  takes :
      (io_id : Key) (found : Option ℤ) (ctx' : Context T O)
      → take_io_result io_id ctx ≡ ok (ctx', found)
      → ContextCall ctx ctx'
  sets_timer : (instant : ℕ) → ContextCall ctx (notify_when instant ctx)
  yields :
      (now : ℕ) (given_way : Bool) (ctx' : Context T O)
      → yield_if_needed now ctx ≡ ok (ctx', given_way)
      → ContextCall ctx ctx'
  spawns : (task : Key → T) (ctx' : Context T O) → spawn task ctx ≡ ok ctx' → ContextCall ctx ctx'
  notifies :
      (task_id : Key) (ctx' : Context T O) → notify task_id ctx ≡ ok ctx' → ContextCall ctx ctx'

-- some calls, one after the other
pub data Calls {T O : Type 0} : Context T O → Context T O → Type 0 where
  no_call : {ctx : Context T O} → Calls ctx ctx
  then_call :
      {ctx ctx1 ctx2 : Context T O} → Calls ctx ctx1 → ContextCall ctx1 ctx2 → Calls ctx ctx2

pub trans_Calls :
    {T O : Type 0} {ctx ctx1 ctx2 : Context T O} → Calls ctx ctx1 → Calls ctx1 ctx2 → Calls ctx ctx2
trans_Calls s no_call = s
trans_Calls s (then_call t last) = then_call (trans_Calls s t) last

module _ {T O : Type 0} where
  pub one_call : {ctx ctx' : Context T O} → ContextCall ctx ctx' → Calls ctx ctx'
  one_call c = then_call no_call c

  pub same-Calls : {ctx ctx' : Context T O} → ctx ≡ ctx' → Calls ctx ctx'
  same-Calls {ctx} e = subst (Calls ctx) e no_call

  ContextCall-Step :
      (close_id : Key) (m : Machine T O) (ctx ctx' : Context T O)
      → ContextCall ctx ctx'
      → Step close_id (record m { ctx = ctx }) (record m { ctx = ctx' })
  ContextCall-Step close_id m ctx ctx' (queues operation direct_io c io_id e) =
      Machine.queues (record m { ctx = ctx }) operation direct_io ctx' io_id e
  ContextCall-Step close_id m ctx ctx' (takes io_id found c e) =
      Machine.takes (record m { ctx = ctx }) io_id found ctx' e
  ContextCall-Step close_id m ctx ctx' (sets_timer instant) =
      Machine.sets_timer (record m { ctx = ctx }) instant
  ContextCall-Step close_id m ctx ctx' (yields now given_way c e) =
      Machine.yields (record m { ctx = ctx }) now given_way ctx' e
  ContextCall-Step close_id m ctx ctx' (spawns task c e) =
      Machine.spawns (record m { ctx = ctx }) task ctx' e
  ContextCall-Step close_id m ctx ctx' (notifies task_id c e) =
      Machine.notifies (record m { ctx = ctx }) task_id ctx' e

  -- Calls are steps of the machine.
  pub Calls-Steps :
      (close_id : Key) (m : Machine T O) (ctx ctx' : Context T O)
      → Calls ctx ctx'
      → Steps close_id (record m { ctx = ctx }) (record m { ctx = ctx' })
  Calls-Steps close_id m ctx ctx' no_call = rests
  Calls-Steps close_id m ctx ctx' (then_call {ctx1} s c) =
      then_step (Calls-Steps close_id m ctx ctx1 s) (ContextCall-Step close_id m ctx1 ctx' c)

-- A poll of any future that waits for an operation queues it or looks for its result.
poll_io-Calls :
    {A : Type 0} (entry : Outcome Opcode) (direct_io : Bool) (finish : ℤ → Outcome (Result A))
    (io_id io_id' : Option Key) (m : Machine ℕ Opcode) (ctx : Context ℕ Opcode)
    (out : Poll (Result A))
    → poll_io entry direct_io finish io_id m.ctx ≡ ok (ctx, io_id', out)
    → Calls m.ctx ctx
unfolding poll_io
poll_io-Calls entry direct_io finish none io_id' m ctx out h =
    let (operation, h1, _) = first_ran entry (sym h) in
    let ((ctx1, io_id), h2, e) = first_ran (queue_io operation direct_io m.ctx) h1 in
    let same : ctx1 ≡ ctx = sym (ap (λ p. p.0) (ok_same h2)) in
    subst (Calls m.ctx) same (one_call (queues operation direct_io ctx1 io_id (sym e)))
poll_io-Calls {A = A} entry direct_io finish (some io_id) io_id' m ctx out h =
    let ((ctx1, result), h1, e) = first_ran (take_io_result io_id m.ctx) (sym h) in
    subst (Calls m.ctx) (kept result h1) (one_call (takes io_id result ctx1 (sym e)))
  where
    kept :
        {ctx1 : Context ℕ Opcode} (result : Option ℤ)
        → ◌≡◌ {A = Outcome (Context ℕ Opcode × Option Key × Poll (Result A))}
            (ok (ctx, io_id', out))
            (elim result [
              | some io_result ↦ do out' ← finish io_result; ok (ctx1, some io_id, ready out')
              | none ↦ ok (ctx1, some io_id, pending)
            ])
        → ctx1 ≡ ctx
    kept {ctx1} none e = cc
    kept {ctx1} (some io_result) e =
        let (out', e1, _) = first_ran (finish io_result) e in sym (ap (λ p. p.0) (ok_same e1))

-- So do the futures that are made of it.
io_future-Calls :
    {S V F A : Type 0} (entry : Outcome Opcode) (direct_io : Bool) (finish : ℤ → Outcome (Result A))
    (io_id : Option Key) (made : Option Key → F) (future : F → Future S)
    (answer : Result A → Answer S V) (future' : Future S) (m : Machine ℕ Opcode)
    (store store' : Store S V) (ctx : Context ℕ Opcode) (out : Poll (Answer S V))
    → (poll_io entry direct_io finish io_id m.ctx >>= (λ p. ok (p.0, made p.1, p.2)) >>= λ r.
        ok (polled future answer store r))
      ≡ ok ((ctx, store'), future', out)
    → Calls m.ctx ctx
io_future-Calls entry direct_io finish io_id made future answer future' m store store' ctx out h =
    let (r, h1, e) =
      first_ran (poll_io entry direct_io finish io_id m.ctx >>= λ p. ok (p.0, made p.1, p.2))
        (sym h) in
    let ((ctx1, io_id', out'), h2, e') = first_ran (poll_io entry direct_io finish io_id m.ctx) e in
    let same : ctx1 ≡ ctx = sym (ap (λ p. p.0) (ok_same h2)) ∙ sym (ap (λ p. p.0.0) (ok_same h1)) in
    subst (Calls m.ctx) same
      (poll_io-Calls entry direct_io finish io_id io_id' m ctx1 out' (sym e'))

-- A poll of a future makes some calls of the context.
pub poll_future-Calls :
    {S V : Type 0} (clock : ℕ → ℕ) (future future' : Future S) (m : Machine ℕ Opcode)
    (store store' : Store S V) (ctx : Context ℕ Opcode) (out : Poll (Answer S V))
    → poll_future clock future (m.ctx, store) ≡ ok ((ctx, store'), future', out)
    → Calls m.ctx ctx
unfolding poll_future close_poll open_poll read_poll write_poll statx_poll sync_all_poll yield_poll
    notify_when_poll
poll_future-Calls clock (closes fut) future' m store store' ctx out h =
    io_future-Calls (ok (close fut.fd)) false (answer (λ n. tt)) fut.io_id
      (λ id. record fut { io_id = id }) closes over future' m store store' ctx out h
poll_future-Calls clock (opens fut) future' m store store' ctx out h =
    io_future-Calls (ok (open_at2 fut.path fut.flags fut.mode)) false (answer (λ n. n)) fut.io_id
      (λ id. record fut { io_id = id }) opens count future' m store store' ctx out h
poll_future-Calls clock (reads fut) future' m store store' ctx out h =
    io_future-Calls (to_u32 fut.buf_len >>= λ len. ok (read fut.fd fut.buf_ptr len fut.offset))
      fut.direct_io (answer (λ n. n)) fut.io_id (λ id. record fut { io_id = id }) reads count
      future' m store store' ctx out h
poll_future-Calls clock (writes fut) future' m store store' ctx out h =
    io_future-Calls (to_u32 fut.buf_len >>= λ len. ok (write fut.fd fut.buf_ptr len fut.offset))
      fut.direct_io (answer (λ n. n)) fut.io_id (λ id. record fut { io_id = id }) writes count
      future' m store store' ctx out h
poll_future-Calls clock (stats fut) future' m store store' ctx out h =
    io_future-Calls (ok (statx fut.fd)) false (answer (λ n. fut.stat)) fut.io_id
      (λ id. record fut { io_id = id }) stats status future' m store store' ctx out h
poll_future-Calls clock (syncs fut) future' m store store' ctx out h =
    io_future-Calls (ok (fsync fut.fd)) false (answer (λ n. tt)) fut.io_id
      (λ id. record fut { io_id = id }) syncs over future' m store store' ctx out h
poll_future-Calls clock (sleeps fut) future' m store store' ctx out h =
    subst (Calls m.ctx) (ap (λ p. p.0.0) (ok_same h)) (slept fut.timer refl)
  where
    slept : (timer : Option ℕ) → fut.timer ≡ timer → Calls m.ctx (notify_when_poll fut m.ctx).0
    slept none e = same-Calls (rw e refl)
    slept (some instant) e = rw e (one_call (sets_timer instant))
poll_future-Calls clock gives_way future' m store store' ctx out h =
    let ((ctx1, out1), h1, e) = first_ran (yield_poll (clock store.clock_reads) m.ctx) (sym h) in
    let ((ctx2, given_way), h2, e') =
      first_ran (yield_if_needed (clock store.clock_reads) m.ctx) e in
    let same : ctx2 ≡ ctx1 = left given_way h2 in
    subst (Calls m.ctx) (same ∙ sym (ap (λ p. p.0.0) (ok_same h1)))
      (one_call (yields (clock store.clock_reads) given_way ctx2 (sym e')))
  where
    left :
        {a b : Context ℕ Opcode} {o : Poll (Unit {0})} (given_way : Bool)
        → ◌≡◌ {A = Outcome (Context ℕ Opcode × Poll (Unit {0}))}
            (ok (a, o))
            (elim given_way [ false ↦ ok (b, ready tt) | true ↦ ok (b, pending) ])
        → b ≡ a
    left true q = cc
    left false q = cc
poll_future-Calls clock (joins cell) future' m store store' ctx out h =
    let (held, h1, e) = first_ran (unwrap (get_elem? store.cells cell)) (sym h) in
    same-Calls (sym (ap (λ p. p.0.0) (ok_same h1)))
