-- ===== src/Task/Running.antt =====
-- The polls of blocks and of tasks, by the calls of executor.rs that they make.
use io.Prelude.{ℕ, ◌≡◌, sym, ap, subst, get_elem?, length, Outcome, ok, unwrap, Bool, first_ran}
use io.Slab.{Key}
use io.Executor.{Context, spawn, notify}
use io.Executor.Machine.{Machine}
use io.File.{Poll, pending, ready, Opcode}
use io.Task.{
  Program, Task, Store, Place, returns, awaits, drops, empty, first, spawned, completed,
  poll_future, spawn_task, advance, end_first, end_spawned, poll_box, poll_task,
}
use io.File.Handle.{drop_file}
use io.Task
use io.Task.Polling.{
  Calls, spawns, notifies, ok_same, trans_Calls, one_call, same-Calls, poll_future-Calls,
}

module _ {S V : Type 0} (clock : ℕ → ℕ) where
  -- A block makes some calls until it waits or returns.
  pub advance-Calls :
      (program : Program S V) (m : Machine ℕ Opcode) (store : Store S V)
      (r : Place S V × Program S V × Poll V)
      → advance clock program (m.ctx, store) ≡ ok r
      → Calls m.ctx r.0.0
  unfolding advance spawn_task
  advance-Calls (returns v) m store r h = same-Calls (ap (λ p. p.0.0) (ok_same h))
  advance-Calls (awaits future rest) m store r h =
      let (((ctx1, store1), future1, out), h1, e) =
        first_ran (poll_future clock future (m.ctx, store)) (sym h) in
      trans_Calls (poll_future-Calls clock future future1 m store store1 ctx1 out (sym e)) (
        goes_on ctx1 store1 future1 out h1
          λ answer. advance-Calls (rest answer) (record m { ctx = ctx1 }) store1 r)
    where
      goes_on :
          (ctx1 : Context ℕ Opcode) (store1 : Store S V) (future1 : Task.Future S)
          (out : Poll (Task.Answer S V))
          → ◌≡◌ {A = Outcome (Place S V × Program S V × Poll V)} (ok r) (elim out [
            | pending ↦ ok ((ctx1, store1), awaits future1 rest, pending)
            | ready answer ↦ advance clock (rest answer) (ctx1, store1)
          ])
          → ((answer : Task.Answer S V)
              → advance clock (rest answer) (ctx1, store1) ≡ ok r
              → Calls ctx1 r.0.0)
          → Calls ctx1 r.0.0
      goes_on ctx1 store1 future1 pending q again = same-Calls (sym (ap (λ p. p.0.0) (ok_same q)))
      goes_on ctx1 store1 future1 (ready answer) q again = again answer (sym q)
  advance-Calls (Task.spawns program rest) m store r h =
      let (((ctx1, store1), cell), h1, e) = first_ran (spawn_task program (m.ctx, store)) (sym h) in
      let (ctx2, h2, e2) = first_ran (spawn (λ caller. length store.boxes) m.ctx) e in
      let same : ctx2 ≡ ctx1 = sym (ap (λ p. p.0.0) (ok_same h2)) in
      trans_Calls
        (subst (Calls m.ctx) same (one_call (spawns (λ caller. length store.boxes) ctx2 (sym e2))))
        (advance-Calls (rest cell) (record m { ctx = ctx1 }) store1 r (sym h1))
  advance-Calls (drops file rest) m store r h =
      advance-Calls rest m (record store { files_to_close = drop_file file store.files_to_close }) r
        h

  end_spawned-Calls :
      (cell : ℕ) (caller : Key) (m : Machine ℕ Opcode) (store : Store S V) (program : Program S V)
      (out : Poll V) (r : Place S V × Task S V × Bool)
      → end_spawned cell caller ((m.ctx, store), program, out) ≡ ok r
      → Calls m.ctx r.0.0
  unfolding end_spawned
  end_spawned-Calls cell caller m store program pending r h =
      same-Calls (ap (λ p. p.0.0) (ok_same h))
  end_spawned-Calls cell caller m store program (ready v) r h =
      let (ctx1, h1, e) = first_ran (notify caller m.ctx) (sym h) in
      subst (Calls m.ctx) (sym (ap (λ p. p.0.0) (ok_same h1)))
        (one_call (notifies caller ctx1 (sym e)))

  poll_box-Calls :
      (task : Task S V) (m : Machine ℕ Opcode) (store : Store S V) (r : Place S V × Task S V × Bool)
      → poll_box clock task (m.ctx, store) ≡ ok r
      → Calls m.ctx r.0.0
  unfolding poll_box
  poll_box-Calls empty m store r h = same-Calls (ap (λ p. p.0.0) (ok_same h))
  poll_box-Calls (first program) m store r h =
      let (((ctx1, store1), program1, out), h1, e) =
        first_ran (advance clock program (m.ctx, store)) (sym h) in
      subst (Calls m.ctx) (left store1 program1 out (ok_same h1))
        (advance-Calls program m store ((ctx1, store1), program1, out) (sym e))
    where
      left :
          {ctx1 : Context ℕ Opcode} (store1 : Store S V) (program1 : Program S V) (out : Poll V)
          → r ≡ end_first ((ctx1, store1), program1, out)
          → ctx1 ≡ r.0.0
      left store1 program1 pending q = sym (ap (λ p. p.0.0) q)
      left store1 program1 (ready v) q = sym (ap (λ p. p.0.0) q)
  poll_box-Calls (spawned cell caller program) m store r h =
      let (((ctx1, store1), program1, out), h1, e) =
        first_ran (advance clock program (m.ctx, store)) (sym h) in
      trans_Calls (advance-Calls program m store ((ctx1, store1), program1, out) (sym e))
        (end_spawned-Calls cell caller (record m { ctx = ctx1 }) store1 program1 out r (sym h1))
  poll_box-Calls completed m store r h = cc

  pub poll_task-Calls :
      (m : Machine ℕ Opcode) (address : ℕ) (store store' : Store S V) (ctx : Context ℕ Opcode)
      (is_ready : Bool)
      → poll_task clock address (m.ctx, store) ≡ ok ((ctx, store'), is_ready)
      → Calls m.ctx ctx
  unfolding poll_task
  poll_task-Calls m address store store' ctx is_ready h =
      let (task, h1, _) = first_ran (unwrap (get_elem? store.boxes address)) (sym h) in
      let (r, h2, e) = first_ran (poll_box clock task (m.ctx, store)) h1 in
      subst (Calls m.ctx) (sym (ap (λ p. p.0.0) (ok_same h2)))
        (poll_box-Calls task m store r (sym e))
