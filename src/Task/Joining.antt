-- ===== src/Task/Joining.antt =====
-- The join handle of executor.rs: what its cell holds, and which task the end of a spawned block wakes.
use io.Prelude.{
  ℕ, zero, suc, ◌<◌, ◌≡◌, ◌≢◌, refl, sym, ap, List, [], ◌∷◌, get_elem?, set, length,
  get_elem?-set_self, get_elem?-set_ne, lt_of_get_elem?, none, some, ok, true, false, ◌∙◌,
  if◌then◌else◌, arith,
}
use io.Slab.{Key}
use io.VecMap.Laws.{view, insert-Updated}
use io.Executor.{Context, key_eq, notify}
use io.Executor.Machine.{Machine, Reach}
use io.Executor.Starting.{Reach-Consistent}
use io.Executor.Loop.Submitting.{Reach-Steps}
use io.File.{pending, ready, Opcode}
use io.Time.{join_poll}
use io.Task.{
  Program, Store, Place, joins, joined, spawned, completed, poll_future, advance, end_spawned,
  poll_box, poll_task,
}
use io.Task.Polling.{Calls-Steps}
use io.Task.Running.{advance-Calls}

set_same : {A : Type 0} (xs : List A) (i : ℕ) (v : A) → get_elem? xs i ≡ some v → set xs i v ≡ xs
set_same [] i v h = refl
set_same (x ∷ xs) zero v h = cc
set_same (x ∷ xs) (suc i) v h = ap (λ l. x ∷ l) (set_same xs i v h)

module _ {S V : Type 0} (clock : ℕ → ℕ) where
  abbrev pub emptied : ℕ → Store S V → Store S V
  emptied cell store = record store { cells = set store.cells cell none }

  poll_joins-some :
      (cell : ℕ) (v : V) (ctx : Context ℕ Opcode) (store : Store S V)
      → get_elem? store.cells cell ≡ some (some v)
      → poll_future clock (joins cell) (ctx, store)
        ≡ ok ((ctx, emptied cell store), joins cell, ready (joined v))
  unfolding poll_future join_poll
  poll_joins-some cell v ctx store h = rw h refl

  poll_joins-none :
      (cell : ℕ) (ctx : Context ℕ Opcode) (store : Store S V)
      → get_elem? store.cells cell ≡ some none
      → poll_future clock (joins cell) (ctx, store) ≡ ok ((ctx, store), joins cell, pending)
  unfolding poll_future join_poll
  poll_joins-none cell ctx store h = rw h (
      ap (λ l. ok ((ctx, record store { cells = l }), joins cell, pending))
        (set_same store.cells cell none h))

  -- What the end of a spawned block leaves: its value in the cell, for whichever task polls the handle
  -- first and for no later poll, and the task that spawned it to be notified.
  pub record Joined (cell : ℕ) (caller : Key) (v : V) (before : Place S V) (after : Place S V)
      : Type 0 where
    pub notified :
        (q : Key)
        → view key_eq after.0.to_notify q
          ≡ (if key_eq.same caller q then some tt else view key_eq before.0.to_notify q)
    pub filled : get_elem? after.1.cells cell ≡ some (some v)
    pub comes_to :
        (ctx : Context ℕ Opcode)
        → poll_future clock (joins cell) (ctx, after.1)
          ≡ ok ((ctx, emptied cell after.1), joins cell, ready (joined v))
    pub once :
        (ctx : Context ℕ Opcode)
        → poll_future clock (joins cell) (ctx, emptied cell after.1)
          ≡ ok ((ctx, emptied cell after.1), joins cell, pending)
    pub other_cells : (j : ℕ) → cell ≢ j → get_elem? after.1.cells j ≡ get_elem? before.1.cells j

  -- In a machine that a run comes to, the poll of a spawned block that comes to its end is ready: it leaves
  -- the value in the cell, where the next poll of the handle takes it and a later one finds nothing, and it
  -- notifies the task that spawned the block and no other.
  pub poll_task-Joined :
      {close_id : Key} (m : Machine ℕ Opcode) (address cell : ℕ) (caller : Key)
      (program program' : Program S V) (store store1 : Store S V) (ctx1 : Context ℕ Opcode) (v : V)
      → Reach close_id m
      → get_elem? store.boxes address ≡ some (spawned cell caller program)
      → advance clock program (m.ctx, store) ≡ ok ((ctx1, store1), program', ready v)
      → cell < length store1.cells
      → (after : Place S V) × (poll_task clock address (m.ctx, store) ≡ ok (after, true))
        × Joined cell caller v (ctx1, store1) after
  unfolding poll_task poll_box end_spawned notify
  poll_task-Joined {close_id} m address cell caller program program' store store1 ctx1 v r box ends
        inside =
      let r1 = Reach-Steps r (
        Calls-Steps close_id m m.ctx ctx1
          (advance-Calls clock program m store ((ctx1, store1), program', ready v) ends)) in
      let (n, noted, u) =
        insert-Updated key_eq ctx1.to_notify caller tt
          (Reach-Consistent r1).tracks.sound.notified in
      let cells = set store1.cells cell (some v) in
      let filled : get_elem? cells cell ≡ some (some v) =
        get_elem?-set_self store1.cells cell (some v) inside in
      let store' : Store S V = record store1 {
        cells = cells;
        boxes = set store1.boxes address completed;
      } in
      let room : cell < length cells = lt_of_get_elem? cells cell filled in
      (
        (record ctx1 { to_notify = n }, store'),
        rw box (rw ends (rw noted refl)),
        record {
          notified = u.views;
          filled = filled;
          comes_to = λ ctx. poll_joins-some cell v ctx store' filled;
          once = λ ctx.
              poll_joins-none cell ctx (emptied cell store')
                (get_elem?-set_self cells cell none room);
          other_cells = λ j ne. get_elem?-set_ne store1.cells cell j (some v) ne;
        },
      )

  -- A task that polls the handle before the block has ended waits and leaves no trace, neither in the
  -- context nor in the cell; and when the block ends, a task other than the one that spawned it, which was
  -- not to be notified before, is not to be notified after: where such a task awaits the handle, nothing
  -- wakes it for the value in the cell.
  pub poll_joins-Unnoticed :
      {close_id : Key} (m : Machine ℕ Opcode) (address cell : ℕ) (caller waiter : Key)
      (program program' : Program S V) (store store1 : Store S V) (ctx ctx1 : Context ℕ Opcode)
      (v : V)
      → Reach close_id m
      → get_elem? store.cells cell ≡ some none
      → get_elem? store.boxes address ≡ some (spawned cell caller program)
      → advance clock program (m.ctx, store) ≡ ok ((ctx1, store1), program', ready v)
      → cell < length store1.cells
      → waiter ≢ caller
      → view key_eq ctx1.to_notify waiter ≡ none
      → (poll_future clock (joins cell) (ctx, store) ≡ ok ((ctx, store), joins cell, pending))
        × (after : Place S V) × (poll_task clock address (m.ctx, store) ≡ ok (after, true))
        × (get_elem? after.1.cells cell ≡ some (some v))
        × (view key_eq after.0.to_notify waiter ≡ none)
  poll_joins-Unnoticed m address cell caller waiter program program' store store1 ctx ctx1 v r empty
        box ends inside other quiet =
      let (after, made, j) =
        poll_task-Joined m address cell caller program program' store store1 ctx1 v r box ends
          inside in
      let differ : caller ≢ waiter = λ e. other (sym e) in
      let passed : key_eq.same caller waiter ≡ false =
        ground (arith, key_eq.same_iff caller waiter, differ) in
      (
        poll_joins-none cell ctx store empty,
        after,
        made,
        j.filled,
        j.notified waiter ∙ rw (passed, quiet) refl,
      )
