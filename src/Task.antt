-- ===== src/Task.antt =====
-- The tasks of io2/src/executor.rs that are made of the library's own futures: an async block, with the
-- future that it awaits, and what is behind the pointers that tasks share.
use io.Prelude.{
  ℕ, ◌+◌, List, [], ◌∷◌, ◌++◌, Option, none, some, length, get_elem?, set, Outcome, ok, panic,
  ◌>>=◌, unwrap, Bool, true, false,
}
use io.Slab.{Key}
use io.IoError.{Result}
use io.Executor.{Context, notify, spawn}
use io.File.{
  Poll, pending, ready, Opcode, close, Close, Open, Read, Write, Statx, SyncAll, close_poll,
  open_poll, read_poll, write_poll, statx_poll, sync_all_poll,
}
use io.File.Handle.{File, drop_file}
use io.Time.{NotifyWhen, notify_when_poll, yield_poll, join_poll}
pub mod Polling
pub mod Joining
pub mod Running
pub mod Finishing
pub mod Returning
pub mod Whole
mod Tests

-- the futures that a task may await; a join handle is the address of its cell
pub data Future (S : Type 0) : Type 0 where
  closes : Close → Future S
  opens : Open → Future S
  reads : Read → Future S
  writes : Write → Future S
  stats : Statx S → Future S
  syncs : SyncAll → Future S
  sleeps : NotifyWhen → Future S
  gives_way : Future S
  joins : ℕ → Future S

-- what a future comes to
pub data Answer (S V : Type 0) : Type 0 where
  nothing : Answer S V
  over : Result (Unit {0}) → Answer S V
  count : Result ℕ → Answer S V
  status : Result S → Answer S V
  joined : V → Answer S V

-- An async block: it returns a value, awaits a future and goes on with what that comes to, spawns
-- another block and goes on with the cell of the join handle, or drops a file. Each way through a
-- block ends.
pub data Program (S V : Type 0) : Type 0 where
  returns : V → Program S V
  awaits : Future S → (Answer S V → Program S V) → Program S V
  spawns : Program S V → (ℕ → Program S V) → Program S V
  drops : File → Program S V → Program S V

-- A pinned box: the empty block, the block that `run` was given, one that was spawned with its cell and the
-- task that spawned it, or one that has returned.
pub data Task (S V : Type 0) : Type 0 where
  empty : Task S V
  first : Program S V → Task S V
  spawned : ℕ → Key → Program S V → Task S V
  completed : Task S V

-- What is behind the pointers: the boxes, the cells of the join handles, the result of the first block,
-- the files that were dropped, and how often the clock was read.
pub record Store (S V : Type 0) : Type 0 where
  pub boxes : List (Task S V)
  pub cells : List (Option V)
  pub out : Option V
  pub files_to_close : List ℕ
  pub clock_reads : ℕ

-- the context and the store, as a task sees them
abbrev pub Place : Type 0 → Type 0 → Type 0
Place S V = Context ℕ Opcode × Store S V

abbrev pub map_poll : {A B : Type 0} → (A → B) → Poll A → Poll B
map_poll f pending = pending
map_poll f (ready a) = ready (f a)

module _ {S V : Type 0} where
  -- the outcome of a poll that leaves the store alone
  abbrev pub polled :
      {F A : Type 0}
      → (F → Future S)
      → (A → Answer S V)
      → Store S V
      → Context ℕ Opcode × F × Poll A
      → Place S V × Future S × Poll (Answer S V)
  polled future answer store (ctx, fut, out) = ((ctx, store), future fut, map_poll answer out)

  -- the poll of a future, where `clock` says what each reading of the clock gives
  unfoldable pub poll_future :
      (ℕ → ℕ) → Future S → Place S V → Outcome (Place S V × Future S × Poll (Answer S V))
  poll_future clock (closes fut) (ctx, store) = do
    r ← close_poll fut ctx
    ok (polled closes over store r)
  poll_future clock (opens fut) (ctx, store) = do
    r ← open_poll fut ctx
    ok (polled opens count store r)
  poll_future clock (reads fut) (ctx, store) = do
    r ← read_poll fut ctx
    ok (polled reads count store r)
  poll_future clock (writes fut) (ctx, store) = do
    r ← write_poll fut ctx
    ok (polled writes count store r)
  poll_future clock (stats fut) (ctx, store) = do
    r ← statx_poll fut ctx
    ok (polled stats status store r)
  poll_future clock (syncs fut) (ctx, store) = do
    r ← sync_all_poll fut ctx
    ok (polled syncs over store r)
  poll_future clock (sleeps fut) (ctx, store) =
      ok (polled sleeps (λ _. nothing) store (notify_when_poll fut ctx))
  poll_future clock gives_way (ctx, store) = do
    (ctx', out) ← yield_poll (clock store.clock_reads) ctx
    ok (
      (ctx', record store { clock_reads = store.clock_reads + 1 }),
      gives_way,
      map_poll (λ _. nothing) out,
    )
  poll_future clock (joins cell) (ctx, store) = do
    held ← unwrap (get_elem? store.cells cell)
    let (left, out) = join_poll held
    ok ((ctx, record store { cells = set store.cells cell left }), joins cell, map_poll joined out)

  -- `spawn`: a new cell that the block and its handle share, and a box for the block; the task that
  -- calls it is the one that is notified at the end.
  unfoldable pub spawn_task : Program S V → Place S V → Outcome (Place S V × ℕ)
  spawn_task program (ctx, store) = do
    let cell = length store.cells
    ctx' ← spawn (λ caller. length store.boxes) ctx
    ok (
      (
        ctx',
        record store {
          boxes = store.boxes ++ spawned cell ctx.task_id program ∷ [];
          cells = store.cells ++ none ∷ [];
        },
      ),
      cell,
    )

  -- A block runs until a future that it awaits is not ready, or to its end.
  unfoldable pub advance :
      (ℕ → ℕ) → Program S V → Place S V → Outcome (Place S V × Program S V × Poll V)
  unfolding poll_future spawn_task
  advance clock (returns v) s = ok (s, returns v, ready v)
  advance clock (awaits future rest) s = do
    (s', future', out) ← poll_future clock future s
    elim out [
      | pending ↦ ok (s', awaits future' rest, pending)
      | ready answer ↦ advance clock (rest answer) s'
    ]
  advance clock (spawns program rest) s = do
    (s', cell) ← spawn_task program s
    advance clock (rest cell) s'
  advance clock (drops file rest) (ctx, store) =
      advance clock rest
        (ctx, record store { files_to_close = drop_file file store.files_to_close })

  -- The end of the block that `run` makes of the given one.
  abbrev pub end_first : Place S V × Program S V × Poll V → Place S V × Task S V × Bool
  end_first (s, program, pending) = (s, first program, false)
  end_first ((ctx, store), program, ready v) =
      ((ctx, record store { out = some v }), completed, true)

  -- The end of the block that `spawn` makes of the given one: the value goes into the cell, and the task
  -- that spawned it is notified.
  unfoldable pub end_spawned :
      ℕ → Key → Place S V × Program S V × Poll V → Outcome (Place S V × Task S V × Bool)
  end_spawned cell caller (s, program, pending) = ok (s, spawned cell caller program, false)
  end_spawned cell caller ((ctx, store), program, ready v) = do
    ctx' ← notify caller ctx
    ok ((ctx', record store { cells = set store.cells cell (some v) }), completed, true)

  -- a block that has returned panics when it is polled again
  unfoldable pub poll_box : (ℕ → ℕ) → Task S V → Place S V → Outcome (Place S V × Task S V × Bool)
  unfolding advance end_spawned
  poll_box clock empty s = ok (s, completed, true)
  poll_box clock (first program) s = do r ← advance clock program s; ok (end_first r)
  poll_box clock (spawned cell caller program) s = do
    r ← advance clock program s
    end_spawned cell caller r
  poll_box clock completed s = panic

  -- the poll of the box at an address
  unfoldable pub poll_task : (ℕ → ℕ) → ℕ → Place S V → Outcome (Place S V × Bool)
  unfolding poll_box
  poll_task clock address (ctx, store) = do
    task ← unwrap (get_elem? store.boxes address)
    ((ctx', store'), task', is_ready) ← poll_box clock task (ctx, store)
    ok ((ctx', record store' { boxes = set store'.boxes address task' }), is_ready)

-- the entry that closes a dropped file
abbrev pub close_op : ℕ → Opcode
close_op fd = close fd

-- the boxes of a new run
abbrev pub new_store : {S V : Type 0} → Program S V → Store S V
new_store program = record {
  boxes = empty ∷ first program ∷ [];
  cells = [];
  out = none;
  files_to_close = [];
  clock_reads = 0;
}
