-- ===== src/Time.antt =====
-- io2/src/time.rs, and the other two futures that wait for no operation, `YieldIfNeeded` and `JoinHandle`
-- of io2/src/executor.rs.
use io.Prelude.{ℕ, ◌-◌, Option, none, some, Outcome, ok, panic, ◌>>=◌, unwrap, Bool, true, false}
use io.Executor.{Context, notify_when, yield_if_needed}
use io.File.{Poll, pending, ready}
pub mod Sleeping
mod Tests

-- the future of `sleep`
pub record NotifyWhen : Type 0 where
  pub timer : Option ℕ

module _ {T O : Type 0} where
  -- the first poll takes the timer and sets it
  unfoldable pub notify_when_poll :
      NotifyWhen → Context T O → Context T O × NotifyWhen × Poll (Unit {0})
  notify_when_poll fut ctx = elim fut.timer [
    | some timer ↦ (notify_when timer ctx, record { timer = none }, pending)
    | none ↦ (ctx, record { timer = none }, ready tt)
  ]

  -- `YieldIfNeeded`
  unfoldable pub yield_poll : ℕ → Context T O → Outcome (Context T O × Poll (Unit {0}))
  yield_poll now ctx = do
    (ctx', given_way) ← yield_if_needed now ctx
    elim given_way [ false ↦ ok (ctx', ready tt) | true ↦ ok (ctx', pending) ]

-- `sleep`, where `checked_add` is that of `Instant` and `now` the time of the call
unfoldable pub sleep : (ℕ → ℕ → Option ℕ) → ℕ → ℕ → Outcome NotifyWhen
sleep checked_add now duration = do
  timer ← unwrap (checked_add now duration)
  ok (record { timer = some timer })

unfoldable pub sleep_until : ℕ → NotifyWhen
sleep_until instant = record { timer = some instant }

-- `JoinHandle`, on the cell that it shares with the spawned task
unfoldable pub join_poll : {A : Type 0} → Option A → Option A × Poll A
join_poll (some v) = (none, ready v)
join_poll none = (none, pending)
