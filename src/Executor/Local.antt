-- ===== src/Executor/Local.antt =====
-- The thread-local context of executor.rs, and the guard of `run` that clears it. A panic unwinds: what a
-- call leaves is a state beside its outcome.
use io.Prelude.{◌≡◌, refl, Option, none, some, Outcome, ok, panic, Outcome-cases, inl, inr}

-- a call that may change `CURRENT_TASK_CONTEXT`, also where it panics
abbrev pub Call : Type 0 → Type 0 → Type 0
Call C A = Option C → Option C × Outcome A

module _ {C : Type 0} where
  -- `ctx.take().unwrap()` behind a poll that has returned
  abbrev pub taken_back : {A : Type 0} → A → Option C → Outcome A
  taken_back a none = panic
  taken_back a (some ctx) = ok a

  abbrev pub after_poll : {A : Type 0} → Option C × Outcome A → Option C × Outcome A
  after_poll (local, panic) = (local, panic)
  after_poll (local, ok a) = (none, taken_back a local)

  -- a turn of a task: the context is there while it is polled
  unfoldable pub poll_with : {A : Type 0} → C → Call C A → Call C A
  poll_with ctx poll local = after_poll (poll (some ctx))

  -- `run`, where `body` is what stands behind its guard; the guard is dropped at the end and on a panic.
  unfoldable pub guarded : {A : Type 0} → Call C A → Call C A
  guarded body local = (none, (body local).1)

  -- After `run` no context is left, whether it returned or a poll in it panicked, and a turn of a task in
  -- which `run` itself was called panics once that call has returned.
  pub nested_run_panics :
      {A : Type 0} (ctx inner_ctx : C) (inner : Call C A) (local : Option C)
      → ((guarded (poll_with ctx inner) local).0 ≡ none)
        × ((poll_with ctx (guarded (poll_with inner_ctx inner)) local).1 ≡ panic)
  unfolding poll_with guarded
  nested_run_panics ctx inner_ctx inner local = (
    refl,
    elim (Outcome-cases (after_poll (inner (some inner_ctx))).1) [
      | inl stops ↦ rw stops refl
      | inr (a, returns) ↦ rw returns refl
    ],
  )
