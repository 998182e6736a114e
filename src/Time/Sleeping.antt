-- ===== src/Time/Sleeping.antt =====
-- A task that sleeps, or gives way: when it is woken.
use mathlib.Core.Logic.{∥∥₁_elim}
use native.Mathlib.Nat.{ℕ_set}
use io.Prelude.{
  ℕ, suc, ◌+◌, ◌-◌, ◌≤◌, ◌<◌, ◌≡◌, ◌⊎◌, inl, inr, refl, sym, ap, ◌∙◌, List, [], ◌∷◌, ◌++◌, Option,
  none, some, ok, length, length-append, Bool-cases, if◌then◌else◌, arith, All, ltb, total,
  total-append, total-perm, ◌==◌, ◌&&◌, get_elem?,
}
use io.Slab.{Key}
use io.Slab.Agreement.{same_key, same_key_iff}
use io.VecMap.{zipped}
use io.VecMap.Zipped.{zipped-append}
use io.VecMap.Laws.{IsValid, view, insert-Updated}
use io.Executor.Timers.{Fired, waiting, notified, notify_timers-Fired}
use io.Executor.{
  Context, NotifyWhen, ToNotify, key_eq, notify, notify_when, yield_if_needed, notify_timers,
}
use io.File.{Poll, pending, ready}
use io.Time.{notify_when_poll, yield_poll, sleep_until}

-- one for a timer of a task
abbrev pub timer_of : ℕ → Key → ℕ × Key → ℕ
timer_of t k p = if (p.0 == t) && same_key p.1 k then 1 else 0

-- Every timer that had a task fired or still waits.
pub Fired-total :
    (f : ℕ × Key → ℕ) {time : ℕ} {w w' : NotifyWhen} {n n' : ToNotify}
    (fired : Fired time w n w' n')
    → total f fired.gone + total f (waiting w') ≡ total f (waiting w)
Fired-total f {w} {w'} fired =
    sym (total-append f fired.gone (waiting w'))
    ∙ ∥∥₁_elim fired.same_timers (ℕ_set _ _) (λ d. total-perm f d)

notified-one :
    (t : ℕ) (k : Key) (gone : List (ℕ × Key)) (o : Option (Unit {0}))
    → 1 ≤ total (timer_of t k) gone
    → notified k gone o ≡ some tt
notified-one t k [] o h = absurd (omega (arith, h))
notified-one t k ((u, q) ∷ gone) o h = elim (Bool-cases (same_key q k)) [
  | inl same ↦ rw same refl
  | inr other ↦ rw other (notified-one t k gone o (ground (arith, h, other)))
]

-- A timer that has expired does not wait any more.
none_before :
    (t : ℕ) (k : Key) (times : List ℕ) (keys : List Key)
    → ((j u : ℕ) → get_elem? times j ≡ some u → t < u)
    → total (timer_of t k) (zipped times keys) ≡ 0
none_before t k [] keys h = refl
none_before t k (u ∷ times) [] h = refl
none_before t k (u ∷ times) (q ∷ keys) h =
    ground (arith, h 0 u refl, none_before t k times keys (λ j v at. h (suc j) v at))

-- One that has not expired has not fired.
none_after :
    (t time : ℕ) (k : Key) (gone : List (ℕ × Key))
    → time ≤ t
    → All (λ p. p.0 < time) gone
    → total (timer_of t k) gone ≡ 0
none_after t time k [] le h = refl
none_after t time k ((u, q) ∷ gone) le h = ground (arith, le, h.0, none_after t time k gone le h.1)

-- A timer that is set waits.
new_timer :
    (t : ℕ) (k : Key) (times : List ℕ) (keys : List Key)
    → length times ≡ length keys
    → 1 ≤ total (timer_of t k) (zipped (times ++ t ∷ []) (keys ++ k ∷ []))
new_timer t k times keys same =
    let whole = ap (total (timer_of t k)) (zipped-append times keys t k same) in
    let split = total-append (timer_of t k) (zipped times keys) ((t, k) ∷ []) in
    ground (arith, whole, split, same_key_iff k k)

-- What a sleeping task comes to at a time: it is notified, or its timer waits.
pub Sleeps : ℕ → ℕ → Key → NotifyWhen → ToNotify → Type 0
Sleeps t time k w n =
    ((t < time) × (view key_eq n k ≡ some tt))
    ⊎ ((time ≤ t) × (1 ≤ total (timer_of t k) (waiting w)))

module _ {T O : Type 0} where
  -- Where every timer has a task and the tasks to notify are a valid map, the first poll of a sleep waits
  -- and the second is ready. In between, whenever the timers are looked at, without a panic: a time after
  -- the one that was set wakes the task, and before it the timer is kept.
  pub sleep_until-Sleeps :
      (t time : ℕ) (ctx : Context T O)
      → length ctx.notify_when.timer ≡ length ctx.notify_when.task_id
      → IsValid key_eq ctx.to_notify
      → (ctx' : Context T O) × (notify_when_poll (sleep_until t) ctx
          ≡ (ctx', record { timer = none }, pending))
        × ((ctx2 : Context T O)
            → notify_when_poll (record { timer = none }) ctx2
              ≡ (ctx2, record { timer = none }, ready tt))
        × (w : NotifyWhen) × (n : ToNotify) × (notify_timers time ctx'.notify_when ctx'.to_notify
            ≡ ok (w, n))
        × Sleeps t time ctx.task_id w n
  unfolding notify_when_poll sleep_until notify_when Sleeps
  sleep_until-Sleeps t time ctx same valid =
      let ctx' = notify_when t ctx in
      let (w, n, e, fired) =
        notify_timers-Fired time ctx'.notify_when ctx'.to_notify
          (omega (
            arith,
            same,
            length-append ctx.notify_when.timer (t ∷ []),
            length-append ctx.notify_when.task_id (ctx.task_id ∷ []),
          ))
          valid in
      let there : 1 ≤ total (timer_of t ctx.task_id) (waiting ctx'.notify_when) =
        new_timer t ctx.task_id ctx.notify_when.timer ctx.notify_when.task_id same in
      let kept = Fired-total (timer_of t ctx.task_id) fired in
      (
        ctx',
        refl,
        (λ ctx2. refl),
        w,
        n,
        e,
        elim (Bool-cases (ltb t time)) [
          | inl past ↦
              let past' : t < time = ground (arith, past) in
              inl (
                past',
                fired.notifies ctx.task_id
                    ∙ notified-one t ctx.task_id fired.gone _ (
                        omega (
                          arith,
                          there,
                          kept,
                          none_before t ctx.task_id w.timer w.task_id
                              (λ j u at. omega (arith, past', fired.pending j u at)),
                        )),
              )
          | inr early ↦ inr (
            ground (arith, early),
            omega (
              arith,
              there,
              kept,
              none_after t time ctx.task_id fired.gone (ground (arith, early)) fired.expired,
            ),
          )
        ],
      )

  -- Where the tasks to notify are a valid map, a poll of `YieldIfNeeded` comes to no panic: within the
  -- time that a round may take it is ready and changes nothing, and past that it waits and has notified
  -- the task itself, so that the task is polled again.
  pub yield_poll-Yields :
      (now : ℕ) (ctx : Context T O)
      → IsValid key_eq ctx.to_notify
      → (ctx' : Context T O) × (out : Poll (Unit {0})) × (yield_poll now ctx ≡ ok (ctx', out))
        × (((now - ctx.start < ctx.preempt_duration) × (out ≡ ready tt) × (ctx' ≡ ctx))
            ⊎ ((ctx.preempt_duration ≤ now - ctx.start)
                × (out ≡ pending)
                × (view key_eq ctx'.to_notify ctx.task_id ≡ some tt)))
  unfolding yield_poll yield_if_needed notify
  yield_poll-Yields now ctx valid = elim (Bool-cases (ltb (now - ctx.start) ctx.preempt_duration)) [
    | inl soon ↦ (ctx, ready tt, rw soon refl, inl (ground (arith, soon), refl, refl))
    | inr late ↦
        let (n, made, u) = insert-Updated key_eq ctx.to_notify ctx.task_id tt valid in
        (
          record ctx { to_notify = n },
          pending,
          rw late (rw made refl),
          inr (
            ground (arith, late),
            refl,
            ground (arith, u.views ctx.task_id, same_key_iff ctx.task_id ctx.task_id),
          ),
        )
  ]
