-- ===== src/Executor/Timers.antt =====
-- `notify_timers` of executor.rs: which tasks it notifies, and which timers it keeps.
use mathlib.Core.List.{Perm}
use mathlib.Core.List.Perm
use native.Mathlib.Decide.{ℕ_discrete}
use io.Prelude.{
  ℕ, zero, suc, ◌+◌, ◌≤◌, ◌<◌, ◌≡◌, refl, sym, ap, ◌∙◌, List, [], ◌∷◌, ◌++◌, Option, some, length,
  get_elem?, swap_remove, swap_remove-perm, length-swap_remove, ok, All, leb, if◌then◌else◌, true,
  false, arith, Bool-cases, inl, inr, lt_of_get_elem?,
}
use io.Slab.{Key}
use io.Slab.Agreement.{same_key}
use io.VecMap.{zipped}
use io.VecMap
use io.VecMap.Zipped.{zipped-swap_remove}
use io.VecMap.Laws.{IsValid, view, insert-Updated}
use io.Executor.{NotifyWhen, ToNotify, key_eq, notify_from, notify_timers}

-- the timers with their tasks
abbrev pub waiting : NotifyWhen → List (ℕ × Key)
waiting w = zipped w.timer w.task_id

-- What a key looks up after the notification of some tasks, where it looked up `o` before.
abbrev pub notified : Key → List (ℕ × Key) → Option (Unit {0}) → Option (Unit {0})
notified q [] o = o
notified q ((t, k) ∷ gone) o = if same_key k q then some tt else notified q gone o

notified-some : (q : Key) (gone : List (ℕ × Key)) → notified q gone (some tt) ≡ some tt
notified-some q [] = refl
notified-some q ((t, k) ∷ gone) = ground (arith, notified-some q gone)

-- `gone` are the timers before `time`: they left, their tasks are notified, and no other is.
pub record Fired (time : ℕ) (w : NotifyWhen) (n : ToNotify) (w' : NotifyWhen) (n' : ToNotify)
    : Type 0 where
  pub gone : List (ℕ × Key)
  pub same_timers : Perm (gone ++ waiting w') (waiting w)
  pub expired : All (λ p. p.0 < time) gone
  pub pending : (j t : ℕ) → get_elem? w'.timer j ≡ some t → time ≤ t
  pub same_length : length w'.timer ≡ length w'.task_id
  pub valid : IsValid key_eq n'
  pub notifies : (q : Key) → view key_eq n' q ≡ notified q gone (view key_eq n q)

get_elem?-swap_remove_lt :
    (xs : List ℕ) (i j : ℕ) → j < i → get_elem? (swap_remove xs i) j ≡ get_elem? xs j
get_elem?-swap_remove_lt [] i j h = refl
get_elem?-swap_remove_lt (x ∷ xs) zero j h = absurd (omega arith)
get_elem?-swap_remove_lt (x ∷ xs) (suc i) zero h = refl
get_elem?-swap_remove_lt (x ∷ xs) (suc i) (suc j) h = get_elem?-swap_remove_lt xs i j (omega arith)

get_elem?-zipped :
    (ks : List ℕ) (vs : List Key) (i k : ℕ)
    → length ks ≡ length vs
    → get_elem? ks i ≡ some k
    → (v : Key) × (get_elem? vs i ≡ some v) × (get_elem? (zipped ks vs) i ≡ some (k, v))
get_elem?-zipped [] vs i k l h = cc
get_elem?-zipped (x ∷ ks) [] i k l h = absurd (omega arith)
get_elem?-zipped (x ∷ ks) (v ∷ vs) zero k l h = (v, refl, cc)
get_elem?-zipped (x ∷ ks) (v ∷ vs) (suc i) k l h = get_elem?-zipped ks vs i k (omega arith) h

-- The positions before `i` hold timers that stay.
Checked : ℕ → ℕ → List ℕ → Type 0
Checked i time timers = (j t : ℕ) → j < i → get_elem? timers j ≡ some t → time ≤ t

abbrev removed : NotifyWhen → ℕ → NotifyWhen
removed w i = record { timer = swap_remove w.timer i; task_id = swap_remove w.task_id i }

-- one timer that has expired, with its task
Fired-more :
    (time t : ℕ) (k : Key) (w w' : NotifyWhen) (n n1 n' : ToNotify) (i : ℕ)
    → length w.timer ≡ length w.task_id
    → t < time
    → get_elem? (waiting w) i ≡ some (t, k)
    → ((q : Key) → view key_eq n1 q ≡ (if same_key k q then some tt else view key_eq n q))
    → Fired time (removed w i) n1 w' n'
    → Fired time w n w' n'
Fired-more time t k w w' n n1 n' i l lt at views f = record {
  gone = (t, k) ∷ f.gone;
  same_timers =
      Perm.trans (Perm.cons (t, k) (rw (← zipped-swap_remove w.timer w.task_id i l) f.same_timers))
        (swap_remove-perm (waiting w) i (t, k) at);
  expired = (lt, f.expired);
  pending = f.pending;
  same_length = f.same_length;
  valid = f.valid;
  notifies = λ q. elim (Bool-cases (same_key k q)) [
    | inl e ↦ ground (arith, f.notifies q, views q, e, notified-some q f.gone)
    | inr e ↦ ground (arith, f.notifies q, views q, e)
  ];
}

Fired-none :
    (time i : ℕ) (w : NotifyWhen) (n : ToNotify)
    → length w.timer ≤ i
    → Checked i time w.timer
    → length w.timer ≡ length w.task_id
    → IsValid key_eq n
    → Fired time w n w n
unfolding Checked
Fired-none time i w n le c l v = record {
  gone = [];
  same_timers = Perm.refl (waiting w);
  expired = tt;
  pending = λ j t e. c j t (omega (arith, lt_of_get_elem? w.timer j e)) e;
  same_length = l;
  valid = v;
  notifies = λ q. refl;
}

Checked-more :
    (i time t : ℕ) (timers : List ℕ)
    → Checked i time timers
    → get_elem? timers i ≡ some t
    → time ≤ t
    → Checked (i + 1) time timers
unfolding Checked
Checked-more i time t timers c e le j u lt at = elim (ℕ_discrete i j) [
  | yes same ↦
      let both : some t ≡ some u = sym e ∙ ap (get_elem? timers) same ∙ at in ground (arith, both)
  | no ne ↦ c j u (omega (arith, ne)) at
]

Checked-removed :
    (i time : ℕ) (timers : List ℕ) → Checked i time timers → Checked i time (swap_remove timers i)
unfolding Checked
Checked-removed i time timers c j u lt at =
    c j u lt (sym (get_elem?-swap_remove_lt timers i j lt) ∙ at)

get_elem?-some_lt : (xs : List ℕ) (i : ℕ) → i < length xs → (x : ℕ) × (get_elem? xs i ≡ some x)
get_elem?-some_lt [] i h = absurd (omega arith)
get_elem?-some_lt (x ∷ xs) zero h = (x, refl)
get_elem?-some_lt (x ∷ xs) (suc i) h = get_elem?-some_lt xs i (omega arith)

-- a round that passes a timer
round_stays :
    (rounds i time t : ℕ) (w : NotifyWhen) (n : ToNotify)
    → leb (length w.timer) i ≡ false
    → get_elem? w.timer i ≡ some t
    → leb time t ≡ true
    → notify_from (suc rounds) i time w n ≡ notify_from rounds (i + 1) time w n
unfolding notify_from
round_stays rounds i time t w n more at stays =
    rw (more, notify_from) (rw at (ground (arith, stays)))

-- a round that removes a timer
round_fires :
    (rounds i time t : ℕ) (k : Key) (w : NotifyWhen) (n n1 : ToNotify) {old : Option (Unit {0})}
    → leb (length w.timer) i ≡ false
    → get_elem? w.timer i ≡ some t
    → leb time t ≡ false
    → get_elem? w.task_id i ≡ some k
    → VecMap.insert key_eq n k tt ≡ ok (n1, old)
    → notify_from (suc rounds) i time w n ≡ notify_from rounds i time (removed w i) n1
unfolding notify_from
round_fires rounds i time t k w n n1 more at fires task ins =
    rw (more, notify_from) (rw at (ground (arith, fires, task, ins)))

abbrev Fires : ℕ → ℕ → ℕ → NotifyWhen → ToNotify → Type 0
Fires rounds i time w n =
    (w' : NotifyWhen) × (n' : ToNotify) × (notify_from rounds i time w n ≡ ok (w', n'))
    × Fired time w n w' n'

notify_from-Fired :
    (rounds i time : ℕ) (w : NotifyWhen) (n : ToNotify)
    → length w.timer ≤ i + rounds
    → Checked i time w.timer
    → length w.timer ≡ length w.task_id
    → IsValid key_eq n
    → Fires rounds i time w n
unfolding notify_from
notify_from-Fired zero i time w n le c l v =
    (w, n, ground arith, Fired-none time i w n (omega arith) c l v)
notify_from-Fired (suc rounds) i time w n le c l v = elim (Bool-cases (leb (length w.timer) i)) [
  | inl end ↦ (w, n, rw (end, notify_from) refl, Fired-none time i w n (ground arith) c l v)
  | inr more ↦
      let (t, at) = get_elem?-some_lt w.timer i (ground arith) in
      elim (Bool-cases (leb time t)) [
        | inl stays ↦
            let (w', n', e, f) =
              notify_from-Fired rounds (i + 1) time w n (omega arith)
                (Checked-more i time t w.timer c at (ground arith)) l v in
            (w', n', round_stays rounds i time t w n more at stays ∙ e, f)
        | inr fires ↦
            let (k, task, pair) = get_elem?-zipped w.timer w.task_id i t l at in
            let (n1, ins, u) = insert-Updated key_eq n k tt v in
            let (w', n', e, f) =
              notify_from-Fired rounds i time (removed w i) n1
                (omega (arith, le, length-swap_remove w.timer i (lt_of_get_elem? w.timer i at)))
                (Checked-removed i time w.timer c)
                (omega (
                  arith,
                  l,
                  length-swap_remove w.timer i (lt_of_get_elem? w.timer i at),
                  length-swap_remove w.task_id i (lt_of_get_elem? w.task_id i task),
                ))
                u.valid in
            (
              w',
              n',
              round_fires rounds i time t k w n n1 more at fires task ins ∙ e,
              Fired-more time t k w w' n n1 n' i l (ground arith) pair u.views f,
            )
      ]
]

-- Where every timer has a task and the tasks to notify are a valid map, `notify_timers` ends without a
-- panic: the timers before the time leave, their tasks are notified beside those that were, and all
-- other timers stay, none of them before the time.
pub notify_timers-Fired :
    (time : ℕ) (w : NotifyWhen) (n : ToNotify)
    → length w.timer ≡ length w.task_id
    → IsValid key_eq n
    → (w' : NotifyWhen) × (n' : ToNotify) × (notify_timers time w n ≡ ok (w', n'))
      × Fired time w n w' n'
unfolding notify_timers Checked
notify_timers-Fired time w n l v =
    notify_from-Fired (length w.timer) 0 time w n (omega arith) (λ j t lt. absurd (omega arith)) l v
