-- ===== src/Executor/Ring.antt =====
-- `try_submit_io` of executor.rs, over a ring of io_uring as a parameter.
pub mod Passing
use io.Prelude.{
  ℕ, ◌≡◌, List, [], ◌∷◌, ◌++◌, Option, none, some, Outcome, ok, panic, ◌>>=◌, unwrap, ◌==◌,
  if◌then◌else◌, Bool, true, false, ◌||◌, not,
}
use io.Executor.{Sqe}

-- `EBUSY`
abbrev pub ebusy : ℕ
ebusy = 16

-- The submission side of a ring: `submit` gives an error number, or none.
pub record Ring (R O : Type 0) : Type 0 where
  pub is_full : R → Bool
  pub is_empty : R → Bool
  pub sync : R → R
  pub push : R → Sqe O → Option R
  pub submit : R → R × Option ℕ

-- What the code relies on: `held` are the entries that were pushed, the oldest first. A ring that is not
-- full takes one more, and a submission that succeeds makes room. Nothing is said of its errors.
pub record RingLaws {R O : Type 0} (ring : Ring R O) : Type 0 where
  pub held : R → List (Sqe O)
  pub sync_held : (r : R) → held (ring.sync r) ≡ held r
  pub submit_held : (r : R) → held (ring.submit r).0 ≡ held r
  pub push_held :
      (r : R) (e : Sqe O)
      → ring.is_full r ≡ false
      → (r' : R) × (ring.push r e ≡ some r') × (held r' ≡ held r ++ e ∷ [])
  pub submit_room :
      (r : R) → (ring.submit r).1 ≡ none → ring.is_full (ring.sync (ring.submit r).0) ≡ false

module _ {R O : Type 0} (ring : Ring R O) where
  -- the test of the result of `submit`: whether the ring was busy
  abbrev pub busy : Option ℕ → Outcome Bool
  busy none = ok false
  busy (some code) = if code == ebusy then ok true else panic

  -- the `while` loop: what stays in the queue, and the ring
  unfoldable pub push_queue : List (Sqe O) → R → Outcome (List (Sqe O) × R)
  push_queue [] r = ok ([], r)
  push_queue (e ∷ queue) r = elim (ring.is_full r) [
    | true ↦ do
      let s = ring.submit (ring.sync r)
      refused ← busy s.1
      elim refused [
        | true ↦ ok (e ∷ queue, s.0)
        | false ↦ do r' ← unwrap (ring.push (ring.sync s.0) e); push_queue queue r'
      ]
    | false ↦ do r' ← unwrap (ring.push r e); push_queue queue r'
  ]

  unfoldable pub try_submit_io : List (Sqe O) → R → Bool → Outcome (List (Sqe O) × R)
  unfolding push_queue
  try_submit_io queue r force_submit = do
    (queue', r') ← push_queue queue r
    if force_submit || not (ring.is_empty r')
        then (do let s = ring.submit (ring.sync r'); refused ← busy s.1; ok (queue', ring.sync s.0))
        else ok (queue', r')
