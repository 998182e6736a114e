-- ===== src/DioFile/Transfers.antt =====
-- `write_all_aligned` and `read_exact_aligned` of dio_file.rs: what ends their loop.
use io.Prelude.{
  ℕ, zero, suc, ◌≤◌, ◌<◌, ◌≡◌, ◌≢◌, refl, ap, List, [], ◌∷◌, ◌++◌, Option, none, some, Bool-cases,
  inl, inr, true, false, arith, ltb, ◌⊎◌, All,
}
use io.IoError.{IoError, Result, done, failed, unexpected_eof, is_interrupted}
use io.DioFile.{seen, retry_all}

-- An answer after which the loop asks again, unless it repeats the last short count.
abbrev pub Retried : ℕ → Result ℕ → Type 0
Retried len (done n) = n < len
Retried len (failed e) = is_interrupted e ≡ true

-- What ends the loop with success: an answer for the whole buffer, after answers that were retried.
pub Completed : ℕ → List (Result ℕ) → List (Result ℕ) → Type 0
Completed len answers rest =
    (n : ℕ) × (used : List (Result ℕ)) × (answers ≡ used ++ done n ∷ rest)
    × (len ≤ n)
    × All (Retried len) used

Completed-later :
    (len : ℕ) (a : Result ℕ) (answers rest : List (Result ℕ))
    → Retried len a
    → Completed len answers rest
    → Completed len (a ∷ answers) rest
unfolding Completed
Completed-later len a answers rest r (n, used, e, le, all) =
    (n, a ∷ used, ap (λ xs. a ∷ xs) e, le, (r, all))

-- The loop returns success only on an answer for the whole buffer; all before it were short counts
-- and interruptions.
pub retry_all-Completed :
    (len : ℕ) (retry : Option ℕ) (answers rest : List (Result ℕ))
    → retry_all len retry answers ≡ some (done tt, rest)
    → Completed len answers rest
unfolding retry_all Completed
retry_all-Completed len retry [] rest h = cc
retry_all-Completed len retry (done n ∷ answers) rest h = elim (Bool-cases (ltb n len)) [
  | inl short ↦ elim (Bool-cases (seen retry n)) [
    | inl same ↦ absurd (ground (arith, h, short, same))
    | inr new ↦
        Completed-later len (done n) answers rest (ground arith)
          (retry_all-Completed len (some n) answers rest (ground (arith, h, short, new)))
  ]
  | inr full ↦ (n, [], ground (arith, h, full), ground arith, tt)
]
retry_all-Completed len retry (failed e ∷ answers) rest h = elim (Bool-cases (is_interrupted e)) [
  | inl again ↦
      Completed-later len (failed e) answers rest again
        (retry_all-Completed len retry answers rest (ground (arith, h, again)))
  | inr other ↦ absurd (ground (arith, h, other))
]

-- the last short count among some answers, or the one from before
last_count : Option ℕ → List (Result ℕ) → Option ℕ
last_count retry [] = retry
last_count retry (done n ∷ answers) = last_count (some n) answers
last_count retry (failed e ∷ answers) = last_count retry answers

seen-eq : (retry : Option ℕ) (n : ℕ) → seen retry n ≡ true → retry ≡ some n
seen-eq none n h = cc
seen-eq (some m) n h = ground (arith, h)

-- What ends the loop with an error: that error, where it is not an interruption, or a short count that
-- repeats the last one, which is reported as the end of the file.
pub GaveUp : ℕ → Option ℕ → IoError → List (Result ℕ) → List (Result ℕ) → Type 0
GaveUp len retry e answers rest =
    (used : List (Result ℕ)) × All (Retried len) used
    × (((answers ≡ used ++ failed e ∷ rest) × (is_interrupted e ≡ false))
        ⊎ ((n : ℕ) × (answers ≡ used ++ done n ∷ rest)
            × (n < len)
            × (last_count retry used ≡ some n)
            × (e ≡ unexpected_eof)))

GaveUp-count :
    (len n : ℕ) (retry : Option ℕ) (e : IoError) (answers rest : List (Result ℕ))
    → n < len
    → GaveUp len (some n) e answers rest
    → GaveUp len retry e (done n ∷ answers) rest
unfolding GaveUp last_count
GaveUp-count len n retry e answers rest r (used, all, inl (a, b)) =
    (done n ∷ used, (r, all), inl (ap (λ xs. done n ∷ xs) a, b))
GaveUp-count len n retry e answers rest r (used, all, inr (m, a, b, c, d)) =
    (done n ∷ used, (r, all), inr (m, ap (λ xs. done n ∷ xs) a, b, c, d))

GaveUp-interrupted :
    (len : ℕ) (retry : Option ℕ) (i e : IoError) (answers rest : List (Result ℕ))
    → is_interrupted i ≡ true
    → GaveUp len retry e answers rest
    → GaveUp len retry e (failed i ∷ answers) rest
unfolding GaveUp last_count
GaveUp-interrupted len retry i e answers rest r (used, all, inl (a, b)) =
    (failed i ∷ used, (r, all), inl (ap (λ xs. failed i ∷ xs) a, b))
GaveUp-interrupted len retry i e answers rest r (used, all, inr (m, a, b, c, d)) =
    (failed i ∷ used, (r, all), inr (m, ap (λ xs. failed i ∷ xs) a, b, c, d))

-- The loop returns an error only where an answer is that error and not an interruption, or where a
-- short count repeats the last one, and then the error is the end of the file; all before it were
-- short counts and interruptions.
pub retry_all-GaveUp :
    (len : ℕ) (retry : Option ℕ) (e : IoError) (answers rest : List (Result ℕ))
    → retry_all len retry answers ≡ some (failed e, rest)
    → GaveUp len retry e answers rest
unfolding retry_all GaveUp last_count
retry_all-GaveUp len retry e [] rest h = cc
retry_all-GaveUp len retry e (done n ∷ answers) rest h = elim (Bool-cases (ltb n len)) [
  | inl short ↦ elim (Bool-cases (seen retry n)) [
    | inl same ↦ (
      [],
      tt,
      inr (
        n,
        ground (arith, h, short, same),
        ground arith,
        seen-eq retry n same,
        ground (arith, h, short, same),
      ),
    )
    | inr new ↦
        GaveUp-count len n retry e answers rest (ground arith)
          (retry_all-GaveUp len (some n) e answers rest (ground (arith, h, short, new)))
  ]
  | inr full ↦ absurd (ground (arith, h, full))
]
retry_all-GaveUp len retry e (failed i ∷ answers) rest h = elim (Bool-cases (is_interrupted i)) [
  | inl again ↦
      GaveUp-interrupted len retry i e answers rest again
        (retry_all-GaveUp len retry e answers rest (ground (arith, h, again)))
  | inr other ↦ ([], tt, inl (ground (arith, h, other), ground (arith, h, other)))
]

-- `n` and `m` in turn, `rounds` times
pub in_turn : ℕ → ℕ → ℕ → List (Result ℕ)
in_turn n m zero = []
in_turn n m (suc rounds) = done n ∷ done m ∷ in_turn n m rounds

-- The loop has no bound: on two different short counts in turn it never returns, however many come.
pub retry_all-in_turn :
    (len n m rounds : ℕ)
    → n < len
    → m < len
    → n ≢ m
    → retry_all len (some m) (in_turn n m rounds) ≡ none
unfolding retry_all in_turn
retry_all-in_turn len n m zero p q d = refl
retry_all-in_turn len n m (suc rounds) p q d =
    ground (arith, retry_all-in_turn len n m rounds p q d)
