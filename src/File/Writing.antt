-- ===== src/File/Writing.antt =====
-- `write_all` of file.rs: what it has written when it returns.
use io.Prelude.{
  map, ◌-◌, ◌<◌, ℕ, zero, suc, subst, ◌+◌, ◌≤◌, ◌≡◌, refl, sym, ap, ◌∙◌, List, [], ◌∷◌, ◌++◌,
  Option, some, length, take, drop, Outcome, ok, ◌>>=◌, arith, Bool-cases, inl, inr, ltb, ◌==◌,
  first_ran,
}
use io.Word.{u64_mod, add_u64}
use io.IoError.{Result, done, failed, is_interrupted}
use io.File.{write_all}

-- The pieces follow one another from `offset` on, none of them empty, and together they are the buffer.
pub Covers : ℕ → List (ℕ × List ℕ) → List ℕ → Type 0
Covers offset [] buf = buf ≡ []
Covers offset ((at, piece) ∷ written) buf =
    (rest : List ℕ) × (at ≡ offset)
    × (1 ≤ length piece)
    × (buf ≡ piece ++ rest)
    × Covers (offset + length piece) written rest

take-drop :
    (n : ℕ) (xs : List ℕ) → n ≤ length xs → (xs ≡ take n xs ++ drop n xs) × (length (take n xs) ≡ n)
take-drop zero xs h = (refl, refl)
take-drop (suc n) [] h = absurd (omega arith)
take-drop (suc n) (x ∷ xs) h =
    let (split, len) = take-drop n xs (omega arith) in (ap (λ ys. x ∷ ys) split, omega (arith, len))

abbrev Written : Type 0
Written = List (ℕ × List ℕ) × Option (Result (Unit {0}))

abbrev returned : List (ℕ × List ℕ) → Option (Result (Unit {0})) → Outcome Written
returned written result = ok (written, result)

-- Nothing is written where nothing is left.
Covers-empty :
    (offset : ℕ) (written : List (ℕ × List ℕ)) (result : Option (Result (Unit {0})))
    → returned [] (some (done tt)) ≡ returned written result
    → Covers offset written []
unfolding Covers
Covers-empty offset written result h =
    let none_written : [] ≡ written = cc in subst (λ w. Covers offset w []) none_written refl

-- One piece, and then the rest.
Covers-piece :
    (offset n offset' : ℕ) (buf : List ℕ) (written : List (ℕ × List ℕ))
    → 1 ≤ n
    → n ≤ length buf
    → ok offset' ≡ add_u64 offset n
    → Covers offset' written (drop n buf)
    → Covers offset ((offset, take n buf) ∷ written) buf
unfolding Covers
Covers-piece offset n offset' buf written pos fits sum c =
    let (split, len) = take-drop n buf fits in
    let next : offset' ≡ offset + length (take n buf) = ground (arith, sum, len) in
    (
      drop n buf,
      refl,
      omega (arith, len, pos),
      split,
      subst (λ o. Covers o written (drop n buf)) next c,
    )

-- Where `write_all` returns success, the pieces that the kernel took follow one another from the offset
-- on, none of them empty, and make up the whole buffer.
pub write_all-Covers :
    (buf : List ℕ) (offset : ℕ) (answers : List (Result ℕ)) (written : List (ℕ × List ℕ))
    → write_all buf offset answers ≡ ok (written, some (done tt))
    → Covers offset written buf
unfolding write_all
write_all-Covers [] offset [] written h = Covers-empty offset written (some (done tt)) h
write_all-Covers [] offset (done n ∷ answers) written h =
    Covers-empty offset written (some (done tt)) h
write_all-Covers [] offset (failed e ∷ answers) written h =
    Covers-empty offset written (some (done tt)) h
write_all-Covers (b ∷ buf) offset [] written h = cc
write_all-Covers (b ∷ buf) offset (failed e ∷ answers) written h =
    elim (Bool-cases (is_interrupted e)) [
      | inl again ↦ write_all-Covers (b ∷ buf) offset answers written (ground (arith, h, again))
      | inr other ↦ absurd (ground (arith, h, other))
    ]
write_all-Covers (b ∷ buf) offset (done n ∷ answers) written h = elim (Bool-cases (n == 0)) [
  | inl nothing ↦ absurd (ground (arith, h, nothing))
  | inr some_bytes ↦ elim (Bool-cases (ltb (length (b ∷ buf)) n)) [
    | inl past ↦ absurd (ground (arith, h, some_bytes, past))
    | inr within ↦
        let (offset', rest, sum) =
          first_ran {Y = Written}
            {rest = λ o. write_all (drop n (b ∷ buf)) o answers >>= λ p.
              ok ((offset, take n (b ∷ buf)) ∷ p.0, p.1)}
            {y = (written, some (done tt))} (add_u64 offset n)
            (ground (arith, h, some_bytes, within)) in
        let (p, out, ran) =
          first_ran {Y = Written} (write_all (drop n (b ∷ buf)) offset' answers) rest in
        let whole : written ≡ (offset, take n (b ∷ buf)) ∷ p.0 = cc in
        let success : p.1 ≡ some (done tt) = cc in
        subst (λ w. Covers offset w (b ∷ buf)) (sym whole)
          (Covers-piece offset n offset' (b ∷ buf) p.0 (ground arith) (ground arith) sum (
            write_all-Covers (drop n (b ∷ buf)) offset' answers p.0
              (sym ran ∙ ap (returned p.0) success)))
  ]
]

length-drop : (n : ℕ) (xs : List ℕ) → n ≤ length xs → length (drop n xs) + n ≡ length xs
length-drop zero xs h = omega arith
length-drop (suc n) [] h = absurd (omega arith)
length-drop (suc n) (x ∷ xs) h = omega (arith, length-drop n xs (omega arith))

-- counts of bytes taken, none of them zero, with their sum
unfoldable pub AddUp : List ℕ → ℕ → Type 0
AddUp [] total = total ≡ 0
AddUp (n ∷ counts) total = (1 ≤ n) × (n ≤ total) × AddUp counts (total - n)

-- Where the kernel answers with counts that are not zero and add up to the length of the buffer, and the
-- end of the range fits 64 bits, `write_all` returns success without a panic.
pub write_all-AddUp :
    (buf : List ℕ) (offset : ℕ) (counts : List ℕ)
    → AddUp counts (length buf)
    → offset + length buf < u64_mod
    → (written : List (ℕ × List ℕ)) × (write_all buf offset (map done counts)
        ≡ ok (written, some (done tt)))
unfolding write_all AddUp
write_all-AddUp [] offset [] sum fits = ([], refl)
write_all-AddUp [] offset (n ∷ counts) sum fits = ([], refl)
write_all-AddUp (b ∷ buf) offset [] sum fits = absurd (omega (arith, sum))
write_all-AddUp (b ∷ buf) offset (n ∷ counts) (pos, le, rest) fits =
    let left : length (drop n (b ∷ buf)) + n ≡ length (b ∷ buf) = length-drop n (b ∷ buf) le in
    let (written, e) =
      write_all-AddUp (drop n (b ∷ buf)) (offset + n) counts
        (subst (AddUp counts) (omega (arith, left)) rest) (omega (arith, left, fits)) in
    ((offset, take n (b ∷ buf)) ∷ written, ground (arith, pos, le, e, left, fits))
