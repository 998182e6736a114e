-- ===== src/File/Reading.antt =====
-- `read_exact` and the function `read` of file.rs: what they have read when they return.
use io.Prelude.{
  take-add, drop-drop, ℕ, zero, suc, ◌+◌, ◌-◌, ◌≤◌, ◌≡◌, refl, sym, ap, ◌∙◌, subst, List, [], ◌∷◌,
  ◌++◌, Option, some, length, take, drop, Outcome, ok, ◌>>=◌, arith, Bool-cases, inl, inr, ltb,
  ◌==◌, first_ran, All,
}
use io.Word.{add_u64}
use io.IoError.{Result, done, failed, is_interrupted}
use io.Executor.{pos}
use io.File.{Open}
use io.File.Handle.{read_exact, joined, fill_vector, drop_after, drop_file, open_path, read_file}

-- a piece of a file with that content
abbrev pub FromFile : List ℕ → ℕ × List ℕ → Type 0
FromFile content piece = piece.1 ≡ take (length piece.1) (drop piece.0 content)

-- One piece of a file, and the rest of the range.
one_more :
    (left offset n : ℕ) (got rest content : List ℕ)
    → n ≡ length got
    → n ≤ left
    → got ≡ take (length got) (drop offset content)
    → rest ≡ take (left - n) (drop (offset + n) content)
    → got ++ rest ≡ take left (drop offset content)
one_more left offset n got rest content same le from more =
    let sum : n + (left - n) ≡ left = omega (arith, le) in
    ap (λ l. got ++ l) (more ∙ ap (take (left - n)) (sym (drop-drop n offset content)))
    ∙ ap (λ l. l ++ take (left - n) (drop n (drop offset content)))
        (from ∙ ap (λ i. take i (drop offset content)) (sym same))
    ∙ sym (take-add n (left - n) (drop offset content))
    ∙ ap (λ i. take i (drop offset content)) sum

abbrev Pieces : Type 0
Pieces = List (ℕ × List ℕ) × Option (Result (Unit {0}))

abbrev returned : List (ℕ × List ℕ) → Option (Result (Unit {0})) → Outcome Pieces
returned pieces result = ok (pieces, result)

no_pieces :
    (pieces : List (ℕ × List ℕ)) (result : Option (Result (Unit {0})))
    → returned [] (some (done tt)) ≡ returned pieces result
    → joined pieces ≡ []
no_pieces pieces result h = let none_read : [] ≡ pieces = cc in sym (ap joined none_read)

-- Where `read_exact` returns success, and the kernel answers each request with bytes of the file from the
-- offset of the request on, what was read is the whole range of the file.
pub read_exact-Reads :
    (left offset : ℕ) (answers : List (Result (List ℕ))) (content : List ℕ)
    (pieces : List (ℕ × List ℕ))
    → read_exact left offset answers ≡ ok (pieces, some (done tt))
    → All (FromFile content) pieces
    → joined pieces ≡ take left (drop offset content)
unfolding read_exact
read_exact-Reads zero offset [] content pieces h all = no_pieces pieces (some (done tt)) h
read_exact-Reads zero offset (done got ∷ answers) content pieces h all =
    no_pieces pieces (some (done tt)) h
read_exact-Reads zero offset (failed e ∷ answers) content pieces h all =
    no_pieces pieces (some (done tt)) h
read_exact-Reads (suc left) offset [] content pieces h all = absurd (ground (arith, h))
read_exact-Reads (suc left) offset (failed e ∷ answers) content pieces h all =
    elim (Bool-cases (is_interrupted e)) [
      | inl again ↦
          read_exact-Reads (suc left) offset answers content pieces (ground (arith, h, again)) all
      | inr other ↦ absurd (ground (arith, h, other))
    ]
read_exact-Reads (suc left) offset (done got ∷ answers) content pieces h all =
    elim (Bool-cases (length got == 0)) [
      | inl nothing ↦ absurd (ground (arith, h, nothing))
      | inr some_bytes ↦ elim (Bool-cases (ltb (suc left) (length got))) [
        | inl past ↦ absurd (ground (arith, h, some_bytes, past))
        | inr within ↦
            let (offset', rest, sum) =
              first_ran {Y = Pieces}
                {rest = λ o. read_exact (suc left - length got) o answers >>= λ p.
                  ok ((offset, got) ∷ p.0, p.1)}
                {y = (pieces, some (done tt))} (add_u64 offset (length got))
                (ground (arith, h, some_bytes, within)) in
            let (p, out, ran) =
              first_ran {Y = Pieces} (read_exact (suc left - length got) offset' answers) rest in
            let whole : pieces ≡ (offset, got) ∷ p.0 = cc in
            let success : p.1 ≡ some (done tt) = cc in
            let (from, others) = subst (All (FromFile content)) whole all in
            let next : offset' ≡ offset + length got = ground (arith, sum) in
            ap joined whole
            ∙ one_more (suc left) offset (length got) got (joined p.0) content refl
                (ground (arith, within)) from
                (read_exact-Reads (suc left - length got) offset' answers content p.0
                    (sym ran ∙ ap (λ r. ok (p.0, r)) success) others
                  ∙ ap (λ o. take (suc left - length got) (drop o content)) next)
      ]
    ]

-- A vector with a capacity is filled with no bytes, and no request.
fill_vector-Empty :
    (capacity : ℕ) (answers : List (Result (List ℕ)))
    → fill_vector capacity answers ≡ ok (some (done []))
unfolding fill_vector read_exact
fill_vector-Empty capacity [] = refl
fill_vector-Empty capacity (done got ∷ answers) = refl
fill_vector-Empty capacity (failed e ∷ answers) = refl

-- `read` of a file that could be opened and whose size is known succeeds with no bytes, whatever its size
-- is and whatever the kernel would answer; the file is then closed.
pub read_file-Empty :
    (path : List ℕ) (how : Open) (fd capacity : ℕ) (answers : List (Result (List ℕ)))
    (files_to_close : List ℕ)
    → open_path path (pos 0) (pos 0) ≡ done how
    → read_file path (done fd) (done capacity) answers files_to_close
      ≡ ok (some (done []), files_to_close ++ fd ∷ [])
unfolding read_file drop_after drop_file
read_file-Empty path how fd capacity answers files_to_close taken =
    rw (taken, read_file) (rw (fill_vector-Empty capacity answers) refl)
