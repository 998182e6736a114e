-- ===== src/DioFile/Whole/Filling.antt =====
-- The loop of `read_exact` of dio_file.rs where the file goes on: what its buffer holds.
use io.Prelude.{
  drop-drop, take-add, length-append, ℕ, zero, suc, ◌+◌, ◌-◌, ◌≤◌, ◌≡◌, refl, sym, ap, ◌∙◌, subst,
  List, [], ◌∷◌, ◌++◌, Option, none, some, ok, assert, leb, ◌==◌, ◌||◌, length, take, drop, max,
  arith, Bool-cases, inl, inr, first_ran, if◌then◌else◌,
}
use io.IoError.{Result, done, failed, unexpected_eof, is_interrupted}
use io.Word.{add_u64}
use io.IoBuffer.Views.{length-take, length-drop}
use mathlib.Core.List.{append_assoc}
use io.DioFile.{DioFile, assert_alignment, seen}
use io.DioFile.Whole.{splice, read_from}

-- The answers to the requests of the loop from `total` on: each that is no error has some bytes of the
-- file, from the offset of its request on. After a block or more the loop moves on by a step.
unfoldable pub FromFile : List ℕ → ℕ → ℕ → ℕ → List (Result (List ℕ)) → Type 0
FromFile content base step total [] = Unit {0}
FromFile content base step total (failed e ∷ answers) = FromFile content base step total answers
FromFile content base step total (done got ∷ answers) =
    (1 ≤ length got)
    × (got ≡ take (length got) (drop (base + total) content))
    × FromFile content base step (if leb step (length got) then total + step else total) answers

length-take_le : (n : ℕ) (xs : List ℕ) → length (take n xs) ≤ length xs
length-take_le zero xs = omega arith
length-take_le (suc n) [] = omega arith
length-take_le (suc n) (x ∷ xs) = omega (arith, length-take_le n xs)

take-take : (m n : ℕ) (xs : List ℕ) → m ≤ n → take m (take n xs) ≡ take m xs
take-take zero n xs le = refl
take-take (suc m) zero xs le = absurd (omega (arith, le))
take-take (suc m) (suc n) [] le = refl
take-take (suc m) (suc n) (x ∷ xs) le = ap (λ l. x ∷ l) (take-take m n xs (omega (arith, le)))

take-append_all : (xs ys : List ℕ) → take (length xs) (xs ++ ys) ≡ xs
take-append_all [] ys = refl
take-append_all (x ∷ xs) ys = ap (λ l. x ∷ l) (take-append_all xs ys)

-- What holds of the bytes of the buffer: the first `total` are those of the file from `base` on.
abbrev pub Filled : List ℕ → ℕ → ℕ → List ℕ → Type 0
Filled content base total bytes =
    (total ≤ length bytes) × (take total bytes ≡ take total (drop base content))

shorter :
    (content bytes : List ℕ) (base m n : ℕ)
    → m ≤ n
    → Filled content base n bytes
    → Filled content base m bytes
shorter content bytes base m n le (long, same) = (
  omega (arith, le, long),
  sym (take-take m n bytes le) ∙ ap (take m) same ∙ take-take m n (drop base content) le,
)

splice-Filled :
    (content bytes got : List ℕ) (base total : ℕ)
    → got ≡ take (length got) (drop (base + total) content)
    → Filled content base total bytes
    → Filled content base (total + length got) (splice bytes total got)
splice-Filled content bytes got base total from (long, same) =
    let a = take total bytes in
    let rest = drop (total + length got) bytes in
    let front : length (a ++ got) ≡ total + length got =
      omega (arith, length-append a got, length-take total bytes long) in
    let joins : a ++ (got ++ rest) ≡ (a ++ got) ++ rest = sym (append_assoc a got rest) in
    (
      omega (arith, front, ap length joins, length-append (a ++ got) rest),
      ap (take (total + length got)) joins
          ∙ ap (λ i. take i ((a ++ got) ++ rest)) (sym front)
          ∙ take-append_all (a ++ got) rest
          ∙ ap (λ l. l ++ got) same
          ∙ ap (λ l. take total (drop base content) ++ l)
              (from ∙ ap (take (length got)) (sym (drop-drop total base content)))
          ∙ sym (take-add total (length got) (drop base content)),
    )

-- What the loop leaves where it ends with success.
abbrev pub Ended : List ℕ → ℕ → ℕ → List ℕ → Type 0
Ended content base wanted out =
    (base + wanted ≤ length content) × (take wanted out ≡ take wanted (drop base content))

ended :
    (content bytes got : List ℕ) (base total wanted : ℕ)
    → wanted ≤ total + length got
    → 1 ≤ length got
    → got ≡ take (length got) (drop (base + total) content)
    → Filled content base total bytes
    → Ended content base wanted (splice bytes total got)
ended content bytes got base total wanted le some_read from f =
    let g = splice-Filled content bytes got base total from f in
    let there : length got ≤ length content - (base + total) = omega (
      arith,
      ap length from,
      length-take_le (length got) (drop (base + total) content),
      length-drop (base + total) content,
    ) in
    (
      omega (arith, there, some_read, le),
      (shorter content (splice bytes total got) base wanted (total + length got) le g).1,
    )

pub read_from-Filled :
    (file : DioFile) (ptr size wanted base total : ℕ) (bytes out content : List ℕ)
    (retry : Option ℕ) (answers : List (Result (List ℕ)))
    → read_from file ptr size wanted base bytes total retry answers ≡ ok (some (done out))
    → FromFile content base (max file.dio_offset_align file.dio_mem_align) total answers
    → Filled content base total bytes
    → Ended content base wanted out
unfolding read_from FromFile
read_from-Filled file ptr size wanted base total bytes out content retry [] h from f = cc
read_from-Filled file ptr size wanted base total bytes out content retry (failed e ∷ answers) h from
      f =
    let (offset, h1, _) = first_ran (add_u64 base total) (sym h) in
    let (_, h2, _) = first_ran (assert_alignment file (ptr + total) (size - total) offset) h1 in
    elim (Bool-cases (is_interrupted e)) [
      | inl again ↦
          read_from-Filled file ptr size wanted base total bytes out content retry answers
            (sym (rw again at h2)) from f
      | inr fails ↦ let no : ok (some (done out)) ≡ ok (some (failed e)) = rw fails at h2 in cc
    ]
read_from-Filled file ptr size wanted base total bytes out content retry (done got ∷ answers) h
      (one, piece, from) f =
    let (offset, h1, _) = first_ran (add_u64 base total) (sym h) in
    let (_, h2, _) = first_ran (assert_alignment file (ptr + total) (size - total) offset) h1 in
    let n = length got in
    let step = max file.dio_offset_align file.dio_mem_align in
    let g = splice-Filled content bytes got base total piece f in
    elim (Bool-cases ((n == 0) || leb wanted (total + n))) [
      | inl enough ↦
          let made : ok (some (done out)) ≡ ok (some (done (splice bytes total got))) =
            rw enough at h2 in
          let same : splice bytes total got ≡ out = cc in
          subst (Ended content base wanted) same
            (ended content bytes got base total wanted (ground (arith, enough, one)) one piece f)
      | inr more ↦
          let h3 = rw more at h2 in
          elim (Bool-cases (leb step n)) [
            | inl block ↦
                let (_, h4, _) = first_ran (assert (leb (total + step) size)) (rw block at h3) in
                read_from-Filled file ptr size wanted base (total + step) (splice bytes total got)
                  out content none answers (sym h4) (rw block at from)
                  (shorter content (splice bytes total got) base (total + step) (total + n)
                    (ground (arith, block)) g)
            | inr part ↦
                let h4 = rw part at h3 in
                elim (Bool-cases (seen retry n)) [
                  | inl twice ↦
                      let no : ok (some (done out)) ≡ ok (some (failed unexpected_eof)) =
                        rw twice at h4 in
                      cc
                  | inr new ↦
                      read_from-Filled file ptr size wanted base total (splice bytes total got) out
                        content (some n) answers (sym (rw new at h4)) (rw part at from)
                        (shorter content (splice bytes total got) base total (total + n)
                          (omega arith) g)
                ]
          ]
    ]
