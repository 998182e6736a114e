-- ===== src/DioFile/Whole/Exact.antt =====
-- `read_exact` of dio_file.rs where the file goes on: what its view shows.
use io.Prelude.{
  drop-drop, ℕ, ◌+◌, ◌-◌, ◌^◌, ◌%◌, replicate, ◌≤◌, ◌<◌, ◌≡◌, refl, sym, ap, ◌∙◌, subst, List, [],
  ◌∷◌, Option, none, some, Outcome, ok, panic, assert, unwrap, leb, ◌==◌, ◌||◌, length, take, drop,
  max, arith, true, first_ran,
}
use io.IoError.{Result, done, failed}
use io.Word.{u32_mod, u64_mod, add_u64, to_u32, sub_checked}
use io.IoBuffer.{IoBuffer, IoBufferView, view_slice}
use io.IoBuffer
use io.DioFile.{DioFile, assert_alignment, align_down, align_up}
use io.DioFile.Whole.{splice, read_range, read_from, read_exact, after}
use io.DioFile.Align.{assert_alignment_iff}
use io.DioFile.Whole.Ranges.{take-drop_part, ranged, new_buffer, new_made, viewed}
use io.DioFile.Whole.Filling.{FromFile, read_from-Filled}

same_done : {A : Type 0} {a b : A} → ok (some (done a)) ≡ ok (some (done b)) → a ≡ b
same_done e = cc

-- What came to an end after a call had the value of the call.
after_ran :
    {A B : Type 0} {b : B} {rest : A → Outcome (Option (Result B))}
    (first : Outcome (Option (Result A)))
    → ok (some (done b)) ≡ after first rest
    → (a : A) × (first ≡ ok (some (done a))) × (ok (some (done b)) ≡ rest a)
after_ran panic e = cc
after_ran (ok none) e = cc
after_ran (ok (some (failed f))) e = cc
after_ran (ok (some (done a))) e = (a, refl, e)

-- A view that was made shows that part of the bytes.
made_shows :
    (buf : IoBuffer) (start len : ℕ) (v : IoBufferView)
    → IoBuffer.view buf start len ≡ ok v
    → view_slice v ≡ ok (take len (drop start buf.bytes))
unfolding io.IoBuffer.view view_slice
made_shows buf start len v h =
    let (end, h1, e) = first_ran (add_u64 start len) (sym h) in
    let (_, h2, f) = first_ran (assert (leb end buf.layout_size)) h1 in
    let same : record { buf = buf; offset = start; len = len } ≡ v = cc in
    subst (λ u. view_slice u ≡ ok (take len (drop start buf.bytes))) same (rw (← e) (rw (← f) refl))

-- The view starts at the offset.
range_starts :
    (file : DioFile) (offset size w rs s : ℕ)
    → read_range file offset size ≡ ok (w, rs, s)
    → w + s ≡ offset
unfolding read_range
range_starts file offset size w rs s h =
    let (w1, h1, _) = first_ran (align_down offset file.dio_offset_align) (sym h) in
    let (size32, h2, _) = first_ran (to_u32 size) h1 in
    let (rs1, h3, _) = first_ran (align_up size32 file.dio_offset_align) h2 in
    let (s1, h4, e) = first_ran (sub_checked offset w1) h3 in
    let same_w : w ≡ w1 = cc in let same_s : s ≡ s1 = cc in ground (arith, e, same_w, same_s)

pub read_exact-Fills :
    (file : DioFile) (allocate_zeroed : ℕ → ℕ → Option ℕ) (ptr offset size w rs s : ℕ)
    (answers : List (Result (List ℕ))) (content : List ℕ) (v : IoBufferView)
    → read_range file offset size ≡ ok (w, rs, s)
    → read_exact file allocate_zeroed ptr offset size answers ≡ ok (some (done v))
    → FromFile content w (max file.dio_offset_align file.dio_mem_align) 0 answers
    → (offset + size ≤ length content) × (view_slice v ≡ ok (take size (drop offset content)))
unfolding read_exact
read_exact-Fills file allocate_zeroed ptr offset size w rs s answers content v range h from =
    let h0 = rw range at h in
    let (new, h1, _) = first_ran (IoBuffer.new allocate_zeroed rs file.dio_mem_align) (sym h0) in
    let (buf, h2, _) = first_ran (unwrap new) h1 in
    let (out, read, h3) =
      after_ran (read_from file ptr buf.size (s + size) w buf.bytes 0 none answers) h2 in
    let (v', h4, made) = first_ran (IoBuffer.view (record buf { bytes = out }) s size) h3 in
    let same : v' ≡ v = sym (same_done h4) in
    let (inside, bytes) =
      read_from-Filled file ptr buf.size (s + size) w 0 buf.bytes out content none answers read from
        (omega arith, refl) in
    let start = range_starts file offset size w rs s range in
    (
      omega (arith, inside, start),
      made_shows (record buf { bytes = out }) s size v (sym made ∙ ap ok same)
          ∙ ap ok (
              sym (take-drop_part s size (s + size) out (omega arith))
              ∙ ap (λ l. take size (drop s l)) bytes
              ∙ take-drop_part s size (s + size) (drop w content) (omega arith)
              ∙ ap (take size) (drop-drop s w content)
              ∙ ap (λ i. take size (drop i content)) start),
    )

-- One answer with all that is wanted ends the loop.
read_from-enough :
    (file : DioFile) (ptr size wanted base : ℕ) (bytes got : List ℕ)
    → base < u64_mod
    → assert_alignment file ptr size base ≡ ok tt
    → wanted ≤ length got
    → read_from file ptr size wanted base bytes 0 none (done got ∷ [])
      ≡ ok (some (done (splice bytes 0 got)))
unfolding read_from
read_from-enough file ptr size wanted base bytes got small sound enough =
    let sum : add_u64 base 0 ≡ ok base = ground (arith, small) in
    let same_ptr : ptr + 0 ≡ ptr = omega arith in
    let same_size : size - 0 ≡ size = omega arith in
    let ends : ((length got == 0) || leb wanted (0 + length got)) ≡ true = ground (arith, enough) in
    rw sum (rw same_ptr (rw same_size (rw sound (rw ends refl))))

-- For powers of two as alignments, a size above zero, and a buffer from the allocator that is aligned and
-- large enough, `read_exact` of a range whose blocks the kernel reads from the file with one request comes
-- to no panic: it returns a view that shows the bytes of the file in the range.
pub read_exact-Returns :
    (j k ptr offset size w rs s n : ℕ) (allocate_zeroed : ℕ → ℕ → Option ℕ) (content got : List ℕ)
    → k ≤ 31
    → offset < u64_mod
    → 1 ≤ size
    → size + 2 ^ k + 2 ^ k < u32_mod
    → read_range (record { dio_mem_align = 2 ^ j; dio_offset_align = 2 ^ k }) offset size
      ≡ ok (w, rs, s)
    → ptr % 2 ^ j ≡ 0
    → allocate_zeroed rs (2 ^ j) ≡ some n
    → rs ≤ n
    → n + 2 ^ j ≤ 2 ^ 63
    → got ≡ take (length got) (drop w content)
    → s + size ≤ length got
    → length got ≤ rs
    → (v : IoBufferView) × (read_exact
          (record { dio_mem_align = 2 ^ j; dio_offset_align = 2 ^ k })
          allocate_zeroed
          ptr
          offset
          size
          (done got ∷ [])
        ≡ ok (some (done v)))
      × (view_slice v ≡ ok (take size (drop offset content)))
unfolding read_exact new_buffer FromFile
read_exact-Returns j k ptr offset size w rs s n allocate_zeroed content got le small one fits range
      aligned memory large room from enough fewer =
    let file : DioFile = record { dio_mem_align = 2 ^ j; dio_offset_align = 2 ^ k } in
    let (r, start) = ranged j k offset size w rs s le small (omega (arith, fits)) range in
    let filled = record (new_buffer n (2 ^ j) rs) { bytes = splice (replicate n 0) 0 got } in
    let (v, made, shows) =
      viewed filled s size (omega (arith, enough, fewer, large)) (omega (arith, room)) in
    let sound : assert_alignment file ptr rs w ≡ ok tt =
      (assert_alignment_iff j k ptr rs w le (omega (arith, r.reaches.close, fits))
          (omega (arith, r.starts.below, small))).1
        (aligned, r.reaches.multiple, r.starts.multiple) in
    let returns : read_exact file allocate_zeroed ptr offset size (done got ∷ [])
        ≡ ok (some (done v)) =
      rw range (
        rw (new_made allocate_zeroed rs (2 ^ j) n memory room) (
          rw
            (read_from-enough file ptr rs (s + size) w (replicate n 0) got
              (omega (arith, r.starts.below, small)) sound enough)
            (rw made refl))) in
    let at_base : w + 0 ≡ w = omega arith in
    (
      v,
      returns,
      (read_exact-Fills file allocate_zeroed ptr offset size w rs s (done got ∷ []) content v range
          returns (omega (arith, enough, one), rw at_base from, tt)).1,
    )
