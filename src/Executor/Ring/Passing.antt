-- ===== src/Executor/Ring/Passing.antt =====
-- What `try_submit_io` of executor.rs leaves in the queue and in the ring, and what its panics come from.
use io.Prelude.{
  ℕ, ◌≡◌, ◌≢◌, arith, ◌⊎◌, inl, inr, refl, sym, ap, ◌∙◌, List, [], ◌∷◌, ◌++◌, Option, none, some,
  ok, panic, Bool, true, false, ◌||◌, not, Bool-cases,
}
use mathlib.Core.List.{append_assoc, append-nil}
use native.Mathlib.Decide.{ℕ_discrete}
use io.Executor.Ring.{Ring, RingLaws, ebusy, busy, push_queue, try_submit_io}
use io.Executor.{Sqe}

no_value : {A : Type 0} {x : A} → panic ≡ ok x → ⊥
no_value e = cc

-- what the code tells apart of an answer: none, `EBUSY`, and any other error
abbrev pub OtherError : Option ℕ → Type 0
OtherError answer = (code : ℕ) × (answer ≡ some code) × (code ≢ ebusy)

answer-cases : (answer : Option ℕ) → (answer ≡ none) ⊎ ((answer ≡ some ebusy) ⊎ OtherError answer)
answer-cases none = inl refl
answer-cases (some code) = elim (ℕ_discrete code ebusy) [
  | yes e ↦ inr (inl (ap some e))
  | no ne ↦ inr (inr (code, refl, ne))
]

module _ {R O : Type 0} (ring : Ring R O) where
  other_error : (answer : Option ℕ) → OtherError answer → busy ring answer ≡ panic
  other_error answer (code, e, ne) = rw e (ground (arith, ne))

  -- Whether a call refuses by its answer, as the code sees it.
  pub busy-cases :
      (answer : Option ℕ) → ((b : Bool) × (busy ring answer ≡ ok b)) ⊎ OtherError answer
  busy-cases answer = elim (answer-cases answer) [
    | inl done ↦ inl (false, rw done refl)
    | inr (inl refused) ↦ inl (true, rw refused refl)
    | inr (inr other) ↦ inr other
  ]

  -- The loop over the queue comes to a full ring once these entries are pushed.
  pub record ComesTo (moved : List (Sqe O)) (r full : R) : Type 0 where
    pub pushed : push_queue ring moved r ≡ ok ([], full)
    pub no_room : ring.is_full full ≡ true

  -- A submission of `try_submit_io` answers an error other than `EBUSY`: in the loop, where the ring is
  -- full behind the entries in front of the next one, or after the loop.
  pub data Refused (queue : List (Sqe O)) (r : R) (force_submit : Bool) : Type 0 where
    in_loop :
        (moved : List (Sqe O)) (e : Sqe O) (rest : List (Sqe O)) (full : R)
        → queue ≡ moved ++ e ∷ rest
        → ComesTo moved r full
        → OtherError (ring.submit (ring.sync full)).1
        → Refused queue r force_submit
    at_end :
        (queue' : List (Sqe O)) (r' : R)
        → push_queue ring queue r ≡ ok (queue', r')
        → (force_submit || not (ring.is_empty r')) ≡ true
        → OtherError (ring.submit (ring.sync r')).1
        → Refused queue r force_submit

  module _ (laws : RingLaws ring) where
    -- The oldest entries moved from the queue to the ring, in their order: all of them, unless the ring
    -- was full behind those that moved, and busy.
    pub record Passed (queue : List (Sqe O)) (r : R) (queue' : List (Sqe O)) (r' : R) : Type 0 where
      pub moved : List (Sqe O)
      pub queue_split : queue ≡ moved ++ queue'
      pub in_order : laws.held r' ≡ laws.held r ++ moved
      pub all_passed :
          (queue' ≡ [])
          ⊎ ((full : R) × ComesTo moved r full × ((ring.submit (ring.sync full)).1 ≡ some ebusy))

    submitted_held : (r : R) → laws.held (ring.sync (ring.submit (ring.sync r)).0) ≡ laws.held r
    submitted_held r = laws.sync_held _ ∙ laws.submit_held (ring.sync r) ∙ laws.sync_held r

    -- What the loop comes to: it ends, or a submission of a full ring is refused.
    abbrev Pushes : List (Sqe O) → R → Type 0
    Pushes queue r =
        ((queue' : List (Sqe O)) × (r' : R) × (push_queue ring queue r ≡ ok (queue', r'))
          × Passed queue r queue' r')
        ⊎ ((push_queue ring queue r ≡ panic)
            × ((force_submit : Bool) → Refused queue r force_submit))

    ComesTo-later :
        {e : Sqe O} {moved : List (Sqe O)} {r r2 full : R}
        → ((queue : List (Sqe O)) → push_queue ring (e ∷ queue) r ≡ push_queue ring queue r2)
        → ComesTo moved r2 full
        → ComesTo (e ∷ moved) r full
    ComesTo-later {moved} step c = record { pushed = step moved ∙ c.pushed; no_room = c.no_room }

    -- The first entry is pushed, and the loop goes on.
    Pushes-later :
        {e : Sqe O} {queue : List (Sqe O)} {r r1 r2 : R}
        → laws.held r1 ≡ laws.held r
        → laws.held r2 ≡ laws.held r1 ++ e ∷ []
        → ((rest : List (Sqe O)) → push_queue ring (e ∷ rest) r ≡ push_queue ring rest r2)
        → Pushes queue r2
        → Pushes (e ∷ queue) r
    Pushes-later {e} {queue} {r} {r2 = r2} same held step (inl (queue', r', made, p)) = inl (
      queue',
      r',
      step queue ∙ made,
      record {
        moved = e ∷ p.moved;
        queue_split = ap (λ l. e ∷ l) p.queue_split;
        in_order =
            p.in_order
            ∙ ap (λ l. l ++ p.moved) (held ∙ ap (λ l. l ++ e ∷ []) same)
            ∙ append_assoc (laws.held r) (e ∷ []) p.moved;
        all_passed = elim p.all_passed [
          | inl none_left ↦ inl none_left
          | inr (full, c, refused) ↦ inr (full, ComesTo-later step c, refused)
        ];
      },
    )
    Pushes-later {e} {queue} {r} {r2 = r2} same held step (inr (panics, refused)) =
        inr (step queue ∙ panics, λ force_submit. later (refused force_submit) force_submit)
      where
        later :
            {b : Bool}
            → Refused queue r2 b
            → (force_submit : Bool) → Refused (e ∷ queue) r force_submit
        later (in_loop moved x rest full split c other) force_submit =
            in_loop (e ∷ moved) x rest full (ap (λ l. e ∷ l) split) (ComesTo-later step c) other
        later (at_end queue' r' made forced other) force_submit =
            absurd (no_value (sym panics ∙ made))

    push_queue-Pushes : (queue : List (Sqe O)) (r : R) → Pushes queue r
    unfolding push_queue
    push_queue-Pushes [] r = inl (
      [],
      r,
      refl,
      record {
        moved = [];
        queue_split = refl;
        in_order = sym (append-nil _);
        all_passed = inl refl;
      },
    )
    push_queue-Pushes (e ∷ queue) r = elim (Bool-cases (ring.is_full r)) [
      | inl full ↦ elim (answer-cases (ring.submit (ring.sync r)).1) [
        | inl done ↦
            let r1 = ring.sync (ring.submit (ring.sync r)).0 in
            let (r2, pushed, held) = laws.push_held r1 e (laws.submit_room (ring.sync r) done) in
            Pushes-later (submitted_held r) held
              (λ rest. rw (full, push_queue) (rw done (rw pushed refl)))
              (push_queue-Pushes queue r2)
        | inr (inl refused) ↦ inl (
          e ∷ queue,
          (ring.submit (ring.sync r)).0,
          rw (full, push_queue) (rw refused refl),
          record {
            moved = [];
            queue_split = refl;
            in_order = laws.submit_held (ring.sync r) ∙ laws.sync_held r ∙ sym (append-nil _);
            all_passed = inr (r, record { pushed = refl; no_room = full }, refused);
          },
        )
        | inr (inr other) ↦ inr (
          rw (full, push_queue) (rw (other_error (ring.submit (ring.sync r)).1 other) refl),
          λ force_submit.
              in_loop [] e queue r refl (record { pushed = refl; no_room = full }) other,
        )
      ]
      | inr room ↦
          let (r2, pushed, held) = laws.push_held r e room in
          Pushes-later refl held (λ rest. rw (room, push_queue) (rw pushed refl))
            (push_queue-Pushes queue r2)
    ]

    -- Either `try_submit_io` returns: the oldest entries of the queue are moved to the ring, behind those
    -- that it holds and in their order, and the queue is left empty, unless the ring was full behind the
    -- entries that moved and answered the submission with `EBUSY`. Or it panics, and one of its
    -- submissions, in the loop or after it, has answered another error.
    pub try_submit_io-Passed :
        (queue : List (Sqe O)) (r : R) (force_submit : Bool)
        → ((queue' : List (Sqe O)) × (r' : R) × (try_submit_io ring queue r force_submit
              ≡ ok (queue', r'))
            × Passed queue r queue' r')
          ⊎ ((try_submit_io ring queue r force_submit ≡ panic) × Refused queue r force_submit)
    unfolding try_submit_io
    try_submit_io-Passed queue r force_submit = elim (push_queue-Pushes queue r) [
      | inr (panics, refused) ↦ inr (rw panics refl, refused force_submit)
      | inl (queue', r', made, p) ↦ elim (Bool-cases (force_submit || not (ring.is_empty r'))) [
        | inl forced ↦ elim (busy-cases (ring.submit (ring.sync r')).1) [
          | inl (b, e) ↦ inl (
            queue',
            ring.sync (ring.submit (ring.sync r')).0,
            rw made (rw forced (rw e refl)),
            record {
              moved = p.moved;
              queue_split = p.queue_split;
              in_order = submitted_held r' ∙ p.in_order;
              all_passed = p.all_passed;
            },
          )
          | inr other ↦ inr (
            rw made (rw forced (rw (other_error (ring.submit (ring.sync r')).1 other) refl)),
            at_end queue' r' made forced other,
          )
        ]
        | inr idle ↦ inl (queue', r', rw made (rw idle refl), p)
      ]
    ]
