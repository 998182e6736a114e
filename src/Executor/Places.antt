-- ===== src/Executor/Places.antt =====
-- A ring with two places that is never busy, and finishes an entry once it is submitted.
use io.Prelude.{refl, sym, List, [], ◌∷◌, ◌++◌, Option, none, some, length, leb, true, false, Bool}
use mathlib.Core.List.{append_assoc, append-nil}
use io.Executor.{Sqe}
use io.Executor.Ring.{Ring, RingLaws}

pub record Places (O : Type 0) : Type 0 where
  pub taken : List (Sqe O)
  pub waiting : List (Sqe O)

module _ {O : Type 0} where
  abbrev push_place : Places O → Sqe O → Bool → Option (Places O)
  push_place p e true = none
  push_place p e false = some (record p { waiting = p.waiting ++ e ∷ [] })

  abbrev pub two_places : Ring (Places O) O
  two_places = record {
    is_full = λ p. leb 2 (length p.waiting);
    is_empty = λ p. leb (length p.waiting) 0;
    sync = λ p. p;
    push = λ p e. push_place p e (leb 2 (length p.waiting));
    submit = λ p. (record { taken = p.taken ++ p.waiting; waiting = [] }, none);
  }

  abbrev pub two_places_laws : RingLaws two_places
  two_places_laws = record {
    held = λ p. p.taken ++ p.waiting;
    sync_held = λ p. refl;
    submit_held = λ p. append-nil (p.taken ++ p.waiting);
    push_held = λ p e room. (
      record p { waiting = p.waiting ++ e ∷ [] },
      rw room refl,
      sym (append_assoc p.taken p.waiting (e ∷ [])),
    );
    submit_room = λ p done. refl;
  }

  abbrev pub empty_places : Places O
  empty_places = record { taken = []; waiting = [] }
