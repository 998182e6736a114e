-- ===== src/VecMap/Tests.antt =====
-- Runs of vecmap.rs on small inputs, and its theorems at them.
use io.Prelude.{ℕ, ◌≡◌, refl, [], ◌∷◌, none, some, ok, ◌==◌, ==_iff, KeyEq}
use io.VecMap.{VecMap, insert, remove, clear, with_capacity_in}
use io.VecMap.Laws.{IsValid, view, Updated, insert-Updated, remove-Updated, clear-IsValid}

abbrev nat_eq : KeyEq ℕ
nat_eq = record { same = ◌==◌; same_iff = λ x y. (let (to, from) = ==_iff x y in (from, to)) }

abbrev three : VecMap ℕ ℕ
three = record { keys = 1 ∷ 2 ∷ 3 ∷ []; values = 10 ∷ 20 ∷ 30 ∷ [] }

three-IsValid : IsValid nat_eq three
three-IsValid = record { same_length = refl; distinct = (refl, (refl, (refl, tt))) }

swapped : remove nat_eq three 1 ≡ ok (record { keys = 3 ∷ 2 ∷ []; values = 30 ∷ 20 ∷ [] }, some 10)
unfolding remove
swapped = refl

replaced : insert nat_eq three 2 21 ≡ ok (record three { values = 10 ∷ 21 ∷ 30 ∷ [] }, some 20)
unfolding insert
replaced = refl

insert-Updated_example :
    (m : VecMap ℕ ℕ) × (insert nat_eq three 4 40 ≡ ok (m, none))
    × Updated nat_eq three 4 (some 40) m
insert-Updated_example = insert-Updated nat_eq three 4 40 three-IsValid

remove-Updated_example :
    (m : VecMap ℕ ℕ) × (remove nat_eq three 1 ≡ ok (m, some 10)) × Updated nat_eq three 1 none m
remove-Updated_example = remove-Updated nat_eq three 1 three-IsValid

clear-IsValid_example :
    IsValid nat_eq (clear three)
    × (view nat_eq (clear three) 1 ≡ none)
    × (with_capacity_in 8 ≡ clear three)
clear-IsValid_example = clear-IsValid nat_eq three 8 1
