-- ===== src/Slab/Tests.antt =====
-- Runs of slab.rs on small inputs, and its theorems at them.
use io.Prelude.{
  ℕ, ◌+◌, ◌-◌, ◌≡◌, refl, [], ◌∷◌, zero, suc, get_elem?, Option, none, some, ok, ◌>>=◌, arith, inl,
}
use io.Word.{u32_mod}
use io.Slab.{
  Key, Slab, occupied, free, with_capacity_in, insert, with_room, place, grow, free_entries, get,
  get_mut, remove,
}
use io.Slab.FreeList.{NotIn}
use io.Slab.Validity.{IsValid}
use io.Slab.Inserting.{Inserted, insert-Inserted}
use io.Slab.Removing.{Removed, remove-Removed, emptied}
use io.Slab.Agreement.{Listed}
use io.Slab.History.{Run, start, inserted, removed, Run-reads, Run-fresh, with_capacity_in-IsValid}
use io.Slab.Wrap.{wrapped_key_reads}

program : Unit {0}
unfolding with_capacity_in insert with_room place grow free_entries get get_mut remove
program = tt

abbrev two_free : Slab ℕ
two_free = record { elems = free 1 ∷ free 2 ∷ []; first_free_entry = 0; current_generation = 0 }

abbrev one_in : Slab ℕ
one_in = record {
  elems = occupied 0 70 ∷ free 2 ∷ [];
  first_free_entry = 1;
  current_generation = 0;
}

abbrev first_key : Key
first_key = record { index = 0; generation = 0 }

abbrev one_out : Slab ℕ
one_out = record { elems = free 1 ∷ free 2 ∷ []; first_free_entry = 0; current_generation = 1 }

created : with_capacity_in 2 ≡ ok two_free
unfolding program
created = refl

rounded_up :
    (with_capacity_in {T = ℕ} 3 >>= λ s. ok s.elems) ≡ ok (free 1 ∷ free 2 ∷ free 3 ∷ free 4 ∷ [])
unfolding program
rounded_up = refl

stored : insert two_free 70 ≡ ok (one_in, first_key)
unfolding program
stored = refl

taken : remove one_in first_key ≡ (one_out, some 70)
unfolding program
taken = refl

-- An empty vector grows by 16 entries.
grown :
    (insert {T = ℕ} (record { elems = []; first_free_entry = 0; current_generation = 5 }) 9 >>= λ r.
    ok (r.0.first_free_entry + r.1.generation))
    ≡ ok 6
unfolding program
grown = refl

two_free-IsValid : IsValid two_free
two_free-IsValid = with_capacity_in-IsValid 2 two_free created

stored-Run : Run one_in ((first_key, some 70) ∷ [])
stored-Run = inserted 70 first_key (start 2 created) (omega arith) stored

taken-Run : Run one_out ((first_key, none) ∷ [])
taken-Run = removed first_key (some 70) (some 70) stored-Run (inl (refl, refl)) (omega arith) taken

Run-reads_example :
    IsValid one_out
    × ((k : Key) (o : Option ℕ) → Listed k o ((first_key, none) ∷ []) → get one_out k ≡ o)
Run-reads_example = Run-reads taken-Run

Run-fresh_example :
    (s : Slab ℕ) × (k : Key) × (insert one_out 71 ≡ ok (s, k))
    × ((o : Option ℕ) → ¬ Listed k o ((first_key, none) ∷ []))
Run-fresh_example = Run-fresh 71 taken-Run (omega arith)

insert-Inserted_example : (s : Slab ℕ) × Inserted two_free 70 s
insert-Inserted_example = insert-Inserted two_free 70 two_free-IsValid (omega arith)

one_in-IsValid : IsValid one_in
one_in-IsValid = (Run-reads stored-Run).0

one_in-reads : get one_in first_key ≡ some 70
unfolding program
one_in-reads = refl

remove-Removed_example : Removed one_in first_key 70 (emptied one_in 0)
remove-Removed_example = remove-Removed one_in first_key 70 one_in-IsValid one_in-reads

abbrev at_top : Slab ℕ
at_top = record one_in { current_generation = u32_mod - 1 }

at_top-IsValid : IsValid at_top
at_top-IsValid = record {
  chain = 1 ∷ [];
  linked = (2, refl, refl, (refl, tt));
  distinct = (tt, tt);
  complete = one_in-complete;
}
  where
    one_in-complete : (i n : ℕ) → get_elem? at_top.elems i ≡ some (free n) → ¬ NotIn i (1 ∷ [])
    one_in-complete zero n h = cc
    one_in-complete (suc zero) n h = λ m. m.0 refl
    one_in-complete (suc (suc i)) n h = cc

at_top-reads : get at_top first_key ≡ some 70
unfolding program
at_top-reads = refl

wrapped_key_reads_example :
    (s : Slab ℕ) × (k : Key) × (insert (remove at_top first_key).0 71 ≡ ok (s, k))
    × (get s first_key ≡ some 71)
unfolding remove
wrapped_key_reads_example =
    wrapped_key_reads at_top first_key 70 71 at_top-IsValid at_top-reads refl (omega arith)
