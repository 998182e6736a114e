-- ===== src/File/Tests.antt =====
-- Runs of file.rs on small inputs, and its theorems at them.
use Prim.Native.String.{String}
use io.Prelude.{
  take, drop, ℕ, ◌^◌, ◌-◌, ◌≡◌, refl, List, [], ◌∷◌, none, some, ok, panic, true, arith,
}
use io.Slab.{Key, Slab}
use io.Slab
use io.Slab.Validity as Slabs
use io.Slab.Validity.{extended-IsValid}
use io.IoError.{Result, done, failed, os, eintr, unexpected_eof}
use io.Executor.{pos, negsuc, Context}
use io.Executor.Queueing.{Sound}
use io.File.{Opcode, Read, from_path, write_all, answer}
use io.File.Polls.{Reads, read_poll-Reads}
use io.File.Handle.{read_file, open_path, read_exact}
use io.File.Reading.{read_exact-Reads}
use io.File.Writing.{Covers, write_all-Covers, AddUp}

abbrev none_running : Slab Key
none_running = record { elems = []; first_free_entry = 0; current_generation = 0 }

none_running-IsValid : Slabs.IsValid none_running
unfolding io.Slab.free_entries
none_running-IsValid = extended-IsValid [] 0 0 (λ k m h. cc)

abbrev first_turn : Context String Opcode
first_turn = record {
  start = 0;
  task_id = record { index = 1; generation = 0 };
  tasks = record { elems = []; first_free_entry = 0; current_generation = 0 };
  io_results = record { keys = []; values = [] };
  io_queue = [];
  dio_queue = [];
  preempt_duration = 10;
  io = none_running;
  to_notify = record { keys = []; values = [] };
  notify_when = record { timer = []; task_id = [] };
  num_dio_running = 0;
}

first_turn-Sound : Sound first_turn
first_turn-Sound = record {
  running = none_running-IsValid;
  generation = omega arith;
  small = omega arith;
  results = record { same_length = refl; distinct = tt };
  notified = record { same_length = refl; distinct = tt };
}

abbrev request : Read
request = record {
  fd = 3;
  offset = 512;
  buf_ptr = 4096;
  buf_len = 100;
  io_id = none;
  direct_io = true;
}

read_poll-Reads_example : Reads request (negsuc 8) first_turn
read_poll-Reads_example =
    read_poll-Reads request (negsuc 8) first_turn refl (omega arith)
      (λ e. absurd (eight_is_not_least e)) first_turn-Sound (omega arith) (omega arith)
  where
    eight_is_not_least : negsuc 8 ≡ negsuc (2 ^ 31 - 1) → ⊥
    eight_is_not_least e = cc

least_overflows : answer (λ n. n) (negsuc 2147483647) ≡ panic
unfolding answer
least_overflows = refl

abbrev tmp : List ℕ
tmp = 116 ∷ 109 ∷ 112 ∷ []

abbrev answers : List (Result ℕ)
answers = done 2 ∷ failed (os eintr) ∷ done 1 ∷ []

abbrev pieces : List (ℕ × List ℕ)
pieces = (100, 116 ∷ 109 ∷ []) ∷ (102, 112 ∷ []) ∷ []

written : write_all tmp 100 answers ≡ ok (pieces, some (done tt))
unfolding write_all
written = refl

stopped :
    write_all tmp 100 (done 2 ∷ done 0 ∷ [])
    ≡ ok ((100, 116 ∷ 109 ∷ []) ∷ [], some (failed unexpected_eof))
unfolding write_all
stopped = refl

write_all-Covers_example : Covers 100 pieces tmp
write_all-Covers_example = write_all-Covers tmp 100 answers pieces written

adds_up : AddUp (2 ∷ 1 ∷ []) 3
unfolding AddUp
adds_up = (omega arith, omega arith, (omega arith, omega arith, refl))

abbrev letters : List ℕ
letters = 97 ∷ 98 ∷ 99 ∷ 100 ∷ 101 ∷ []

read_there :
    read_exact 3 1 (done (98 ∷ []) ∷ done (99 ∷ 100 ∷ []) ∷ [])
    ≡ ok ((1, 98 ∷ []) ∷ (2, 99 ∷ 100 ∷ []) ∷ [], some (done tt))
unfolding read_exact
read_there = refl

read_exact-Reads_example : 98 ∷ 99 ∷ 100 ∷ [] ≡ take 3 (drop 1 letters)
read_exact-Reads_example =
    read_exact-Reads 3 1 (done (98 ∷ []) ∷ done (99 ∷ 100 ∷ []) ∷ []) letters
      ((1, 98 ∷ []) ∷ (2, 99 ∷ 100 ∷ []) ∷ []) read_there (refl, (refl, tt))

opens_there :
    open_path (47 ∷ 120 ∷ []) (pos 0) (negsuc 0)
    ≡ done
        (record { path = 47 ∷ 120 ∷ 0 ∷ []; flags = 0; mode = 18446744073709551615; io_id = none })
unfolding open_path from_path
opens_there = refl

-- `read` of a file of five bytes, which the kernel would give
reads_nothing :
    read_file (47 ∷ []) (done 7) (done 5) (done letters ∷ []) [] ≡ ok (some (done []), 7 ∷ [])
unfolding read_file open_path from_path
reads_nothing = refl
