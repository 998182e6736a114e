-- ===== src/Task/Tests.antt =====
-- Blocks that are made of the library's futures, run to their end, and the theorems at them.
use mathlib.Core.List.Permᴰ
use io.Prelude.{
  ℕ, ◌+◌, ◌≡◌, ◌≢◌, ◌⊎◌, refl, sym, ap, subst, List, [], ◌∷◌, ◌++◌, map, Option, none, some,
  Outcome, ok, panic, Bool, true, false, arith, Permᴰ, get_elem?,
}
use io.Slab.{Key}
use io.IoError.{IoError, Result, done, failed}
use io.VecMap.Laws.{view}
use io.Executor.{ℤ, pos, Sqe, Context, key_eq}
use io.Executor.Machine.{Machine, Reach}
use io.Executor.Consistent.{finished_entries}
use io.Executor.Places.{Places, two_places, two_places_laws, empty_places}
use io.Executor.Loop.{Run, run, start_run}
use io.Executor.Loop.Submitting.{machine}
use io.Executor.Loop.Panics.{ring_refuses, RunPanics}
use io.Executor.Loop.Config.{ExecutorConfig, execute, Ends}
use io.Executor.Loop.Beginning.{key_at, begun, begun-Reach}
use io.File.{Poll, Opcode, pending, ready}
use io.Task.{
  Answer, Program, Store, Place, returns, awaits, spawns, joins, joined, spawned, reads, count,
  poll_future, poll_task, advance, close_op, new_store,
}
use io.Task.Joining.{Joined, poll_task-Joined, poll_joins-Unnoticed}
use io.Task.Returning.{first_turn, execute-library-Returns}
use io.Task.Whole.{Rings, RingsLaws, library, library_laws, execute-library-Ends}

-- the value that a joined block left, and one more
abbrev after_join : Answer (Unit {0}) ℕ → Program (Unit {0}) ℕ
after_join (joined v) = returns (v + 1)
after_join a = returns 0

-- a block that spawns another, which returns 7, and joins it
abbrev joins_seven : Program (Unit {0}) ℕ
joins_seven = spawns (returns 7) λ cell. awaits (joins cell) after_join

abbrev numbers : Result ℕ → ℕ
numbers (done n) = n
numbers (failed e) = 1000

abbrev after_read : Answer (Unit {0}) ℕ → Program (Unit {0}) ℕ
after_read (count n) = returns (numbers n)
after_read a = returns 0

-- a block that reads 100 bytes
abbrev reads_file : Program (Unit {0}) ℕ
reads_file =
    awaits
      (reads (record {
        fd = 3;
        offset = 0;
        buf_ptr = 4096;
        buf_len = 100;
        io_id = none;
        direct_io = false;
      }))
      after_read

abbrev taken_of : Places Opcode → List (Sqe Opcode × ℤ)
taken_of p = map (λ e. (e, pos 64)) p.taken

finished_taken : (es : List (Sqe Opcode)) → es ≡ finished_entries (map (λ e. (e, pos 64)) es)
finished_taken [] = refl
finished_taken (e ∷ es) = ap (λ l. e ∷ l) (finished_taken es)

-- rings that complete every entry with 64
abbrev rings : Rings (Places Opcode) Opcode
rings = record {
  ring = two_places;
  completed = taken_of;
  take_completed = λ p. record p { taken = [] };
  sync_completed = λ p. p;
  wait = λ p. (p, none);
}

abbrev rings_laws : RingsLaws rings
rings_laws = record {
  laws = two_places_laws;
  sync_completed_held = λ p. refl;
  wait_held = λ p. refl;
  take_held = λ p.
      subst (λ l. Permᴰ (p.taken ++ p.waiting) (l ++ p.waiting)) (finished_taken p.taken)
        (Permᴰ.refl (p.taken ++ p.waiting));
}

abbrev clock : ℕ → ℕ
clock n = n

abbrev begin : Program (Unit {0}) ℕ → Run ℕ Opcode (Store (Unit {0}) ℕ) (Places Opcode)
begin program = begun 0 1 0 1000 (new_store program) empty_places empty_places

abbrev out_of : Outcome (Run ℕ Opcode (Store (Unit {0}) ℕ) (Places Opcode) × Bool) → Option ℕ × Bool
out_of (ok (s, b)) = (s.outside.out, b)
out_of panic = (none, false)

seven_is_joined :
    out_of (run (library rings clock) 4 10 (key_at 0) close_op (begin joins_seven)) ≡ (some 8, true)
unfolding run begun io.VecMap.is_empty io.VecMap.iter_keys io.Slab.get_mut poll_task
    io.Executor.spawn io.Slab.insert io.Slab.with_room io.Slab.place io.VecMap.insert
    io.VecMap.clear io.Time.join_poll io.Executor.Ring.try_submit_io io.Executor.Machine.reap
    io.Executor.notify_timers io.Executor.close_files io.Slab.remove
seven_is_joined = refl

file_is_read :
    out_of (run (library rings clock) 4 10 (key_at 0) close_op (begin reads_file)) ≡ (some 64, true)
unfolding run begun io.VecMap.is_empty io.VecMap.iter_keys io.Slab.get_mut poll_task
    io.Executor.spawn io.Slab.insert io.Slab.with_room io.Slab.place io.VecMap.insert
    io.VecMap.clear io.Time.join_poll io.Executor.Ring.try_submit_io io.Executor.Machine.reap
    io.Executor.notify_timers io.Executor.close_files io.Slab.remove io.File.read_poll
    io.File.poll_io io.Executor.queue_io io.Executor.enqueue io.Executor.take_io_result
    io.VecMap.remove io.Slab.get io.Slab.KeyCode.from_u64 io.Slab.KeyCode.to_u64
    io.Executor.on_completion
file_is_read = refl

-- the machine of a new run
abbrev fresh : Machine ℕ Opcode
unfolding begun
fresh =
    machine (library rings clock) (library_laws rings clock rings_laws) (key_at 0)
      (begin reads_file)

fresh-Reach : Reach (key_at 0) fresh
unfolding fresh
fresh-Reach =
    begun-Reach (library rings clock) (library_laws rings clock rings_laws) 0 1 0 1000
      (new_store reads_file) empty_places empty_places refl refl

abbrev context_of : Outcome (Place (Unit {0}) ℕ × Bool) → Context ℕ Opcode
context_of (ok (s, b)) = s.0
context_of panic = fresh.ctx

abbrev store_of : Outcome (Place (Unit {0}) ℕ × Bool) → Store (Unit {0}) ℕ
store_of (ok (s, b)) = s.1
store_of panic = new_store reads_file

-- the task `key_at 1` has spawned a block, and this is its box
abbrev child_store : Store (Unit {0}) ℕ
child_store = record (new_store reads_file) {
  boxes = spawned 0 (key_at 1) (returns 7) ∷ [];
  cells = none ∷ [];
}

poll_task-Joined_example :
    (after : Place (Unit {0}) ℕ) × (poll_task clock 0 (fresh.ctx, child_store) ≡ ok (after, true))
    × Joined clock 0 (key_at 1) 7 (fresh.ctx, child_store) after
unfolding advance
poll_task-Joined_example =
    poll_task-Joined clock fresh 0 0 (key_at 1) (returns 7) (returns 7) child_store child_store
      fresh.ctx 7 fresh-Reach refl refl (omega arith)

two_is_not_one : key_at 2 ≢ key_at 1
two_is_not_one e = absurd (omega (arith, ap (λ k. k.index) e))

poll_joins-Unnoticed_example :
    (poll_future clock (joins 0) (fresh.ctx, child_store)
      ≡ ok ((fresh.ctx, child_store), joins 0, pending))
    × (after : Place (Unit {0}) ℕ) × (poll_task clock 0 (fresh.ctx, child_store) ≡ ok (after, true))
    × (get_elem? after.1.cells 0 ≡ some (some 7))
    × (view key_eq after.0.to_notify (key_at 2) ≡ none)
unfolding advance fresh
poll_joins-Unnoticed_example =
    poll_joins-Unnoticed clock fresh 0 0 (key_at 1) (key_at 2) (returns 7) (returns 7) child_store
      child_store fresh.ctx fresh.ctx 7 fresh-Reach refl refl refl (omega arith) two_is_not_one refl

abbrev config : ExecutorConfig
config = record { ring_depth = 32; preempt_duration = 1000 }

abbrev new_ring : Bool → ℕ → Result (Places Opcode)
new_ring iopoll depth = done empty_places

new_ring_holds :
    (iopoll : Bool) (depth : ℕ) (ring : Places Opcode)
    → new_ring iopoll depth ≡ done ring
    → ring.taken ++ ring.waiting ≡ []
new_ring_holds iopoll depth ring h =
    let same : empty_places ≡ ring = cc in ap (λ p. p.taken ++ p.waiting) (sym same)

execute-library-Ends_example :
    ((e : IoError) × (execute
          (library rings clock)
          new_ring
          4
          10
          close_op
          config
          0
          1
          0
          (new_store reads_file)
        ≡ ok (failed e))
      × (iopoll : Bool) × (new_ring iopoll 32 ≡ failed e))
    ⊎ ((ring : Places Opcode) × (dio_ring : Places Opcode) × (new_ring false 32 ≡ done ring)
        × (new_ring true 32 ≡ done dio_ring)
        × Ends
            (library rings clock)
            (library_laws rings clock rings_laws)
            close_op
            4
            10
            (start_run 0 1 32 0 1000 (new_store reads_file) ring dio_ring)
            (execute
              (library rings clock)
              new_ring
              4
              10
              close_op
              config
              0
              1
              0
              (new_store reads_file)))
execute-library-Ends_example =
    execute-library-Ends rings clock rings_laws new_ring 4 10 config reads_file 0 new_ring_holds

-- a block that spawns another, which reads, and returns 5
abbrev spawns_and_returns : Program (Unit {0}) ℕ
spawns_and_returns = spawns reads_file λ cell. returns 5

abbrev first_place : Place (Unit {0}) ℕ
first_place = first_turn rings rings_laws clock 0 1000 spawns_and_returns empty_places empty_places

abbrev spawned_place :
    Outcome (Place (Unit {0}) ℕ × Program (Unit {0}) ℕ × Poll ℕ) → Place (Unit {0}) ℕ
spawned_place (ok (s, program, out)) = s
spawned_place panic = first_place

execute-library-Returns_example :
    ((s : Run ℕ Opcode (Store (Unit {0}) ℕ) (Places Opcode)) × (execute
          (library rings clock)
          new_ring
          12
          10
          close_op
          config
          0
          1
          0
          (new_store spawns_and_returns)
        ≡ ok (done (s, true)))
      × (s.outside.out ≡ some 5))
    ⊎ RunPanics
        (library {S = Unit {0}} {V = ℕ} rings clock)
        10
        (key_at 0)
        close_op
        ring_refuses
        12
        (begun 0 1 0 config.preempt_duration
          (new_store spawns_and_returns)
          empty_places
          empty_places)
unfolding advance begun io.Executor.spawn io.Slab.insert io.Slab.with_room io.Slab.place
    io.VecMap.insert io.VecMap.clear
execute-library-Returns_example =
    execute-library-Returns rings rings_laws clock new_ring 10 10 config spawns_and_returns
      (returns 5) 0 empty_places empty_places
      (spawned_place (advance clock spawns_and_returns first_place)).0
      (spawned_place (advance clock spawns_and_returns first_place)).1 5 refl refl refl refl refl
      refl
