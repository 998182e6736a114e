-- ===== src/Lib.antt =====
-- io2 is an asynchronous input and output library over io_uring. This development models the parts of
-- `io2/src` that hold its own logic, and proves what they keep.
--
-- Its executor keeps tasks and running operations in slabs, finished operations and wake-ups in vector
-- maps, and all of its memory in a thread-local allocator; file operations read and write aligned
-- buffers from it.
--
-- Slab: `io2/src/slab.rs`. `Slab.insert`, `get`, `get_mut`, `remove` and `with_capacity_in` are the
--   methods, `KeyCode` the conversions of `Key`. `FreeList` and `Validity` hold the invariant,
--   `Inserting` and `Removing` the effect of a call, `Agreement` and `History` whole runs, and `Wrap`
--   what happens when the generation counter wraps.
-- VecMap: `io2/src/vecmap.rs`, over any key type with a lawful equality. `Entries` and `Zipped` hold
--   the lemmas on the pairs, `Laws` the results.
-- LocalAlloc: `io2/src/local_alloc.rs`. `LocalAlloc.Pages` holds the functions that get and return
--   pages, `LocalAlloc` the methods `allocate` and `deallocate`. `Ranges`, `Units`, `Supply` and
--   `Balance` lead to the results in `Allocate`, `Deallocate` and `Overlap`.
-- IoBuffer: `io2/src/io_buffer.rs`, with the results in `Views`; `Allocated` is a buffer over LocalAlloc.
-- DioFile: `io2/src/fs/dio_file.rs`. `Align` is about the alignment of addresses and offsets, `Opening`
--   about the alignments that `open` takes, `Transfers` about the loops of the aligned transfers, `Whole`
--   about `write_all`, `read` and `read_exact` on any range (`Exact` where the file goes on), `Handle`
--   about `open` and the futures, and `Granting` about when `open` succeeds.
-- Executor: `io2/src/executor.rs`: the context of a running task, with the slab and the maps that it
--   points to as fields, the completions, and the timers. A round of `notify_timers` passes a timer or
--   removes one, so that as many rounds as there are timers are enough. `Timers` and `Operations` hold
--   the results on one call. `Machine` lists as steps what tasks, the loop and the kernel may do to
--   the context and the rings; `Outstanding` to `Reachable` lead to the invariant of all that a run
--   comes to, in `Starting`. `Delivering` and `Keeping` follow a result from its completion until it
--   is taken, and `Words` is about the numbers of an operation. `Ring` is `try_submit_io`, with its
--   results in `Passing`, and `Local` the thread-local context with its guard. `Loop` is the loop of
--   `run`: it makes steps of the machine, by `Submitting`, `Polling`, `Ending` and `Waiting`, and
--   `Panics` tells its panics; `Beginning` is about its start, `Returning` and `Leaving` about its
--   end, `Config` about `ExecutorConfig` and a whole run, and `Stalling` about a state from which it
--   never comes on.
-- File: `io2/src/fs/file.rs`: the futures as functions of the future and the context, the C string of a
--   path, and the loops of `write_all` and `read_exact` over the answers to their requests; `Handle` holds
--   the methods of `File`. `Polls`, `Writing` and `Reading` hold the results. IoError: `std::io::Error`, as
--   far as the files tell errors apart.
-- Time: `io2/src/time.rs`, and the futures `YieldIfNeeded` and `JoinHandle` of `io2/src/executor.rs`, with
--   the results in `Sleeping`.
-- Task: the tasks of `io2/src/executor.rs` that are async blocks made of the library's own futures, as
--   programs over a store of boxes and cells. `Polling` and `Running` show by which calls a poll changes
--   its context, and that they are steps of the machine of Executor; `Whole` is a whole run of them,
--   `Returning` one that ends, by `Finishing`, and `Joining` is about `JoinHandle`.
-- Word: machine integers and bit operations. Prelude: shared names, lists, vectors and outcomes.
--
-- A method that changes its object returns the new object. A panic is the outcome `panic`; arithmetic
-- on machine integers is checked, as in a build with overflow checks, and `usize` has 64 bits. An
-- address is a number. Vectors have no capacity, and the allocation of a vector does not fail. What
-- libc, the kernel and the clock answer is a parameter, with what their manuals promise as named
-- hypotheses. That a ring answers no error is not among them: an answer other than `EBUSY` is a panic
-- of the code, and stands in the results. `next_power_of_two` takes at most 64 doublings, which reach every power of two that 64
-- bits hold; past them the Rust function panics too.
--
-- A ring of io_uring, the tasks, the clock and the list of dropped files are parameters of the loop of
-- `run`. A task is the pointer that the slab holds; polling it changes the context and what lies behind the
-- pointer, and only by the operations of the context. The loop has no bound of its own: `run` takes one on
-- its rounds and one on the turns of a wait, and says whether it came to its end.
--
-- In Task a program says which future it awaits and how it goes on for each value of that. Each way through
-- a program ends, so that a block with an endless loop is none. All values that blocks return have one type
-- there, and a box or a cell is never freed, so that its address is not used again.
--
-- Not modelled: a future of `open` that is dropped before it has ended; the waker of
-- `io2/src/executor.rs`, which does nothing; futures of other libraries, beside the laws that tasks of any
-- kind have to keep; the getters of `io2/src/fs/dio_file.rs`, which are fields; log lines and the tests.
pub mod Prelude
pub mod Word
pub mod Slab
pub mod VecMap
pub mod LocalAlloc
pub mod IoBuffer
pub mod DioFile
pub mod IoError
pub mod File
pub mod Executor
pub mod Time
pub mod Task
