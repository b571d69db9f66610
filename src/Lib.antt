-- ===== src/Lib.antt =====
-- A market data processor: a producer hands updates of order books to worker threads, which keep the
-- books of 20 instruments, compute a value fp for each, and report the share of the updated
-- instrument in the sum. Each worker waits for its turn twice, by flags in two rings of 16 places.
--
-- Files:
--   Prelude        names of the libraries, tests, `int` as ℤ, arrays as functions of the index
--   Structures     structures.h: constants and records
--   Helpers        helpers.h: prev_index, next_index, prev_index_spec, with unsigned wrap-around
--   Comparison     init.cc: int_comparison
--   RbTable        the interface of rb.h (GNU libavl, a parameter); RbTable/Agree: what the laws decide
--   OrderBook      a side of a book as a list of levels, the reference for the trees; OrderBook/Laws its
--                  levels, OrderBook/Best and the files below it its best prices
--   Table          table.h: bids_insert and asks_insert between the wait and the release
--                  (bids_update, asks_update); Table/Bids and Table/Asks their correctness,
--                  Table/Holds and Table/Volumes what does not depend on the histories, Table/Places
--                  which entry of a history changes
--   Memory         table.h: the pairs that an insertion allocates and releases; Memory/Owned which
--                  addresses are a tree's, Memory/Insert one call, Memory/Levels the levels of
--                  a book, Memory/Pairs sequences of insertions
--   Sync           sync.h: the flags as an interface; Sync/Spin and Sync/Atomic its two versions
--   Platform       double arithmetic, the ring of Concurrency Kit, trees and flags: the parameters
--   Context        structures.h: struct context, and the outcomes of a function
--   Worker         worker.cc: insert_data, compute_return_fp_i, history_shift, the loop of worker_start
--                  (Worker/Waits: out of its turn; Worker/Race: the copy made too late)
--   Producer       worker.h and iupdateprocessor.cc: update_c_style, which Update calls
--   Init           init.cc: initialize_c_style
--   Market         the specification: books, one fp for each instrument, their sum, the results
--   Refinement     the worker and the producer against the market; Refinement/Errors an instrument
--                  that does not exist
--   Turns          worker.cc and sync.h: two workers interleaved over the flags, one access a step
--                  (Turns/Defs); Turns/Invariant what they keep, Turns/Safety what follows;
--                  Turns/Versions the two versions of sync.h side by side
--   Threads        worker.cc, worker.h and sync.h: the producer and two workers interleaved on the whole
--                  state (Threads/Defs), seen as Turns (Threads/Links, Threads/Project, Threads/Runs;
--                  Threads/Places the places of updates in histories, Threads/Cases the outcomes of a
--                  step); the books (Threads/Frame, Threads/Books, Threads/Order, Threads/Safety), the
--                  volumes (Threads/Volumes), what can go wrong (Threads/Faults), how a pass ends
--                  (Threads/Goes, Threads/Rest), that the loop goes on (Threads/Running,
--                  Threads/Drains), that the workers come to rest in any order (Threads/Bound) and with
--                  the producer (Threads/Room, Threads/Session), how the loop does not end
--                  (Threads/Stops), what a worker reads (Threads/Histories, Threads/Lags, Threads/Neighbours, Threads/Readings,
--                  Threads/Verdicts), the sums and the results (Threads/Totals, Threads/Told,
--                  Threads/Sums, Threads/Totalled, Threads/Whole, Threads/Results), a worker alone
--                  (Threads/Gates, Threads/Pass), runs by a schedule (Threads/Schedule)
--   Startup        init.cc and worker.cc: the threads from initialize_c_style to the barrier, with ids
--                  and affinity; Startup/Count, Startup/Invariant, Startup/Steps, Startup/Local and
--                  Startup/Workers what they keep, Startup/Safety what follows, Startup/Nearer and
--                  Startup/Ends how the start ends
--   Driver         main.cc: the loader of the test driver and its replay; Driver/Load their result,
--                  Driver/Main main with the producer and the workers
--   Timing         worker.cc: timespec_diff and timeval_diff
--   Tests          runs and theorems at concrete inputs
--
-- State and errors. `Context` is *global_context; a function of the program is a function from a state
-- to an outcome: `done` with a result and a new state, `spins` in a loop that only another thread
-- can end, or `fault`, what C leaves undefined (an index outside its array, a sum of volumes that is
-- no `int`); in Timing it is an option, with `none` for an overflow of `long`. `unsigned int` wraps at 2 ^ 32; `int` is an integer, and `instrument`, only used as an
-- index, its bit pattern. The build defines NDEBUG, so the asserts are no part of the program.
--
-- The three views of the worker. Worker, Producer and Refinement handle one update at a time, on the
-- whole state. Turns lets the two workers of the build (THREAD_COUNT is 2) move in any order, but keeps
-- only the flags and the updates' numbers; a step is one access. Threads lets them and the producer move
-- in any order on the whole state; a step there may be a run of accesses to the books or the sums. There,
-- what a worker reads of the best levels, and so the results, need not be the market's when an update
-- follows one of the same instrument (Worker/Race); Threads/Results is about updates of which no
-- two neighbours are of the same instrument. In both, accesses are sequentially consistent.
--
-- Bounds. A history has 16 places. The books' volumes are taken to be below 2 ^ 30, so that two of them
-- add up to an `int`; bids' prices are not negative, asks' prices are an `int`. No function takes fuel.
--
-- Not modelled: the code of rb.c (a copy of GNU libavl), Concurrency Kit, libm, the barrier and the
-- binding of threads to cores (calls of the system; the barrier is a parameter), the signals of the
-- destructor, the allocation of updates, debug output, and, of the time measurement that the build
-- leaves out, all but the two differences.
pub mod Prelude
pub mod Structures
pub mod Helpers
pub mod Comparison
pub mod RbTable
pub mod OrderBook
pub mod Table
pub mod Memory
pub mod Sync
pub mod Platform
pub mod Context
pub mod Worker
pub mod Producer
pub mod Init
pub mod Market
pub mod Turns
pub mod Threads
pub mod Driver
pub mod Startup
pub mod Timing
pub mod Refinement
pub mod Tests
