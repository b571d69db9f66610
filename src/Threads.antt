-- ===== src/Threads.antt =====
-- worker.cc, worker.h and sync.h together: the producer and the two workers of the build on one state,
-- interleaved. Turns has the same workers without the books, the sums and the ring.
pub mod Defs
pub mod Places
pub mod Links
pub mod Project
pub mod Runs
pub mod Cases
pub mod Running
pub mod Frame
pub mod Books
pub mod Order
pub mod Safety
pub mod Histories
pub mod Lags
pub mod Neighbours
pub mod Readings
pub mod Verdicts
pub mod Totals
pub mod Told
pub mod Sums
pub mod Totalled
pub mod Whole
pub mod Results
pub mod Gates
pub mod Pass
pub mod Schedule
pub mod Volumes
pub mod Goes
pub mod Faults
pub mod Rest
pub mod Drains
pub mod Bound
pub mod Stops
pub mod Room
pub mod Session
