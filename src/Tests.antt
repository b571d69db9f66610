-- ===== src/Tests.antt =====
-- Tests of the model on concrete inputs, and the theorems at inputs that meet their hypotheses.
mod Run
mod Sides
mod Turns
mod Driver
mod Main
mod Timing
mod Threads
mod Results
mod Errors
mod Memory
mod Startup
