-- ===== src/Turns.antt =====
-- worker.cc and sync.h with the two workers of the build interleaved: how the flags make them take
-- turns. Only the flags are kept; an update is its number in the order of the ring, and its place
-- is that number modulo the size of the histories, as update_c_style counts it: its counter wraps at
-- 2 ^ 32, a multiple of that size.
pub mod Defs
pub mod Local
pub mod Flags
pub mod Invariant
pub mod Safety
pub mod Versions
