-- ===== src/Deque.antt =====
-- include/chase_lev_deque.hpp: the growing ring buffer and the work-stealing deque over it.
pub mod Array
pub mod Machine
pub mod Invariant
pub mod System
pub mod Refine
pub mod Safety
pub mod Destructor
pub mod Sequential
pub mod Progress
mod Tests
