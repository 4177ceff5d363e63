-- ===== src/Workloads.antt =====
-- include/benchmark.hpp, bench/scaling.cpp and bench/main.cpp: the workloads.
pub mod Flat
pub mod Recursive
pub mod Sweep
pub mod Pipeline
pub mod Median
pub mod Table
pub mod Suite
mod Tests
