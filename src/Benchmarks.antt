-- ===== src/Benchmarks.antt =====
-- thunderbolt/benchmarks: the harness that compares runtimes, and its workloads.
pub mod Workloads
pub mod Statistics
pub mod Runner
pub mod Json
