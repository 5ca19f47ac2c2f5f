-- ===== src/Api.antt =====
-- thunderbolt/api: the vocabulary that the runtimes share.
pub mod Types
pub mod Scheduling
pub mod ParallelFor
pub mod TaskFunction
