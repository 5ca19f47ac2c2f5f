-- ===== src/Runtime.antt =====
-- thunderbolt/runtime: what the runtimes share, the queue of the standard runtime, and the workers of
-- the work-stealing one.
pub mod Waiters
pub mod Dependencies
pub mod Standard
pub mod Workers
pub mod Parking
pub mod Execution
