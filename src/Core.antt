-- ===== src/Core.antt =====
-- thunderbolt/core
pub mod Task
pub mod Counter
pub mod Queue
pub mod Deque
pub mod Pool
pub mod Graph
