-- ===== src/Engine.antt =====
-- engine/core: the synthetic world that the runtime is measured on.
pub mod Math
pub mod World
pub mod Systems
pub mod Simulation
pub mod StateHash
