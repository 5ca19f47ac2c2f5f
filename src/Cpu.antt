-- ===== src/Cpu.antt =====
-- thunderbolt/cpu: what is known of the processor, and which part of it a worker is bound to.
pub mod Topology
pub mod Affinity
