-- ===== src/Tests.antt =====
-- Runs on concrete inputs: tests of the definitions, and an instance of each theorem.
mod Deque
mod Pool
mod Graph
mod Api
mod Runtime
mod Workers
mod Engine
mod Parking
mod Execution
mod Affinity
mod Topology
mod Standard
mod Benchmarks
mod TaskFunction
mod Counter
