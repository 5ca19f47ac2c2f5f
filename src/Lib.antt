-- ===== src/Lib.antt =====
-- Thunderbolt HT: a task runtime with work stealing, and a model of its parts in a type theory.
--
-- The program. A caller submits task descriptions through `ITaskRuntime` and gets handles. A task
-- lives in a slot of a `TaskPool`; a handle names a slot and its generation, so that a handle of a
-- slot that was given back is recognised as stale. A worker keeps the tasks that are ready in one
-- `AbpDeque` for each priority, and other workers steal from it; what comes from outside waits in a
-- `GlobalQueue`. A task that depends on others is registered in the successor list of each of them.
-- `TaskGraph` orders a graph of tasks that is known beforehand and submits it, and
-- `ITaskRuntime::parallel_for` cuts a range of indices into chunks for a few tasks. `RuntimeBase` ties
-- the pool, the dependencies and the waiters together; `ThunderboltRuntime` adds the queues of the
-- workers, the stealing and the sleep, `StandardRuntime` one locked queue. The simulation in engine is
-- a client: it cuts a frame into stages of batches and runs them as tasks, or without a runtime.
--
-- The files, with the code that each models:
--   Base                shared names, Boolean tests, arrays, lists, sums and counts
--   Api/Types           thunderbolt/api/TaskTypes.hpp, TaskHandle.hpp, TaskDesc.hpp
--   Api/Scheduling      thunderbolt/api/SchedulerMode.hpp: aging_pop_favours_lowest
--   Api/ParallelFor     thunderbolt/api/ITaskRuntime.hpp: parallel_for
--   Api/TaskFunction    thunderbolt/api/TaskFunction.hpp: who owns a callable
--   Core/Counter        thunderbolt/core/ShardedCounter.hpp
--   Core/Task           thunderbolt/core/task/Task.hpp: a slot and its successor list
--   Core/Queue          thunderbolt/core/executor/GlobalQueue.hpp
--   Core/Deque          thunderbolt/core/executor/AbpDeque.hpp
--   Core/Pool           thunderbolt/core/task/TaskPool.hpp, TaskPool.cpp: free lists and caches
--   Core/Pool/Handles   the same: acquire, reserve, release, get, live_count
--   Core/Graph          thunderbolt/core/taskgraph/TaskGraph.hpp, TaskGraph.cpp
--   Core/Graph/Submit   the same: submit and submit_and_wait
--   Runtime/Dependencies  thunderbolt/runtime/RuntimeBase.cpp: submit_after, complete,
--                       release_dependent, with acquire, reserve and release of
--                       thunderbolt/core/task/TaskPool.cpp, one access at a time
--   Runtime/Waiters     the same: register_handle_waiter, unregister_handle_waiter
--   Runtime/Standard    thunderbolt/runtime/StandardRuntime.cpp: enqueue_ready, pop_locked; its child
--                       Sleep: worker_loop and the destructor
--   Runtime/Execution   thunderbolt/runtime/RuntimeBase.cpp: submit, submit_emplace, submit_after,
--                       run_inline, execute, complete, is_complete_internal
--   Runtime/Workers     thunderbolt/runtime/ThunderboltRuntime.cpp: enqueue_ready, acquire_next and
--                       what they call
--   Runtime/Parking     the same: park_worker, wake_one_worker, the destructor
--   Cpu/Affinity        thunderbolt/cpu/affinity/Affinity.cpp: spread_order, apply_worker_affinity
--   Cpu/Topology        thunderbolt/cpu/topology/CpuTopology.hpp, CpuTopology.cpp; its children Brand,
--                       Linux, Windows and Detect hold a query each, and what chooses between them
--   Benchmarks/Statistics  thunderbolt/benchmarks/harness/Statistics.hpp
--   Benchmarks/Runner   thunderbolt/benchmarks/harness/BenchmarkRunner.hpp, BenchmarkRunner.cpp
--   Benchmarks/Json     thunderbolt/benchmarks/harness/Json.hpp
--   Benchmarks/Workloads  thunderbolt/benchmarks/workloads/Workloads.hpp
--   Engine/Math         engine/core/Math.hpp
--   Engine/World        engine/core/World.hpp, World.cpp
--   Engine/Systems      engine/core/Systems.hpp, Systems.cpp; its children hold one kind of entity each
--   Engine/Simulation   engine/core/Simulation.hpp, Simulation.cpp
--   Engine/StateHash    engine/core/StateHash.hpp
--   GameBenchmarks      game_benchmarks/SimBenchmark.cpp: the legs of run_simulation_benchmark and
--                       their check
--   Tests               runs on concrete inputs
-- The other modules hold proofs about the one above them.
--
-- State and operations. Names are those of the code. A class is a record, an operation a function
-- from the state to the state and the result; the body of a task is a value of any type. A vector
-- that is used as a stack is a list with its back first, any other a list from front to back, an
-- array a function on the indices. A method that runs under a mutex or a spin flag is one step. The
-- deque has no lock: there each access to shared memory is a step of its own, `OwnerMove` and
-- `ThiefMove` are relations on what a thread has read so far, and a run is any interleaving of them.
-- The dependency protocol is a relation on steps in the same way, for one dependent among any number
-- of threads: a slot has a stage, which says how far its owner has come, and the accesses of
-- complete, release and acquire lead from stage to stage, with those of others in between. So is the
-- sleep of the workers. `parallel_for` has a schedule, the list of the tasks in the order of their
-- claims, and a frame one of the stages in the order of the claims on them. The queues of the
-- workers are lists, and which steals lose their race is an argument. Execution is one call after
-- the other, over any `enqueue_ready` and any bodies. `float` is an interface whose operations are
-- any functions, since the processor's rounding is not code of the repository, and so is `double`.
-- What the operating system, the clock and the generator of random numbers answer is an argument;
-- std::sort is an insertion sort, and std::map an association list.
--
-- Bounds. Numbers are natural numbers. A generation wraps modulo 2 ^ 32, the counters of
-- `topological_order` too, and the cursor of `parallel_for` modulo 2 ^ 64. The indices of the deque
-- do not reach 2 ^ 63, nor the statistics and the identities of pools 2 ^ 64. Loops over a list or a
-- counter recurse on it. The constructor of the deque is given as many rounds as its capacity, which
-- is 2 ^ 63 at most where its result is claimed: past it the shift wraps to 0 and the loop has no
-- end. The loop of `topological_order` is given one more than there are nodes.
--
-- Not modelled: memory orders weaker than sequential consistency, which the deque's fences restore
-- where it needs it; assertions, past which the code goes on as in a release build; in
-- thunderbolt/runtime the loops of `wait` and `wait_all`, the spinning and the statistics; the statistics
-- of the locks; the calls of the operating system that query the processors and bind a thread; of the
-- benchmarks the command lines, the experiments that build legs out of runtimes, and what they print.
pub mod Base
pub mod Api
pub mod Core
pub mod Runtime
pub mod Cpu
pub mod Benchmarks
pub mod Engine
pub mod GameBenchmarks
mod Tests
