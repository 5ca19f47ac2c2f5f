-- ===== src/Runtime/Execution.antt =====
-- RuntimeBase.cpp: submit, submit_emplace, submit_after, run_inline, execute, complete and
-- is_complete_internal, one call after the other. How they interleave is in Runtime.Dependencies.
--
-- `enqueue_ready` is the derived runtime's. `run` is the body of a task, as the program that submits
-- it wrote it: it may call the runtime, and its second result is whether it threw. A moved body
-- leaves the caller's empty; an empty body is not dispatched by any caller, and does nothing here.
-- What is printed and the depth counters of debug builds are left out. Counters do not reach 2 ^ 64.
pub mod Accounts
pub mod Done
pub mod Submission
use thunder_bolt_ht.Base.{
  ℕ, ◌+◌, ◌-◌, ◌^◌, Bool, true, false, ◌&&◌, ◌||◌, not, ◌==◌, if◌then◌else◌, List, [], ◌∷◌, Option,
  none, some, length,
}
use thunder_bolt_ht.Api.Types.{
  u32, TaskState, TaskPriority, TaskDesc, TaskHandle, invalid_handle, valid,
}
use thunder_bolt_ht.Core.Task.{Task, try_add_successor, take_successors}
use thunder_bolt_ht.Core.Pool.{World, set_pool}
use thunder_bolt_ht.Core.Pool.Handles.{with_slot, acquire, reserve, release, publish, get}
use thunder_bolt_ht.Runtime.Waiters.{HandleWaiters, wakes}

-- The pool, in its world, and the queues of the derived runtime.
pub record Tasks (F Q : Type 0) : Type 0 where
  pub world : World F
  pub queue : Q

pub record RuntimeBase (F Q : Type 0) : Type 0 where
  pub tasks : Tasks F Q
  pub outstanding : ℕ
  pub completed : ℕ
  pub inline_executions : ℕ
  pub uncaught_exceptions : ℕ
  pub dependency_edges : ℕ
  pub dependencies_pre_satisfied : ℕ

-- Whether `complete` notifies, after its count: somebody waits for the handle, or the last task is
-- done and somebody waits for all.
pub notifies : HandleWaiters → ℕ → ℕ → TaskHandle → Bool
notifies waiters all_waiters remaining handle =
    wakes waiters handle.index || (remaining == 0 && not (all_waiters == 0))

-- Whether the state is `Completed`.
abbrev pub is_completed : TaskState → Bool
is_completed TaskState.completed = true
is_completed _ = false

module _ {F Q : Type 0} (id : ℕ) where
  -- `pool_.get`
  unfoldable pub find : Tasks F Q → TaskHandle → Option (Task F)
  find s handle = elim (s.world.pools id) [ none ↦ none | some pool ↦ get pool handle ]

  -- Writes to a slot.
  unfoldable pub write : Tasks F Q → ℕ → (Task F → Task F) → Tasks F Q
  write s index change = elim (s.world.pools id) [
    | none ↦ s
    | some pool ↦ record s {
      world = set_pool s.world id (with_slot pool index (change (pool.slots index)));
    }
  ]

  unfoldable pub is_complete_internal : RuntimeBase F Q → TaskHandle → Bool
  is_complete_internal b handle = if not (valid handle) then true else (elim (find b.tasks handle) [
    | none ↦ true
    | some t ↦ if t.generation == handle.generation then is_completed t.state else true
  ])

  module _ (thread : ℕ) (enqueue_ready : Q → TaskHandle → TaskPriority → Q) where
    -- The store of `Queued`, and `enqueue_ready`.
    unfoldable pub make_ready : Tasks F Q → TaskHandle → TaskPriority → Tasks F Q
    make_ready s handle priority =
        let queued = write s handle.index (λ t. publish t TaskState.queued) in
        record queued { queue = enqueue_ready queued.queue handle priority }

    -- `pending_dependencies.fetch_sub(1)` of a task that was found, which enqueues it at zero.
    unfoldable pub drop_one : Tasks F Q → TaskHandle → Task F → Tasks F Q
    drop_one s handle t =
        let counted =
          write s handle.index
            (λ u. record u { pending_dependencies = u32 (u.pending_dependencies + 2 ^ 32 - 1) }) in
        if t.pending_dependencies == 1 then make_ready counted handle t.priority else counted

    unfoldable pub release_dependent : Tasks F Q → TaskHandle → Tasks F Q
    release_dependent s dependent = elim (find s dependent) [
      | none ↦ s
      | some t ↦ drop_one s dependent t
    ]

    unfoldable pub release_each : Tasks F Q → List TaskHandle → Tasks F Q
    release_each s [] = s
    release_each s (h ∷ rest) = release_each (release_dependent s h) rest

    -- What `complete` does to the pool and the queues.
    unfoldable pub finish : Tasks F Q → TaskHandle → List TaskHandle → Tasks F Q
    finish s handle successors =
        let closed =
          write s handle.index (λ t. publish (take_successors t).0 TaskState.completed) in
        release_each (record closed { world = release closed.world id thread handle }) successors

    unfoldable pub complete : RuntimeBase F Q → TaskHandle → RuntimeBase F Q
    complete b handle = elim (find b.tasks handle) [
      | none ↦ b
      | some t ↦ record b {
        tasks = finish b.tasks handle (take_successors t).1;
        completed = b.completed + 1;
        outstanding = b.outstanding - 1;
      }
    ]

    module _ (run : F → RuntimeBase F Q → RuntimeBase F Q × Bool) where
      -- A body inside its `try`: what it threw is counted.
      unfoldable pub guarded : RuntimeBase F Q → Option F → RuntimeBase F Q
      guarded b none = b
      guarded b (some f) =
          let r = run f b in
          let after = r.0 in
          if r.1
          then record after { uncaught_exceptions = after.uncaught_exceptions + 1 }
          else after

      unfoldable pub run_inline : RuntimeBase F Q → TaskDesc F → RuntimeBase F Q
      run_inline b desc =
          let after =
            guarded (record b { inline_executions = b.inline_executions + 1 }) desc.function in
          record after { outstanding = after.outstanding - 1 }

      unfoldable pub execute : RuntimeBase F Q → TaskHandle → RuntimeBase F Q
      execute b handle = elim (find b.tasks handle) [
        | none ↦ b
        | some t ↦
            complete
              (guarded
                (record b {
                  tasks = write b.tasks handle.index (λ u. publish u TaskState.executing);
                })
                t.function)
              handle
      ]

      unfoldable pub submit : RuntimeBase F Q → TaskDesc F → RuntimeBase F Q × TaskHandle
      submit b desc =
          let s = b.tasks in
          let r = acquire s.world id thread desc in
          let taken = record b {
            tasks = record s { world = r.0 };
            outstanding = b.outstanding + 1;
          } in
          if not (valid r.1)
          then (run_inline taken desc, invalid_handle)
          else (record taken { tasks = make_ready taken.tasks r.1 desc.priority }, r.1)

      -- `construct` is none where it throws, and then so is the result.
      unfoldable pub submit_emplace :
          RuntimeBase F Q → Option F → TaskPriority → RuntimeBase F Q × Option TaskHandle
      submit_emplace b construct priority =
          let s = b.tasks in
          let r = reserve s.world id thread priority in
          let counted = b.outstanding + 1 in
          let tasks = record s { world = r.0 } in
          let taken = record b { tasks = tasks; outstanding = counted } in
          if not (valid r.1)
          then (elim construct [
            | none ↦ (record taken { outstanding = counted - 1 }, none)
            | some f ↦ (
              run_inline taken
                  (record { function = some f; priority = priority; estimated_cost = 0 }),
              some invalid_handle,
            )
          ])
          else (elim construct [
            | none ↦ (
              record taken {
                tasks = record tasks { world = release r.0 id thread r.1 };
                outstanding = counted - 1;
              },
              none,
            )
            | some f ↦ (
              record taken {
                tasks =
                    make_ready (write tasks r.1.index (λ t. record t { function = some f })) r.1
                      priority;
              },
              some r.1,
            )
          ])

      -- The loop of `submit_after` over the dependencies of `handle`.
      unfoldable pub register_each :
          RuntimeBase F Q → TaskHandle → List TaskHandle → RuntimeBase F Q
      register_each b handle [] = b
      register_each b handle (dependency ∷ rest) =
          let counted = record b { dependency_edges = b.dependency_edges + 1 } in
          let refused = record counted {
            dependencies_pre_satisfied = b.dependencies_pre_satisfied + 1;
            tasks = write b.tasks handle.index (λ u. record u {
              pending_dependencies = u32 (u.pending_dependencies + 2 ^ 32 - 1);
            });
          } in
          let next : RuntimeBase F Q = elim (find b.tasks dependency) [
            | none ↦ refused
            | some t ↦
                let r = try_add_successor t handle dependency.generation in
                if r.1
                then record counted { tasks = write b.tasks dependency.index (λ u. r.0) }
                else refused
          ] in
          register_each next handle rest

      unfoldable pub wait_for_each :
          (RuntimeBase F Q → TaskHandle → RuntimeBase F Q)
          → RuntimeBase F Q
          → List TaskHandle
          → RuntimeBase F Q
      wait_for_each wait b [] = b
      wait_for_each wait b (h ∷ rest) = wait_for_each wait (wait b h) rest

      unfoldable pub submit_after :
          (RuntimeBase F Q → TaskHandle → RuntimeBase F Q)
          → RuntimeBase F Q
          → TaskDesc F
          → List TaskHandle
          → RuntimeBase F Q × TaskHandle
      submit_after wait b desc [] = submit b desc
      submit_after wait b desc (dependency ∷ rest) =
          let dependencies = dependency ∷ rest in
          let s = b.tasks in
          let r = acquire s.world id thread desc in
          let taken = record b {
            tasks = record s { world = r.0 };
            outstanding = b.outstanding + 1;
          } in
          let waiting = record taken {
            tasks = write taken.tasks r.1.index (λ u. record u {
              state = TaskState.waiting;
              pending_dependencies = u32 (length dependencies + 1);
            });
          } in
          let registered = register_each waiting r.1 dependencies in
          if not (valid r.1)
          then (run_inline (wait_for_each wait taken dependencies) desc, invalid_handle)
          else (record registered { tasks = release_dependent registered.tasks r.1 }, r.1)
