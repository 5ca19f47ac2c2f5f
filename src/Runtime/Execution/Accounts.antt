-- ===== src/Runtime/Execution/Accounts.antt =====
-- RuntimeBase.cpp: the slots and the counts after a submission that fails, and after a task.
use thunder_bolt_ht.Base.{
  ℕ, ◌+◌, ◌-◌, ◌^◌, ◌<◌, ◌≡◌, refl, Bool, false, ◌==◌, if◌then◌else◌, List, [], ◌∷◌, Option, none,
  some, arith, Bool-cases, Option-cases, inl, inr,
}
use thunder_bolt_ht.Api.Types.{u32, TaskPriority, TaskState, TaskHandle, valid}
use thunder_bolt_ht.Core.Task.{Task, take_successors}
use thunder_bolt_ht.Core.Pool.{World}
use thunder_bolt_ht.Core.Pool.Handles.{reserve, publish}
use thunder_bolt_ht.Core.Pool.Handles.Ownership.{
  Owned, reserve-Issued, release-Owned, with_slot-Owned,
}
use thunder_bolt_ht.Runtime.Execution.{
  Tasks, RuntimeBase, find, write, make_ready, drop_one, release_dependent, release_each, finish,
  complete, guarded, execute, submit_emplace,
}

module _ {F Q : Type 0} (id thread : ℕ) (enqueue_ready : Q → TaskHandle → TaskPriority → Q)
    (n capacity : ℕ) (lt : thread < n) where
  abbrev pub Holds : Tasks F Q → List ℕ → Type 0
  Holds s out = Owned n s.world id capacity out

  pub write-Holds :
      (s : Tasks F Q) (index : ℕ) (change : Task F → Task F) (out : List ℕ)
      → Holds s out
      → Holds (write id s index change) out
  unfolding write
  write-Holds s index change out o = elim (Option-cases (s.world.pools id)) [
    | inl e ↦ rw (e, write) o
    | inr (pool, e) ↦ rw (e, write) (with_slot-Owned n s.world id capacity out pool index _ e o)
  ]

  make_ready-Holds :
      (s : Tasks F Q) (handle : TaskHandle) (priority : TaskPriority) (out : List ℕ)
      → Holds s out
      → Holds (make_ready id thread enqueue_ready s handle priority) out
  unfolding make_ready
  make_ready-Holds s handle priority out o =
      let r = write-Holds s handle.index (λ t. publish t TaskState.queued) out o in r

  release_dependent-Holds :
      (s : Tasks F Q) (h : TaskHandle) (out : List ℕ)
      → Holds s out
      → Holds (release_dependent id thread enqueue_ready s h) out
  unfolding release_dependent drop_one
  release_dependent-Holds s h out o = elim (Option-cases (find id s h)) [
    | inl e ↦ rw (e, release_dependent) o
    | inr (t, e) ↦
        let counted =
          write-Holds s h.index
            (λ u. record u { pending_dependencies = u32 (u.pending_dependencies + 2 ^ 32 - 1) }) out
            o in
        elim (Bool-cases (t.pending_dependencies == 1)) [
          | inl last ↦ rw (e, release_dependent, last) (make_ready-Holds _ h t.priority out counted)
          | inr more ↦ rw (e, release_dependent, more) counted
        ]
  ]

  release_each-Holds :
      (s : Tasks F Q) (hs : List TaskHandle) (out : List ℕ)
      → Holds s out
      → Holds (release_each id thread enqueue_ready s hs) out
  unfolding release_each
  release_each-Holds s [] out o = o
  release_each-Holds s (h ∷ hs) out o =
      release_each-Holds (release_dependent id thread enqueue_ready s h) hs out
        (release_dependent-Holds s h out o)

  finish-Holds :
      (s : Tasks F Q) (handle : TaskHandle) (hs : List TaskHandle) (out : List ℕ)
      → Holds s (handle.index ∷ out)
      → Holds (finish id thread enqueue_ready s handle hs) out
  unfolding finish
  finish-Holds s handle hs out o = release_each-Holds _ hs out (
      release-Owned n _ id thread capacity handle out lt (
        write-Holds s handle.index (λ t. publish (take_successors t).0 TaskState.completed)
          (handle.index ∷ out) o))

  -- What `submit_emplace` leaves where the copy of the body throws.
  abbrev pub Undone : RuntimeBase F Q → RuntimeBase F Q × Option TaskHandle → List ℕ → Type 0
  Undone b r out =
      (r.1 ≡ none)
      × (r.0.outstanding ≡ b.outstanding)
      × (r.0.tasks.queue ≡ b.tasks.queue)
      × (r.0.completed ≡ b.completed)
      × (r.0.inline_executions ≡ b.inline_executions)
      × Holds r.0.tasks out

  -- Where the construction of the body throws, `submit_emplace` gives the slot that it reserved, if
  -- any, back: no handle comes out, the slots that are out and the free lists cover the pool as
  -- before, and the count of outstanding tasks, the queues, and the counts of completed and inline
  -- tasks are as before. The capacity of the pool is a 32-bit number.
  pub submit_emplace-Undone :
      (run : F → RuntimeBase F Q → RuntimeBase F Q × Bool) (b : RuntimeBase F Q)
      (priority : TaskPriority) (out : List ℕ)
      → capacity < 2 ^ 32
      → Holds b.tasks out
      → Undone b (submit_emplace id thread enqueue_ready run b none priority) out
  unfolding submit_emplace
  submit_emplace-Undone run b priority out small o =
      let r : World F × TaskHandle = reserve b.tasks.world id thread priority in
      let count : b.outstanding + 1 - 1 ≡ b.outstanding = omega arith in
      elim (Bool-cases (valid r.1)) [
        | inl got ↦ rw got (
          refl,
          count,
          refl,
          refl,
          refl,
          elim (reserve-Issued n b.tasks.world id thread capacity out priority lt o) [
            | inl (invalid, kept) ↦ absurd (ground (arith, got, invalid))
            | inr (below, fresh, taken) ↦ release-Owned n r.0 id thread capacity r.1 out lt taken
          ],
        )
        | inr nothing ↦ rw nothing (
          refl,
          count,
          refl,
          refl,
          refl,
          elim (reserve-Issued n b.tasks.world id thread capacity out priority lt o) [
            | inl (invalid, kept) ↦ kept
            | inr (below, fresh, taken) ↦ absurd (ground (arith, nothing, below, small))
          ],
        )
      ]

  -- The end of a task that left `r`: its slot is free, it is counted as done, and its exception too.
  abbrev pub Executed : RuntimeBase F Q × Bool → RuntimeBase F Q → List ℕ → Type 0
  Executed r e out =
      Holds e.tasks out
      × (e.outstanding ≡ r.0.outstanding - 1)
      × (e.completed ≡ r.0.completed + 1)
      × (e.uncaught_exceptions ≡ r.0.uncaught_exceptions + (if r.1 then 1 else 0))

  complete-Executed :
      (b : RuntimeBase F Q) (handle : TaskHandle) (u : Task F) (out : List ℕ)
      → find id b.tasks handle ≡ some u
      → Holds b.tasks (handle.index ∷ out)
      → Executed (b, false) (complete id thread enqueue_ready b handle) out
  unfolding complete
  complete-Executed b handle u out e o =
      rw (e, complete)
        (finish-Holds b.tasks handle (take_successors u).1 out o, refl, refl, omega arith)

  guarded-Executed :
      (run : F → RuntimeBase F Q → RuntimeBase F Q × Bool) (b : RuntimeBase F Q) (f : F)
      (handle : TaskHandle) (u : Task F) (out : List ℕ)
      → find id (run f b).0.tasks handle ≡ some u
      → Holds (run f b).0.tasks (handle.index ∷ out)
      → Executed
          (run f b)
          (complete id thread enqueue_ready (guarded id thread enqueue_ready run b (some f)) handle)
          out
  unfolding guarded
  guarded-Executed run b f handle u out e o =
      let after : RuntimeBase F Q = (run f b).0 in
      elim (Bool-cases (run f b).1) [
        | inl threw ↦
            let caught : RuntimeBase F Q = record after {
              uncaught_exceptions = after.uncaught_exceptions + 1;
            } in
            let c = complete-Executed caught handle u out e o in
            rw threw (c.0, c.1, c.2, omega (arith, c.3))
        | inr returned ↦ rw returned (complete-Executed after handle u out e o)
      ]

  -- A worker executes a task whose handle resolves and whose body leaves its own slot alone. Whether
  -- the body returns or throws, the slot goes back to the free lists, once, one task less is
  -- outstanding and one more completed than after the body, and an exception adds one to the count
  -- of those that were caught.
  pub execute-Executed :
      (run : F → RuntimeBase F Q → RuntimeBase F Q × Bool) (b : RuntimeBase F Q)
      (handle : TaskHandle) (t u : Task F) (f : F) (out : List ℕ)
      → find id b.tasks handle ≡ some t
      → t.function ≡ some f
      → let started = record b {
        tasks = write id b.tasks handle.index (λ v. publish v TaskState.executing);
      } in
        find id (run f started).0.tasks handle ≡ some u
        → Holds (run f started).0.tasks (handle.index ∷ out)
        → Executed (run f started) (execute id thread enqueue_ready run b handle) out
  unfolding execute
  execute-Executed run b handle t u f out e body found o =
      rw (e, execute, body)
        (guarded-Executed run
          (record b { tasks = write id b.tasks handle.index (λ v. publish v TaskState.executing) })
          f handle u out found o)
