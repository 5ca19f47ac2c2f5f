-- ===== src/Runtime/Execution/Submission.antt =====
-- RuntimeBase.cpp: what a submission leaves, with a slot and without one.
use thunder_bolt_ht.Base.{
  ℕ, ◌+◌, ◌-◌, ◌^◌, ◌<◌, ◌≡◌, ◌⊎◌, refl, ap, ◌∙◌, Bool, true, List, ◌∷◌, arith, count, Bool-cases,
  Option-cases, Option, none, some, update, update_self, inl, inr,
}
use thunder_bolt_ht.Api.Types.{TaskPriority, TaskState, TaskDesc, TaskHandle, invalid_handle, valid}
use thunder_bolt_ht.Core.Task.{Task, open_successors}
use thunder_bolt_ht.Core.Pool.{TaskPool, World, take_free_slot}
use thunder_bolt_ht.Core.Pool.Handles.{
  acquire, publish, issue, acquired_task, with_slot, count_acquire,
}
use thunder_bolt_ht.Core.Pool.Handles.Ownership.{acquire-Issued}
use thunder_bolt_ht.Runtime.Execution.{
  Tasks, RuntimeBase, write, make_ready, guarded, run_inline, submit,
}
use thunder_bolt_ht.Runtime.Execution.Accounts.{Holds, write-Holds}

module _ {F Q : Type 0} (id thread : ℕ) (enqueue_ready : Q → TaskHandle → TaskPriority → Q)
    (n capacity : ℕ) (lt : thread < n) (run : F → RuntimeBase F Q → RuntimeBase F Q × Bool) where
  -- The slot of a handle, as `submit` leaves it: it holds the task that `desc` describes.
  pub record Stored (desc : TaskDesc F) (s : Tasks F Q) (handle : TaskHandle) : Type 0 where
    pub pool : TaskPool F
    pub at_pool : s.world.pools id ≡ some pool
    pub same_generation : (pool.slots handle.index).generation ≡ handle.generation
    pub body : (pool.slots handle.index).function ≡ desc.function
    pub same_priority : (pool.slots handle.index).priority ≡ desc.priority
    pub is_queued : (pool.slots handle.index).state ≡ TaskState.queued
    pub nothing_pending : (pool.slots handle.index).pending_dependencies ≡ 0

  -- A task that was queued: its slot was nobody's and holds it, and the derived runtime has its
  -- handle.
  pub record Queued (b : RuntimeBase F Q) (desc : TaskDesc F) (out : List ℕ)
      (r : RuntimeBase F Q × TaskHandle) : Type 0 where
    pub handed_out : valid r.1 ≡ true
    pub fresh : count r.1.index out ≡ 0
    pub holds : Holds id thread enqueue_ready n capacity lt r.0.tasks (r.1.index ∷ out)
    pub stored : Stored desc r.0.tasks r.1
    pub counted : r.0.outstanding ≡ b.outstanding + 1
    pub enqueued : r.0.tasks.queue ≡ enqueue_ready b.tasks.queue r.1 desc.priority

  -- A task for which the pool had no slot: its body runs at once, in a state that counts it and has
  -- the slots and the queues of before, and is counted off after it.
  pub record RanInline (b : RuntimeBase F Q) (desc : TaskDesc F) (out : List ℕ)
      (r : RuntimeBase F Q × TaskHandle) : Type 0 where
    pub no_slot : (acquire b.tasks.world id thread desc).1 ≡ invalid_handle
    pub before : RuntimeBase F Q
    pub asked : before.tasks.world ≡ (acquire b.tasks.world id thread desc).0
    pub kept : Holds id thread enqueue_ready n capacity lt before.tasks out
    pub same_queue : before.tasks.queue ≡ b.tasks.queue
    pub counted_in : before.outstanding ≡ b.outstanding + 1
    pub counted_inline : before.inline_executions ≡ b.inline_executions + 1
    pub no_handle : r.1 ≡ invalid_handle
    pub after_body : r.0.tasks ≡ (guarded id thread enqueue_ready run before desc.function).tasks
    pub counted_off :
        r.0.outstanding ≡ (guarded id thread enqueue_ready run before desc.function).outstanding - 1

  write-queue :
      (s : Tasks F Q) (i : ℕ) (change : Task F → Task F) → (write id s i change).queue ≡ s.queue
  unfolding write
  write-queue s i change = elim (Option-cases (s.world.pools id)) [
    | inl e ↦ rw (e, write) refl
    | inr (pool, e) ↦ rw (e, write) refl
  ]

  issue-slot :
      (w : World F) (desc : TaskDesc F) (o : Option ℕ)
      → let r = issue w id (λ t. acquired_task t desc) o in
        valid r.1 ≡ true
        → (pool : TaskPool F) × (r.0.pools id ≡ some pool)
          × (t : Task F) × (pool.slots r.1.index ≡ acquired_task t desc)
          × (t.generation ≡ r.1.generation)
  unfolding issue
  issue-slot w desc none got = absurd (ground (arith, got))
  issue-slot w desc (some index) got = elim (Option-cases (w.pools id)) [
    | inl e ↦ absurd (ground (arith, (rw (e, issue) at got)))
    | inr (pool, e) ↦
        let t : Task F = pool.slots index in
        rw (e, issue)
          (
            with_slot pool index (acquired_task t desc),
            update_self w.pools id _,
            t,
            update_self pool.slots index _,
            refl,
          )
  ]

  acquire-slot :
      (w : World F) (desc : TaskDesc F)
      → let r = acquire w id thread desc in
        valid r.1 ≡ true
        → (pool : TaskPool F) × (r.0.pools id ≡ some pool)
          × (t : Task F) × (pool.slots r.1.index ≡ acquired_task t desc)
          × (t.generation ≡ r.1.generation)
  unfolding acquire
  acquire-slot w desc got =
      let r : World F × Option ℕ = take_free_slot (count_acquire w id) id thread in
      issue-slot r.0 desc r.1 got

  queued-Stored :
      (s : Tasks F Q) (desc : TaskDesc F) (handle : TaskHandle) (pool : TaskPool F) (t : Task F)
      → s.world.pools id ≡ some pool
      → pool.slots handle.index ≡ acquired_task t desc
      → t.generation ≡ handle.generation
      → Stored desc (make_ready id thread enqueue_ready s handle desc.priority) handle
  unfolding make_ready write acquired_task open_successors publish
  queued-Stored s desc handle pool t e slot same =
      let q : Task F = publish (pool.slots handle.index) TaskState.queued in
      let here : update pool.slots handle.index q handle.index
          ≡ publish (acquired_task t desc) TaskState.queued =
        update_self pool.slots handle.index q ∙ ap (λ u. publish u TaskState.queued) slot in
      record {
        pool = with_slot pool handle.index q;
        at_pool = rw (e, write) (update_self s.world.pools id _);
        same_generation = ap (λ (u : Task F). u.generation) here ∙ same;
        body = ap (λ (u : Task F). u.function) here;
        same_priority = ap (λ (u : Task F). u.priority) here;
        is_queued = ap (λ (u : Task F). u.state) here;
        nothing_pending = ap (λ (u : Task F). u.pending_dependencies) here;
      }

  -- `submit` either queues its task, in a slot that nobody had and that holds its body, or the pool
  -- has no slot to give and the body runs inline. The capacity of the pool is a 32-bit number.
  pub submit-Queued :
      (b : RuntimeBase F Q) (desc : TaskDesc F) (out : List ℕ)
      → capacity < 2 ^ 32
      → Holds id thread enqueue_ready n capacity lt b.tasks out
      → let r = submit id thread enqueue_ready run b desc in
        Queued b desc out r ⊎ RanInline b desc out r
  unfolding submit make_ready run_inline
  submit-Queued b desc out small o =
      let s : Tasks F Q = b.tasks in
      let r : World F × TaskHandle = acquire s.world id thread desc in
      let tasks : Tasks F Q = record s { world = r.0 } in
      elim (Bool-cases (valid r.1)) [
        | inl got ↦ elim (acquire-Issued n s.world id thread capacity out desc lt o) [
          | inl (invalid, kept) ↦ absurd (ground (arith, got, invalid))
          | inr (below, fresh, taken) ↦
              let (pool, at_pool, t, slot, same) = acquire-slot s.world desc got in
              rw got (
                inl (record {
                  handed_out = got;
                  fresh = fresh;
                  holds =
                      write-Holds id thread enqueue_ready n capacity lt tasks r.1.index
                        (λ t. publish t TaskState.queued) (r.1.index ∷ out) taken;
                  stored = queued-Stored tasks desc r.1 pool t at_pool slot same;
                  counted = refl;
                  enqueued =
                      ap (λ q. enqueue_ready q r.1 desc.priority)
                        (write-queue tasks r.1.index (λ t. publish t TaskState.queued));
                }))
        ]
        | inr nothing ↦ elim (acquire-Issued n s.world id thread capacity out desc lt o) [
          | inr (below, fresh, taken) ↦ absurd (ground (arith, nothing, below, small))
          | inl (invalid, kept) ↦ rw nothing (
              inr (record {
                no_slot = invalid;
                asked = refl;
                before = record b {
                  tasks = tasks;
                  outstanding = b.outstanding + 1;
                  inline_executions = b.inline_executions + 1;
                };
                kept = kept;
                same_queue = refl;
                counted_in = refl;
                counted_inline = refl;
                no_handle = refl;
                after_body = refl;
                counted_off = refl;
              }))
        ]
      ]
