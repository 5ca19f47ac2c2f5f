-- ===== src/Runtime/Dependencies.antt =====
-- The dependency protocol of RuntimeBase.cpp and TaskPool.cpp: submit_after, complete and
-- release_dependent, with acquire, reserve and release of the slots that they meet.
--
-- One dependent task, with handle `me`, is followed while its submitter registers it with its
-- dependencies and any number of threads complete tasks. A step is one atomic access or one critical
-- section, together with the writes that only the owner of the slot reads. `stage` is how far the
-- owner of a slot has come; which thread the owner is stays open, which allows more orders than the
-- code has. `notes` holds, for each thread that completes a task, the successors that it took and has
-- not released yet, and `to_enqueue` counts the threads that took the count of `me` to zero and have
-- not enqueued it yet. The slot of `me` is not released before it is enqueued and executed, so its
-- handle resolves, and its count stands beside the pool.
pub mod Registered
pub mod Slots
pub mod Owed
pub mod Moves
pub mod Pending
use thunder_bolt_ht.Base.{
  ℕ, suc, ◌+◌, ◌-◌, ◌^◌, ◌<◌, ◌≡◌, ◌≢◌, Bool, true, false, ◌==◌, if◌then◌else◌, List, [], ◌∷◌,
  length, Option, none, some, update,
}
use thunder_bolt_ht.Api.Types.{u32, TaskState, TaskPriority, TaskDesc, TaskHandle, handle_eq}
use thunder_bolt_ht.Core.Task.{Task, try_add_successor, take_successors, reset_successors}
use thunder_bolt_ht.Core.Pool.{TaskPool}
use thunder_bolt_ht.Core.Pool.Handles.{
  with_slot, get, publish, opened_task, reserved_task, retired_task,
}

-- Where `submit_after` stands: in its loop, between a lookup that found the dependency and its
-- registration, between a failure of either and the `fetch_sub` for it, or behind its last
-- `fetch_sub`.
pub data Submitter : Type 0 where
  visiting missing finished : Submitter
  found : (dependency : TaskHandle) → Submitter

-- How far the owner of a slot has come: the slot was never used; its list is open and its handle not
-- given out; its task is submitted; `complete` has its successors; it is `Completed`; in `release` its
-- generation has advanced, behind a task or behind a body whose constructor threw; its list is reset;
-- it is `Free`.
pub data Stage : Type 0 where
  unused opened live drained completed retired abandoned emptied vacant : Stage

pub record Protocol {ℓ} (F : Type ℓ) : Type ℓ where
  pub pool : TaskPool F
  pub stage : ℕ → Stage
  pub todo : List TaskHandle
  pub submitter : Submitter
  pub notes : ℕ → List TaskHandle
  pub pending : ℕ
  pub to_enqueue : ℕ
  pub enqueued : ℕ

abbrev pub is_live : Stage → Bool
is_live Stage.live = true
is_live _ = false

-- Whether nobody was given a handle for the generation of the slot.
abbrev pub is_unpublished : Stage → Bool
is_unpublished Stage.unused = true
is_unpublished Stage.opened = true
is_unpublished Stage.abandoned = true
is_unpublished _ = false

-- Whether `release` is about to reset the list.
abbrev pub is_retired : Stage → Bool
is_retired Stage.retired = true
is_retired Stage.abandoned = true
is_retired _ = false

-- Whether `take_free_slot` may return the slot.
abbrev pub is_available : Stage → Bool
is_available Stage.unused = true
is_available Stage.vacant = true
is_available _ = false

-- Whether a slot holds a task that has not completed.
abbrev pub is_running : TaskState → Bool
is_running TaskState.free = false
is_running TaskState.completed = false
is_running _ = true

module _ {ℓ} {F : Type ℓ} where
  -- `pending_dependencies.fetch_sub(1)`
  abbrev pub counted_down : Protocol F → Protocol F
  counted_down p = record p { pending = u32 (p.pending + 2 ^ 32 - 1) }

  -- `fetch_sub`, and whether its thread goes on to `enqueue_ready`: where it was the last.
  unfoldable pub notify : Protocol F → Protocol F
  notify p =
      let counted = counted_down p in
      if p.pending == 1 then record counted { to_enqueue = p.to_enqueue + 1 } else counted

  abbrev pub write_slot : Protocol F → ℕ → Task F → Protocol F
  write_slot p i t = record p { pool = with_slot p.pool i t }

  -- The owner's write to slot `i`, after which it is at `next`.
  abbrev pub move_slot : Protocol F → ℕ → Stage → Task F → Protocol F
  move_slot p i next t = record (write_slot p i t) { stage = update p.stage i next }

  -- The start of a round of the loop of `submit_after`: `pool_.get(dependency)`.
  unfoldable pub look_up : Protocol F → TaskHandle → List TaskHandle → Protocol F
  look_up p dependency rest = elim (get p.pool dependency) [
    | none ↦ record p { todo = rest; submitter = Submitter.missing }
    | some _ ↦ record p { todo = rest; submitter = Submitter.found dependency }
  ]

  -- `try_add_successor` on the slot that was found, whatever it holds by now.
  unfoldable pub attach : TaskHandle → Protocol F → TaskHandle → Protocol F
  attach me p dependency =
      let r = try_add_successor (p.pool.slots dependency.index) me dependency.generation in
      if r.1
      then record (write_slot p dependency.index r.0) { submitter = Submitter.visiting }
      else record p { submitter = Submitter.missing }

  -- `take_successors` in `complete`.
  unfoldable pub hand_over : Protocol F → ℕ → ℕ → Protocol F
  hand_over p thread i =
      let r = take_successors (p.pool.slots i) in
      record (move_slot p i Stage.drained r.0) { notes = update p.notes thread r.1 }

  -- `release_dependent` of the next successor, which may be another dependent.
  unfoldable pub release_dependent :
      TaskHandle → Protocol F → ℕ → TaskHandle → List TaskHandle → Protocol F
  release_dependent me p thread h rest =
      let told = record p { notes = update p.notes thread rest } in
      if handle_eq h me then notify told else told

  -- A handle that was given out is not of a generation for which none was given out yet. That is
  -- asked only while the list of such a slot is open: elsewhere any handle may be named, also one
  -- whose generation has come around.
  abbrev pub IsIssued : Protocol F → TaskHandle → Type 0
  IsIssued p h =
      is_unpublished (p.stage h.index) ≡ true → (p.pool.slots h.index).generation ≢ h.generation

  -- The steps of the submitter, and of the threads 0 to n - 1.
  pub data Step (n : ℕ) (me : TaskHandle) (p : Protocol F) : Protocol F → Type ℓ where
    looks_up :
        (dependency : TaskHandle) (rest : List TaskHandle)
        → p.submitter ≡ Submitter.visiting
        → p.todo ≡ dependency ∷ rest
        → Step n me p (look_up p dependency rest)
    registers :
        (dependency : TaskHandle)
        → p.submitter ≡ Submitter.found dependency
        → IsIssued p dependency
        → Step n me p (attach me p dependency)
    forgives :
        p.submitter ≡ Submitter.missing
        → Step n me p (record (counted_down p) { submitter = Submitter.visiting })
    drops_guard :
        p.submitter ≡ Submitter.visiting
        → p.todo ≡ []
        → Step n me p (notify (record p { submitter = Submitter.finished }))
    -- The store of `Queued` and `enqueue_ready`, by a thread that counted to zero.
    enqueues :
        (k : ℕ)
        → p.to_enqueue ≡ suc k
        → Step n me p (record p { to_enqueue = k; enqueued = p.enqueued + 1 })
    -- `complete`
    takes_successors :
        (thread i : ℕ)
        → thread < n
        → i < p.pool.capacity
        → p.stage i ≡ Stage.live
        → p.notes thread ≡ []
        → Step n me p (hand_over p thread i)
    completes :
        (i : ℕ)
        → i < p.pool.capacity
        → p.stage i ≡ Stage.drained
        → Step n me p (move_slot p i Stage.completed (publish (p.pool.slots i) TaskState.completed))
    notifies :
        (thread : ℕ) (h : TaskHandle) (rest : List TaskHandle)
        → thread < n
        → p.notes thread ≡ h ∷ rest
        → Step n me p (release_dependent me p thread h rest)
    -- Another submitter registers another dependent.
    registers_other :
        (other dependency : TaskHandle)
        → handle_eq other me ≡ false
        → dependency.index < p.pool.capacity
        → IsIssued p dependency
        → Step n me p (
            write_slot p dependency.index
              (try_add_successor (p.pool.slots dependency.index) other dependency.generation).0)
    -- `release`
    advances_generation :
        (i : ℕ)
        → i < p.pool.capacity
        → p.stage i ≡ Stage.completed
        → Step n me p (move_slot p i Stage.retired (retired_task (p.pool.slots i)))
    -- `release` of a slot that was reserved, where the constructor of the body threw.
    abandons :
        (i : ℕ)
        → i < p.pool.capacity
        → p.stage i ≡ Stage.opened
        → Step n me p (move_slot p i Stage.abandoned (retired_task (p.pool.slots i)))
    resets :
        (i : ℕ)
        → i < p.pool.capacity
        → is_retired (p.stage i) ≡ true
        → Step n me p (move_slot p i Stage.emptied (reset_successors (p.pool.slots i)))
    frees :
        (i : ℕ)
        → i < p.pool.capacity
        → p.stage i ≡ Stage.emptied
        → Step n me p (move_slot p i Stage.vacant (publish (p.pool.slots i) TaskState.free))
    -- `acquire` and `reserve`, up to their critical section.
    opens :
        (i : ℕ) (desc : TaskDesc F)
        → i < p.pool.capacity
        → is_available (p.stage i) ≡ true
        → Step n me p (move_slot p i Stage.opened (opened_task (p.pool.slots i) desc))
    reserves :
        (i : ℕ) (priority : TaskPriority)
        → i < p.pool.capacity
        → is_available (p.stage i) ≡ true
        → Step n me p (move_slot p i Stage.opened (reserved_task (p.pool.slots i) priority))
    -- The store of the state in `acquire`, or behind `reserve` and the construction of the body.
    publishes :
        (i : ℕ) (state : TaskState) (body : Option F)
        → i < p.pool.capacity
        → p.stage i ≡ Stage.opened
        → is_running state ≡ true
        → Step n me p
            (move_slot p i Stage.live (record (p.pool.slots i) { function = body; state = state }))
    -- A task that has not completed is queued, or executed.
    advances :
        (i : ℕ) (state : TaskState)
        → i < p.pool.capacity
        → p.stage i ≡ Stage.live
        → is_running state ≡ true
        → Step n me p (move_slot p i Stage.live (publish (p.pool.slots i) state))
