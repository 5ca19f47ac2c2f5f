-- ===== src/Runtime/Dependencies/Slots.antt =====
-- What the slots of the pool keep, and what each write to one does to its registrations.
use thunder_bolt_ht.Base.{
  none-some, ℕ, ◌+◌, ◌<◌, ◌≡◌, ◌≢◌, refl, sym, ap, subst, ==_iff, ◌∙◌, true, false, not, ◌&&◌, ◌||◌,
  leb, ◌==◌, if◌then◌else◌, some, update, arith, Bool-cases, inl, inr,
}
use thunder_bolt_ht.Api.Types.{TaskPriority, TaskHandle, handle_eq, valid}
use thunder_bolt_ht.Core.Task.{
  Task, try_add_successor, take_successors, closed_list, opened_list, open_successors,
  reset_successors,
}
use thunder_bolt_ht.Core.Task.Successors.{IsFilled, add_handle-IsFilled}
use thunder_bolt_ht.Core.Pool.{TaskPool}
use thunder_bolt_ht.Core.Pool.Handles.{get, reserved_task}
use thunder_bolt_ht.Runtime.Dependencies.{Stage, is_live, is_unpublished}
use thunder_bolt_ht.Runtime.Dependencies.Registered.{
  registered, registered-closed, registered-opened, registered-empty, true≢false,
  registered-add_handle, IsEmpty,
}

module _ {ℓ} {F : Type ℓ} where
  -- What a slot keeps: nothing is registered with it but while its task is submitted and has not
  -- completed, and from then until it is acquired again its list is closed.
  pub record SlotOk (stage : Stage) (t : Task F) : Type 0 where
    pub filled : IsFilled t.successors
    pub quiet : is_live stage ≡ false → IsEmpty t.successors
    pub shut : is_live stage ≡ false → is_unpublished stage ≡ false → t.successors.closed ≡ true

  abbrev pub AreOk : (ℕ → Stage) → (ℕ → Task F) → Type 0
  AreOk stages slots = (j : ℕ) → SlotOk (stages j) (slots j)

  -- A write to one slot, by its owner and by another thread.
  pub moved-AreOk :
      (stages : ℕ → Stage) (slots : ℕ → Task F) (i : ℕ) (next : Stage) (t : Task F)
      → AreOk stages slots
      → SlotOk next t
      → AreOk (update stages i next) (update slots i t)
  moved-AreOk stages slots i next t all ok j = elim (Bool-cases (i == j)) [
    | inl here ↦ rw here ok
    | inr elsewhere ↦ rw elsewhere (all j)
  ]

  pub written-AreOk :
      (stages : ℕ → Stage) (slots : ℕ → Task F) (i : ℕ) (t : Task F)
      → AreOk stages slots
      → SlotOk (stages i) t
      → AreOk stages (update slots i t)
  written-AreOk stages slots i t all ok j = elim (Bool-cases (i == j)) [
    | inl here ↦ rw here (subst (λ k. SlotOk (stages k) t) ((==_iff i j).0 here) ok)
    | inr elsewhere ↦ rw elsewhere (all j)
  ]

  -- A registration is accepted by a slot whose task is submitted and has not completed, and by no
  -- other.
  pub try_add_successor-SlotOk :
      (stage : Stage) (t : Task F) (h : TaskHandle) (g : ℕ)
      → (is_unpublished stage ≡ true → t.generation ≢ g)
      → SlotOk stage t
      → SlotOk stage (try_add_successor t h g).0
  unfolding try_add_successor
  try_add_successor-SlotOk stage t h g issued ok =
      elim (Bool-cases (not t.successors.closed && t.generation == g)) [
        | inl usable ↦
            let running : is_live stage ≡ false → ⊥ = λ q.
              elim (Bool-cases (is_unpublished stage)) [
                | inl fresh ↦ issued fresh (ground arith)
                | inr known ↦ true≢false (sym (ok.shut q known) ∙ ground arith)
              ] in
            rw usable (record {
              filled = add_handle-IsFilled t.successors h ok.filled;
              quiet = λ q. absurd (running q);
              shut = λ q known. absurd (running q);
            })
        | inr refused ↦ rw refused ok
      ]

  pub registered-try_add_successor :
      (me : TaskHandle) (stage : Stage) (t : Task F) (h : TaskHandle) (g : ℕ)
      → SlotOk stage t
      → registered me (try_add_successor t h g).0.successors
        ≡ registered me t.successors
          + (if (try_add_successor t h g).1 then (if handle_eq h me then 1 else 0) else 0)
  unfolding try_add_successor
  registered-try_add_successor me stage t h g ok =
      elim (Bool-cases (not t.successors.closed && t.generation == g)) [
        | inl usable ↦ rw usable (registered-add_handle me h t.successors ok.filled)
        | inr refused ↦ rw refused (omega arith)
      ]

  -- The slots that the owner's steps write.
  pub taken-SlotOk : (t : Task F) → SlotOk Stage.drained (take_successors t).0
  unfolding take_successors closed_list
  taken-SlotOk t = record { filled = refl; quiet = λ q. (refl, refl); shut = λ q known. refl }

  pub reset-SlotOk : (t : Task F) → SlotOk Stage.emptied (reset_successors t)
  unfolding reset_successors closed_list
  reset-SlotOk t = record { filled = refl; quiet = λ q. (refl, refl); shut = λ q known. refl }

  pub opened-SlotOk : (t : Task F) → SlotOk Stage.opened (open_successors t)
  unfolding open_successors opened_list
  opened-SlotOk t = record {
    filled = refl;
    quiet = λ q. (refl, refl);
    shut = λ q known. absurd (true≢false known);
  }

  -- A step of the owner that leaves the list as it is, to a stage that asks no more of it.
  pub kept-SlotOk :
      (stage next : Stage) (t u : Task F)
      → u.successors ≡ t.successors
      → SlotOk stage t
      → (is_live next ≡ false → is_live stage ≡ false)
      → (is_live next ≡ false → is_unpublished next ≡ false → t.successors.closed ≡ true)
      → SlotOk next u
  kept-SlotOk stage next t u same ok stopped closed = record {
    filled = subst IsFilled (sym same) ok.filled;
    quiet = λ q. subst IsEmpty (sym same) (ok.quiet (stopped q));
    shut = λ q known. ap (λ l. l.closed) same ∙ closed q known;
  }

  pub get-slot :
      (pool : TaskPool F) (h : TaskHandle) (t : Task F)
      → get pool h ≡ some t
      → (h.index < pool.capacity) × (t ≡ pool.slots h.index)
  unfolding get
  get-slot pool h t e = elim (Bool-cases (not (valid h) || leb pool.capacity h.index)) [
    | inl out ↦ absurd (none-some (rw out at e))
    | inr inside ↦ elim (Bool-cases ((pool.slots h.index).generation == h.generation)) [
      | inl current ↦
          let found : some (pool.slots h.index) ≡ some t = rw (inside, current) at e in
          (ground arith, cc)
      | inr stale ↦ absurd (none-some (rw (inside, stale) at e))
    ]
  ]

  pub registered-reset :
      (me : TaskHandle) (t : Task F) → registered me (reset_successors t).successors ≡ 0
  unfolding reset_successors
  registered-reset me t = registered-closed me t.successors

  pub registered-open :
      (me : TaskHandle) (t : Task F) → registered me (open_successors t).successors ≡ 0
  unfolding open_successors
  registered-open me t = registered-opened me t.successors

  -- What `reserve` writes has an open list with nothing in it.
  pub reserved-SlotOk :
      (me : TaskHandle) (t : Task F) (priority : TaskPriority)
      → (registered me (reserved_task t priority).successors ≡ 0)
        × SlotOk Stage.opened (reserved_task t priority)
  unfolding reserved_task
  reserved-SlotOk me t priority = (registered-open me _, opened-SlotOk _)

  pub registered-quiet :
      (me : TaskHandle) (stage : Stage) (t : Task F)
      → is_live stage ≡ false
      → SlotOk stage t
      → registered me t.successors ≡ 0
  registered-quiet me stage t stopped ok = registered-empty me t.successors (ok.quiet stopped)
