-- ===== src/Runtime/Dependencies/Owed.antt =====
-- What is owed to a dependent, and the writes to slots that leave it as it is.
use thunder_bolt_ht.Base.{
  subst, false, ℕ, ◌+◌, ◌^◌, ◌<◌, ◌≡◌, sym, ap, ◌∙◌, ◌==◌, if◌then◌else◌, length, arith, Bool-cases,
  inl, inr,
}
use thunder_bolt_ht.Api.Types.{TaskHandle}
use thunder_bolt_ht.Core.Task.{Task}
use thunder_bolt_ht.Runtime.Dependencies.{
  Submitter, Stage, Protocol, is_live, is_unpublished, notify, write_slot, move_slot,
}
use thunder_bolt_ht.Runtime.Dependencies.Registered.{
  registered, in_notes, unsettled, in_slots, in_slots-with_slot,
}
use thunder_bolt_ht.Runtime.Dependencies.Slots.{
  SlotOk, AreOk, moved-AreOk, written-AreOk, kept-SlotOk, registered-quiet,
}

-- A dependency that was found stands in the pool.
abbrev pub IsInRange : ℕ → Submitter → Type 0
IsInRange capacity (Submitter.found dependency) = dependency.index < capacity
IsInRange capacity _ = Unit

module _ {ℓ} {F : Type ℓ} where
  abbrev pub owed : ℕ → TaskHandle → Protocol F → ℕ
  owed n me p = length p.todo + unsettled p.submitter + in_slots me p.pool + in_notes n me p.notes

  pub record Inv (n : ℕ) (me : TaskHandle) (p : Protocol F) : Type 0 where
    pub exact : p.pending ≡ owed n me p
    pub small : p.pending < 2 ^ 32
    pub once : p.enqueued + p.to_enqueue ≡ (if p.pending == 0 then 1 else 0)
    pub slots_ok : AreOk p.stage p.pool.slots
    pub in_range : IsInRange p.pool.capacity p.submitter

  -- The last `fetch_sub` but for what is owed is not the one that enqueues, and the last is.
  pub notify-Inv :
      (n : ℕ) (me : TaskHandle) (p : Protocol F)
      → p.pending ≡ owed n me p + 1
      → p.pending < 2 ^ 32
      → p.enqueued + p.to_enqueue ≡ 0
      → AreOk p.stage p.pool.slots
      → IsInRange p.pool.capacity p.submitter
      → Inv n me (notify p)
  unfolding notify
  notify-Inv n me p exact small none_yet ok range = elim (Bool-cases (p.pending == 1)) [
    | inl last ↦ rw last (record {
      exact = ground arith;
      small = ground arith;
      once = ground arith;
      slots_ok = ok;
      in_range = range;
    })
    | inr more ↦ rw more (record {
      exact = ground arith;
      small = ground arith;
      once = ground arith;
      slots_ok = ok;
      in_range = range;
    })
  ]

  -- A step that writes one slot and leaves all else, by another thread and by the owner.
  pub write_slot-Inv :
      (n : ℕ) (me : TaskHandle) (p : Protocol F) (i : ℕ) (t : Task F)
      → i < p.pool.capacity
      → registered me t.successors ≡ registered me (p.pool.slots i).successors
      → SlotOk (p.stage i) t
      → Inv n me p
      → Inv n me (write_slot p i t)
  write_slot-Inv n me p i t lt same ok v = record {
    exact = omega (arith, v.exact, in_slots-with_slot me p.pool i t lt);
    small = v.small;
    once = v.once;
    slots_ok = written-AreOk p.stage p.pool.slots i t v.slots_ok ok;
    in_range = v.in_range;
  }

  move_slot-Inv :
      (n : ℕ) (me : TaskHandle) (p : Protocol F) (i : ℕ) (next : Stage) (t : Task F)
      → i < p.pool.capacity
      → registered me t.successors ≡ registered me (p.pool.slots i).successors
      → SlotOk next t
      → Inv n me p
      → Inv n me (move_slot p i next t)
  move_slot-Inv n me p i next t lt same ok v = record {
    exact = omega (arith, v.exact, in_slots-with_slot me p.pool i t lt);
    small = v.small;
    once = v.once;
    slots_ok = moved-AreOk p.stage p.pool.slots i next t v.slots_ok ok;
    in_range = v.in_range;
  }

  -- The owner's step from a stage at which nothing is registered, to a list with nothing in it.
  pub clear_slot-Inv :
      (n : ℕ) (me : TaskHandle) (p : Protocol F) (i : ℕ) (next : Stage) (t : Task F)
      → i < p.pool.capacity
      → is_live (p.stage i) ≡ false
      → registered me t.successors ≡ 0
      → SlotOk next t
      → Inv n me p
      → Inv n me (move_slot p i next t)
  clear_slot-Inv n me p i next t lt stopped empty ok v =
      move_slot-Inv n me p i next t lt
        (empty ∙ sym (registered-quiet me (p.stage i) (p.pool.slots i) stopped (v.slots_ok i))) ok v

  -- The owner's step that leaves the list as it is.
  pub keep_slot-Inv :
      (n : ℕ) (me : TaskHandle) (p : Protocol F) (i : ℕ) (stage next : Stage) (t : Task F)
      → i < p.pool.capacity
      → p.stage i ≡ stage
      → t.successors ≡ (p.pool.slots i).successors
      → (is_live next ≡ false → is_live stage ≡ false)
      → (is_live next ≡ false → is_unpublished next ≡ false → is_unpublished stage ≡ false)
      → Inv n me p
      → Inv n me (move_slot p i next t)
  keep_slot-Inv n me p i stage next t lt at_stage same stopped known v =
      let ok : SlotOk stage (p.pool.slots i) =
        subst (λ s. SlotOk s (p.pool.slots i)) at_stage (v.slots_ok i) in
      move_slot-Inv n me p i next t lt (ap (registered me) same)
        (kept-SlotOk stage next (p.pool.slots i) t same ok stopped
          (λ q k. ok.shut (stopped q) (known q k)))
        v

  pub not_yet :
      (n : ℕ) (me : TaskHandle) (p : Protocol F)
      → Inv n me p
      → 0 < owed n me p
      → p.enqueued + p.to_enqueue ≡ 0
  not_yet n me p v more = ground (arith, v.exact, v.once)
