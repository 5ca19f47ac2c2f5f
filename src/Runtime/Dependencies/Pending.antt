-- ===== src/Runtime/Dependencies/Pending.antt =====
-- The count of a dependent is what it is still owed.
use thunder_bolt_ht.Base.{
  refl, subst, true, false, ℕ, ◌+◌, ◌^◌, ◌<◌, ◌≡◌, sym, ap, ◌==◌, if◌then◌else◌, length, arith,
}
use thunder_bolt_ht.Api.Types.{TaskState, TaskHandle}
use thunder_bolt_ht.Core.Task.{Task, try_add_successor, reset_successors}
use thunder_bolt_ht.Core.Pool.Handles.{publish, opened_task, reserved_task, retired_task}
use thunder_bolt_ht.Runtime.Dependencies.{
  Submitter, Stage, Protocol, is_live, is_retired, is_available, Step, looks_up, registers,
  forgives, drops_guard, enqueues, takes_successors, completes, notifies, registers_other,
  advances_generation, abandons, resets, frees, opens, reserves, publishes, advances,
}
use thunder_bolt_ht.Runtime.Dependencies.Registered.{true≢false, in_notes, unsettled, in_slots}
use thunder_bolt_ht.Runtime.Dependencies.Slots.{
  AreOk, try_add_successor-SlotOk, registered-try_add_successor, reset-SlotOk, opened-SlotOk,
  reserved-SlotOk, registered-reset, registered-open,
}
use thunder_bolt_ht.Runtime.Dependencies.Owed.{
  owed, Inv, IsInRange, notify-Inv, write_slot-Inv, clear_slot-Inv, keep_slot-Inv, not_yet,
}
use thunder_bolt_ht.Runtime.Dependencies.Moves.{
  look_up-Inv, attach-Inv, hand_over-Inv, release_dependent-Inv,
}

stopped-available : (stage : Stage) → is_available stage ≡ true → is_live stage ≡ false
stopped-available Stage.live available = absurd (true≢false (sym available))
stopped-available _ available = refl

stopped-retired : (stage : Stage) → is_retired stage ≡ true → is_live stage ≡ false
stopped-retired Stage.live retired = absurd (true≢false (sym retired))
stopped-retired _ retired = refl

module _ {ℓ} {F : Type ℓ} where
  Step-Inv : {n : ℕ} {me : TaskHandle} {p q : Protocol F} → Step n me p q → Inv n me p → Inv n me q
  unfolding publish
  Step-Inv {n} {me} {p} (looks_up dependency rest at_work next) v =
      look_up-Inv n me p dependency rest at_work next v
  Step-Inv {n} {me} {p} (registers dependency at_work issued) v =
      attach-Inv n me p dependency at_work issued v
  Step-Inv {n} {me} {p} (forgives missing) v =
      let e : unsettled p.submitter ≡ 2 = ap unsettled missing in
      record {
        exact = omega (arith, v.exact, v.small);
        small = omega (arith, v.exact, v.small);
        once = ground (arith, v.exact, v.small, v.once);
        slots_ok = v.slots_ok;
        in_range = tt;
      }
  Step-Inv {n} {me} {p} (drops_guard at_work done) v =
      let e : unsettled p.submitter ≡ 1 = ap unsettled at_work in
      notify-Inv n me (record p { submitter = Submitter.finished }) (omega (arith, v.exact)) v.small
        (not_yet n me p v (omega arith)) v.slots_ok tt
  Step-Inv {n} {me} {p} (enqueues k last) v = record {
    exact = v.exact;
    small = v.small;
    once = omega (arith, v.once, last);
    slots_ok = v.slots_ok;
    in_range = v.in_range;
  }
  Step-Inv {n} {me} {p} (takes_successors thread i known lt live idle) v =
      hand_over-Inv n me p thread i known lt idle v
  Step-Inv {n} {me} {p} (completes i lt at_stage) v =
      keep_slot-Inv n me p i Stage.drained Stage.completed
        (publish (p.pool.slots i) TaskState.completed) lt at_stage refl (λ q. refl) (λ q k. refl) v
  Step-Inv {n} {me} {p} (notifies thread h rest known next) v =
      release_dependent-Inv n me p thread h rest known next v
  Step-Inv {n} {me} {p} (registers_other other dependency different lt issued) v =
      let i : ℕ = dependency.index in
      let t : Task F = p.pool.slots i in
      write_slot-Inv n me p i (try_add_successor t other dependency.generation).0 lt
        (ground (
          arith,
          registered-try_add_successor me (p.stage i) t other dependency.generation (v.slots_ok i),
          different,
        ))
        (try_add_successor-SlotOk (p.stage i) t other dependency.generation issued (v.slots_ok i)) v
  Step-Inv {n} {me} {p} (advances_generation i lt at_stage) v =
      keep_slot-Inv n me p i Stage.completed Stage.retired (retired_task (p.pool.slots i)) lt
        at_stage refl (λ q. refl) (λ q k. refl) v
  Step-Inv {n} {me} {p} (abandons i lt at_stage) v =
      keep_slot-Inv n me p i Stage.opened Stage.abandoned (retired_task (p.pool.slots i)) lt
        at_stage refl (λ q. refl) (λ q k. absurd (true≢false k)) v
  Step-Inv {n} {me} {p} (resets i lt retired) v =
      clear_slot-Inv n me p i Stage.emptied (reset_successors (p.pool.slots i)) lt
        (stopped-retired (p.stage i) retired) (registered-reset me (p.pool.slots i))
        (reset-SlotOk (p.pool.slots i)) v
  Step-Inv {n} {me} {p} (frees i lt at_stage) v =
      keep_slot-Inv n me p i Stage.emptied Stage.vacant (publish (p.pool.slots i) TaskState.free) lt
        at_stage refl (λ q. refl) (λ q k. refl) v
  Step-Inv {n} {me} {p} (opens i desc lt available) v =
      clear_slot-Inv n me p i Stage.opened (opened_task (p.pool.slots i) desc) lt
        (stopped-available (p.stage i) available) (registered-open me _) (opened-SlotOk _) v
  Step-Inv {n} {me} {p} (reserves i priority lt available) v =
      let (empty, ok) = reserved-SlotOk me (p.pool.slots i) priority in
      clear_slot-Inv n me p i Stage.opened (reserved_task (p.pool.slots i) priority) lt
        (stopped-available (p.stage i) available) empty ok v
  Step-Inv {n} {me} {p} (publishes i state body lt at_stage running) v =
      keep_slot-Inv n me p i Stage.opened Stage.live
        (record (p.pool.slots i) { function = body; state = state }) lt at_stage refl
        (λ q. absurd (true≢false q)) (λ q. absurd (true≢false q)) v
  Step-Inv {n} {me} {p} (advances i state lt at_stage running) v =
      keep_slot-Inv n me p i Stage.live Stage.live (publish (p.pool.slots i) state) lt at_stage refl
        (λ q. q) (λ q k. k) v

  -- A registration of `me` before its first visit: `submit_after` has stored one for each dependency
  -- and one for itself, and no thread and no list knows the new handle.
  pub record IsStored (n : ℕ) (me : TaskHandle) (p : Protocol F) : Type 0 where
    pub at_work : p.submitter ≡ Submitter.visiting
    pub stored : p.pending ≡ length p.todo + 1
    pub small : p.pending < 2 ^ 32
    pub not_enqueued : (p.enqueued ≡ 0) × (p.to_enqueue ≡ 0)
    pub unknown : (in_slots me p.pool ≡ 0) × (in_notes n me p.notes ≡ 0)
    pub slots_ok : AreOk p.stage p.pool.slots

  pub data Steps (n : ℕ) (me : TaskHandle) (p : Protocol F) : Protocol F → Type ℓ where
    no_step : Steps n me p p
    then_step : {q r : Protocol F} → Steps n me p q → Step n me q r → Steps n me p r

  IsStored-Inv : {n : ℕ} {me : TaskHandle} {p : Protocol F} → IsStored n me p → Inv n me p
  IsStored-Inv s = record {
    exact = omega (arith, s.stored, s.unknown, ap unsettled s.at_work);
    small = s.small;
    once = ground (arith, s.stored, s.not_enqueued);
    slots_ok = s.slots_ok;
    in_range = subst (IsInRange _) (sym s.at_work) tt;
  }

  Steps-Inv :
      {n : ℕ} {me : TaskHandle} {p q : Protocol F} → Steps n me p q → Inv n me p → Inv n me q
  Steps-Inv no_step v = v
  Steps-Inv (then_step hs st) v = Step-Inv st (Steps-Inv hs v)

  -- From a state in which `submit_after` has stored a count of one for each dependency and one for
  -- itself, and nobody knows the new handle, however the accesses of the lookups, registrations,
  -- completions, releases and acquisitions interleave, where handles that are registered with were
  -- given out: the dependent has been enqueued once if nothing is owed to it any more, that is the
  -- submitter is done, no successor list of the pool holds it and no thread has it left to tell or to
  -- enqueue, and not at all as long as anything is.
  pub Steps-enqueue_once :
      (n : ℕ) (me : TaskHandle) (p q : Protocol F)
      → IsStored n me p
      → Steps n me p q
      → q.enqueued ≡ (if owed n me q + q.to_enqueue == 0 then 1 else 0)
  Steps-enqueue_once n me p q stored hs =
      let v : Inv n me q = Steps-Inv hs (IsStored-Inv stored) in ground (arith, v.once, v.exact)
