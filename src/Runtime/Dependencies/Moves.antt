-- ===== src/Runtime/Dependencies/Moves.antt =====
-- What the accesses of the submitter and of the completing threads do to what is owed.
use thunder_bolt_ht.Base.{
  subst, ℕ, ◌+◌, ◌<◌, ◌≡◌, ap, ◌∙◌, Bool, if◌then◌else◌, List, [], ◌∷◌, length, update, arith,
  Bool-cases, Option-cases, inl, inr,
}
use thunder_bolt_ht.Api.Types.{TaskHandle, handle_eq}
use thunder_bolt_ht.Core.Task.{Task, try_add_successor, take_successors}
use thunder_bolt_ht.Core.Pool.Handles.{get}
use thunder_bolt_ht.Runtime.Dependencies.{
  Submitter, Stage, Protocol, look_up, attach, hand_over, release_dependent, IsIssued,
}
use thunder_bolt_ht.Runtime.Dependencies.Registered.{
  told, told-nil, told-cons, handle_eq_self, registered-closed, in_notes, unsettled,
  in_notes-update, in_slots, in_slots-with_slot,
}
use thunder_bolt_ht.Runtime.Dependencies.Slots.{
  moved-AreOk, written-AreOk, try_add_successor-SlotOk, registered-try_add_successor, taken-SlotOk,
  get-slot,
}
use thunder_bolt_ht.Runtime.Dependencies.Owed.{owed, Inv, IsInRange, notify-Inv, not_yet}

module _ {ℓ} {F : Type ℓ} where
  pub look_up-Inv :
      (n : ℕ) (me : TaskHandle) (p : Protocol F) (dependency : TaskHandle) (rest : List TaskHandle)
      → p.submitter ≡ Submitter.visiting
      → p.todo ≡ dependency ∷ rest
      → Inv n me p
      → Inv n me (look_up p dependency rest)
  unfolding look_up
  look_up-Inv n me p dependency rest at_work next v =
      let exact : p.pending ≡ length rest + 2 + in_slots me p.pool + in_notes n me p.notes =
        omega (arith, v.exact, ap length next, ap unsettled at_work) in
      elim (Option-cases (get p.pool dependency)) [
        | inl gone ↦
            rw (gone, look_up)
              (record {
                exact = exact;
                small = v.small;
                once = v.once;
                slots_ok = v.slots_ok;
                in_range = tt;
              })
        | inr (t, here) ↦
            rw (here, look_up)
              (record {
                exact = exact;
                small = v.small;
                once = v.once;
                slots_ok = v.slots_ok;
                in_range = (get-slot p.pool dependency t here).0;
              })
      ]

  pub attach-Inv :
      (n : ℕ) (me : TaskHandle) (p : Protocol F) (dependency : TaskHandle)
      → p.submitter ≡ Submitter.found dependency
      → IsIssued p dependency
      → Inv n me p
      → Inv n me (attach me p dependency)
  unfolding attach
  attach-Inv n me p dependency at_work issued v =
      let i : ℕ = dependency.index in
      let t : Task F = p.pool.slots i in
      let lt : i < p.pool.capacity = subst (IsInRange p.pool.capacity) at_work v.in_range in
      let e : unsettled p.submitter ≡ 2 = ap unsettled at_work in
      let r : Task F × Bool = try_add_successor t me dependency.generation in
      let counts =
        registered-try_add_successor me (p.stage i) t me dependency.generation (v.slots_ok i) in
      elim (Bool-cases r.1) [
        | inl accepted ↦ rw accepted (record {
          exact = ground (
            arith,
            v.exact,
            e,
            in_slots-with_slot me p.pool i r.0 lt,
            counts,
            accepted,
            handle_eq_self me,
          );
          small = v.small;
          once = v.once;
          slots_ok = written-AreOk p.stage p.pool.slots i r.0 v.slots_ok (
              try_add_successor-SlotOk (p.stage i) t me dependency.generation issued
                (v.slots_ok i));
          in_range = tt;
        })
        | inr refused ↦ rw refused (record {
          exact = omega (arith, v.exact, e);
          small = v.small;
          once = v.once;
          slots_ok = v.slots_ok;
          in_range = tt;
        })
      ]

  pub hand_over-Inv :
      (n : ℕ) (me : TaskHandle) (p : Protocol F) (thread i : ℕ)
      → thread < n
      → i < p.pool.capacity
      → p.notes thread ≡ []
      → Inv n me p
      → Inv n me (hand_over p thread i)
  unfolding hand_over take_successors
  hand_over-Inv n me p thread i known lt idle v =
      let t : Task F = p.pool.slots i in
      let r : Task F × List TaskHandle = take_successors t in
      let nothing : told me (p.notes thread) ≡ 0 = ap (told me) idle ∙ told-nil me in
      record {
        exact = omega (
          arith,
          v.exact,
          in_slots-with_slot me p.pool i r.0 lt,
          in_notes-update n me p.notes thread r.1 known,
          registered-closed me t.successors,
          nothing,
        );
        small = v.small;
        once = v.once;
        slots_ok = moved-AreOk p.stage p.pool.slots i Stage.drained r.0 v.slots_ok (taken-SlotOk t);
        in_range = v.in_range;
      }

  pub release_dependent-Inv :
      (n : ℕ) (me : TaskHandle) (p : Protocol F) (thread : ℕ) (h : TaskHandle)
      (rest : List TaskHandle)
      → thread < n
      → p.notes thread ≡ h ∷ rest
      → Inv n me p
      → Inv n me (release_dependent me p thread h rest)
  unfolding release_dependent
  release_dependent-Inv n me p thread h rest known next v =
      let first : told me (p.notes thread) ≡ (if handle_eq h me then 1 else 0) + told me rest =
        ap (told me) next ∙ told-cons me h rest in
      let after : Protocol F = record p { notes = update p.notes thread rest } in
      let moved = in_notes-update n me p.notes thread rest known in
      elim (Bool-cases (handle_eq h me)) [
        | inl mine ↦
            let more : p.pending ≡ owed n me after + 1 =
              ground (arith, v.exact, moved, first, mine) in
            rw mine (
              notify-Inv n me after more v.small (not_yet n me p v (omega (arith, more, v.exact)))
                v.slots_ok v.in_range)
        | inr another ↦ rw another (record {
          exact = ground (arith, v.exact, moved, first, another);
          small = v.small;
          once = v.once;
          slots_ok = v.slots_ok;
          in_range = v.in_range;
        })
      ]
