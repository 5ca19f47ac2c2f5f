-- ===== src/Runtime/Waiters/Wake.antt =====
-- Whoever waits for a handle is woken when its task completes.
use thunder_bolt_ht.Base.{
  ℕ, zero, suc, ◌+◌, ◌-◌, ◌≤◌, ◌<◌, ◌≡◌, refl, ap, true, ◌==◌, if◌then◌else◌, ltb, List, [], ◌∷◌,
  ◌++◌, arith, length, length-append, Bool-cases, inl, inr, ℕ_discrete, ==_self,
}
use thunder_bolt_ht.Runtime.Waiters.{
  no_waited_index, max_waiter_slots, HandleWaiters, no_waiters, claim_slot, enter_wait,
  unregister_handle_waiter, leave_wait, some_slot, wakes,
}

-- A history of threads that enter `wait` for a slot index and leave it, in any order: the waiters
-- inside, each with the slot that it was given and the index that it waits for.
pub data Waiting : HandleWaiters → List (ℕ × ℕ) → Type 0 where
  nobody : Waiting no_waiters []
  enters :
      {w : HandleWaiters} {inside : List (ℕ × ℕ)} (index : ℕ)
      → index < no_waited_index
      → Waiting w inside
      → Waiting (enter_wait w index).0 (((enter_wait w index).1, index) ∷ inside)
  leaves :
      {w : HandleWaiters} (before after : List (ℕ × ℕ)) (slot index : ℕ)
      → Waiting w (before ++ (slot, index) ∷ after)
      → Waiting (leave_wait w slot) (before ++ after)

-- How many waiters were given the slot.
in_slot : ℕ → List (ℕ × ℕ) → ℕ
in_slot s [] = 0
in_slot s ((slot, index) ∷ inside) = (if slot == s then 1 else 0) + in_slot s inside

-- How many were given it and wait for the index.
in_slot_for : ℕ → ℕ → List (ℕ × ℕ) → ℕ
in_slot_for s i [] = 0
in_slot_for s i ((slot, index) ∷ inside) =
    (if slot == s then (if index == i then 1 else 0) else 0) + in_slot_for s i inside

in_slot-append : (s : ℕ) (xs ys : List (ℕ × ℕ)) → in_slot s (xs ++ ys) ≡ in_slot s xs + in_slot s ys
unfolding in_slot
in_slot-append s [] ys = omega arith
in_slot-append s (x ∷ xs) ys = omega (arith, in_slot-append s xs ys)

in_slot_for-append :
    (s i : ℕ) (xs ys : List (ℕ × ℕ))
    → in_slot_for s i (xs ++ ys) ≡ in_slot_for s i xs + in_slot_for s i ys
unfolding in_slot_for
in_slot_for-append s i [] ys = omega arith
in_slot_for-append s i (x ∷ xs) ys = omega (arith, in_slot_for-append s i xs ys)

in_slot_for-le : (s i : ℕ) (xs : List (ℕ × ℕ)) → in_slot_for s i xs ≤ in_slot s xs
unfolding in_slot in_slot_for
in_slot_for-le s i [] = omega arith
in_slot_for-le s i (x ∷ xs) = ground (arith, in_slot_for-le s i xs)

record Inv (w : HandleWaiters) (inside : List (ℕ × ℕ)) : Type 0 where
  counted : w.waiters ≡ length inside
  spilled : in_slot max_waiter_slots inside ≡ w.overflow
  alone :
      (s : ℕ)
      → s < max_waiter_slots
      → in_slot s inside ≡ (if w.slots s == no_waited_index then 0 else 1)
  named : (s i : ℕ) → s < max_waiter_slots → 0 < in_slot_for s i inside → w.slots s ≡ i
  ranged : (s : ℕ) → max_waiter_slots < s → in_slot s inside ≡ 0

-- What the loop of a registration does.
abbrev Claimed : HandleWaiters → ℕ → HandleWaiters × ℕ → Type 0
Claimed w index r =
    (r.0.waiters ≡ w.waiters)
    × (r.1 ≤ max_waiter_slots)
    × (r.0.overflow ≡ w.overflow + (if r.1 == max_waiter_slots then 1 else 0))
    × (r.1 < max_waiter_slots → w.slots r.1 ≡ no_waited_index)
    × ((s : ℕ) → s < max_waiter_slots → r.0.slots s ≡ (if r.1 == s then index else w.slots s))

claim_slot-Claimed :
    (rounds : ℕ) (w : HandleWaiters) (index : ℕ)
    → rounds ≤ max_waiter_slots
    → Claimed w index (claim_slot rounds w index)
unfolding claim_slot
claim_slot-Claimed zero w index le =
    (refl, omega arith, omega arith, λ lt. absurd (omega arith), λ s lt. ground arith)
claim_slot-Claimed (suc rounds) w index le =
    let i : ℕ = max_waiter_slots - suc rounds in
    elim (Bool-cases (w.slots i == no_waited_index)) [
      | inl free ↦
          rw free (refl, omega arith, ground arith, λ lt. ground arith, λ s lt. ground arith)
      | inr held ↦ rw held (claim_slot-Claimed rounds w index (omega arith))
    ]

enters-Inv :
    (w : HandleWaiters) (inside : List (ℕ × ℕ)) (index : ℕ)
    → index < no_waited_index
    → Inv w inside
    → Inv (enter_wait w index).0 (((enter_wait w index).1, index) ∷ inside)
unfolding enter_wait in_slot in_slot_for
enters-Inv w inside index lt v =
    let r : HandleWaiters × ℕ = claim_slot max_waiter_slots w index in
    let c : Claimed w index r = claim_slot-Claimed max_waiter_slots w index (omega arith) in
    record {
      counted = omega (arith, v.counted, c.0);
      spilled = ground (arith, v.spilled, c.2);
      alone = λ s h. ground (arith, v.alone s h, c.4 s h, c.3);
      named = λ s i h some_one.
          ground
            (arith, v.named s i h, v.alone s h, c.3, c.4 s h, in_slot_for-le s i inside, some_one);
      ranged = λ s h. ground (arith, v.ranged s h, c.1);
    }

leaves-Inv :
    (w : HandleWaiters) (before after : List (ℕ × ℕ)) (slot index : ℕ)
    → Inv w (before ++ (slot, index) ∷ after)
    → Inv (leave_wait w slot) (before ++ after)
unfolding leave_wait unregister_handle_waiter in_slot in_slot_for
leaves-Inv w before after slot index v =
    let here : List (ℕ × ℕ) = (slot, index) ∷ after in
    elim (Bool-cases (ltb slot max_waiter_slots)) [
      | inl held ↦ rw held (record {
        counted = omega (arith, v.counted, length-append before here, length-append before after);
        spilled = ground (
          arith,
          v.spilled,
          in_slot-append max_waiter_slots before here,
          in_slot-append max_waiter_slots before after,
        );
        alone = λ s h.
            ground
              (arith, v.alone s h, in_slot-append s before here, in_slot-append s before after);
        named = λ s i h some_one. ground (
          arith,
          v.named s i h,
          v.alone s h,
          in_slot-append s before here,
          in_slot-append s before after,
          in_slot_for-append s i before here,
          in_slot_for-append s i before after,
          in_slot_for-le s i before,
          in_slot_for-le s i after,
          some_one,
        );
        ranged = λ s h.
            ground
              (arith, v.ranged s h, in_slot-append s before here, in_slot-append s before after);
      })
      | inr over ↦ rw over (record {
        counted = omega (arith, v.counted, length-append before here, length-append before after);
        spilled = ground (
          arith,
          v.spilled,
          v.ranged slot,
          in_slot-append slot before here,
          in_slot-append max_waiter_slots before here,
          in_slot-append max_waiter_slots before after,
        );
        alone = λ s h.
            ground
              (arith, v.alone s h, in_slot-append s before here, in_slot-append s before after);
        named = λ s i h some_one. ground (
          arith,
          v.named s i h,
          in_slot_for-append s i before here,
          in_slot_for-append s i before after,
          some_one,
        );
        ranged = λ s h.
            ground
              (arith, v.ranged s h, in_slot-append s before here, in_slot-append s before after);
      })
    ]

Waiting-Inv : {w : HandleWaiters} {inside : List (ℕ × ℕ)} → Waiting w inside → Inv w inside
unfolding in_slot in_slot_for
Waiting-Inv nobody = record {
  counted = refl;
  spilled = refl;
  alone = λ s h. refl;
  named = λ s i h some_one. absurd (omega arith);
  ranged = λ s h. refl;
}
Waiting-Inv (enters {w} {inside} index lt h) = enters-Inv w inside index lt (Waiting-Inv h)
Waiting-Inv (leaves {w} before after slot index h) =
    leaves-Inv w before after slot index (Waiting-Inv h)

some_slot-holds : (n : ℕ) (slots : ℕ → ℕ) (s : ℕ) → s < n → some_slot n slots (slots s) ≡ true
unfolding some_slot
some_slot-holds zero slots s lt = absurd (omega arith)
some_slot-holds (suc n) slots s lt = elim (ℕ_discrete n s) [
  | yes same ↦ ground (arith, ==_self (slots s), ap slots same)
  | no other ↦ ground (arith, some_slot-holds n slots s (omega arith))
]

-- Whatever threads have entered and left, with more waiters than slots or fewer: if the task of a
-- waiter's handle completes, its test finds that there is somebody to wake.
pub Waiting-wakes :
    (w : HandleWaiters) (before after : List (ℕ × ℕ)) (slot index : ℕ)
    → Waiting w (before ++ (slot, index) ∷ after)
    → wakes w index ≡ true
unfolding wakes in_slot in_slot_for
Waiting-wakes w before after slot index h =
    let here : List (ℕ × ℕ) = (slot, index) ∷ after in
    let v : Inv w (before ++ here) = Waiting-Inv h in
    let some_waiter : 0 < w.waiters = omega (arith, v.counted, length-append before here) in
    elim (Bool-cases (ltb slot max_waiter_slots)) [
      | inl held ↦
          let named : w.slots slot ≡ index =
            ground (arith, v.named slot index, in_slot_for-append slot index before here) in
          ground (arith, some_slot-holds max_waiter_slots w.slots slot (ground arith), named)
      | inr over ↦ ground (
        arith,
        v.spilled,
        v.ranged slot,
        in_slot-append slot before here,
        in_slot-append max_waiter_slots before here,
      )
    ]
