-- ===== src/Core/Deque/Capacity.antt =====
-- The capacity that the constructor chooses.
use thunder_bolt_ht.Base.{
  ℕ, zero, suc, ◌+◌, ◌*◌, ◌%◌, ◌^◌, ◌≤◌, ◌<◌, ◌≡◌, refl, arith, Bool-cases, inl, inr, ltb,
}
use native.Mathlib.Nat.{pow-suc}
use thunder_bolt_ht.Core.Deque.{round_up}

-- A power of two, so that `& mask_` is a remainder.
abbrev pub IsPowerOfTwo : ℕ → Type 0
IsPowerOfTwo n = (k : ℕ) × (n ≡ 2 ^ k)

round_up_from :
    (fuel rounded capacity : ℕ)
    → capacity ≤ 2 ^ 63
    → capacity ≤ fuel + rounded
    → 0 < rounded
    → rounded < capacity + capacity
    → IsPowerOfTwo rounded
    → let r = round_up fuel rounded capacity in
      IsPowerOfTwo r × (capacity ≤ r) × (r < capacity + capacity)
unfolding round_up
round_up_from zero rounded capacity bound h p small pw = (pw, omega arith, small)
round_up_from (suc fuel) rounded capacity bound h p small (k, e) =
    elim (Bool-cases (ltb rounded capacity)) [
      | inl less ↦
          let fits : rounded * 2 % 2 ^ 64 ≡ rounded * 2 = ground arith in
          rw (less, fits)
            (round_up_from fuel (rounded * 2) capacity bound (ground arith) (omega arith)
              (ground arith) (suc k, rw (pow-suc 2 k, e)))
      | inr enough ↦ rw enough ((k, e), ground arith, small)
    ]

-- For a requested capacity from 1 to 2 ^ 63, as many rounds as it says are enough: the loop ends with
-- a power of two that is no smaller than the request and less than twice it.
pub round_up_least :
    (capacity : ℕ)
    → 0 < capacity
    → capacity ≤ 2 ^ 63
    → let r = round_up capacity 1 capacity in
      IsPowerOfTwo r × (capacity ≤ r) × (r < capacity + capacity)
round_up_least capacity h bound =
    round_up_from capacity 1 capacity bound (omega arith) (omega arith) (omega arith) (0, refl)
