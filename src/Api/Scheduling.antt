-- ===== src/Api/Scheduling.antt =====
-- thunderbolt/api/SchedulerMode.hpp: the aging rotation.
use thunder_bolt_ht.Base.{
  ℕ, ◌+◌, ◌*◌, ◌-◌, refl, ◌%◌, ◌≡◌, Bool, true, false, ◌&&◌, ◌==◌, zero, suc, arith, if◌then◌else◌,
}

pub data SchedulerMode : Type 0 where
  static work_stealing priority_aging : SchedulerMode

-- `kAgingInterval`
abbrev pub aging_interval : ℕ
aging_interval = 8

abbrev is_aging : SchedulerMode → Bool
is_aging SchedulerMode.priority_aging = true
is_aging _ = false

unfoldable pub aging_pop_favours_lowest : SchedulerMode → ℕ → Bool
aging_pop_favours_lowest mode pop_index =
    is_aging mode && pop_index % aging_interval == aging_interval - 1

-- How many of the `n` pops from index `start` on scan from the lowest priority.
pub favoured_pops : SchedulerMode → ℕ → ℕ → ℕ
favoured_pops mode start zero = 0
favoured_pops mode start (suc n) =
    (if aging_pop_favours_lowest mode start then 1 else 0) + favoured_pops mode (start + 1) n

favoured_pops-add :
    (mode : SchedulerMode) (m n start : ℕ)
    → favoured_pops mode start (m + n)
      ≡ favoured_pops mode start m + favoured_pops mode (start + m) n
unfolding favoured_pops
favoured_pops-add mode zero n start =
    let none_yet : 0 + n ≡ n = omega arith in
    let here : start + 0 ≡ start = omega arith in rw (none_yet, here) (omega arith)
favoured_pops-add mode (suc m) n start =
    let one_more : suc m + n ≡ suc (m + n) = omega arith in
    let shifted : start + suc m ≡ start + 1 + m = omega arith in
    rw (one_more, shifted) (omega (arith, favoured_pops-add mode m n (start + 1)))

favoured_pops-interval :
    (start : ℕ) → favoured_pops SchedulerMode.priority_aging start aging_interval ≡ 1
unfolding favoured_pops aging_pop_favours_lowest
favoured_pops-interval start = ground arith

-- Under aging the lowest priority comes first in exactly one of each `kAgingInterval` pops in a row,
-- whichever pop they begin at.
pub favoured_pops-aging :
    (intervals start : ℕ)
    → favoured_pops SchedulerMode.priority_aging start (intervals * aging_interval) ≡ intervals
unfolding favoured_pops
favoured_pops-aging zero start = refl
favoured_pops-aging (suc intervals) start =
    let one_more : suc intervals * aging_interval ≡ aging_interval + intervals * aging_interval =
      omega arith in
    rw one_more (
      omega (
        arith,
        favoured_pops-add SchedulerMode.priority_aging aging_interval (intervals * aging_interval)
            start,
        favoured_pops-interval start,
        favoured_pops-aging intervals (start + aging_interval),
      ))
