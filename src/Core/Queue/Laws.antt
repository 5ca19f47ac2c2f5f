-- ===== src/Core/Queue/Laws.antt =====
-- The count, and the order in which the queue serves.
use thunder_bolt_ht.Base.{
  ℕ, zero, suc, ◌+◌, ◌-◌, ◌<◌, ◌≡◌, ◌⊎◌, inl, inr, refl, ap, Bool, ◌==◌, Option, none, some, List,
  [], ◌∷◌, ◌++◌, length, length-append, nil_of_length, update, arith, Bool-cases,
}
use thunder_bolt_ht.Api.Types.{TaskHandle, TaskPriority, priority_index, priority_count}
use thunder_bolt_ht.Core.Queue.{
  GlobalQueue, push, PopResult, no_result, priority_at, take_front, pop_with_priority,
}
use thunder_bolt_ht.Core.Queue.Scan.{scan, Found, Before, scan-Found}

-- The entries of all five queues.
abbrev pub total : (ℕ → List TaskHandle) → ℕ
total f = length (f 0) + length (f 1) + length (f 2) + length (f 3) + length (f 4)

pub total-update :
    (f : ℕ → List TaskHandle) (p : ℕ) (xs : List TaskHandle)
    → p < priority_count
    → total (update f p xs) + length (f p) ≡ total f + length xs
total-update f zero xs h = omega arith
total-update f (suc zero) xs h = omega arith
total-update f (suc (suc zero)) xs h = omega arith
total-update f (suc (suc (suc zero))) xs h = omega arith
total-update f (suc (suc (suc (suc zero)))) xs h = omega arith
total-update f (suc (suc (suc (suc (suc p))))) xs h = absurd (omega arith)

-- `count_` is the number of entries.
abbrev pub IsCounted : GlobalQueue → Type 0
IsCounted q = q.count ≡ total q.queues

pub priority_index_lt : (priority : TaskPriority) → priority_index priority < priority_count
priority_index_lt TaskPriority.critical = omega arith
priority_index_lt _ = omega arith

-- A push keeps the count equal to the number of entries in the five queues.
pub push-IsCounted :
    (q : GlobalQueue) (handle : TaskHandle) (priority : TaskPriority)
    → IsCounted q
    → IsCounted (push q handle priority)
unfolding push
push-IsCounted q handle priority c =
    let p : ℕ = priority_index priority in
    omega (
      arith,
      total-update q.queues p (q.queues p ++ handle ∷ []) (priority_index_lt priority),
      length-append (q.queues p) (handle ∷ []),
    )

-- What a `pop` does, on both branches: nothing is there, and it changes nothing; or it takes the
-- oldest entry of the first queue, in the order of the scan, that is not empty.
abbrev pub Popped : GlobalQueue → Bool → GlobalQueue × PopResult → Type 0
Popped q lowest_first r =
    (((j : ℕ) → j < priority_count → q.queues j ≡ []) × (r ≡ (q, no_result)))
    ⊎ ((p : ℕ) × (handle : TaskHandle) × (behind : List TaskHandle) × (p < priority_count)
        × (q.queues p ≡ handle ∷ behind)
        × ((j : ℕ) → j < priority_count → Before lowest_first j p → q.queues j ≡ [])
        × (r.1 ≡ record { handle = handle; priority = priority_at p })
        × (r.0 ≡ record q { queues = update q.queues p behind; count = q.count - 1 })
        × IsCounted r.0)

pub empty_of_total :
    (f : ℕ → List TaskHandle) → total f ≡ 0 → (j : ℕ) → j < priority_count → f j ≡ []
empty_of_total f e zero h = nil_of_length (f 0) (omega arith)
empty_of_total f e (suc zero) h = nil_of_length (f 1) (omega arith)
empty_of_total f e (suc (suc zero)) h = nil_of_length (f 2) (omega arith)
empty_of_total f e (suc (suc (suc zero))) h = nil_of_length (f 3) (omega arith)
empty_of_total f e (suc (suc (suc (suc zero)))) h = nil_of_length (f 4) (omega arith)
empty_of_total f e (suc (suc (suc (suc (suc j))))) h = absurd (omega arith)

take_front-Popped :
    (q : GlobalQueue) (lowest_first : Bool) (r : Option (ℕ × TaskHandle × List TaskHandle))
    → IsCounted q
    → Found q.queues lowest_first r
    → Popped q lowest_first (take_front q r)
unfolding take_front
take_front-Popped q lowest_first none c found = inl (found, refl)
take_front-Popped q lowest_first (some (p, handle, behind)) c (lt, here, before) = inr (
  p,
  handle,
  behind,
  lt,
  here,
  before,
  refl,
  refl,
  omega (arith, total-update q.queues p behind lt, ap length here),
)

-- With the count right, a `pop` serves the first priority in its order that has an entry, and the
-- oldest entry there; it finds nothing only if all five queues are empty.
pub pop_with_priority-Popped :
    (q : GlobalQueue) (lowest_first : Bool)
    → IsCounted q
    → Popped q lowest_first (pop_with_priority q lowest_first)
unfolding pop_with_priority
pop_with_priority-Popped q lowest_first c = elim (Bool-cases (q.count == 0)) [
  | inl none_left ↦ rw none_left (inl (empty_of_total q.queues (ground (arith, c)), refl))
  | inr some_left ↦ rw some_left (
      take_front-Popped q lowest_first (scan q.queues lowest_first priority_count) c
        (scan-Found q.queues lowest_first))
]
