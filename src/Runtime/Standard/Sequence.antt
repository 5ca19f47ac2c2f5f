-- ===== src/Runtime/Standard/Sequence.antt =====
-- The order in which the standard runtime starts what is ready.
use thunder_bolt_ht.Base.{
  ==_iff, ℕ, zero, suc, ◌+◌, ◌-◌, ◌<◌, ◌≡◌, refl, sym, ap, ◌∙◌, false, ◌==◌, if◌then◌else◌, List,
  [], ◌∷◌, ◌++◌, append_assoc, append-nil, nil_of_length, Option, none, some, update, arith, length,
  length-append, Bool-cases, inl, inr,
}
use thunder_bolt_ht.Api.Types.{TaskHandle, TaskPriority, priority_index, priority_count}
use thunder_bolt_ht.Core.Queue.Scan.{scan, Found, scan-Found}
use thunder_bolt_ht.Core.Queue.Laws.{total, total-update, priority_index_lt}
use thunder_bolt_ht.Runtime.Standard.{
  ReadyQueue, nothing_ready, enqueue_ready, take_ready, pop_locked, drain,
}

-- The queues one after the other.
abbrev flat : (ℕ → List TaskHandle) → List TaskHandle
flat f = f 0 ++ (f 1 ++ (f 2 ++ (f 3 ++ f 4)))

-- The entries of one priority, in their order.
abbrev pub of_priority : ℕ → List (TaskHandle × TaskPriority) → List TaskHandle
of_priority p [] = []
of_priority p ((handle, priority) ∷ xs) =
    if priority_index priority == p then handle ∷ of_priority p xs else of_priority p xs

unfoldable pub enqueue_each : ReadyQueue → List (TaskHandle × TaskPriority) → ReadyQueue
enqueue_each q [] = q
enqueue_each q ((handle, priority) ∷ xs) = enqueue_each (enqueue_ready q handle priority) xs

length-flat : (f : ℕ → List TaskHandle) → length (flat f) ≡ total f
length-flat f = omega (
  arith,
  length-append (f 0) (f 1 ++ (f 2 ++ (f 3 ++ f 4))),
  length-append (f 1) (f 2 ++ (f 3 ++ f 4)),
  length-append (f 2) (f 3 ++ f 4),
  length-append (f 3) (f 4),
)

flat-take :
    (f : ℕ → List TaskHandle) (p : ℕ) (handle : TaskHandle) (behind : List TaskHandle)
    → p < priority_count
    → f p ≡ handle ∷ behind
    → ((j : ℕ) → j < priority_count → j < p → f j ≡ [])
    → flat f ≡ handle ∷ flat (update f p behind)
flat-take f zero handle behind lt e before = rw e refl
flat-take f (suc zero) handle behind lt e before = rw (before 0 (omega arith) (omega arith), e) refl
flat-take f (suc (suc zero)) handle behind lt e before =
    rw (before 0 (omega arith) (omega arith), before 1 (omega arith) (omega arith), e) refl
flat-take f (suc (suc (suc zero))) handle behind lt e before =
    rw
      (
        before 0 (omega arith) (omega arith),
        before 1 (omega arith) (omega arith),
        before 2 (omega arith) (omega arith),
        e,
      )
      refl
flat-take f (suc (suc (suc (suc zero)))) handle behind lt e before =
    rw
      (
        before 0 (omega arith) (omega arith),
        before 1 (omega arith) (omega arith),
        before 2 (omega arith) (omega arith),
        before 3 (omega arith) (omega arith),
        e,
      )
      refl
flat-take f (suc (suc (suc (suc (suc p))))) handle behind lt e before = absurd (omega arith)

take_ready-flat :
    (n : ℕ) (q : ReadyQueue) (o : Option (ℕ × TaskHandle × List TaskHandle))
    → Found q.ready false o
    → q.queued_count ≡ suc n
    → total q.ready ≡ suc n
    → ((r : ReadyQueue) → r.queued_count ≡ n → total r.ready ≡ n → drain n r ≡ flat r.ready)
    → (take_ready q o).1 ∷ drain n (take_ready q o).0 ≡ flat q.ready
take_ready-flat n q none found counted all later = absurd (
    omega (
      arith,
      all,
      ap length (found 0 (omega arith)),
      ap length (found 1 (omega arith)),
      ap length (found 2 (omega arith)),
      ap length (found 3 (omega arith)),
      ap length (found 4 (omega arith)),
    ))
take_ready-flat n q (some (p, handle, behind)) (lt, e, before) counted all later =
    ap (◌∷◌ handle) (
      later (record { ready = update q.ready p behind; queued_count = q.queued_count - 1 })
        (omega arith) (omega (arith, total-update q.ready p behind lt, ap length e)))
    ∙ sym (flat-take q.ready p handle behind lt e before)

drain-flat :
    (n : ℕ) (q : ReadyQueue) → q.queued_count ≡ n → total q.ready ≡ n → drain n q ≡ flat q.ready
unfolding drain pop_locked
drain-flat zero q counted all =
    sym (nil_of_length (flat q.ready) (omega (arith, length-flat q.ready)))
drain-flat (suc n) q counted all =
    let some_left : (q.queued_count == 0) ≡ false = ground (arith, counted) in
    rw (some_left, pop_locked)
      (take_ready-flat n q (scan q.ready false priority_count) (scan-Found q.ready false) counted
        all (λ r. drain-flat n r))

-- The state after some tasks were enqueued.
enqueue_each-counts :
    (q : ReadyQueue) (xs : List (TaskHandle × TaskPriority))
    → q.queued_count ≡ total q.ready
    → ((enqueue_each q xs).queued_count ≡ q.queued_count + length xs)
      × (total (enqueue_each q xs).ready ≡ q.queued_count + length xs)
unfolding enqueue_each enqueue_ready
enqueue_each-counts q [] c = (omega arith, omega (arith, c))
enqueue_each-counts q ((handle, priority) ∷ xs) c =
    let p : ℕ = priority_index priority in
    let longer : length (q.ready p ++ handle ∷ []) ≡ length (q.ready p) + 1 =
      length-append (q.ready p) (handle ∷ []) in
    let grown = total-update q.ready p (q.ready p ++ handle ∷ []) (priority_index_lt priority) in
    let rest =
      enqueue_each-counts (enqueue_ready q handle priority) xs (omega (arith, c, longer, grown)) in
    (omega (arith, rest.0), omega (arith, rest.1))

enqueue_each-ready :
    (q : ReadyQueue) (xs : List (TaskHandle × TaskPriority)) (p : ℕ)
    → (enqueue_each q xs).ready p ≡ q.ready p ++ of_priority p xs
unfolding enqueue_each enqueue_ready
enqueue_each-ready q [] p = sym (append-nil (q.ready p))
enqueue_each-ready q ((handle, priority) ∷ xs) p =
    enqueue_each-ready (enqueue_ready q handle priority) xs p
    ∙ (elim (Bool-cases (priority_index priority == p)) [
      | inl here ↦ rw here (
          append_assoc (q.ready (priority_index priority)) (handle ∷ []) (of_priority p xs)
          ∙ ap (λ k. q.ready k ++ handle ∷ of_priority p xs)
              ((==_iff (priority_index priority) p).0 here))
      | inr elsewhere ↦ rw elsewhere refl
    ])

-- Whatever was enqueued, in whatever order: the workers start the most urgent priority first, each
-- priority in the order of arrival, and everything once.
pub drain-enqueue_each :
    (xs : List (TaskHandle × TaskPriority))
    → drain (length xs) (enqueue_each nothing_ready xs)
      ≡ of_priority 0 xs
        ++ (of_priority 1 xs ++ (of_priority 2 xs ++ (of_priority 3 xs ++ of_priority 4 xs)))
drain-enqueue_each xs =
    let q : ReadyQueue = enqueue_each nothing_ready xs in
    let counts = enqueue_each-counts nothing_ready xs refl in
    drain-flat (length xs) q (omega (arith, counts.0)) (omega (arith, counts.1))
    ∙ rw
        (
          enqueue_each-ready nothing_ready xs 0,
          enqueue_each-ready nothing_ready xs 1,
          enqueue_each-ready nothing_ready xs 2,
          enqueue_each-ready nothing_ready xs 3,
          enqueue_each-ready nothing_ready xs 4,
        )
        refl
