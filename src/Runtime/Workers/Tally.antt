-- ===== src/Runtime/Workers/Tally.antt =====
-- How often a handle stands in the queues of the workers.
use thunder_bolt_ht.Base.{
  ℕ, zero, suc, ◌+◌, ◌<◌, ◌≡◌, refl, sym, ap, Bool, true, false, ◌==◌, if◌then◌else◌, List, [], ◌∷◌,
  ◌++◌, Option, none, some, update, update_self, update_ne, arith, sum_over, sum_over-change,
  Bool-cases, inl, inr,
}
use thunder_bolt_ht.Api.Types.{
  TaskHandle, TaskPriority, priority_index, priority_count, invalid_handle, valid, handle_eq,
}
use thunder_bolt_ht.Core.Queue.{GlobalQueue, push, pop_with_priority, take_front}
use thunder_bolt_ht.Core.Queue.Scan.{scan, Found, scan-Found}
use thunder_bolt_ht.Core.Queue.Laws.{priority_index_lt}
use thunder_bolt_ht.Runtime.Dependencies.Registered.{told, told-nil, told-cons, told-append}
use thunder_bolt_ht.Runtime.Workers.{WorkerState, Workers, split_back}

-- Whether a handle is `h`, as a number.
abbrev pub one : TaskHandle → TaskHandle → ℕ
one h x = if handle_eq x h then 1 else 0

pub one-invalid : (h x : TaskHandle) → valid h ≡ true → valid x ≡ false → one h x ≡ 0
one-invalid h x v i = ground arith

abbrev pub in_queues : TaskHandle → (ℕ → List TaskHandle) → ℕ
in_queues h f = told h (f 0) + told h (f 1) + told h (f 2) + told h (f 3) + told h (f 4)

abbrev pub in_worker : TaskHandle → WorkerState → ℕ
in_worker h w = in_queues h w.queues + in_queues h w.inbox

unfoldable pub in_workers : TaskHandle → ℕ → (ℕ → WorkerState) → ℕ
in_workers h n workers = sum_over n (λ i. in_worker h (workers i))

abbrev pub queued : TaskHandle → Workers → ℕ
queued h s = in_queues h s.global.queues + in_workers h s.worker_count s.workers

pub in_queues-update :
    (h : TaskHandle) (f : ℕ → List TaskHandle) (p : ℕ) (xs : List TaskHandle)
    → p < priority_count
    → in_queues h (update f p xs) + told h (f p) ≡ in_queues h f + told h xs
in_queues-update h f zero xs lt = omega arith
in_queues-update h f (suc zero) xs lt = omega arith
in_queues-update h f (suc (suc zero)) xs lt = omega arith
in_queues-update h f (suc (suc (suc zero))) xs lt = omega arith
in_queues-update h f (suc (suc (suc (suc zero)))) xs lt = omega arith
in_queues-update h f (suc (suc (suc (suc (suc p))))) xs lt = absurd (omega arith)

pub in_workers-update :
    (h : TaskHandle) (n : ℕ) (workers : ℕ → WorkerState) (i : ℕ) (w : WorkerState)
    → i < n
    → in_workers h n (update workers i w) + in_worker h (workers i)
      ≡ in_workers h n workers + in_worker h w
unfolding in_workers
in_workers-update h n workers i w lt = omega (
  arith,
  sum_over-change n (λ j. in_worker h (update workers i w j)) (λ j. in_worker h (workers j)) i lt
      (λ j ne. ap (in_worker h) (update_ne workers i j w (λ e. ne (sym e)))),
  ap (in_worker h) (update_self workers i w),
)

told-snoc : (h x : TaskHandle) (xs : List TaskHandle) → told h (xs ++ x ∷ []) ≡ told h xs + one h x
told-snoc h x xs = omega (arith, told-append h xs (x ∷ []), told-cons h x [], told-nil h)

pub in_queues-snoc :
    (h x : TaskHandle) (f : ℕ → List TaskHandle) (p : ℕ)
    → p < priority_count
    → in_queues h (update f p (f p ++ x ∷ [])) ≡ in_queues h f + one h x
in_queues-snoc h x f p lt =
    omega (arith, in_queues-update h f p (f p ++ x ∷ []) lt, told-snoc h x (f p))

pub in_queues-front :
    (h x : TaskHandle) (f : ℕ → List TaskHandle) (p : ℕ) (xs : List TaskHandle)
    → p < priority_count
    → f p ≡ x ∷ xs
    → in_queues h (update f p xs) + one h x ≡ in_queues h f
in_queues-front h x f p xs lt e =
    omega (arith, in_queues-update h f p xs lt, ap (told h) e, told-cons h x xs)

told-split_back :
    (h x : TaskHandle) (xs : List TaskHandle)
    → told h (split_back x xs).0 + one h (split_back x xs).1 ≡ told h (x ∷ xs)
unfolding split_back
told-split_back h x [] = omega (arith, told-cons h x [], told-nil h)
told-split_back h x (y ∷ ys) =
    omega (arith, told-split_back h y ys, told-cons h x (y ∷ ys), told-cons h x (split_back y ys).0)

pub in_queues-back :
    (h x : TaskHandle) (f : ℕ → List TaskHandle) (p : ℕ) (xs : List TaskHandle)
    → p < priority_count
    → f p ≡ x ∷ xs
    → in_queues h (update f p (split_back x xs).0) + one h (split_back x xs).1 ≡ in_queues h f
in_queues-back h x f p xs lt e =
    omega
      (arith, in_queues-update h f p (split_back x xs).0 lt, ap (told h) e, told-split_back h x xs)

pub in_queues-push :
    (h x : TaskHandle) (q : GlobalQueue) (priority : TaskPriority)
    → in_queues h (push q x priority).queues ≡ in_queues h q.queues + one h x
unfolding push
in_queues-push h x q priority =
    in_queues-snoc h x q.queues (priority_index priority) (priority_index_lt priority)

take_front-in :
    (h : TaskHandle) (q : GlobalQueue) (lowest_first : Bool)
    (r : Option (ℕ × TaskHandle × List TaskHandle))
    → valid h ≡ true
    → Found q.queues lowest_first r
    → in_queues h (take_front q r).0.queues + one h (take_front q r).1.handle ≡ in_queues h q.queues
unfolding take_front
take_front-in h q b none v found = omega (arith, one-invalid h invalid_handle v refl)
take_front-in h q b (some (p, x, xs)) v (lt, e, before) = in_queues-front h x q.queues p xs lt e

pub in_queues-pop_with_priority :
    (h : TaskHandle) (q : GlobalQueue) (lowest_first : Bool)
    → valid h ≡ true
    → let r = pop_with_priority q lowest_first in
      in_queues h r.0.queues + one h r.1.handle ≡ in_queues h q.queues
unfolding pop_with_priority
in_queues-pop_with_priority h q b v = elim (Bool-cases (q.count == 0)) [
  | inl nothing ↦ rw nothing (omega (arith, one-invalid h invalid_handle v refl))
  | inr some_left ↦
      rw some_left (take_front-in h q b (scan q.queues b priority_count) v (scan-Found q.queues b))
]
