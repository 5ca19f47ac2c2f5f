-- ===== src/Runtime/Standard/Census.antt =====
-- How many workers of the standard runtime are awake, and how many are blocked.
use thunder_bolt_ht.Base.{
  Option, none, some, List, ℕ, ◌+◌, ◌<◌, ◌≤◌, ◌≡◌, ◌≢◌, refl, sym, ap, false, ◌==◌, update,
  update_self, update_ne, sum_over, sum_over-change, sum_over-zero, arith, Bool-cases, inl, inr,
}
use thunder_bolt_ht.Api.Types.{TaskHandle, priority_count}
use thunder_bolt_ht.Core.Queue.Scan.{scan}
use thunder_bolt_ht.Runtime.Standard.{ReadyQueue, take_ready, pop_locked}
use thunder_bolt_ht.Runtime.Standard.Sleep.{
  WorkerPhase, testing, waiting, blocked, left, executing, wake_phase,
}

-- A worker that is on its way to the queue, or executes a task and comes back to it.
abbrev pub is_awake : WorkerPhase → ℕ
is_awake blocked = 0
is_awake left = 0
is_awake _ = 1

abbrev pub is_blocked : WorkerPhase → ℕ
is_blocked blocked = 1
is_blocked _ = 0

unfoldable pub awake_workers : ℕ → (ℕ → WorkerPhase) → ℕ
awake_workers n phases = sum_over n (λ w. is_awake (phases w))

unfoldable pub blocked_workers : ℕ → (ℕ → WorkerPhase) → ℕ
blocked_workers n phases = sum_over n (λ w. is_blocked (phases w))

update_one :
    (f : WorkerPhase → ℕ) (n w : ℕ) (phases : ℕ → WorkerPhase) (phase : WorkerPhase)
    → w < n
    → sum_over n (λ v. f (update phases w phase v)) + f (phases w)
      ≡ sum_over n (λ v. f (phases v)) + f phase
update_one f n w phases phase lt =
    let change =
      sum_over-change n (λ v. f (update phases w phase v)) (λ v. f (phases v)) w lt
        (λ v ne. ap f (update_ne phases w v phase (λ e. ne (sym e)))) in
    omega (arith, change, ap f (update_self phases w phase))

pub awake-move :
    (n w : ℕ) (phases : ℕ → WorkerPhase) (phase : WorkerPhase)
    → w < n
    → awake_workers n (update phases w phase) + is_awake (phases w)
      ≡ awake_workers n phases + is_awake phase
unfolding awake_workers
awake-move n w phases phase lt = update_one is_awake n w phases phase lt

pub blocked-move :
    (n w : ℕ) (phases : ℕ → WorkerPhase) (phase : WorkerPhase)
    → w < n
    → blocked_workers n (update phases w phase) + is_blocked (phases w)
      ≡ blocked_workers n phases + is_blocked phase
unfolding blocked_workers
blocked-move n w phases phase lt = update_one is_blocked n w phases phase lt

pub no_block : (phase : WorkerPhase) → phase ≢ blocked → is_blocked phase ≡ 0
no_block testing ne = refl
no_block waiting ne = refl
no_block blocked ne = absurd (ne refl)
no_block left ne = refl
no_block (executing handle) ne = refl

pub woken : (phase : WorkerPhase) → is_blocked (wake_phase phase) ≡ 0
unfolding wake_phase
woken testing = refl
woken waiting = refl
woken blocked = refl
woken left = refl
woken (executing handle) = refl

pub queued_count-pop_locked : (q : ReadyQueue) → (pop_locked q).0.queued_count ≤ q.queued_count
unfolding pop_locked
queued_count-pop_locked q = elim (Bool-cases (q.queued_count == 0)) [
  | inl e ↦ rw e (omega arith)
  | inr e ↦ rw e (taken (scan q.ready false priority_count))
]
  where
    taken :
        (found : Option (ℕ × TaskHandle × List TaskHandle))
        → (take_ready q found).0.queued_count ≤ q.queued_count
    taken none = omega arith
    taken (some (p, handle, behind)) = omega arith

pub none_blocked :
    (n : ℕ) (phases : ℕ → WorkerPhase)
    → ((w : ℕ) → w < n → is_blocked (phases w) ≡ 0)
    → 0 < blocked_workers n phases
    → ⊥
unfolding blocked_workers
none_blocked n phases all pos = omega (arith, pos, sum_over-zero n (λ w. is_blocked (phases w)) all)
