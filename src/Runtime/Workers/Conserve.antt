-- ===== src/Runtime/Workers/Conserve.antt =====
-- ThunderboltRuntime.cpp: what a worker takes from its own deques, its inbox and the global queue.
use thunder_bolt_ht.Base.{
  ℕ, zero, suc, ◌+◌, ◌-◌, ◌≤◌, ◌<◌, ◌≡◌, refl, ◌∙◌, Bool, true, false, ◌==◌, ltb, List, [], ◌∷◌,
  ◌++◌, Option, none, some, arith, length, Bool-cases, List-cases, inl, inr,
}
use thunder_bolt_ht.Api.Types.{TaskHandle, priority_index, priority_count, invalid_handle, valid}
use thunder_bolt_ht.Api.Scheduling.{aging_pop_favours_lowest}
use thunder_bolt_ht.Core.Queue.{GlobalQueue, pop, pop_with_priority, PopResult}
use thunder_bolt_ht.Core.Queue.Scan.{level, level_lt, scan, Found, scan-Found}
use thunder_bolt_ht.Core.Queue.Laws.{priority_index_lt}
use thunder_bolt_ht.Runtime.Workers.{
  WorkerState, Workers, set_worker, set_queue, pop_from, pop_local, take_inbox, pop_inbox,
  drain_rounds, pop_global, drain_global, global_drain_batch,
}
use thunder_bolt_ht.Runtime.Workers.Tally.{
  one, one-invalid, in_worker, queued, in_workers-update, in_queues-snoc, in_queues-front,
  in_queues-back, in_queues-push, in_queues-pop_with_priority,
}

module _ (h : TaskHandle) (v : valid h ≡ true) where
  -- The result is taken out of the queues once, and the workers stay as many.
  abbrev pub Takes : Workers → Workers × TaskHandle → Type 0
  Takes s r = (queued h r.0 + one h r.1 ≡ queued h s) × (r.0.worker_count ≡ s.worker_count)

  pub Takes-nothing : (s : Workers) → Takes s (s, invalid_handle)
  Takes-nothing s = (omega (arith, one-invalid h invalid_handle v refl), refl)

  -- A worker that gave up `x`.
  pub Takes-worker :
      (s : Workers) (me : ℕ) (w : WorkerState) (x : TaskHandle)
      → me < s.worker_count
      → in_worker h w + one h x ≡ in_worker h (s.workers me)
      → Takes s (set_worker s me w, x)
  Takes-worker s me w x lt e =
      (omega (arith, in_workers-update h s.worker_count s.workers me w lt), refl)

  pop_from-in :
      (rounds : ℕ) (lowest_first : Bool) (w : WorkerState)
      → rounds ≤ priority_count
      → let r = pop_from rounds lowest_first w in in_worker h r.0 + one h r.1 ≡ in_worker h w
  unfolding pop_from
  pop_from-in zero lowest_first w le = omega (arith, one-invalid h invalid_handle v refl)
  pop_from-in (suc rounds) lowest_first w le =
      let p : ℕ = level lowest_first (priority_count - suc rounds) in
      elim (List-cases (w.queues p)) [
        | inl empty ↦ rw (empty, pop_from) (pop_from-in rounds lowest_first w (omega arith))
        | inr (x, xs, e) ↦
            rw (e, pop_from)
              (omega (
                arith,
                in_queues-back h x w.queues p xs
                    (level_lt lowest_first (priority_count - suc rounds) (omega arith)) e,
              ))
      ]

  pub pop_local-Takes : (s : Workers) (me : ℕ) → me < s.worker_count → Takes s (pop_local s me)
  unfolding pop_local
  pop_local-Takes s me lt =
      let w : WorkerState = s.workers me in
      let lowest : Bool = aging_pop_favours_lowest s.scheduler w.pop_index in
      let r : WorkerState × TaskHandle = pop_from priority_count lowest w in
      Takes-worker s me r.0 r.1 lt (pop_from-in priority_count lowest w (omega arith))

  take_inbox-in :
      (w : WorkerState) (lowest_first : Bool) (o : Option (ℕ × TaskHandle × List TaskHandle))
      → Found w.inbox lowest_first o
      → in_worker h (take_inbox w o).0 + one h (take_inbox w o).1 ≡ in_worker h w
  unfolding take_inbox
  take_inbox-in w b none found = omega (arith, one-invalid h invalid_handle v refl)
  take_inbox-in w b (some (p, x, xs)) (lt, e, before) =
      omega (arith, in_queues-front h x w.inbox p xs lt e)

  pub pop_inbox-Takes : (s : Workers) (me : ℕ) → me < s.worker_count → Takes s (pop_inbox s me)
  unfolding pop_inbox
  pop_inbox-Takes s me lt =
      let w : WorkerState = s.workers me in
      let lowest : Bool = aging_pop_favours_lowest s.scheduler w.pop_index in
      let o : Option (ℕ × TaskHandle × List TaskHandle) = scan w.inbox lowest priority_count in
      let r : WorkerState × TaskHandle = take_inbox w o in
      elim (Bool-cases (w.inbox_count == 0)) [
        | inl empty ↦ rw empty (Takes-nothing s)
        | inr some_left ↦
            rw some_left
              (Takes-worker s me r.0 r.1 lt (take_inbox-in w lowest o (scan-Found w.inbox lowest)))
      ]

  pub pop_global-Takes :
      (s : Workers) (me : ℕ) (lowest_first : Bool)
      → me < s.worker_count
      → Takes s (pop_global s me lowest_first)
  unfolding pop_global pop
  pop_global-Takes s me b lt =
      let r : GlobalQueue × PopResult = pop_with_priority s.global b in
      let kept = in_queues-pop_with_priority h s.global b v in
      elim (Bool-cases (valid r.1.handle)) [
        | inl found ↦
            let w : WorkerState = s.workers me in
            let counted : WorkerState = record w {
              pop_index = w.pop_index + 1;
              global_pops = w.global_pops + 1;
            } in
            rw found (
              omega (arith, kept, in_workers-update h s.worker_count s.workers me counted lt),
              refl,
            )
        | inr nothing ↦ rw nothing (
          omega (
            arith,
            kept,
            one-invalid h r.1.handle v nothing,
            one-invalid h invalid_handle v refl,
          ),
          refl,
        )
      ]

  drain_rounds-queued :
      (rounds : ℕ) (s : Workers) (me : ℕ)
      → me < s.worker_count
      → (queued h (drain_rounds rounds s me) ≡ queued h s)
        × ((drain_rounds rounds s me).worker_count ≡ s.worker_count)
  unfolding drain_rounds
  drain_rounds-queued zero s me lt = (refl, refl)
  drain_rounds-queued (suc rounds) s me lt =
      let r : GlobalQueue × PopResult = pop_with_priority s.global false in
      let kept = in_queues-pop_with_priority h s.global false v in
      let extra : TaskHandle = r.1.handle in
      let p : ℕ = priority_index r.1.priority in
      let w : WorkerState = s.workers me in
      let grown : WorkerState = set_queue w p (w.queues p ++ extra ∷ []) in
      let popped : Workers = record s { global = r.0 } in
      let pushed : Workers = set_worker popped me grown in
      elim (Bool-cases (valid extra)) [
        | inr nothing ↦ rw nothing (omega (arith, kept, one-invalid h extra v nothing), refl)
        | inl found ↦ elim (Bool-cases (ltb (length (w.queues p)) s.deque_capacity)) [
          | inl room ↦
              let ih = drain_rounds-queued rounds pushed me lt in
              rw (found, room)
                (
                  omega (
                    arith,
                    ih.0,
                    kept,
                    in_workers-update h s.worker_count s.workers me grown lt,
                    in_queues-snoc h extra w.queues p (priority_index_lt r.1.priority),
                  ),
                  ih.1,
                )
          | inr full ↦
              rw (found, full) (omega (arith, kept, in_queues-push h extra r.0 r.1.priority), refl)
        ]
      ]

  pub drain_global-Takes :
      (s : Workers) (me : ℕ) → me < s.worker_count → Takes s (drain_global s me)
  unfolding drain_global
  drain_global-Takes s me lt =
      let w : WorkerState = s.workers me in
      let lowest : Bool = aging_pop_favours_lowest s.scheduler w.pop_index in
      let r : Workers × TaskHandle = pop_global s me lowest in
      let taken = pop_global-Takes s me lowest lt in
      elim (Bool-cases (valid r.1)) [
        | inl found ↦
            let more =
              drain_rounds-queued (global_drain_batch - 1) r.0 me (omega (arith, taken.1)) in
            rw found (omega (arith, taken.0, more.0), more.1 ∙ taken.1)
        | inr nothing ↦ rw nothing (
          omega (arith, taken.0, one-invalid h r.1 v nothing, one-invalid h invalid_handle v refl),
          taken.1,
        )
      ]
