-- ===== src/Runtime/Workers/Acquire.antt =====
-- ThunderboltRuntime.cpp: what a steal takes, and what a worker finds next.
use thunder_bolt_ht.Base.{
  ℕ, zero, suc, ◌+◌, ◌-◌, ◌%◌, ◌≤◌, ◌<◌, ◌≡◌, refl, ◌∙◌, Bool, true, false, ◌==◌, leb,
  if◌then◌else◌, Option, none, some, arith, Bool-cases, List-cases, Option-cases, inl, inr,
}
use thunder_bolt_ht.Api.Types.{TaskHandle, priority_count, invalid_handle, valid}
use thunder_bolt_ht.Api.Scheduling.{aging_pop_favours_lowest}
use thunder_bolt_ht.Runtime.Workers.{
  WorkerState, Workers, is_static, set_worker, pop_global, steal_from, steal_round, count_steal,
  steal_from_others, or_else, acquire_next, xorshift64,
}
use thunder_bolt_ht.Runtime.Workers.Conserve.{
  Takes, Takes-nothing, Takes-worker, pop_local-Takes, pop_inbox-Takes, pop_global-Takes,
  drain_global-Takes,
}
use thunder_bolt_ht.Runtime.Workers.Tally.{
  one, one-invalid, in_worker, in_workers-update, in_queues-front,
}

module _ (h : TaskHandle) (v : valid h ≡ true) where
  -- What a steal takes from its victim.
  abbrev Stolen : WorkerState → Option (WorkerState × TaskHandle) → Type 0
  Stolen w none = Unit {0}
  Stolen w (some (left, x)) = in_worker h left + one h x ≡ in_worker h w

  steal_from-Stolen :
      (rounds : ℕ) (lost : ℕ → Bool) (w : WorkerState)
      → rounds ≤ priority_count
      → Stolen w (steal_from rounds lost w)
  unfolding steal_from
  steal_from-Stolen zero lost w le = tt
  steal_from-Stolen (suc rounds) lost w le =
      let p : ℕ = priority_count - suc rounds in
      elim (List-cases (w.queues p)) [
        | inl empty ↦ rw (empty, steal_from) (steal_from-Stolen rounds lost w (omega arith))
        | inr (x, xs, e) ↦ elim (Bool-cases (lost p)) [
          | inl aborted ↦
              rw (e, steal_from, aborted) (steal_from-Stolen rounds lost w (omega arith))
          | inr won ↦
              rw (e, steal_from, won)
                (omega (arith, in_queues-front h x w.queues p xs (omega arith) e))
        ]
      ]

  abbrev Took : Workers → Option (Workers × TaskHandle) → Type 0
  Took s none = Unit {0}
  Took s (some r) = Takes h v s r

  steal_round-Took :
      (rounds : ℕ) (lost : ℕ → ℕ → Bool) (s : Workers) (me start : ℕ)
      → 0 < s.worker_count
      → Took s (steal_round rounds lost s me start)
  unfolding steal_round
  steal_round-Took zero lost s me start pos = tt
  steal_round-Took (suc rounds) lost s me start pos =
      let victim : ℕ = (start + (s.worker_count - suc rounds)) % s.worker_count in
      let lt : victim < s.worker_count = grind arith in
      let ih = steal_round-Took rounds lost s me start pos in
      let o : Option (WorkerState × TaskHandle) =
        steal_from priority_count (lost victim) (s.workers victim) in
      let stolen : Stolen (s.workers victim) o =
        steal_from-Stolen priority_count (lost victim) (s.workers victim) (omega arith) in
      elim (Bool-cases (victim == me)) [
        | inl self ↦ rw self ih
        | inr other ↦ elim (Option-cases o) [
          | inl nothing ↦ rw (other, nothing, steal_round) ih
          | inr ((w, x), e) ↦
              let part : Stolen (s.workers victim) (some (w, x)) = rw e at stolen in
              rw (other, e, steal_round) (Takes-worker h v s victim w x lt part)
        ]
      ]

  -- Counting a steal moves no handle.
  count_steal-Takes :
      (s : Workers) (me : ℕ) (o : Option (Workers × TaskHandle))
      → me < s.worker_count
      → Took s o
      → Takes h v s (count_steal s me o)
  unfolding count_steal
  count_steal-Takes s me none lt took =
      let w : WorkerState = s.workers me in
      Takes-worker h v s me (record w { steals_failed = w.steals_failed + 1 }) invalid_handle lt
        (omega (arith, one-invalid h invalid_handle v refl))
  count_steal-Takes s me (some (left, x)) lt took =
      let w : WorkerState = left.workers me in
      let counted : WorkerState = record w { steals_succeeded = w.steals_succeeded + 1 } in
      (
        omega (
          arith,
          took.0,
          in_workers-update h left.worker_count left.workers me counted (omega (arith, took.1)),
        ),
        took.1,
      )

  steal_from_others-Takes :
      (lost : ℕ → ℕ → Bool) (s : Workers) (me : ℕ)
      → me < s.worker_count
      → Takes h v s (steal_from_others lost s me)
  unfolding steal_from_others
  steal_from_others-Takes lost s me lt =
      let w : WorkerState = s.workers me in
      let rng : ℕ = xorshift64 w.rng in
      let tried : WorkerState = record w { steal_attempts = w.steal_attempts + 1; rng = rng } in
      let begun : Workers = set_worker s me tried in
      let o : Option (Workers × TaskHandle) =
        steal_round s.worker_count lost begun me (rng % s.worker_count) in
      let took : Took begun o =
        steal_round-Took s.worker_count lost begun me (rng % s.worker_count) (omega arith) in
      let r = count_steal-Takes begun me o lt took in
      elim (Bool-cases (leb s.worker_count 1)) [
        | inl alone ↦ rw alone (Takes-nothing h v s)
        | inr others ↦
            rw others
              (omega (arith, r.0, in_workers-update h s.worker_count s.workers me tried lt), r.1)
      ]

  or_else-Takes :
      (s : Workers) (first : Workers × TaskHandle) (next : Workers → Workers × TaskHandle)
      → Takes h v s first
      → ((s1 : Workers) → s1.worker_count ≡ s.worker_count → Takes h v s1 (next s1))
      → Takes h v s (or_else first next)
  unfolding or_else
  or_else-Takes s first next took then_took = elim (Bool-cases (valid first.1)) [
    | inl found ↦ rw found took
    | inr nothing ↦
        let more = then_took first.0 took.1 in
        rw nothing (omega (arith, took.0, more.0, one-invalid h first.1 v nothing), more.1 ∙ took.1)
  ]

  aged-Takes :
      (s : Workers) (me : ℕ) (aged : Bool)
      → me < s.worker_count
      → Takes h v s (if aged then pop_global s me true else (s, invalid_handle))
  aged-Takes s me true lt = pop_global-Takes h v s me true lt
  aged-Takes s me false lt = Takes-nothing h v s

  -- What a worker gets from `acquire_next`, in every mode and whichever of its steals lose their
  -- race, is taken out of the queues once: every valid handle stands in them as often as before,
  -- less one if it is the result. The number of workers stays.
  pub acquire_next-Takes :
      (lost : ℕ → ℕ → Bool) (s : Workers) (me : ℕ)
      → me < s.worker_count
      → Takes h v s (acquire_next lost s me)
  unfolding acquire_next
  acquire_next-Takes lost s me lt =
      let w : WorkerState = s.workers me in
      elim (Bool-cases (is_static s.scheduler)) [
        | inl static ↦ rw static (pop_inbox-Takes h v s me lt)
        | inr stealing ↦ rw stealing (
            or_else-Takes s _ _
              (aged-Takes s me (aging_pop_favours_lowest s.scheduler w.pop_index) lt)
              (λ s1 e1.
                or_else-Takes s1 _ _ (pop_local-Takes h v s1 me (omega (arith, e1))) (λ s2 e2.
                  or_else-Takes s2 _ _ (drain_global-Takes h v s2 me (omega (arith, e1, e2)))
                    (λ s3 e3. steal_from_others-Takes lost s3 me (omega (arith, e1, e2, e3))))))
      ]
