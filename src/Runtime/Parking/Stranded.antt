-- ===== src/Runtime/Parking/Stranded.antt =====
-- ThunderboltRuntime.cpp: in static mode, a task in the inbox of a worker that sleeps waits for that
-- worker alone.
use thunder_bolt_ht.Base.{
  ℕ, suc, ◌+◌, ◌<◌, ◌≡◌, ◌≢◌, refl, sym, ap, ◌∙◌, Bool, true, false, ◌==◌, arith, update, update_ne,
  ==_iff,
}
use thunder_bolt_ht.Runtime.Parking.Census.{is_asleep, is_early, is_late}
use thunder_bolt_ht.Runtime.Parking.{
  Phase, Notifier, Stopper, Sleepers, set_phase, Step, publishes, sees_nobody, sees_somebody,
  passes_mutex, notifies_one, notifies_none, takes, moves, registers, reads_running, reads_stopped,
  finds_none, finds_work, waits, wakes_by_itself, returns, exits, stops, notifies_all,
}

-- In static mode, `acquire_next` looks into the worker's own inbox alone.
abbrev pub own_inbox : ℕ → ℕ → Bool
own_inbox i j = i == j

true_not_false : true ≡ false → ⊥
true_not_false e = ground (arith, e)

still_runs : {p : Stopper} → p ≡ Stopper.stopping → p ≡ Stopper.running → ⊥
still_runs e r = ground (arith, e, r)

module _ (n m q : ℕ) where
  -- A submission, the shutdown, or a wake-up that the condition variable makes by itself.
  unfoldable pub comes_from_outside : {s t : Sleepers} → Step n m q own_inbox s t → Bool
  comes_from_outside (publishes t j lt jlt e) = true
  comes_from_outside (stops runs) = true
  comes_from_outside (wakes_by_itself i lt e) = true
  comes_from_outside _ = false

  pub data QuietSteps (s : Sleepers) : Sleepers → Type 0 where
    no_quiet : QuietSteps s s
    then_quiet :
        {t u : Sleepers}
        → QuietSteps s t
        → (step : Step n m q own_inbox t u) → comes_from_outside step ≡ false
        → QuietSteps s u

  -- Worker `i` sleeps, its inbox has a task, and no submitter is at work.
  pub record Stranded (i : ℕ) (s : Sleepers) : Type 0 where
    pub sleeps : s.workers i ≡ Phase.asleep
    pub has_task : 0 < s.work i
    pub nobody : (t : ℕ) → t < m → s.notifiers t ≡ Notifier.idle
    pub runs : s.stopper ≡ Stopper.running

  module _ (i : ℕ) (s : Sleepers) (h : Stranded i s) where
    not_i : (k : ℕ) (p : Phase) → s.workers k ≡ p → is_asleep p ≡ 0 → k ≢ i
    not_i k p e up same = omega (arith, up, ap is_asleep (sym e ∙ ap s.workers same ∙ h.sleeps))

    -- Another worker changes its phase.
    other_phase :
        (k : ℕ) {p : Phase} (r : Phase)
        → s.workers k ≡ p
        → is_asleep p ≡ 0
        → Stranded i (set_phase s k r)
    other_phase k {p} r e up = record {
      sleeps = update_ne s.workers k i r (not_i k p e up) ∙ h.sleeps;
      has_task = h.has_task;
      nobody = h.nobody;
      runs = h.runs;
    }

    -- Another worker moves the work about, except in the inbox of `i`.
    other_work : (work : ℕ → ℕ) → work i ≡ s.work i → Stranded i (record s { work = work })
    other_work work same = record {
      sleeps = h.sleeps;
      has_task = omega (arith, same, h.has_task);
      nobody = h.nobody;
      runs = h.runs;
    }

    -- The mutex and the count of the sleepers do not matter.
    other_lock :
        {u : Sleepers} (sleeping : ℕ) (locked : Bool)
        → Stranded i u
        → Stranded i (record u { sleeping = sleeping; locked = locked })
    other_lock sleeping locked k = record {
      sleeps = k.sleeps;
      has_task = k.has_task;
      nobody = k.nobody;
      runs = k.runs;
    }

    idle_not : (t : ℕ) {p : Notifier} → t < m → s.notifiers t ≡ p → is_early p + is_late p ≡ 1 → ⊥
    idle_not t lt e busy =
        let same = sym e ∙ h.nobody t lt in omega (arith, busy, ap is_early same, ap is_late same)

    own : (k j : ℕ) → own_inbox k j ≡ true → s.workers k ≡ Phase.awake → j ≢ i
    own k j may e same = not_i k Phase.awake e refl ((==_iff k j).0 may ∙ same)

    Step-Stranded :
        {t : Sleepers} (step : Step n m q own_inbox s t)
        → comes_from_outside step ≡ false
        → Stranded i t
    unfolding comes_from_outside
    Step-Stranded (publishes t j lt jlt e) quiet = absurd (true_not_false quiet)
    Step-Stranded (sees_nobody t lt e none_asleep) quiet = absurd (idle_not t lt e refl)
    Step-Stranded (sees_somebody t lt e some_asleep) quiet = absurd (idle_not t lt e refl)
    Step-Stranded (passes_mutex t lt e free) quiet = absurd (idle_not t lt e refl)
    Step-Stranded (notifies_one t k lt klt e ke) quiet = absurd (idle_not t lt e refl)
    Step-Stranded (notifies_none t lt e nobody) quiet = absurd (idle_not t lt e refl)
    Step-Stranded (takes k j lt e may some) quiet =
        other_work _ (update_ne s.work j i _ (own k j may e))
    Step-Stranded (moves k j l lt e may may_too some ne) quiet = other_work _ (
        update_ne (update s.work j _) l i _ (own k l may_too e)
        ∙ update_ne s.work j i _ (own k j may e))
    Step-Stranded (registers k lt e free) quiet =
        other_lock _ _ (other_phase k Phase.registered e refl)
    Step-Stranded (reads_running k lt e running) quiet = other_phase k (Phase.scanning 0) e refl
    Step-Stranded (reads_stopped k lt e over) quiet = absurd (over h.runs)
    Step-Stranded (finds_none k j lt e jlt nothing) quiet =
        other_phase k (Phase.scanning (suc j)) e refl
    Step-Stranded (finds_work k j lt e jlt some) quiet =
        other_lock _ _ (other_phase k Phase.awake e refl)
    Step-Stranded (waits k lt e) quiet = other_lock _ _ (other_phase k Phase.asleep e refl)
    Step-Stranded (wakes_by_itself k lt e) quiet = absurd (true_not_false quiet)
    Step-Stranded (returns k lt e free) quiet = other_lock _ _ (other_phase k Phase.awake e refl)
    Step-Stranded (exits k lt e over) quiet = absurd (over h.runs)
    Step-Stranded (stops e) quiet = absurd (true_not_false quiet)
    Step-Stranded (notifies_all e free) quiet = absurd (still_runs e h.runs)

  -- In static mode, from a state in which worker `i` sleeps with a task in its inbox and no
  -- submitter is between its enqueue and its notification, worker `i` stays asleep and the task
  -- stays where it is, whatever the other workers do, until there is another submission, the
  -- shutdown, or a wake-up that the condition variable makes by itself.
  pub QuietSteps-Stranded : (i : ℕ) {s t : Sleepers} → Stranded i s → QuietSteps s t → Stranded i t
  QuietSteps-Stranded i h no_quiet = h
  QuietSteps-Stranded i h (then_quiet {t} steps step quiet) =
      Step-Stranded i t (QuietSteps-Stranded i h steps) step quiet
