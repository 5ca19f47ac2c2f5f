-- ===== src/Runtime/Waiters.antt =====
-- The waiters for a handle in RuntimeBase.cpp: register_handle_waiter, unregister_handle_waiter, the
-- calls of them in `wait`, and the test of `complete` whether to wake. Each access is one atomic
-- operation under sequential consistency; here a registration is one step, and so is a removal.
pub mod Wake
use thunder_bolt_ht.Base.{
  ℕ, zero, suc, ◌+◌, ◌-◌, Bool, true, false, ◌&&◌, ◌||◌, not, ◌==◌, ltb, if◌then◌else◌, update,
}
use thunder_bolt_ht.Api.Types.{invalid_index}

-- `kNoWaitedIndex`
abbrev pub no_waited_index : ℕ
no_waited_index = invalid_index

-- `kMaxHandleWaiterSlots`
abbrev pub max_waiter_slots : ℕ
max_waiter_slots = 32

-- `handle_waiter_slots_`, `handle_waiters_` and `handle_waiter_overflow_count_`.
pub record HandleWaiters : Type 0 where
  pub slots : ℕ → ℕ
  pub waiters : ℕ
  pub overflow : ℕ

abbrev pub no_waiters : HandleWaiters
no_waiters = record { slots = λ _. no_waited_index; waiters = 0; overflow = 0 }

-- The loop of `register_handle_waiter`, with `rounds` rounds to go.
unfoldable pub claim_slot : ℕ → HandleWaiters → ℕ → HandleWaiters × ℕ
claim_slot zero w index = (record w { overflow = w.overflow + 1 }, max_waiter_slots)
claim_slot (suc rounds) w index =
    let i = max_waiter_slots - suc rounds in
    let rest = claim_slot rounds w index in
    if w.slots i == no_waited_index then (record w { slots = update w.slots i index }, i) else rest

-- `register_handle_waiter`, and `handle_waiters_.fetch_add(1)` after it. The result is the slot.
unfoldable pub enter_wait : HandleWaiters → ℕ → HandleWaiters × ℕ
enter_wait w index =
    let r = claim_slot max_waiter_slots w index in
    let claimed = r.0 in (record claimed { waiters = claimed.waiters + 1 }, r.1)

unfoldable pub unregister_handle_waiter : HandleWaiters → ℕ → HandleWaiters
unregister_handle_waiter w slot =
    if ltb slot max_waiter_slots
    then record w { slots = update w.slots slot no_waited_index }
    else record w { overflow = w.overflow - 1 }

-- `handle_waiters_.fetch_sub(1)`, and `unregister_handle_waiter` after it.
unfoldable pub leave_wait : HandleWaiters → ℕ → HandleWaiters
leave_wait w slot = unregister_handle_waiter (record w { waiters = w.waiters - 1 }) slot

-- The loop of `complete` over the slots, from `n` down: whether one of the first `n` has the index.
unfoldable pub some_slot : ℕ → (ℕ → ℕ) → ℕ → Bool
some_slot zero slots index = false
some_slot (suc n) slots index = slots n == index || some_slot n slots index

-- `wake_handle_waiters`
unfoldable pub wakes : HandleWaiters → ℕ → Bool
wakes w index =
    not (w.waiters == 0) && (not (w.overflow == 0) || some_slot max_waiter_slots w.slots index)
