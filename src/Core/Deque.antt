-- ===== src/Core/Deque.antt =====
-- thunderbolt/core/executor/AbpDeque.hpp: the bounded work-stealing deque.
--
-- The owner and any number of thieves interleave, one access to shared memory at a time, under
-- sequential consistency: what the fences of the code are there to give. `bottom_` is -1 within a
-- `pop` of an empty deque, so `top` and `bottom` here hold the code's values plus one, and the
-- indices do not reach 2 ^ 63.
pub mod Invariant
pub mod Linear
pub mod Capacity
use thunder_bolt_ht.Base.{
  ℕ, zero, suc, ◌+◌, ◌-◌, ◌*◌, ◌%◌, ◌^◌, ◌≤◌, ◌<◌, ◌≡◌, ◌≢◌, Bool, true, false, ltb, if◌then◌else◌,
  Option, none, some, update,
}

pub record Deque {ℓ} (A : Type ℓ) : Type ℓ where
  pub capacity : ℕ
  pub top : ℕ
  pub bottom : ℕ
  pub buffer : ℕ → A

-- The loop of the constructor: double until nothing is missing. On fuel, and a shift of 64 bits,
-- which gives 0 from 2 ^ 63 on.
unfoldable pub round_up : ℕ → ℕ → ℕ → ℕ
round_up zero rounded capacity = rounded
round_up (suc fuel) rounded capacity =
    let rest = round_up fuel (rounded * 2 % 2 ^ 64) capacity in
    if ltb rounded capacity then rest else rounded

-- What an operation has read and not yet used.
pub data Owner {ℓ} (A : Type ℓ) : Type ℓ where
  idle : Owner A
  pushing : (value : A) (t : ℕ) → Owner A  -- `b` and `t` loaded, not full
  written : (value : A) → Owner A  -- before the store of `b + 1`
  claimed : Owner A  -- after the store of `b - 1` in `pop`
  popping : (t : ℕ) → Owner A  -- `t` loaded
  racing : (t : ℕ) (out : A) → Owner A  -- before the compare-exchange
  restoring : (won : Option A) → Owner A  -- before the last store of `bottom_`

pub data Thief {ℓ} (A : Type ℓ) : Type ℓ where
  idle : Thief A
  loaded : (t : ℕ) → Thief A  -- `t` loaded
  claiming : (t : ℕ) → Thief A  -- `b` loaded, and `t < b`
  copied : (t : ℕ) (out : A) → Thief A  -- before the compare-exchange

-- What a step does to the contents.
pub data Label {ℓ} (A : Type ℓ) : Type ℓ where
  silent : Label A
  push pop steal : A → Label A

module _ {ℓ} {A : Type ℓ} where
  -- `i & mask_`, for the index `i` plus one. The capacity is a power of two.
  abbrev pub slot : Deque A → ℕ → ℕ
  slot d i = (i - 1) % d.capacity

  abbrev pub read : Deque A → ℕ → A
  read d i = d.buffer (slot d i)

  abbrev pub with_bottom : Deque A → ℕ → Deque A
  with_bottom d b = record d { bottom = b }

  abbrev pub with_top : Deque A → ℕ → Deque A
  with_top d t = record d { top = t }

  -- `push` and `pop`, by the owner only.
  pub data OwnerMove (d : Deque A) : Owner A → Label A → Deque A → Owner A → Type ℓ where
    push_full : d.capacity ≤ d.bottom - d.top → OwnerMove d Owner.idle Label.silent d Owner.idle
    push_load :
        (value : A)
        → d.bottom - d.top < d.capacity
        → OwnerMove d Owner.idle Label.silent d (pushing value d.top)
    push_write :
        {value : A} {t : ℕ}
        → OwnerMove d
            (pushing value t)
            Label.silent
            (record d { buffer = update d.buffer (slot d d.bottom) value })
            (written value)
    push_store :
        {value : A}
        → OwnerMove d (written value) (Label.push value) (with_bottom d (d.bottom + 1)) Owner.idle
    pop_store : OwnerMove d Owner.idle Label.silent (with_bottom d (d.bottom - 1)) claimed
    pop_load : OwnerMove d claimed Label.silent d (popping d.top)
    pop_empty : {t : ℕ} → d.bottom < t → OwnerMove d (popping t) Label.silent d (restoring none)
    pop_sure :
        {t : ℕ} → t < d.bottom → OwnerMove d (popping t) (Label.pop (read d d.bottom)) d Owner.idle
    pop_last :
        {t : ℕ} → t ≡ d.bottom → OwnerMove d (popping t) Label.silent d (racing t (read d d.bottom))
    pop_won :
        {t : ℕ} {out : A}
        → d.top ≡ t
        → OwnerMove d (racing t out) (Label.pop out) (with_top d (t + 1)) (restoring (some out))
    pop_lost :
        {t : ℕ} {out : A} → d.top ≢ t → OwnerMove d (racing t out) Label.silent d (restoring none)
    pop_restore :
        {won : Option A}
        → OwnerMove d (restoring won) Label.silent (with_bottom d (d.bottom + 1)) Owner.idle

  -- `steal`, by any other thread.
  pub data ThiefMove (d : Deque A) : Thief A → Label A → Deque A → Thief A → Type ℓ where
    steal_load : ThiefMove d Thief.idle Label.silent d (loaded d.top)
    steal_empty : {t : ℕ} → d.bottom ≤ t → ThiefMove d (loaded t) Label.silent d Thief.idle
    steal_claim : {t : ℕ} → t < d.bottom → ThiefMove d (loaded t) Label.silent d (claiming t)
    steal_copy : {t : ℕ} → ThiefMove d (claiming t) Label.silent d (copied t (read d t))
    steal_won :
        {t : ℕ} {out : A}
        → d.top ≡ t
        → ThiefMove d (copied t out) (Label.steal out) (with_top d (t + 1)) Thief.idle
    steal_abort :
        {t : ℕ} {out : A} → d.top ≢ t → ThiefMove d (copied t out) Label.silent d Thief.idle

-- The deque with its threads.
pub record System {ℓ} (A : Type ℓ) : Type ℓ where
  pub deque : Deque A
  pub owner : Owner A
  pub thieves : ℕ → Thief A

module _ {ℓ} {A : Type ℓ} where
  pub data Step (s : System A) : Label A → System A → Type ℓ where
    owner_step :
        {l : Label A} {d : Deque A} {o : Owner A}
        → OwnerMove s.deque s.owner l d o
        → Step s l (record s { deque = d; owner = o })
    thief_step :
        {l : Label A} {d : Deque A} {p : Thief A} (i : ℕ)
        → ThiefMove s.deque (s.thieves i) l d p
        → Step s l (record s { deque = d; thieves = update s.thieves i p })

  -- A new deque of `capacity` slots, with nobody at work.
  abbrev pub start : ℕ → A → System A
  start capacity value = record {
    deque = record { capacity = capacity; top = 1; bottom = 1; buffer = λ _. value };
    owner = Owner.idle;
    thieves = λ _. Thief.idle;
  }
