-- ===== src/Core/Deque/Invariant.antt =====
-- What every interleaving keeps.
use native.Mathlib.Nat.{div-add-mod}
use thunder_bolt_ht.Base.{
  ℕ, ◌+◌, ◌-◌, ◌%◌, ◌≤◌, ◌<◌, ◌≡◌, ◌≢◌, refl, arith, update, ◌==◌, if◌then◌else◌, ltb, Bool-cases,
  inl, inr,
}
use thunder_bolt_ht.Core.Deque.{
  Deque, Owner, Thief, Label, System, Step, OwnerMove, ThiefMove, read, with_top, start, owner_step,
  thief_step, pushing, written, claimed, popping, racing, restoring, loaded, claiming, copied,
  push_full, push_load, push_write, push_store, pop_store, pop_load, pop_empty, pop_sure, pop_last,
  pop_won, pop_lost, pop_restore, steal_load, steal_empty, steal_claim, steal_copy, steal_won,
  steal_abort,
}

-- Indices less than the capacity apart have different slots.
pub mod_ne : (c a b : ℕ) → a < b → b < a + c → a % c ≢ b % c
mod_ne c a b lt room e = grind (arith, div-add-mod)

module _ {A : Type 0} where
  -- Where the contents end: a `pop` under way has stored the bottom below its item.
  abbrev pub end : Deque A → Owner A → ℕ
  end d Owner.idle = d.bottom
  end d (pushing _ _) = d.bottom
  end d (written _) = d.bottom
  end d _ = d.bottom + 1

  -- Thieves may claim what lies below: a `pop` that has seen two items keeps its own.
  abbrev pub reach : Deque A → Owner A → ℕ
  reach d (popping t) = if ltb t d.bottom then d.bottom else d.bottom + 1
  reach d o = end d o

  abbrev pub OwnerOk : Deque A → Owner A → Type 0
  OwnerOk d (pushing value t) = (d.bottom < d.top + d.capacity)
  OwnerOk d (written value) = (read d d.bottom ≡ value) × (d.bottom < d.top + d.capacity)
  OwnerOk d (popping t) = (t ≤ d.top) × (t < d.bottom → d.top ≤ d.bottom)
  OwnerOk d (racing t out) = (read d d.bottom ≡ out) × (t ≡ d.bottom) × (t ≤ d.top)
  OwnerOk d (restoring won) = (d.top ≡ d.bottom + 1)
  OwnerOk d _ = Unit {0}

  abbrev pub ThiefOk : Deque A → Owner A → Thief A → Type 0
  ThiefOk d o (loaded t) = (t ≤ d.top)
  ThiefOk d o (claiming t) = (t ≤ d.top) × (t ≡ d.top → t < reach d o)
  ThiefOk d o (copied t out) =
      (t ≡ d.top → read d t ≡ out) × (t ≤ d.top) × (t ≡ d.top → t < reach d o)
  ThiefOk d o Thief.idle = Unit {0}

  pub record DequeOk (d : Deque A) (o : Owner A) : Type 0 where
    pub first : 0 < d.top
    pub some_room : 0 < d.capacity
    pub ordered : d.top ≤ end d o
    pub fits : end d o ≤ d.top + d.capacity
    pub owner_ok : OwnerOk d o

  OwnerMove-DequeOk :
      {d e : Deque A} {o p : Owner A} {l : Label A}
      → OwnerMove d o l e p
      → DequeOk d o
      → DequeOk e p
  OwnerMove-DequeOk (push_full h) v = v
  OwnerMove-DequeOk (push_load value h) v = ground arith
  OwnerMove-DequeOk push_write v = ground arith
  OwnerMove-DequeOk push_store v = ground arith
  OwnerMove-DequeOk pop_store v = ground arith
  OwnerMove-DequeOk pop_load v = ground arith
  OwnerMove-DequeOk (pop_empty h) v = ground arith
  OwnerMove-DequeOk (pop_sure h) v = ground arith
  OwnerMove-DequeOk (pop_last h) v = ground arith
  OwnerMove-DequeOk (pop_won h) v = ground arith
  OwnerMove-DequeOk (pop_lost h) v = ground arith
  OwnerMove-DequeOk pop_restore v = ground arith

  -- What a step must leave alone for the thieves that still stand at the top.
  abbrev Keeps : Deque A → Owner A → Deque A → Owner A → Type 0
  Keeps d o e p =
      (t : ℕ) → t ≡ e.top → t ≤ d.top → t < reach d o → (t < reach e p) × (read e t ≡ read d t)

  ThiefOk-Keeps :
      (d e : Deque A) (o p : Owner A)
      → d.top ≤ e.top
      → Keeps d o e p
      → (th : Thief A) → ThiefOk d o th
      → ThiefOk e p th
  ThiefOk-Keeps d e o p le k Thief.idle ok = tt
  ThiefOk-Keeps d e o p le k (loaded t) ok = ground arith
  ThiefOk-Keeps d e o p le k (claiming t) ok = ground (arith, k t)
  ThiefOk-Keeps d e o p le k (copied t out) ok = ground (arith, k t)

  OwnerMove-Keeps :
      {d e : Deque A} {o p : Owner A} {l : Label A}
      → OwnerMove d o l e p
      → DequeOk d o
      → Keeps d o e p
  OwnerMove-Keeps (push_full h) v t a b c = (c, refl)
  OwnerMove-Keeps (push_load value h) v t a b c = ground arith
  OwnerMove-Keeps {d} push_write v t a b c =
      ground (arith, mod_ne d.capacity (t - 1) (d.bottom - 1))
  OwnerMove-Keeps push_store v t a b c = ground arith
  OwnerMove-Keeps pop_store v t a b c = ground arith
  OwnerMove-Keeps pop_load v t a b c = ground arith
  OwnerMove-Keeps (pop_empty h) v t a b c = ground arith
  OwnerMove-Keeps (pop_sure h) v t a b c = ground arith
  OwnerMove-Keeps (pop_last h) v t a b c = ground arith
  OwnerMove-Keeps (pop_won h) v t a b c = ground arith
  OwnerMove-Keeps (pop_lost h) v t a b c = ground arith
  OwnerMove-Keeps pop_restore v t a b c = ground arith

  OwnerMove-top-le :
      {d e : Deque A} {o p : Owner A} {l : Label A} → OwnerMove d o l e p → d.top ≤ e.top
  OwnerMove-top-le (push_full h) = omega arith
  OwnerMove-top-le (pop_won h) = omega arith
  OwnerMove-top-le mv = omega arith

  steal-DequeOk :
      (d : Deque A) (o : Owner A)
      → DequeOk d o
      → d.top < reach d o
      → DequeOk (with_top d (d.top + 1)) o
  steal-DequeOk d Owner.idle v h = ground arith
  steal-DequeOk d (pushing value t) v h = ground arith
  steal-DequeOk d (written value) v h = ground arith
  steal-DequeOk d claimed v h = ground arith
  steal-DequeOk d (popping t) v h = ground arith
  steal-DequeOk d (racing t out) v h = ground arith
  steal-DequeOk d (restoring won) v h = absurd (omega arith)

  bottom-le-reach : (d : Deque A) (o : Owner A) → d.bottom ≤ reach d o
  bottom-le-reach d Owner.idle = omega arith
  bottom-le-reach d (popping t) = ground arith
  bottom-le-reach d o = omega arith

  pub reach-le-end : (d : Deque A) (o : Owner A) → reach d o ≤ end d o
  reach-le-end d Owner.idle = omega arith
  reach-le-end d (popping t) = ground arith
  reach-le-end d o = omega arith

  -- A thief's move keeps the deque sound for its owner, and for itself and the other thieves.
  ThiefMove-DequeOk :
      {d e : Deque A} {th th' : Thief A} {l : Label A}
      → ThiefMove d th l e th'
      → (o : Owner A) → DequeOk d o
      → ThiefOk d o th
      → DequeOk e o
  ThiefMove-DequeOk {d} (steal_won h) o v ok = rw (← h) (steal-DequeOk d o v (ground arith))
  ThiefMove-DequeOk steal_load o v ok = v
  ThiefMove-DequeOk mv o v ok = v

  ThiefMove-Keeps :
      {d e : Deque A} {th th' : Thief A} {l : Label A}
      → ThiefMove d th l e th'
      → (o : Owner A) → Keeps d o e o
  ThiefMove-Keeps (steal_won h) o t a b c = absurd (omega arith)
  ThiefMove-Keeps steal_load o t a b c = (c, refl)
  ThiefMove-Keeps mv o t a b c = (c, refl)

  ThiefMove-top-le :
      {d e : Deque A} {th th' : Thief A} {l : Label A} → ThiefMove d th l e th' → d.top ≤ e.top
  ThiefMove-top-le (steal_won h) = omega arith
  ThiefMove-top-le steal_load = omega arith
  ThiefMove-top-le mv = omega arith

  ThiefMove-ThiefOk :
      {d e : Deque A} {th th' : Thief A} {l : Label A}
      → ThiefMove d th l e th'
      → (o : Owner A) → DequeOk d o
      → ThiefOk d o th
      → ThiefOk e o th'
  ThiefMove-ThiefOk steal_load o v ok = omega arith
  ThiefMove-ThiefOk (steal_empty h) o v ok = tt
  ThiefMove-ThiefOk {d} (steal_claim h) o v ok = (ok, λ _. omega (arith, bottom-le-reach d o))
  ThiefMove-ThiefOk steal_copy o v ok = (λ _. refl, ok.0, ok.1)
  ThiefMove-ThiefOk (steal_won h) o v ok = tt
  ThiefMove-ThiefOk (steal_abort h) o v ok = tt

  -- The deque is sound for its owner, and what each thief has read is no newer than the deque.
  pub record Inv (s : System A) : Type 0 where
    pub deque_ok : DequeOk s.deque s.owner
    pub thief_ok : (i : ℕ) → ThiefOk s.deque s.owner (s.thieves i)

  update-ThiefOk :
      (d : Deque A) (o : Owner A) (f : ℕ → Thief A) (i : ℕ) (th : Thief A)
      → ((j : ℕ) → ThiefOk d o (f j))
      → ThiefOk d o th
      → (j : ℕ) → ThiefOk d o (update f i th j)
  update-ThiefOk d o f i th all here j = elim (Bool-cases (i == j)) [
    | inl e ↦ rw e here
    | inr e ↦ rw e (all j)
  ]

  pub Step-Inv : {s t : System A} {l : Label A} → Step s l t → Inv s → Inv t
  Step-Inv {s} (owner_step {d = d} {o = o} mv) inv = record {
    deque_ok = OwnerMove-DequeOk mv inv.deque_ok;
    thief_ok = λ i.
        ThiefOk-Keeps s.deque d s.owner o (OwnerMove-top-le mv) (OwnerMove-Keeps mv inv.deque_ok)
          (s.thieves i) (inv.thief_ok i);
  }
  Step-Inv {s} (thief_step {d = d} {p = p} i mv) inv = record {
    deque_ok = ThiefMove-DequeOk mv s.owner inv.deque_ok (inv.thief_ok i);
    thief_ok =
        update-ThiefOk d s.owner s.thieves i p
          (λ j.
            ThiefOk-Keeps s.deque d s.owner s.owner (ThiefMove-top-le mv)
              (ThiefMove-Keeps mv s.owner) (s.thieves j) (inv.thief_ok j))
          (ThiefMove-ThiefOk mv s.owner inv.deque_ok (inv.thief_ok i));
  }

  pub start-Inv : (capacity : ℕ) (value : A) → 0 < capacity → Inv (start capacity value)
  start-Inv capacity value h = record { deque_ok = omega arith; thief_ok = λ _. tt }
