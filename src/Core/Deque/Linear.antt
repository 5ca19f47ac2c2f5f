-- ===== src/Core/Deque/Linear.antt =====
-- The interleaved deque refines a list: each step is one atomic operation on it, or none.
use mathlib.Core.List.{perm_middle, perm_append_singleton}
use mathlib.Core.List.Perm
use thunder_bolt_ht.Base.{
  ℕ, zero, suc, ◌+◌, ◌-◌, ◌≤◌, ◌<◌, ◌≡◌, refl, sym, ap, ap₂, ◌∙◌, arith, List, [], ◌∷◌, ◌++◌,
  append_assoc, Perm,
}
use thunder_bolt_ht.Core.Deque.{
  Deque, Owner, Thief, Label, silent, push, pop, steal, System, Step, OwnerMove, ThiefMove, read,
  with_top, start, owner_step, thief_step, push_full, push_load, push_write, push_store, pop_store,
  pop_load, pop_empty, pop_sure, pop_last, pop_won, pop_lost, pop_restore, steal_load, steal_empty,
  steal_claim, steal_copy, steal_won, steal_abort,
}
use thunder_bolt_ht.Core.Deque.Invariant.{
  Inv, DequeOk, ThiefOk, end, reach-le-end, mod_ne, Step-Inv, start-Inv,
}

module _ {ℓ} {A : Type ℓ} where
  -- The `n` values from index `i` on.
  pub segment : (ℕ → A) → ℕ → ℕ → List A
  segment f i zero = []
  segment f i (suc n) = f i ∷ segment f (i + 1) n

  segment-last : (f : ℕ → A) (i n : ℕ) → segment f i (suc n) ≡ segment f i n ++ f (i + n) ∷ []
  unfolding segment
  segment-last f i zero = let e : i + 0 ≡ i = omega arith in rw e
  segment-last f i (suc n) =
      let e : i + suc n ≡ i + 1 + n = omega arith in
      rw e (ap (◌∷◌ (f i)) (segment-last f (i + 1) n))

  segment-congr :
      (f g : ℕ → A) (i n : ℕ)
      → ((j : ℕ) → i ≤ j → j < i + n → f j ≡ g j)
      → segment f i n ≡ segment g i n
  unfolding segment
  segment-congr f g i zero h = refl
  segment-congr f g i (suc n) h = rw (
    h i (omega arith) (omega arith),
    segment-congr f g (i + 1) n (λ j a b. h j (omega arith) (omega arith)),
  )

  segment-count : (f : ℕ → A) (i : ℕ) {m n : ℕ} → m ≡ n → segment f i m ≡ segment f i n
  segment-count f i e = ap (segment f i) e

  -- One atomic operation on the list.
  abbrev pub Does : Label A → List A → List A → Type ℓ
  Does silent xs ys = ys ≡ xs
  Does (push v) xs ys = ys ≡ xs ++ v ∷ []
  Does (pop v) xs ys = xs ≡ ys ++ v ∷ []
  Does (steal v) xs ys = xs ≡ v ∷ ys

module _ {A : Type 0} where
  -- The contents, oldest first.
  pub contents : Deque A → Owner A → List A
  contents d o = segment (read d) d.top (end d o - d.top)

  segment-back :
      (d : Deque A)
      → d.top ≤ d.bottom
      → segment (read d) d.top (d.bottom + 1 - d.top)
        ≡ segment (read d) d.top (d.bottom - d.top) ++ read d d.bottom ∷ []
  segment-back d h =
      let more : d.bottom + 1 - d.top ≡ suc (d.bottom - d.top) = omega arith in
      let last : d.top + (d.bottom - d.top) ≡ d.bottom = omega arith in
      segment-count (read d) d.top more
      ∙ segment-last (read d) d.top (d.bottom - d.top)
      ∙ ap (λ i. segment (read d) d.top (d.bottom - d.top) ++ read d i ∷ []) last

  segment-front :
      (f : ℕ → A) (i n : ℕ) → i < n → segment f i (n - i) ≡ f i ∷ segment f (i + 1) (n - (i + 1))
  unfolding segment
  segment-front f i n h = segment-count f i {n = suc (n - (i + 1))} (omega arith)

  end-with_top : (d : Deque A) (t : ℕ) (o : Owner A) → end (with_top d t) o ≡ end d o
  end-with_top d t Owner.idle = refl
  end-with_top d t o = refl

  OwnerMove-Does :
      {d e : Deque A} {o p : Owner A} {l : Label A}
      → OwnerMove d o l e p
      → DequeOk d o
      → Does l (contents d o) (contents e p)
  unfolding contents segment
  OwnerMove-Does (push_full h) v = refl
  OwnerMove-Does (push_load value h) v = refl
  OwnerMove-Does {d} (push_write {value}) v =
      segment-congr _ (read d) d.top (d.bottom - d.top)
        (λ j lo hi. ground (arith, mod_ne d.capacity (j - 1) (d.bottom - 1)))
  OwnerMove-Does {d} push_store v =
      segment-back d v.ordered
      ∙ ap (λ x. segment (read d) d.top (d.bottom - d.top) ++ x ∷ []) v.owner_ok.0
  OwnerMove-Does {d} pop_store v = segment-count (read d) d.top (omega arith)
  OwnerMove-Does pop_load v = refl
  OwnerMove-Does (pop_empty h) v = refl
  OwnerMove-Does {d} (pop_sure h) v = segment-back d (omega arith)
  OwnerMove-Does (pop_last h) v = refl
  OwnerMove-Does {d} (pop_won {t} {out} h) v =
      segment-front (read d) d.top (d.bottom + 1) (omega arith)
      ∙ ap₂ ◌∷◌ (ground arith) (segment-count (read d) (d.top + 1) {n = 0} (omega arith))
      ∙ ap (λ xs. xs ++ out ∷ []) (sym (segment-count (read d) (t + 1) {n = 0} (omega arith)))
  OwnerMove-Does (pop_lost h) v = refl
  OwnerMove-Does pop_restore v = refl

  ThiefMove-Does :
      {d e : Deque A} {th th' : Thief A} {l : Label A}
      → ThiefMove d th l e th'
      → (o : Owner A) → ThiefOk d o th
      → Does l (contents d o) (contents e o)
  unfolding contents
  ThiefMove-Does {d} (steal_won {t} h) o ok =
      segment-front (read d) d.top (end d o) (omega (arith, reach-le-end d o))
      ∙ ap₂ ◌∷◌ (ground arith) (rw (end-with_top d (t + 1) o, h) refl)
  ThiefMove-Does steal_load o ok = refl
  ThiefMove-Does steal_copy o ok = refl
  ThiefMove-Does (steal_empty h) o ok = refl
  ThiefMove-Does (steal_claim h) o ok = refl
  ThiefMove-Does (steal_abort h) o ok = refl

  -- In every state that keeps the invariant a step acts on the contents as one operation, or not
  -- at all: `push` adds its value at the back, `pop` takes the newest, `steal` takes the oldest.
  pub Step-Does :
      {s t : System A} {l : Label A}
      → Step s l t
      → Inv s
      → Does l (contents s.deque s.owner) (contents t.deque t.owner)
  Step-Does (owner_step mv) inv = OwnerMove-Does mv inv.deque_ok
  Step-Does {s} (thief_step i mv) inv = ThiefMove-Does mv s.owner (inv.thief_ok i)

  abbrev log_pushed : Label A → List A → List A
  log_pushed (push v) vs = v ∷ vs
  log_pushed _ vs = vs

  abbrev log_taken : Label A → List A → List A
  log_taken (pop v) vs = v ∷ vs
  log_taken (steal v) vs = v ∷ vs
  log_taken _ vs = vs

  -- A history, with the values that were pushed and those that a `pop` or a `steal` returned.
  pub data Run (s : System A) : List A → List A → System A → Type 0 where
    here : Run s [] [] s
    next :
        {t u : System A} {pushed taken : List A} (l : Label A)
        → Run s pushed taken t
        → Step t l u
        → Run s (log_pushed l pushed) (log_taken l taken) u

  pub Run-Inv : {s t : System A} {pushed taken : List A} → Run s pushed taken t → Inv s → Inv t
  Run-Inv here inv = inv
  Run-Inv (next l r st) inv = Step-Inv st (Run-Inv r inv)

  Does-perm :
      (l : Label A) (xs ys pushed taken : List A)
      → Does l xs ys
      → Perm pushed (taken ++ xs)
      → Perm (log_pushed l pushed) (log_taken l taken ++ ys)
  Does-perm silent xs ys pushed taken e p = rw e p
  Does-perm (push v) xs ys pushed taken e p =
      rw (e, ← append_assoc taken xs (v ∷ []))
        (Perm.trans (Perm.cons v p) (Perm.symm (perm_append_singleton v (taken ++ xs))))
  Does-perm (pop v) xs ys pushed taken e p =
      Perm.trans (rw (e, ← append_assoc taken ys (v ∷ [])) at p)
        (perm_append_singleton v (taken ++ ys))
  Does-perm (steal v) xs ys pushed taken e p = Perm.trans (rw e at p) (perm_middle taken ys)

  -- Whatever the interleaving, the values pushed so far are those taken and those still in the
  -- deque, each as often: none is lost and none is handed out twice.
  pub Run-conserves :
      (capacity : ℕ) (value : A) {t : System A} {pushed taken : List A}
      → 0 < capacity
      → Run (start capacity value) pushed taken t
      → Perm pushed (taken ++ contents t.deque t.owner)
  unfolding contents segment
  Run-conserves capacity value h here = Perm.nil
  Run-conserves capacity value h (next {t} {u} {pushed} {taken} l r st) =
      Does-perm l (contents t.deque t.owner) (contents u.deque u.owner) pushed taken
        (Step-Does st (Run-Inv r (start-Inv capacity value h))) (Run-conserves capacity value h r)
