-- ===== src/Runtime/Parking/Census.antt =====
-- How many workers and submitters stand where.
use thunder_bolt_ht.Base.{
  ℕ, zero, suc, ◌+◌, ◌*◌, ◌≤◌, ◌<◌, ◌≡◌, ◌≢◌, refl, sym, ap, le-sum_over, leb, if◌then◌else◌, arith,
  update, update_self, update_ne, sum_over, sum_over-change,
}
use thunder_bolt_ht.Runtime.Parking.{Phase, Notifier, rouse}

abbrev pub is_awake : Phase → ℕ
is_awake Phase.awake = 1
is_awake _ = 0

abbrev pub is_asleep : Phase → ℕ
is_asleep Phase.asleep = 1
is_asleep _ = 0

abbrev pub is_notified : Phase → ℕ
is_notified Phase.notified = 1
is_notified _ = 0

-- In `park_worker`, under the mutex.
abbrev pub is_holding : Phase → ℕ
is_holding Phase.registered = 1
is_holding (Phase.scanning k) = 1
is_holding _ = 0

abbrev pub is_scanning : Phase → ℕ
is_scanning (Phase.scanning k) = 1
is_scanning _ = 0

-- Still to read place `j`.
abbrev pub reaches : ℕ → Phase → ℕ
reaches j Phase.registered = 1
reaches j (Phase.scanning k) = if leb k j then 1 else 0
reaches j _ = 0

-- Behind an enqueue, but not yet through the mutex.
abbrev pub is_early : Notifier → ℕ
is_early Notifier.published = 1
is_early Notifier.waking = 1
is_early _ = 0

abbrev pub is_late : Notifier → ℕ
is_late Notifier.notifying = 1
is_late _ = 0

pub tally {ℓ} : {P : Type ℓ} → (P → ℕ) → ℕ → (ℕ → P) → ℕ
tally kind n phases = sum_over n (λ i. kind (phases i))

-- One phase changes from `p` to `r`.
pub tally-update {ℓ} :
    {P : Type ℓ} (kind : P → ℕ) (n : ℕ) (phases : ℕ → P) (i : ℕ) {p : P} (r : P)
    → i < n
    → phases i ≡ p
    → tally kind n (update phases i r) + kind p ≡ tally kind n phases + kind r
unfolding tally
tally-update kind n phases i r lt e = omega (
  arith,
  sum_over-change n (λ j. kind (update phases i r j)) (λ j. kind (phases j)) i lt
      (λ j ne. ap kind (update_ne phases i j r (λ e. ne (sym e)))),
  ap kind (update_self phases i r),
  ap kind e,
)

pub tally_le {ℓ} :
    {P : Type ℓ} (kind other : P → ℕ) (n : ℕ) (phases : ℕ → P)
    → ((p : P) → kind p ≤ other p)
    → tally kind n phases ≤ tally other n phases
unfolding tally sum_over
tally_le kind other zero phases le = omega arith
tally_le kind other (suc n) phases le =
    omega (arith, le (phases n), tally_le kind other n phases le)

pub tally_same {ℓ} :
    {P : Type ℓ} (kind : P → ℕ) (n c : ℕ) (phases : ℕ → P)
    → ((i : ℕ) → i < n → kind (phases i) ≡ c)
    → tally kind n phases ≡ n * c
unfolding tally sum_over
tally_same kind zero c phases same = omega arith
tally_same kind (suc n) c phases same =
    grind (arith, same n (omega arith), tally_same kind n c phases (λ i lt. same i (omega arith)))

-- Whoever is counted is there.
pub le-tally {ℓ} :
    {P : Type ℓ} (kind : P → ℕ) (n : ℕ) (phases : ℕ → P) (i : ℕ)
    → i < n
    → kind (phases i) ≤ tally kind n phases
unfolding tally
le-tally kind n phases i lt = le-sum_over n (λ j. kind (phases j)) i lt

pub reaches_le : (j : ℕ) (p : Phase) → reaches j p ≤ is_holding p
reaches_le j Phase.awake = omega arith
reaches_le j Phase.registered = omega arith
reaches_le j Phase.asleep = omega arith
reaches_le j Phase.notified = omega arith
reaches_le j Phase.exited = omega arith
reaches_le j (Phase.scanning k) = ground arith

pub is_scanning_le : (p : Phase) → is_scanning p ≤ is_holding p
is_scanning_le Phase.awake = omega arith
is_scanning_le Phase.registered = omega arith
is_scanning_le Phase.asleep = omega arith
is_scanning_le Phase.notified = omega arith
is_scanning_le Phase.exited = omega arith
is_scanning_le (Phase.scanning k) = omega arith

pub all_to_read : (j : ℕ) → reaches j (Phase.scanning 0) ≡ 1
all_to_read j = ground arith

pub is_asleep_not : (p : Phase) → p ≢ Phase.asleep → is_asleep p ≡ 0
is_asleep_not Phase.awake ne = refl
is_asleep_not Phase.registered ne = refl
is_asleep_not Phase.asleep ne = absurd (ne refl)
is_asleep_not Phase.notified ne = refl
is_asleep_not Phase.exited ne = refl
is_asleep_not (Phase.scanning k) ne = refl

pub not_passed :
    (j k : ℕ) → j ≢ k → reaches j (Phase.scanning (suc k)) ≡ reaches j (Phase.scanning k)
not_passed j k ne = ground arith

pub passed : (j k : ℕ) → j < k → reaches j (Phase.scanning k) ≡ 0
passed j k lt = ground arith

-- `notify_all` turns the workers that sleep into woken ones.
abbrev Roused : ℕ → (ℕ → Phase) → Type 0
Roused n phases =
    let after : ℕ → Phase = λ i. rouse (phases i) in
    (tally is_holding n after ≡ tally is_holding n phases)
    × (tally is_scanning n after ≡ tally is_scanning n phases)
    × (tally is_asleep n after ≡ 0)
    × (tally is_notified n after ≡ tally is_notified n phases + tally is_asleep n phases)

rouse_one :
    (p : Phase)
    → (is_holding (rouse p) ≡ is_holding p)
      × (is_scanning (rouse p) ≡ is_scanning p)
      × (is_asleep (rouse p) ≡ 0)
      × (is_notified (rouse p) ≡ is_notified p + is_asleep p)
unfolding rouse
rouse_one Phase.awake = (refl, refl, refl, refl)
rouse_one Phase.registered = (refl, refl, refl, refl)
rouse_one Phase.asleep = (refl, refl, refl, refl)
rouse_one Phase.notified = (refl, refl, refl, refl)
rouse_one Phase.exited = (refl, refl, refl, refl)
rouse_one (Phase.scanning k) = (refl, refl, refl, refl)

pub roused : (n : ℕ) (phases : ℕ → Phase) → Roused n phases
unfolding tally sum_over
roused zero phases = (refl, refl, refl, refl)
roused (suc n) phases =
    let ih = roused n phases in
    let p = rouse_one (phases n) in
    (omega (arith, ih, p), omega (arith, ih, p), omega (arith, ih, p), omega (arith, ih, p))
