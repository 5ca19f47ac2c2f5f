-- ===== src/Core/Task/Successors.antt =====
-- What the successor list of a task hands over when the task completes.
use thunder_bolt_ht.Base.{
  ℕ, zero, suc, ◌+◌, ◌≡◌, ◌≤◌, refl, sym, false, ltb, List, [], ◌∷◌, ◌++◌, append-nil, append_assoc,
  nil_of_length, length, length-append, min, arith, update, update_ne, update_self, Bool-cases, inl,
  inr,
}
use thunder_bolt_ht.Api.Types.{TaskHandle}
use thunder_bolt_ht.Core.Task.{
  Task, SuccessorList, inline_successors, inline_prefix, add_handle, handed_over, inline_count,
  closed_list, opened_list, try_add_successor, take_successors, reset_successors, open_successors,
}

-- The vector is used only beyond the inline array, and the count covers both.
abbrev pub IsFilled : SuccessorList → Type 0
IsFilled l = l.count ≡ min l.count inline_successors + length l.spilled

inline_prefix-update :
    (slots : ℕ → TaskHandle) (h : TaskHandle) (i n : ℕ)
    → n ≤ i
    → inline_prefix (update slots i h) n ≡ inline_prefix slots n
unfolding inline_prefix
inline_prefix-update slots h i zero le = refl
inline_prefix-update slots h i (suc n) le =
    rw (inline_prefix-update slots h i n (omega arith), update_ne slots i n h (omega arith)) refl

inline_prefix-add :
    (slots : ℕ → TaskHandle) (h : TaskHandle) (n : ℕ)
    → inline_prefix (update slots n h) (n + 1) ≡ inline_prefix slots n ++ h ∷ []
unfolding inline_prefix
inline_prefix-add slots h n =
    let e : n + 1 ≡ suc n = omega arith in
    rw e (rw (inline_prefix-update slots h n n (omega arith)) (rw (update_self slots n h)))

pub add_handle-IsFilled :
    (l : SuccessorList) (h : TaskHandle) → IsFilled l → IsFilled (add_handle l h)
unfolding add_handle
add_handle-IsFilled l h f = ground (arith, length-append l.spilled (h ∷ []))

add_handle-closed : (l : SuccessorList) (h : TaskHandle) → (add_handle l h).closed ≡ l.closed
unfolding add_handle
add_handle-closed l h = ground arith

inline_count-min : (n : ℕ) → inline_count n ≡ min n inline_successors
unfolding inline_count
inline_count-min n = ground arith

-- A registration goes to the end of what will be handed over.
pub handed_over-add_handle :
    (l : SuccessorList) (h : TaskHandle)
    → IsFilled l
    → handed_over (add_handle l h) ≡ handed_over l ++ h ∷ []
unfolding handed_over add_handle
handed_over-add_handle l h f = elim (Bool-cases (ltb l.count inline_successors)) [
  | inl room ↦
      let empty : l.spilled ≡ [] = nil_of_length l.spilled (ground arith) in
      let kept : inline_count l.count ≡ l.count = ground (arith, inline_count-min l.count) in
      let grown : inline_count (l.count + 1) ≡ l.count + 1 =
        ground (arith, inline_count-min (l.count + 1)) in
      rw (room, empty, kept, grown, inline_prefix-add l.inline_slots h l.count) (simp append-nil)
  | inr spills ↦
      let kept : inline_count (l.count + 1) ≡ inline_count l.count =
        ground (arith, inline_count-min l.count, inline_count-min (l.count + 1)) in
      rw (spills, kept)
        (sym
          (append_assoc (inline_prefix l.inline_slots (inline_count l.count)) l.spilled (h ∷ [])))
]

module _ {ℓ} {F : Type ℓ} where
  -- Registrations of the successors `hs` with generation `g`, one after the other.
  pub register : Task F → ℕ → List TaskHandle → Task F
  register t g [] = t
  register t g (h ∷ hs) = register (try_add_successor t h g).0 g hs

  abbrev IsOpen : Task F → ℕ → List TaskHandle → Type 0
  IsOpen t g done =
      (t.successors.closed ≡ false)
      × (t.generation ≡ g)
      × IsFilled t.successors
      × (handed_over t.successors ≡ done)

  try_add_successor-IsOpen :
      (t : Task F) (g : ℕ) (h : TaskHandle) {done : List TaskHandle}
      → IsOpen t g done
      → IsOpen (try_add_successor t h g).0 g (done ++ h ∷ [])
  unfolding try_add_successor
  try_add_successor-IsOpen t g h o = ground (
    arith,
    add_handle-closed t.successors h,
    add_handle-IsFilled t.successors h,
    handed_over-add_handle t.successors h,
  )

  register-IsOpen :
      (t : Task F) (g : ℕ) (hs : List TaskHandle) {done : List TaskHandle}
      → IsOpen t g done
      → IsOpen (register t g hs) g (done ++ hs)
  unfolding register
  register-IsOpen t g [] {done} o = rw (append-nil done) o
  register-IsOpen t g (h ∷ hs) {done} o =
      rw (← append_assoc done (h ∷ []) hs)
        (register-IsOpen (try_add_successor t h g).0 g hs (try_add_successor-IsOpen t g h o))

  -- A list opened at acquisition hands over what was registered since, in order, however much of
  -- it spilled.
  pub take_successors-register :
      (t : Task F) (hs : List TaskHandle)
      → (take_successors (register (open_successors t) t.generation hs)).1 ≡ hs
  unfolding take_successors open_successors opened_list handed_over inline_prefix inline_count
  take_successors-register t hs =
      (register-IsOpen (open_successors t) t.generation hs (refl, refl, refl, refl)).3

  -- From the hand-over, or from a release, until the slot is opened again no registration is
  -- accepted, whatever generation it names, and a refused one changes nothing.
  pub try_add_successor_refused :
      (t : Task F) (h : TaskHandle) (g : ℕ)
      → (try_add_successor (take_successors t).0 h g ≡ ((take_successors t).0, false))
        × (try_add_successor (reset_successors t) h g ≡ (reset_successors t, false))
  unfolding try_add_successor take_successors reset_successors closed_list
  try_add_successor_refused t h g = (refl, refl)
