-- ===== src/Runtime/Dependencies/Registered.antt =====
-- How often a dependent is registered, and how often threads have it left to tell.
use thunder_bolt_ht.Base.{
  nil_of_length, ==_self, ℕ, ◌+◌, ◌<◌, ◌≡◌, ◌≢◌, refl, sym, ap, ◌∙◌, true, false, if◌then◌else◌,
  List, [], ◌∷◌, ◌++◌, length, update, update_self, update_ne, arith, sum_over, sum_over-change,
}
use thunder_bolt_ht.Api.Types.{TaskHandle, handle_eq}
use thunder_bolt_ht.Core.Task.{
  Task, SuccessorList, add_handle, handed_over, closed_list, opened_list, inline_count,
  inline_prefix,
}
use thunder_bolt_ht.Core.Task.Successors.{IsFilled, handed_over-add_handle}
use thunder_bolt_ht.Core.Pool.{TaskPool}
use thunder_bolt_ht.Core.Pool.Handles.{with_slot}
use thunder_bolt_ht.Runtime.Dependencies.{Submitter}

-- How often `me` stands in a list.
unfoldable pub told : TaskHandle → List TaskHandle → ℕ
told me [] = 0
told me (h ∷ hs) = (if handle_eq h me then 1 else 0) + told me hs

pub told-nil : (me : TaskHandle) → told me [] ≡ 0
unfolding told
told-nil me = refl

pub told-cons :
    (me h : TaskHandle) (hs : List TaskHandle)
    → told me (h ∷ hs) ≡ (if handle_eq h me then 1 else 0) + told me hs
unfolding told
told-cons me h hs = refl

pub handle_eq_self : (h : TaskHandle) → handle_eq h h ≡ true
handle_eq_self h = ground (arith, ==_self h.index, ==_self h.generation)

pub told-append :
    (me : TaskHandle) (xs ys : List TaskHandle) → told me (xs ++ ys) ≡ told me xs + told me ys
unfolding told
told-append me [] ys = omega arith
told-append me (x ∷ xs) ys = omega (arith, told-append me xs ys)

-- How often `me` is registered in a successor list.
abbrev pub registered : TaskHandle → SuccessorList → ℕ
registered me l = told me (handed_over l)

abbrev pub IsEmpty : SuccessorList → Type 0
IsEmpty l = (l.count ≡ 0) × (length l.spilled ≡ 0)

pub registered-closed : (me : TaskHandle) (l : SuccessorList) → registered me (closed_list l) ≡ 0
unfolding told handed_over closed_list inline_count inline_prefix
registered-closed me l = refl

pub registered-opened : (me : TaskHandle) (l : SuccessorList) → registered me (opened_list l) ≡ 0
unfolding told handed_over opened_list inline_count inline_prefix
registered-opened me l = refl

-- Neither registers anything.
pub registered-empty : (me : TaskHandle) (l : SuccessorList) → IsEmpty l → registered me l ≡ 0
unfolding told handed_over inline_count inline_prefix
registered-empty me l (none_counted, none_spilled) =
    rw (none_counted, nil_of_length l.spilled none_spilled) refl

pub true≢false : true ≢ false
true≢false e = cc

pub registered-add_handle :
    (me h : TaskHandle) (l : SuccessorList)
    → IsFilled l
    → registered me (add_handle l h) ≡ registered me l + (if handle_eq h me then 1 else 0)
unfolding told
registered-add_handle me h l f =
    ap (told me) (handed_over-add_handle l h f)
    ∙ ground (arith, told-append me (handed_over l) (h ∷ []))

-- Notifications that the first `n` threads have yet to make.
unfoldable pub in_notes : ℕ → TaskHandle → (ℕ → List TaskHandle) → ℕ
in_notes n me notes = sum_over n (λ t. told me (notes t))

-- Of the submitter: the guard, and a registration that is still to be made, or to be counted off.
abbrev pub unsettled : Submitter → ℕ
unsettled Submitter.visiting = 1
unsettled Submitter.missing = 2
unsettled Submitter.finished = 0
unsettled (Submitter.found _) = 2

pub in_notes-update :
    (n : ℕ) (me : TaskHandle) (notes : ℕ → List TaskHandle) (thread : ℕ) (hs : List TaskHandle)
    → thread < n
    → in_notes n me (update notes thread hs) + told me (notes thread)
      ≡ in_notes n me notes + told me hs
unfolding in_notes
in_notes-update n me notes thread hs lt = omega (
  arith,
  sum_over-change n (λ t. told me (update notes thread hs t)) (λ t. told me (notes t)) thread lt
      (λ j ne. ap (told me) (update_ne notes thread j hs (λ e. ne (sym e)))),
  ap (told me) (update_self notes thread hs),
)

module _ {ℓ} {F : Type ℓ} where
  -- Registrations in the slots of the pool.
  unfoldable pub in_slots : TaskHandle → TaskPool F → ℕ
  in_slots me pool = sum_over pool.capacity (λ i. registered me (pool.slots i).successors)

  pub in_slots-with_slot :
      (me : TaskHandle) (pool : TaskPool F) (i : ℕ) (t : Task F)
      → i < pool.capacity
      → in_slots me (with_slot pool i t) + registered me (pool.slots i).successors
        ≡ in_slots me pool + registered me t.successors
  unfolding in_slots
  in_slots-with_slot me pool i t lt = omega (
    arith,
    sum_over-change pool.capacity (λ j. registered me (update pool.slots i t j).successors)
        (λ j. registered me (pool.slots j).successors) i lt
        (λ j ne.
          ap (λ s. registered me s.successors) (update_ne pool.slots i j t (λ e. ne (sym e)))),
    ap (λ s. registered me s.successors) (update_self pool.slots i t),
  )
