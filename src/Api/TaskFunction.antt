-- ===== src/Api/TaskFunction.antt =====
-- thunderbolt/api/TaskFunction.hpp: who owns a callable, and when it is constructed and destroyed.
--
-- The functions of a program are numbered, and `held` is the callable in the storage of each: its
-- `invoke_` and `manage_` are set together. A callable counts as constructed when `init` or a move
-- builds it in a storage, and as destroyed when its destructor runs there; a moved-out callable is one
-- more. An `emplace` whose construction throws is a `reset`. The limits on the size and the alignment of a callable are checked by the compiler.
pub mod Ownership
use thunder_bolt_ht.Base.{
  ℕ, ◌+◌, ◌<◌, ◌≡◌, ◌≢◌, ◌==◌, Bool, true, false, if◌then◌else◌, Option, none, some, update,
}

pub record Functions {ℓ} (F : Type ℓ) : Type ℓ where
  pub held : ℕ → Option F
  pub constructed : ℕ
  pub destroyed : ℕ

module _ {ℓ} {F : Type ℓ} where
  abbrev pub no_functions : Functions F
  no_functions = record { held = λ i. none; constructed = 0; destroyed = 0 }

  abbrev pub is_valid : Option F → Bool
  is_valid none = false
  is_valid (some f) = true

  -- `reset`, and the destructor.
  unfoldable pub reset : Functions F → ℕ → Functions F
  reset s i = record s {
    held = update s.held i none;
    destroyed = s.destroyed + (if is_valid (s.held i) then 1 else 0);
  }

  unfoldable pub init : Functions F → ℕ → F → Functions F
  init s i f = record s { held = update s.held i (some f); constructed = s.constructed + 1 }

  unfoldable pub emplace : Functions F → ℕ → F → Functions F
  emplace s i f = init (reset s i) i f

  -- `move_from`: the callable is built here and the moved-out one destroyed there, if there is one.
  unfoldable pub move_from : Functions F → ℕ → ℕ → Functions F
  move_from s i other =
      let moved = if is_valid (s.held other) then 1 else 0 in
      record s {
        held = update (update s.held i (s.held other)) other none;
        constructed = s.constructed + moved;
        destroyed = s.destroyed + moved;
      }

  unfoldable pub move_assign : Functions F → ℕ → ℕ → Functions F
  move_assign s i other = if i == other then s else move_from (reset s i) i other

  -- What a program does with functions 0 to n - 1. A constructor runs where no function stands.
  pub data Use (n : ℕ) (s : Functions F) : Functions F → Type ℓ where
    constructs : (i : ℕ) (f : F) → i < n → s.held i ≡ none → Use n s (init s i f)
    move_constructs :
        (i other : ℕ)
        → i < n
        → other < n
        → i ≢ other
        → s.held i ≡ none
        → Use n s (move_from s i other)
    emplaces : (i : ℕ) (f : F) → i < n → Use n s (emplace s i f)
    assigns : (i other : ℕ) → i < n → other < n → Use n s (move_assign s i other)
    resets : (i : ℕ) → i < n → Use n s (reset s i)

  pub data Uses (n : ℕ) (s : Functions F) : Functions F → Type ℓ where
    no_use : Uses n s s
    then_use : {t u : Functions F} → Uses n s t → Use n t u → Uses n s u
