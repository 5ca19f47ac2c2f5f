-- ===== src/Benchmarks/Runner/Names.antt =====
-- LegOrder of thunderbolt/benchmarks/harness/BenchmarkRunner.cpp, and its names.
use Prim.Native.String.{String}
use text.Mathlib.Text.{◌==◌}
use text.Mathlib.TextEquality.{eq_iff}
use thunder_bolt_ht.Base.{
  ◌≡◌, ◌↔◌, refl, sym, ap, ◌∙◌, Bool-cases, inl, inr, if◌then◌else◌, Option, none, some, none-some,
  some_inj, List, [], ◌∷◌,
}

pub data LegOrder : Type 0 where
  fixed : LegOrder
  reversed : LegOrder
  shuffled : LegOrder

unfoldable pub to_string : LegOrder → String
to_string fixed = "fixed"
to_string reversed = "reverse"
to_string shuffled = "shuffle"

unfoldable pub first_named : String → List LegOrder → Option LegOrder
first_named text [] = none
first_named text (candidate ∷ candidates) =
    if text == to_string candidate then some candidate else first_named text candidates

abbrev all_orders : List LegOrder
all_orders = fixed ∷ reversed ∷ shuffled ∷ []

unfoldable pub parse_leg_order : String → Option LegOrder
parse_leg_order text = first_named text all_orders

named_back :
    (text : String) (order : LegOrder) (candidates : List LegOrder)
    → first_named text candidates ≡ some order
    → text ≡ to_string order
unfolding first_named
named_back text order [] e = absurd (none-some e)
named_back text order (c ∷ cs) e = elim (Bool-cases (text == to_string c)) [
  | inl hit ↦
      let same : c ≡ order = some_inj (sym (rw hit refl) ∙ e) in
      (eq_iff text (to_string c)).0 hit ∙ ap to_string same
  | inr miss ↦ named_back text order cs (sym (rw miss refl) ∙ e)
]

-- parse_leg_order gives an order if and only if the text is the name that to_string gives it.
pub parse_leg_order-to_string :
    (text : String) (order : LegOrder)
    → (parse_leg_order text ≡ some order) ↔ (text ≡ to_string order)
unfolding parse_leg_order first_named to_string
parse_leg_order-to_string text fixed = (named_back text fixed all_orders, λ e. rw e refl)
parse_leg_order-to_string text reversed = (named_back text reversed all_orders, λ e. rw e refl)
parse_leg_order-to_string text shuffled = (named_back text shuffled all_orders, λ e. rw e refl)
