-- ===== src/Condition/Samples.antt =====
-- Runs of the condition engine, and its theorems at concrete inputs.
use tmis.Prelude.{
  ℕ, String, ◌≡◌, refl, subst, ◌≢◌, inl, inr, Bool, true, some, [], ◌∷◌, arith, Bool-cases, ◌==◌,
  nat_eq, string_eq, key_eq, some_injective,
}
use tmis.Prelude.Dict.{get}
use tmis.Prelude.Python.{value_error, recursion_error, ok, raise}
use tmis.Prelude.Sample.{digits, plain}
use tmis.Condition.Formula.{is_proper, truth, IsModel}
use tmis.Condition.{
  Comparator, Condition, nil, cons, cond_and, cond_or, cond_not, cond_compare, cond_role_is,
  cond_date_before, cond_ref, Context, Library, register_expression, compare_values, evaluate,
}
use tmis.Condition.Truth.{evaluate-truth}
use tmis.Condition.Recursion.{IsBudget, evaluate_total, evaluate-register_expression_self}
use tmis.Condition.Logic.{evaluate_de_morgan}

abbrev context : Context
context = ("amount", "150") ∷ ("role", "partner") ∷ ("opened", "20") ∷ []

abbrev large : Condition
large = cond_compare "amount" Comparator.gt "99"

abbrev library : Library
library = ("large", large) ∷ []

abbrev both : Condition
both = cond_and (cons (cond_ref "large") (cons (cond_role_is "partner") nil))

runs : Unit {0}
unfolding evaluate digits
runs = tt

-- As texts, "150" would be below "99".
evaluate-both : evaluate plain 10 library context both ≡ ok true
unfolding runs get
evaluate-both = refl

evaluate-date :
    evaluate plain 10 library context (cond_date_before "opened" "soon")
    ≡ raise (value_error "soon")
unfolding runs get
evaluate-date = refl

-- The second child would raise, and is not evaluated.
evaluate-short_circuit :
    evaluate plain 10 library context (cond_or (cons large (cons (cond_ref "absent") nil)))
    ≡ ok true
unfolding runs get
evaluate-short_circuit = refl

evaluate_de_morgan_example :
    (evaluate plain 3 library context (cond_not (cond_and (cons large nil)))
      ≡ evaluate plain 3 library context (cond_or (cons (cond_not large) nil)))
    × (evaluate plain 3 library context (cond_not (cond_or (cons large nil)))
        ≡ evaluate plain 3 library context (cond_and (cons (cond_not large) nil)))
evaluate_de_morgan_example = evaluate_de_morgan plain library context 0 (cons large nil)

abbrev three_each : String → ℕ
three_each name = 3

IsBudget-three_each : IsBudget 1 library three_each
unfolding get
IsBudget-three_each = record { covers = λ name c found. ground arith }

-- Every name that is registered is true.
abbrev all_true : String → Bool
all_true name = true

IsModel-all_true : IsModel plain library context all_true
unfolding get digits compare_values
IsModel-all_true = record { models = λ name c found. large_only name c found }
  where
    large_only :
        (name : String) (c : Condition)
        → get library name ≡ some c
        → (is_proper plain library context c ≡ true)
          × (truth plain library context all_true c ≡ true)
    large_only name c found = elim (Bool-cases ("large" == name)) [
      | inl same ↦
          let eq = some_injective (rw same at found) in
          subst
            (λ c.
              (is_proper plain library context c ≡ true)
              × (truth plain library context all_true c ≡ true))
            eq (refl, refl)
      | inr other ↦ absurd (cc (rw other at found))
    ]

-- The conjunction holds, and a comparison of a missing field does not.
abbrev either : Condition
either =
    cond_or (cons (cond_compare "fee" Comparator.gt "1") (cons (cond_not both) (cons both nil)))

either-proper : is_proper plain library context either ≡ true
unfolding get
either-proper = refl

evaluate-truth_example :
    evaluate plain 12 library context either ≡ ok (truth plain library context all_true either)
evaluate-truth_example =
    evaluate-truth plain library context all_true three_each 12 either IsModel-all_true
      IsBudget-three_each either-proper (omega arith)

evaluate_total_example : evaluate plain 10 library context both ≢ raise recursion_error
evaluate_total_example =
    evaluate_total plain library context three_each IsBudget-three_each 10 both (omega arith)

evaluate-register_expression_self_example :
    evaluate plain 1000
      (register_expression library "loop" (cond_ref "loop"))
      context
      (cond_ref "loop")
    ≡ raise recursion_error
evaluate-register_expression_self_example =
    evaluate-register_expression_self plain 1000 library context "loop"
