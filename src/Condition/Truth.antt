-- ===== src/Condition/Truth.antt =====
-- `ConditionEngine.evaluate` returns the value of the condition as a formula.
use tmis.Prelude.{
  ℕ, zero, suc, ◌+◌, ◌≤◌, String, ◌≡◌, refl, inl, inr, Bool, true, false, ◌&&◌, Option, none, some,
  arith, ltb, Bool-cases, Option-cases, nat_eq, string_eq, key_eq,
}
use tmis.Prelude.Dict.{get}
use tmis.Prelude.Python.{Result, ok, Builtins}
use tmis.Condition.{
  Comparator, ConditionKind, Condition, condition, Children, nil, cons, absent, present, Context,
  Library, all_children, any_children, evaluate_compare, parse_date, evaluate_date, evaluate_body,
  evaluate_under, evaluate,
}
use tmis.Condition.Recursion.{need, need_children, IsBudget, need-pos}
use tmis.Condition.Formula.{
  is_some, compared, in_time, has_dates, is_proper, are_proper, truth, every_truth, some_truth,
  IsModel,
}

both_true : (a b : Bool) → (a && b) ≡ true → (a ≡ true) × (b ≡ true)
both_true true b h = (refl, h)
both_true false b h = absurd (cc)

module _ (py : Builtins) (library : Library) (context : Context) (valuation : String → Bool) where
  open py use {generator_frames}

  module _ (budget : String → ℕ) where
    -- A function that returns the value of what is proper where `frames` are taken beside the need.
    abbrev IsRight : ℕ → ℕ → (Condition → Result Bool) → Type 0
    IsRight frames room ev =
        (c : Condition)
        → is_proper py library context c ≡ true
        → need generator_frames budget c + frames ≤ room
        → ev c ≡ ok (truth py library context valuation c)

    all_children-every_truth :
        (room : ℕ) (ev : Condition → Result Bool)
        → IsRight generator_frames room ev
        → (cs : Children) → are_proper py library context cs ≡ true
        → need_children generator_frames budget cs + generator_frames ≤ room
        → all_children ev cs ≡ ok (every_truth py library context valuation cs)
    unfolding all_children
    all_children-every_truth room ev right nil h less = refl
    all_children-every_truth room ev right (cons c cs) h less =
        let (head_proper, rest_proper) =
          both_true (is_proper py library context c) (are_proper py library context cs) h in
        let head_right = right c head_proper (omega (arith, less)) in
        let rest_right =
          all_children-every_truth room ev right cs rest_proper (omega (arith, less)) in
        elim (Bool-cases (truth py library context valuation c)) [
          | inl holds ↦ rw (head_right, all_children) (rw (holds, all_children) rest_right)
          | inr fails ↦ rw (head_right, all_children) (rw (fails, all_children) refl)
        ]

    any_children-some_truth :
        (room : ℕ) (ev : Condition → Result Bool)
        → IsRight generator_frames room ev
        → (cs : Children) → are_proper py library context cs ≡ true
        → need_children generator_frames budget cs + generator_frames ≤ room
        → any_children ev cs ≡ ok (some_truth py library context valuation cs)
    unfolding any_children
    any_children-some_truth room ev right nil h less = refl
    any_children-some_truth room ev right (cons c cs) h less =
        let (head_proper, rest_proper) =
          both_true (is_proper py library context c) (are_proper py library context cs) h in
        let head_right = right c head_proper (omega (arith, less)) in
        let rest_right =
          any_children-some_truth room ev right cs rest_proper (omega (arith, less)) in
        elim (Bool-cases (truth py library context valuation c)) [
          | inl holds ↦ rw (head_right, any_children) (rw (holds, any_children) refl)
          | inr fails ↦ rw (head_right, any_children) (rw (fails, any_children) rest_right)
        ]

    evaluate_compare-compared :
        (room : ℕ) (f : Option String) (p : Option Comparator) (v : Option String)
        → is_some f && is_some p ≡ true
        → 2 ≤ room
        → evaluate_compare py room f p v context ≡ ok (compared py library context f p v)
    unfolding evaluate_compare
    evaluate_compare-compared zero f p v h less = absurd (omega (arith, less))
    evaluate_compare-compared (suc zero) f p v h less = absurd (omega (arith, less))
    evaluate_compare-compared (suc (suc room)) none p v h less = absurd (cc)
    evaluate_compare-compared (suc (suc room)) (some f) none v h less = absurd (cc)
    evaluate_compare-compared (suc (suc room)) (some f) (some p) v h less = ground arith

    evaluate_date-in_time :
        (room : ℕ) (before : Bool) (f v : Option String)
        → has_dates py library context f v ≡ true
        → 1 ≤ room
        → evaluate_date py room before f v context ≡ ok (in_time py library context before f v)
    unfolding evaluate_date parse_date
    evaluate_date-in_time zero before f v h less = absurd (omega (arith, less))
    evaluate_date-in_time (suc room) before none v h less = absurd (cc)
    evaluate_date-in_time (suc room) before (some f) none h less = absurd (cc)
    evaluate_date-in_time (suc room) true (some f) (some v) h less = ground arith
    evaluate_date-in_time (suc room) false (some f) (some v) h less = ground arith

    evaluate_body-truth :
        (room : ℕ) (call inner : Condition → Result Bool)
        → IsModel py library context valuation
        → IsBudget generator_frames library budget
        → IsRight 0 room call
        → IsRight generator_frames room inner
        → (c : Condition) → is_proper py library context c ≡ true
        → need generator_frames budget c ≤ suc room
        → evaluate_body py library context room call inner c
          ≡ ok (truth py library context valuation c)
    unfolding evaluate_body
    evaluate_body-truth room call inner m b right gen (condition ConditionKind.and cs o f p v r) h
          less =
        let enough : ltb room generator_frames ≡ false = ground arith in
        rw (enough, evaluate_body)
          (all_children-every_truth room inner gen cs h (omega (arith, less)))
    evaluate_body-truth room call inner m b right gen (condition ConditionKind.or cs o f p v r) h
          less =
        let enough : ltb room generator_frames ≡ false = ground arith in
        rw (enough, evaluate_body)
          (any_children-some_truth room inner gen cs h (omega (arith, less)))
    evaluate_body-truth room call inner m b right gen
          (condition ConditionKind.not cs absent f p v r) h less =
        absurd (cc)
    evaluate_body-truth room call inner m b right gen
          (condition ConditionKind.not cs (present c) f p v r) h less =
        rw (right c h (omega (arith, less)), evaluate_body) refl
    evaluate_body-truth room call inner m b right gen (condition ConditionKind.compare cs o f p v r)
          h less =
        evaluate_compare-compared room f p v h (omega (arith, less))
    evaluate_body-truth room call inner m b right gen (condition ConditionKind.role_is cs o f p v r)
          h less =
        ground arith
    evaluate_body-truth room call inner m b right gen
          (condition ConditionKind.date_before cs o f p v r) h less =
        evaluate_date-in_time room true f v h (omega (arith, less))
    evaluate_body-truth room call inner m b right gen
          (condition ConditionKind.date_after cs o f p v r) h less =
        evaluate_date-in_time room false f v h (omega (arith, less))
    evaluate_body-truth room call inner m b right gen (condition ConditionKind.ref cs o f p v none)
          h less =
        absurd (cc)
    evaluate_body-truth room call inner m b right gen
          (condition ConditionKind.ref cs o f p v (some name)) h less =
        elim (Option-cases (get library name)) [
          | inl missing ↦ absurd (cc (rw missing at h))
          | inr (c, found) ↦
              let fits = b.covers name c found in
              let (proper, same) = m.models name c found in
              rw (found, evaluate_body) (rw (← same) (right c proper (omega (arith, less, fits))))
        ]

    evaluate_under-IsRight :
        (frames room : ℕ)
        → IsModel py library context valuation
        → IsBudget generator_frames library budget
        → IsRight frames room (evaluate_under py frames room library context)
    unfolding evaluate_under
    evaluate_under-IsRight frames zero m b c h less =
        absurd (omega (arith, less, need-pos py library context budget b c))
    evaluate_under-IsRight (suc frames) (suc room) m b c h less =
        evaluate_under-IsRight frames room m b c h (omega (arith, less))
    evaluate_under-IsRight zero (suc room) m b c h less =
        evaluate_body-truth room _ _ m b (evaluate_under-IsRight 0 room m b)
          (evaluate_under-IsRight generator_frames room m b) c h (omega (arith, less))

    -- With a model of the named expressions and a budget for them, and as many frames left on the
    -- stack as a proper condition needs, its evaluation returns its value as a formula: "and", "or"
    -- and "not" have their values from those of their parts, whatever is evaluated first or not at
    -- all; a comparison of a field that the context does not have is false; and a name has the
    -- value of its expression.
    pub evaluate-truth :
        (room : ℕ) (c : Condition)
        → IsModel py library context valuation
        → IsBudget generator_frames library budget
        → is_proper py library context c ≡ true
        → need generator_frames budget c ≤ room
        → evaluate py room library context c ≡ ok (truth py library context valuation c)
    unfolding evaluate
    evaluate-truth room c m b h less = evaluate_under-IsRight 0 room m b c h (omega (arith, less))
