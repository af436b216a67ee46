-- ===== src/Condition/Recursion.antt =====
-- The recursion of `ConditionEngine.evaluate` through the library of named expressions.
use tmis.Prelude.{
  ℕ, zero, suc, ◌+◌, ◌-◌, ◌≤◌, max, String, ◌≡◌, refl, ◌≢◌, inl, inr, Bool, true, false, Option,
  none, some, arith, ltb, Option-cases, nat_eq, string_eq, key_eq,
}
use tmis.Prelude.Dict.{get, get-put_self}
use tmis.Prelude.Python.{recursion_error, Result, raise, Builtins}
use tmis.Condition.{
  Comparator, ConditionKind, Condition, condition, Children, nil, cons, absent, present, cond_ref,
  Context, Library, register_expression, all_children, any_children, evaluate_compare,
  evaluate_date, evaluate_body, evaluate_under, evaluate,
}

-- The frames that a condition needs on the stack, where a generator takes `generator` of them and
-- `budget` is what each named expression needs.
abbrev mutual
  pub need : ℕ → (String → ℕ) → Condition → ℕ
  need generator budget (condition ConditionKind.and cs _ _ _ _ _) =
      suc (generator + need_children generator budget cs)
  need generator budget (condition ConditionKind.or cs _ _ _ _ _) =
      suc (generator + need_children generator budget cs)
  need generator budget (condition ConditionKind.not _ absent _ _ _ _) = 1
  need generator budget (condition ConditionKind.not _ (present c) _ _ _ _) =
      suc (need generator budget c)
  need generator budget (condition ConditionKind.compare _ _ _ _ _ _) = 3
  need generator budget (condition ConditionKind.role_is _ _ _ _ _ _) = 1
  need generator budget (condition ConditionKind.date_before _ _ _ _ _ _) = 2
  need generator budget (condition ConditionKind.date_after _ _ _ _ _ _) = 2
  need generator budget (condition ConditionKind.ref _ _ _ _ _ none) = 1
  need generator budget (condition ConditionKind.ref _ _ _ _ _ (some name)) = suc (budget name)

  pub need_children : ℕ → (String → ℕ) → Children → ℕ
  need_children generator budget nil = 0
  need_children generator budget (cons c cs) =
      max (need generator budget c) (need_children generator budget cs)

-- What each named expression needs, by the budget, is within its own budget.
pub record IsBudget (generator : ℕ) (library : Library) (budget : String → ℕ) : Type 0 where
  pub covers :
      (name : String) (c : Condition)
      → get library name ≡ some c
      → need generator budget c ≤ budget name

module _ (generator : ℕ) (ev : Condition → Result Bool) (budget : String → ℕ) (room : ℕ)
    (total : (c : Condition) → need generator budget c ≤ room → ev c ≢ raise recursion_error) where
  all_children_total :
      (cs : Children)
      → need_children generator budget cs ≤ room
      → all_children ev cs ≢ raise recursion_error
  unfolding all_children
  all_children_total nil h = λ e. cc
  all_children_total (cons c cs) h =
      let first_total = total c (omega arith) in
      let rest_total = all_children_total cs (omega arith) in ground arith

  any_children_total :
      (cs : Children)
      → need_children generator budget cs ≤ room
      → any_children ev cs ≢ raise recursion_error
  unfolding any_children
  any_children_total nil h = λ e. cc
  any_children_total (cons c cs) h =
      let first_total = total c (omega arith) in
      let rest_total = any_children_total cs (omega arith) in ground arith

module _ (py : Builtins) (library : Library) (context : Context) (budget : String → ℕ)
    (covered : IsBudget py.generator_frames library budget) where
  open py use {generator_frames}

  evaluate_compare_total :
      (room : ℕ) (f : Option String) (p : Option Comparator) (v : Option String)
      → 2 ≤ room
      → evaluate_compare py room f p v context ≢ raise recursion_error
  unfolding evaluate_compare
  evaluate_compare_total zero f p v h = absurd (omega (arith, h))
  evaluate_compare_total (suc zero) f p v h = absurd (omega (arith, h))
  evaluate_compare_total (suc (suc room)) none p v h = λ e. cc
  evaluate_compare_total (suc (suc room)) (some f) none v h = λ e. cc
  evaluate_compare_total (suc (suc room)) (some f) (some p) v h =
      elim (Option-cases (get context f)) [
        | inl missing ↦ rw (missing, evaluate_compare) (λ e. cc)
        | inr (a, found) ↦ rw (found, evaluate_compare) (λ e. cc)
      ]

  evaluate_date_total :
      (room : ℕ) (before : Bool) (f v : Option String)
      → 1 ≤ room
      → evaluate_date py room before f v context ≢ raise recursion_error
  unfolding evaluate_date
  evaluate_date_total zero before f v h = absurd (omega (arith, h))
  evaluate_date_total (suc room) before none v h = λ e. cc
  evaluate_date_total (suc room) before (some f) none h = λ e. cc
  evaluate_date_total (suc room) before (some f) (some v) h = ground arith

  -- A function that does not end in `RecursionError` where `frames` are taken beside the need.
  abbrev IsTotal : ℕ → ℕ → (Condition → Result Bool) → Type 0
  IsTotal frames room ev =
      (c : Condition)
      → need generator_frames budget c + frames ≤ room
      → ev c ≢ raise recursion_error

  children_room :
      (room : ℕ) (ev : Condition → Result Bool)
      → IsTotal generator_frames room ev
      → (c : Condition) → need generator_frames budget c ≤ room - generator_frames
      → ltb room generator_frames ≡ false
      → ev c ≢ raise recursion_error
  children_room room ev total c h enough = total c (ground arith)

  evaluate_body_total :
      (room : ℕ) (call inner : Condition → Result Bool)
      → IsTotal 0 room call
      → IsTotal generator_frames room inner
      → (c : Condition) → need generator_frames budget c ≤ suc room
      → evaluate_body py library context room call inner c ≢ raise recursion_error
  unfolding evaluate_body
  evaluate_body_total room call inner total gen (condition ConditionKind.and cs o f p v r) h =
      let enough : ltb room generator_frames ≡ false = ground arith in
      rw (enough, evaluate_body)
        (all_children_total generator_frames inner budget (room - generator_frames)
          (λ c less. children_room room inner gen c less enough) cs (omega (arith, h)))
  evaluate_body_total room call inner total gen (condition ConditionKind.or cs o f p v r) h =
      let enough : ltb room generator_frames ≡ false = ground arith in
      rw (enough, evaluate_body)
        (any_children_total generator_frames inner budget (room - generator_frames)
          (λ c less. children_room room inner gen c less enough) cs (omega (arith, h)))
  evaluate_body_total room call inner total gen (condition ConditionKind.not cs absent f p v r) h =
      λ e. cc
  evaluate_body_total room call inner total gen (condition ConditionKind.not cs (present c) f p v r)
        h =
      let operand_total = total c (omega (arith, h)) in ground arith
  evaluate_body_total room call inner total gen (condition ConditionKind.compare cs o f p v r) h =
      evaluate_compare_total room f p v (omega (arith, h))
  evaluate_body_total room call inner total gen (condition ConditionKind.role_is cs o f p v r) h =
      ground arith
  evaluate_body_total room call inner total gen (condition ConditionKind.date_before cs o f p v r)
        h =
      evaluate_date_total room true f v (omega (arith, h))
  evaluate_body_total room call inner total gen (condition ConditionKind.date_after cs o f p v r)
        h =
      evaluate_date_total room false f v (omega (arith, h))
  evaluate_body_total room call inner total gen (condition ConditionKind.ref cs o f p v none) h =
      λ e. cc
  evaluate_body_total room call inner total gen (condition ConditionKind.ref cs o f p v (some name))
        h =
      elim (Option-cases (get library name)) [
        | inl missing ↦ rw (missing, evaluate_body) (λ e. cc)
        | inr (c, found) ↦
            let fits = covered.covers name c found in
            rw (found, evaluate_body) (total c (omega (arith, h, fits)))
      ]

  pub need-pos : (c : Condition) → 1 ≤ need generator_frames budget c
  need-pos (condition ConditionKind.and _ _ _ _ _ _) = omega arith
  need-pos (condition ConditionKind.or _ _ _ _ _ _) = omega arith
  need-pos (condition ConditionKind.not _ absent _ _ _ _) = omega arith
  need-pos (condition ConditionKind.not _ (present c) _ _ _ _) = omega arith
  need-pos (condition ConditionKind.compare _ _ _ _ _ _) = omega arith
  need-pos (condition ConditionKind.role_is _ _ _ _ _ _) = omega arith
  need-pos (condition ConditionKind.date_before _ _ _ _ _ _) = omega arith
  need-pos (condition ConditionKind.date_after _ _ _ _ _ _) = omega arith
  need-pos (condition ConditionKind.ref _ _ _ _ _ none) = omega arith
  need-pos (condition ConditionKind.ref _ _ _ _ _ (some name)) = omega arith

  evaluate_under-IsTotal :
      (frames room : ℕ) → IsTotal frames room (evaluate_under py frames room library context)
  unfolding evaluate_under
  evaluate_under-IsTotal frames zero c h = absurd (omega (arith, h, need-pos c))
  evaluate_under-IsTotal (suc frames) (suc room) c h =
      evaluate_under-IsTotal frames room c (omega (arith, h))
  evaluate_under-IsTotal zero (suc room) c h =
      evaluate_body_total room _ _ (evaluate_under-IsTotal 0 room)
        (evaluate_under-IsTotal generator_frames room) c (omega (arith, h))

  -- With a budget for the named expressions, and as many frames left on the stack as the condition
  -- needs, no evaluation ends in `RecursionError`. A call of `evaluate` and of each of its helpers
  -- needs a frame, and a generator that `all` or `any` runs as many as the interpreter counts; a call of
  -- a built-in function such as `dict.get` has its own room.
  pub evaluate_total :
      (room : ℕ) (c : Condition)
      → need generator_frames budget c ≤ room
      → evaluate py room library context c ≢ raise recursion_error
  unfolding evaluate
  evaluate_total room c h = evaluate_under-IsTotal 0 room c (omega (arith, h))

-- A name that is registered as a reference to itself raises `RecursionError`, whatever the limit.
pub evaluate-register_expression_self :
    (py : Builtins) (room : ℕ) (library : Library) (context : Context) (name : String)
    → evaluate py room (register_expression library name (cond_ref name)) context (cond_ref name)
      ≡ raise recursion_error
unfolding evaluate register_expression
evaluate-register_expression_self py zero library context name = refl
evaluate-register_expression_self py (suc room) library context name =
    rw (get-put_self library name (cond_ref name), evaluate_body)
      (evaluate-register_expression_self py room library context name)
