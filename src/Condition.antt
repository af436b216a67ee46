-- ===== src/Condition.antt =====
-- Condition trees and their evaluation: backend/src/tmis/workflow_automation/condition_engine
-- (schemas.py and engine.py).
pub mod Recursion
pub mod Formula
pub mod Truth
pub mod Logic
mod Samples
use tmis.Prelude.{
  ℕ, zero, suc, String, Bool, true, false, Option, none, some, ltb, if◌then◌else◌, ◌==◌, nat_eq,
  string_eq, key_eq,
}
use tmis.Prelude.Dict.{Dict, get, put}
use tmis.Prelude.Python.{
  value_error, unknown_expression, assertion_error, recursion_error, Result, ok, raise, ◌>>=◌, ◌>>◌,
  text_lt, text_le, Builtins,
}
use mathlib.Core.Bool.{not as negate}

pub data Comparator : Type 0 where
  eq neq gt gte lt lte : Comparator

pub data ConditionKind : Type 0 where
  and or not compare role_is date_before date_after ref : ConditionKind

-- The fields of `Condition`, in their order: kind, children, operand, field, comparator, value
-- and ref_name. A kind leaves the fields that it does not use empty.
mutual
  pub data Condition : Type 0 where
    condition :
        ConditionKind
        → Children
        → Operand
        → Option String
        → Option Comparator
        → Option String
        → Option String
        → Condition

  pub data Children : Type 0 where
    nil : Children
    cons : Condition → Children → Children

  pub data Operand : Type 0 where
    absent : Operand
    present : Condition → Operand

abbrev pub cond_and : Children → Condition
cond_and children = condition ConditionKind.and children absent none none none none

abbrev pub cond_or : Children → Condition
cond_or children = condition ConditionKind.or children absent none none none none

abbrev pub cond_not : Condition → Condition
cond_not operand = condition ConditionKind.not nil (present operand) none none none none

abbrev pub cond_compare : String → Comparator → String → Condition
cond_compare field_name comparator value =
    condition ConditionKind.compare nil absent (some field_name) (some comparator) (some value) none

abbrev pub cond_role_is : String → Condition
cond_role_is role = condition ConditionKind.role_is nil absent none none (some role) none

abbrev pub cond_date_before : String → String → Condition
cond_date_before field_name value =
    condition ConditionKind.date_before nil absent (some field_name) none (some value) none

abbrev pub cond_date_after : String → String → Condition
cond_date_after field_name value =
    condition ConditionKind.date_after nil absent (some field_name) none (some value) none

abbrev pub cond_ref : String → Condition
cond_ref name = condition ConditionKind.ref nil absent none none none (some name)

abbrev pub Context : Type 0
Context = Dict String String

-- `ConditionEngine._library`
abbrev pub Library : Type 0
Library = Dict String Condition

unfoldable pub register_expression : Library → String → Condition → Library
register_expression library name c = put library name c

-- `all(...)` and `any(...)` over the children stop at the first value that decides them, so that
-- a later child that would raise is not evaluated.
module _ (evaluate : Condition → Result Bool) where
  unfoldable pub all_children : Children → Result Bool
  all_children nil = ok true
  all_children (cons c cs) = do b ← evaluate c; elim b [ true ↦ all_children cs | false ↦ ok false ]

  unfoldable pub any_children : Children → Result Bool
  any_children nil = ok false
  any_children (cons c cs) = do b ← evaluate c; elim b [ true ↦ ok true | false ↦ any_children cs ]

unfoldable pub compare_text : String → String → Comparator → Bool
compare_text actual expected Comparator.eq = actual == expected
compare_text actual expected Comparator.neq = negate (actual == expected)
compare_text actual expected Comparator.gt = text_lt expected actual
compare_text actual expected Comparator.gte = text_le expected actual
compare_text actual expected Comparator.lt = text_lt actual expected
compare_text actual expected Comparator.lte = text_le actual expected

module _ (py : Builtins) where
  open py use {Float, float, float_eq, float_lt, float_le, from_isoformat, generator_frames}

  unfoldable pub compare_numeric : Float → Float → Comparator → Bool
  compare_numeric actual expected Comparator.eq = float_eq actual expected
  compare_numeric actual expected Comparator.neq = negate (float_eq actual expected)
  compare_numeric actual expected Comparator.gt = float_lt expected actual
  compare_numeric actual expected Comparator.gte = float_le expected actual
  compare_numeric actual expected Comparator.lt = float_lt actual expected
  compare_numeric actual expected Comparator.lte = float_le actual expected

  -- The comparison is of numbers if `float` reads both texts, and of texts otherwise.
  unfoldable pub compare_values : String → String → Comparator → Bool
  unfolding compare_numeric compare_text
  compare_values actual expected comparator = elim (float actual) [
    | none ↦ compare_text actual expected comparator
    | some a ↦ elim (float expected) [
      | none ↦ compare_text actual expected comparator
      | some b ↦ compare_numeric a b comparator
    ]
  ]

  -- `_evaluate_compare` and the comparison that it calls take a frame each.
  unfoldable pub evaluate_compare :
      ℕ → Option String → Option Comparator → Option String → Context → Result Bool
  unfolding compare_values
  evaluate_compare zero field comparator value context = raise recursion_error
  evaluate_compare (suc room) (some field) (some comparator) value context =
      elim (get context field) [
        | none ↦ ok false
        | some actual ↦ elim room [
          | zero ↦ raise recursion_error
          | suc _ ↦ ok (compare_values actual (elim value [ none ↦ "" | some v ↦ v ]) comparator)
        ]
      ]
  evaluate_compare (suc room) _ _ value context = raise assertion_error

  -- `date.fromisoformat`, with its `ValueError`
  unfoldable pub parse_date : String → Result ℕ
  parse_date text = elim (from_isoformat text) [ none ↦ raise (value_error text) | some d ↦ ok d ]

  -- `_evaluate_date` takes a frame.
  unfoldable pub evaluate_date : ℕ → Bool → Option String → Option String → Context → Result Bool
  unfolding parse_date
  evaluate_date zero before field value context = raise recursion_error
  evaluate_date (suc room) before (some field) (some value) context = elim (get context field) [
    | none ↦ ok false
    | some actual ↦ do
      actual_date ← parse_date actual
      reference_date ← parse_date value
      ok (if before then ltb actual_date reference_date else ltb reference_date actual_date)
  ]
  evaluate_date (suc room) before _ _ context = raise assertion_error

  -- The body of `evaluate` with the room that is left beside its frame, and its recursive calls: a
  -- call at its own level, and a call that a generator makes.
  unfoldable pub evaluate_body :
      Library
      → Context
      → ℕ
      → (call from_generator : Condition → Result Bool) → Condition
      → Result Bool
  unfolding all_children any_children evaluate_compare evaluate_date
  evaluate_body library context room call from_generator
        (condition ConditionKind.and children _ _ _ _ _) =
      if ltb room generator_frames
      then raise recursion_error
      else all_children from_generator children
  evaluate_body library context room call from_generator
        (condition ConditionKind.or children _ _ _ _ _) =
      if ltb room generator_frames
      then raise recursion_error
      else any_children from_generator children
  evaluate_body library context room call from_generator
        (condition ConditionKind.not _ absent _ _ _ _) =
      raise assertion_error
  evaluate_body library context room call from_generator
        (condition ConditionKind.not _ (present operand) _ _ _ _) =
      do b ← call operand; ok (negate b)
  evaluate_body library context room call from_generator
        (condition ConditionKind.compare _ _ field comparator value _) =
      evaluate_compare room field comparator value context
  evaluate_body library context room call from_generator
        (condition ConditionKind.role_is _ _ _ _ value _) =
      elim (get context "role") [
        | none ↦ elim value [ none ↦ ok true | some _ ↦ ok false ]
        | some role ↦ elim value [ none ↦ ok false | some expected ↦ ok (role == expected) ]
      ]
  evaluate_body library context room call from_generator
        (condition ConditionKind.date_before _ _ field _ value _) =
      evaluate_date room true field value context
  evaluate_body library context room call from_generator
        (condition ConditionKind.date_after _ _ field _ value _) =
      evaluate_date room false field value context
  evaluate_body library context room call from_generator
        (condition ConditionKind.ref _ _ _ _ _ none) =
      raise assertion_error
  evaluate_body library context room call from_generator
        (condition ConditionKind.ref _ _ _ _ _ (some name)) =
      elim (get library name) [
        | none ↦ raise (unknown_expression name)
        | some referenced ↦ call referenced
      ]

  -- A call of `evaluate` under `frames` further frames, those of a generator, with the room that is
  -- left on Python's stack before them: where there is none, the call raises `RecursionError`.
  unfoldable pub evaluate_under : (frames room : ℕ) → Library → Context → Condition → Result Bool
  unfolding evaluate_body
  evaluate_under frames zero library context c = raise recursion_error
  evaluate_under (suc frames) (suc room) library context c =
      evaluate_under frames room library context c
  evaluate_under zero (suc room) library context c =
      evaluate_body library context room (evaluate_under 0 room library context)
        (evaluate_under generator_frames room library context) c

  -- `ConditionEngine.evaluate`. The first argument is the room left on Python's stack, in frames,
  -- beside what the call of a built-in function such as `dict.get` takes at the end of it.
  unfoldable pub evaluate : ℕ → Library → Context → Condition → Result Bool
  unfolding evaluate_under
  evaluate = evaluate_under 0
