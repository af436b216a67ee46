-- ===== src/Condition/Formula.antt =====
-- A condition as a formula: when it is well-formed, and its value.
use tmis.Prelude.{
  ℕ, String, ◌≡◌, Bool, true, false, not, ◌&&◌, ◌||◌, Option, none, some, ltb, ◌==◌, nat_eq,
  string_eq, key_eq,
}
use tmis.Prelude.Dict.{get}
use tmis.Prelude.Python.{Builtins}
use tmis.Condition.{
  Comparator, ConditionKind, Condition, condition, Children, nil, cons, absent, present, Context,
  Library, compare_values,
}

abbrev pub is_some : {A : Type 0} → Option A → Bool
is_some none = false
is_some (some a) = true

module _ (py : Builtins) (library : Library) (context : Context) where
  open py use {from_isoformat, generator_frames}

  abbrev pub compared : Option String → Option Comparator → Option String → Bool
  compared (some field) (some comparator) value = elim (get context field) [
    | none ↦ false
    | some actual ↦ compare_values py actual (elim value [ none ↦ "" | some v ↦ v ]) comparator
  ]
  compared _ _ value = false

  abbrev dated : Bool → Option ℕ → Option ℕ → Bool
  dated true (some a) (some b) = ltb a b
  dated false (some a) (some b) = ltb b a
  dated _ _ _ = false

  abbrev pub in_time : Bool → Option String → Option String → Bool
  in_time before (some field) (some value) = elim (get context field) [
    | none ↦ false
    | some actual ↦ dated before (from_isoformat actual) (from_isoformat value)
  ]
  in_time before _ _ = false

  abbrev pub has_dates : Option String → Option String → Bool
  has_dates (some field) (some value) = elim (get context field) [
    | none ↦ true
    | some actual ↦ is_some (from_isoformat actual) && is_some (from_isoformat value)
  ]
  has_dates _ _ = false

  abbrev pub has_role : Option String → Bool
  has_role none = elim (get context "role") [ none ↦ true | some role ↦ false ]
  has_role (some expected) = elim (get context "role") [
    | none ↦ false
    | some role ↦ role == expected
  ]

  -- The condition has the fields of its kind, its dates are dates, and its names are registered.
  abbrev mutual
    pub is_proper : Condition → Bool
    is_proper (condition ConditionKind.and cs _ _ _ _ _) = are_proper cs
    is_proper (condition ConditionKind.or cs _ _ _ _ _) = are_proper cs
    is_proper (condition ConditionKind.not _ absent _ _ _ _) = false
    is_proper (condition ConditionKind.not _ (present c) _ _ _ _) = is_proper c
    is_proper (condition ConditionKind.compare _ _ f p _ _) = is_some f && is_some p
    is_proper (condition ConditionKind.role_is _ _ _ _ _ _) = true
    is_proper (condition ConditionKind.date_before _ _ f _ v _) = has_dates f v
    is_proper (condition ConditionKind.date_after _ _ f _ v _) = has_dates f v
    is_proper (condition ConditionKind.ref _ _ _ _ _ none) = false
    is_proper (condition ConditionKind.ref _ _ _ _ _ (some name)) = is_some (get library name)

    pub are_proper : Children → Bool
    are_proper nil = true
    are_proper (cons c cs) = is_proper c && are_proper cs

  module _ (valuation : String → Bool) where
    -- The value of the formula, where the valuation has those of the names.
    abbrev mutual
      pub truth : Condition → Bool
      truth (condition ConditionKind.and cs _ _ _ _ _) = every_truth cs
      truth (condition ConditionKind.or cs _ _ _ _ _) = some_truth cs
      truth (condition ConditionKind.not _ absent _ _ _ _) = false
      truth (condition ConditionKind.not _ (present c) _ _ _ _) = not (truth c)
      truth (condition ConditionKind.compare _ _ f p v _) = compared f p v
      truth (condition ConditionKind.role_is _ _ _ _ v _) = has_role v
      truth (condition ConditionKind.date_before _ _ f _ v _) = in_time true f v
      truth (condition ConditionKind.date_after _ _ f _ v _) = in_time false f v
      truth (condition ConditionKind.ref _ _ _ _ _ none) = false
      truth (condition ConditionKind.ref _ _ _ _ _ (some name)) = valuation name

      pub every_truth : Children → Bool
      every_truth nil = true
      every_truth (cons c cs) = truth c && every_truth cs

      pub some_truth : Children → Bool
      some_truth nil = false
      some_truth (cons c cs) = truth c || some_truth cs

    -- Each named expression is proper, and the valuation has its value.
    pub record IsModel : Type 0 where
      pub models :
          (name : String) (c : Condition)
          → get library name ≡ some c
          → (is_proper c ≡ true) × (truth c ≡ valuation name)
