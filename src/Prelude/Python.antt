-- ===== src/Prelude/Python.antt =====
-- Exceptions as values, and the built-in operations that the program calls.
use Prim.Native.Nat.{ℕ}
use Prim.Native.String.{String, compare as compare_text, ◌++◌ as append_text}
use mathlib.Core.Path.{◌≡◌, refl}
use mathlib.Core.Logic.{◌⊎◌, inl, inr}
use mathlib.Core.Bool.{Bool}
use mathlib.Core.Option.{Option}
use text.Mathlib.Text.{is_lt, is_le}
use Prim.Native.Char.{Char, code}
use mathlib.Core.List.{List, [], ◌∷◌}
use mathlib.Core.Bool.{true, false, ◌&&◌}
use tmis.Prelude.Tests.{nat_beq, if◌then◌else◌}

-- The exception classes that the modelled code raises, each with its argument.
pub data Exception : Type 0 where
  key_error value_error : String → Exception
  unknown_expression unknown_action_type : String → Exception
  workflow_execution_error pool_exhausted_error : String → Exception
  handler_error : String → Exception
  assertion_error recursion_error timeout_error : Exception

pub data Result {ℓ} (A : Type ℓ) : Type ℓ where
  ok : A → Result A
  raise : Exception → Result A

infixl 5 ◌>>=◌ ◌>>◌
abbrev pub ◌>>=◌ {ℓ κ} : {A : Type ℓ} {B : Type κ} → Result A → (A → Result B) → Result B
ok a >>= f = f a
raise e >>= f = raise e

abbrev pub ◌>>◌ {ℓ κ} : {A : Type ℓ} {B : Type κ} → Result A → Result B → Result B
m >> k = m >>= λ _. k

-- To split on a computed result and keep the equation.
pub Result-cases {ℓ} :
    {A : Type ℓ} (r : Result A) → ((a : A) × (r ≡ ok a)) ⊎ ((e : Exception) × (r ≡ raise e))
Result-cases (ok a) = inl (a, refl)
Result-cases (raise e) = inr (e, refl)

pub ok_injective {ℓ} : {A : Type ℓ} {a b : A} → ok a ≡ ok b → a ≡ b
ok_injective h = cc

-- `s + t`, `s < t` and `s <= t` on texts: Python orders them by code point, as UTF-8 does.
abbrev pub append : String → String → String
append s t = append_text s t

abbrev pub text_lt : String → String → Bool
text_lt s t = is_lt (compare_text s t)

abbrev pub text_le : String → String → Bool
text_le s t = is_le (compare_text s t)

-- The code points of a text, and `s.startswith(prefix)`.
abbrev pub codes : String → List ℕ
codes String.[] = []
codes (String.◌∷◌ c s) = code c ∷ codes s

abbrev pub is_prefix : List ℕ → List ℕ → Bool
is_prefix [] cs = true
is_prefix (p ∷ ps) [] = false
is_prefix (p ∷ ps) (c ∷ cs) = nat_beq p c && is_prefix ps cs

abbrev pub starts_with : String → String → Bool
starts_with s prefix = is_prefix (codes prefix) (codes s)

-- `sep.join(texts)`
abbrev pub join : String → List String → String
join sep [] = ""
join sep (x ∷ []) = x
join sep (x ∷ xs) = append x (append sep (join sep xs))

abbrev pub put_char : Char → List String → List String
put_char c [] = String.◌∷◌ c "" ∷ []
put_char c (x ∷ xs) = String.◌∷◌ c x ∷ xs

-- `s.split(",")`
abbrev pub split_commas : String → List String
split_commas String.[] = "" ∷ []
split_commas (String.◌∷◌ c s) =
    let rest = split_commas s in if nat_beq (code c) b',' then "" ∷ rest else put_char c rest

-- Built-in functions of Python that no file of the program defines.
pub record Builtins : Type 1 where
  -- `repr(s)` of a text and `str(e)` of an exception
  pub repr : String → String
  pub str : Exception → String
  -- `float(s)`, where `none` is its `ValueError`, and the comparisons of floats
  pub Float : Type 0
  pub float : String → Option Float
  pub float_eq : Float → Float → Bool
  pub float_lt : Float → Float → Bool
  pub float_le : Float → Float → Bool
  -- `date.fromisoformat(s)` as the ordinal of the day, where `none` is its `ValueError`
  pub from_isoformat : String → Option ℕ
  -- what the interpreter's stack counts for a generator that `all` or `any` runs
  pub generator_frames : ℕ
