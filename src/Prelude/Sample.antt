-- ===== src/Prelude/Sample.antt =====
-- A concrete choice of the built-in functions, for tests: numbers and days are decimal numerals.
use tmis.Prelude.{
  ℕ, ◌+◌, ◌-◌, ◌*◌, String, ◌&&◌, Option, none, some, List, [], ◌∷◌, ltb, leb, nat_beq,
  if◌then◌else◌,
}
use tmis.Prelude.Python.{
  Exception, key_error, value_error, unknown_expression, unknown_action_type,
  workflow_execution_error, pool_exhausted_error, handler_error, assertion_error, recursion_error,
  timeout_error, append, Builtins,
}
use Prim.Native.Char.{code}

abbrev codes : String → List ℕ
codes String.[] = []
codes (String.◌∷◌ c s) = code c ∷ codes s

decimal : ℕ → List ℕ → Option ℕ
decimal acc [] = some acc
decimal acc (c ∷ cs) =
    let rest = decimal (acc * 10 + (c - b'0')) cs in if leb b'0' c && leb c b'9' then rest else none

unfoldable pub digits : String → Option ℕ
unfolding decimal
digits s = decimal 0 (codes s)

abbrev describe : Exception → String
describe (key_error s) = s
describe (value_error s) = s
describe (unknown_expression s) = s
describe (unknown_action_type s) = s
describe (workflow_execution_error s) = s
describe (pool_exhausted_error s) = s
describe (handler_error s) = s
describe assertion_error = ""
describe recursion_error = "maximum recursion depth exceeded"
describe timeout_error = ""

abbrev pub plain : Builtins
plain = record {
  repr = λ s. append "'" (append s "'");
  str = describe;
  Float = ℕ;
  float = digits;
  float_eq = nat_beq;
  float_lt = ltb;
  float_le = leb;
  from_isoformat = digits;
  generator_frames = 1;
}
