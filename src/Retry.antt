-- ===== src/Retry.antt =====
-- `WorkflowRetryPolicy`: backend/src/tmis/workflow_automation/retry/engine.py.
pub mod Attempts
mod Samples
use tmis.Prelude.{ℕ, zero, suc, ◌+◌, ◌^◌, Option, none, some, ltb, if◌then◌else◌}
use tmis.Prelude.Python.{Exception, assertion_error, Result, ok, raise}

-- A call that may raise and changes a state `S`.
abbrev pub Operation : Type 0 → Type 0 → Type 0
Operation S A = S → Result A × S

-- `_DEFAULT_MAX_ATTEMPTS`
abbrev pub default_max_attempts : ℕ
default_max_attempts = 3

module _ {S A : Type 0} (sleep : ℕ → S → S) (operation : Operation S A) where
  -- The rounds of the `for` loop from `attempt` on, with `left` of them to go. The delay is counted
  -- in multiples of `base_delay_seconds`, and there is none after the last attempt.
  unfoldable pub attempts_from : ℕ → ℕ → Option Exception → Operation S A
  attempts_from attempt zero none s = (raise assertion_error, s)
  attempts_from attempt zero (some last_error) s = (raise last_error, s)
  attempts_from attempt (suc left) _ s =
      let (outcome, s') = operation s in
      elim outcome [
        | ok a ↦ (ok a, s')
        | raise exc ↦
            attempts_from (attempt + 1) left (some exc)
              (if ltb 0 left then sleep (2 ^ attempt) s' else s')
      ]

  unfoldable pub run : ℕ → Operation S A
  unfolding attempts_from
  run max_attempts s = attempts_from 0 max_attempts none s
