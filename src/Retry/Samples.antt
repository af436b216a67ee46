-- ===== src/Retry/Samples.antt =====
-- The retry policy on an operation that fails at first.
use tmis.Prelude.{ℕ, ◌+◌, ◌≡◌, refl, arith, leb, if◌then◌else◌}
use tmis.Prelude.Python.{timeout_error, ok, raise}
use tmis.Retry.{Operation, default_max_attempts, run}
use tmis.Retry.Attempts.{run_first_success, run_last_failure}

abbrev pause : ℕ → ℕ → ℕ
pause delay clock = clock + delay

-- Works from time 2 on.
abbrev flaky : Operation ℕ ℕ
flaky clock = (if leb 2 clock then ok clock else raise timeout_error, clock + 1)

run-flaky : run pause flaky default_max_attempts 0 ≡ (ok 2, 3)
unfolding run
run-flaky = refl

run_first_success_example : run pause flaky 3 0 ≡ (ok 2, 3)
run_first_success_example =
    run_first_success pause flaky 3 1 0 2 (omega arith) ((timeout_error, refl), tt) refl

run_last_failure_example : run pause flaky 1 0 ≡ (raise timeout_error, 1)
run_last_failure_example = run_last_failure pause flaky 0 0 timeout_error tt refl
