-- ===== src/Retry/Attempts.antt =====
-- Which attempts the retry policy makes, and what comes of them.
use tmis.Prelude.{
  ℕ, zero, suc, ◌+◌, ◌^◌, ◌<◌, ◌≡◌, refl, ◌∙◌, inl, inr, true, Option, none, some, arith, ltb,
}
use tmis.Prelude.Python.{Exception, ok, raise, Result-cases}
use tmis.Retry.{Operation, attempts_from, run}

module _ {S A : Type 0} (sleep : ℕ → S → S) (operation : Operation S A) where
  -- The state in which attempt `i + k` starts, if attempt `i` starts in `s`: each attempt before it
  -- has been made, and the delay after it has passed.
  abbrev pub before : ℕ → ℕ → S → S
  before i zero s = s
  before i (suc k) s = before (i + 1) k (sleep (2 ^ i) (operation s).1)

  abbrev pub Fails : S → Type 0
  Fails s = (e : Exception) × ((operation s).0 ≡ raise e)

  -- The first `k` attempts from attempt `i` on fail.
  abbrev pub AllFail : ℕ → ℕ → S → Type 0
  AllFail i zero s = Unit
  AllFail i (suc k) s = Fails s × AllFail (i + 1) k (sleep (2 ^ i) (operation s).1)

  -- A failed attempt that is not the last: the delay, then the rounds that are left.
  attempts_from-suc :
      (i n : ℕ) (prev : Option Exception) (s : S) (exc : Exception)
      → 0 < n
      → (operation s).0 ≡ raise exc
      → attempts_from sleep operation i (suc n) prev s
        ≡ attempts_from sleep operation (i + 1) n (some exc) (sleep (2 ^ i) (operation s).1)
  unfolding attempts_from
  attempts_from-suc i n prev s exc left_over failed =
      let more : ltb 0 n ≡ true = ground arith in rw (failed, attempts_from) (rw more refl)

  attempts_from_success :
      (i k n : ℕ) (prev : Option Exception) (s : S) (a : A)
      → k < n
      → AllFail i k s
      → (operation (before i k s)).0 ≡ ok a
      → attempts_from sleep operation i n prev s ≡ (ok a, (operation (before i k s)).1)
  unfolding attempts_from
  attempts_from_success i k zero prev s a lt fails done = elim lt [ ]
  attempts_from_success i zero (suc n) prev s a lt fails done = rw (done, attempts_from) refl
  attempts_from_success i (suc k) (suc n) prev s a lt ((exc, failed), fails) done =
      attempts_from-suc i n prev s exc (omega arith) failed
      ∙ attempts_from_success (i + 1) k n (some exc) _ a (omega arith) fails done

  attempts_from_failure :
      (i k : ℕ) (prev : Option Exception) (s : S) (exc : Exception)
      → AllFail i k s
      → (operation (before i k s)).0 ≡ raise exc
      → attempts_from sleep operation i (suc k) prev s ≡ (raise exc, (operation (before i k s)).1)
  unfolding attempts_from
  attempts_from_failure i zero prev s exc fails done = rw (done, attempts_from) refl
  attempts_from_failure i (suc k) prev s exc ((earlier, failed), fails) done =
      attempts_from-suc i (suc k) prev s earlier (omega arith) failed
      ∙ attempts_from_failure (i + 1) k (some earlier) _ exc fails done

  -- If an attempt within the limit succeeds and all before it fail, the result is that attempt's
  -- value: no later attempt is made, and the state is the one that this attempt leaves.
  pub run_first_success :
      (max_attempts k : ℕ) (s : S) (a : A)
      → k < max_attempts
      → AllFail 0 k s
      → (operation (before 0 k s)).0 ≡ ok a
      → run sleep operation max_attempts s ≡ (ok a, (operation (before 0 k s)).1)
  unfolding run
  run_first_success n k s a = attempts_from_success 0 k n none s a

  -- If every attempt fails, and there is at least one, the exception is that of the last one,
  -- and no delay follows it.
  pub run_last_failure :
      (k : ℕ) (s : S) (exc : Exception)
      → AllFail 0 k s
      → (operation (before 0 k s)).0 ≡ raise exc
      → run sleep operation (suc k) s ≡ (raise exc, (operation (before 0 k s)).1)
  unfolding run
  run_last_failure k s exc = attempts_from_failure 0 k none s exc

module _ {S A : Type 0} (sleep : ℕ → S → S) (operation : Operation S A) (P : A → Type 0)
    (each : (s : S) (a : A) → (operation s).0 ≡ ok a → P a) where
  attempts_from-ok :
      (i n : ℕ) (prev : Option Exception) (s : S) (a : A)
      → (attempts_from sleep operation i n prev s).0 ≡ ok a
      → P a
  unfolding attempts_from
  attempts_from-ok i zero none s a h = absurd (cc)
  attempts_from-ok i zero (some e) s a h = absurd (cc)
  attempts_from-ok i (suc n) prev s a h = elim (Result-cases (operation s).0) [
    | inl (b, e) ↦ each s a (e ∙ (rw (e, attempts_from) at h))
    | inr (exc, e) ↦ attempts_from-ok (i + 1) n (some exc) _ a (rw (e, attempts_from) at h)
  ]

  -- A value that the policy returns is one that an attempt returned.
  pub run-ok : (n : ℕ) (s : S) (a : A) → (run sleep operation n s).0 ≡ ok a → P a
  unfolding run
  run-ok n s a h = attempts_from-ok 0 n none s a h
