-- ===== src/Execution/Steps.antt =====
-- What a step, and a group of steps, that does not raise comes to.
use tmis.Prelude.{
  zero, suc, ◌<◌, String, ◌≡◌, refl, subst, inl, inr, Bool, true, false, not, Option, none, some,
  List, [], ◌∷◌, ◌++◌, arith,
}
use tmis.Prelude.Python.{Result, ok, raise, ◌>>=◌, Result-cases, ok_injective}
use tmis.Retry.Attempts.{run-ok}
use tmis.Condition.{Context, Library}
use tmis.Action.{ActionResult, Engine}
use tmis.Workflow.Schemas.{WorkflowStep}
use tmis.Execution.Schemas.{StepExecutionResult}
use tmis.Execution.Step.{
  Setting, Task, waiting, trying, finished, skipped_result, done_result, is_finished, work, gate,
  attempt, run_step, move,
}

-- A skipped step has no action result; a step that ran has one, and it is a success.
abbrev pub HasOutcome : Bool → Option ActionResult → Type 0
HasOutcome true none = Unit
HasOutcome true (some r) = ⊥
HasOutcome false none = ⊥
HasOutcome false (some r) = r.success ≡ true

module _ {W : Type 0} (setting : Setting W) (library : Library) (context : Context) where
  -- The result is the step's: it has its order, and the step was skipped exactly if its condition
  -- does not hold.
  pub record Matches (s : WorkflowStep) (r : StepExecutionResult) : Type 0 where
    pub order : r.step_order ≡ s.order
    pub gated : gate setting library context s ≡ ok (not r.skipped)
    pub outcome : HasOutcome r.skipped r.action_result

  -- The first steps of `steps` match the results, and `rest` is what follows them.
  abbrev pub Covers : List WorkflowStep → List StepExecutionResult → List WorkflowStep → Type 0
  Covers steps [] rest = steps ≡ rest
  Covers [] (r ∷ rs) rest = ⊥
  Covers (s ∷ steps) (r ∷ rs) rest = Matches s r × Covers steps rs rest

  pub Covers-append :
      (steps : List WorkflowStep) (rs rs' : List StepExecutionResult)
      (group rest : List WorkflowStep)
      → Covers steps rs (group ++ rest)
      → Covers group rs' []
      → Covers steps (rs ++ rs') rest
  Covers-append steps [] rs' group rest h g = rw h (extend group rs' g)
    where
      extend :
          (group : List WorkflowStep) (rs' : List StepExecutionResult)
          → Covers group rs' []
          → Covers (group ++ rest) rs' rest
      extend [] [] h = refl
      extend (s ∷ group) [] h = absurd (cc)
      extend [] (r ∷ rs) h = elim h [ ]
      extend (s ∷ group) (r ∷ rs) h = (h.0, extend group rs h.1)
  Covers-append [] (r ∷ rs) rs' group rest h g = elim h [ ]
  Covers-append (s ∷ steps) (r ∷ rs) rs' group rest h g =
      (h.0, Covers-append steps rs rs' group rest h.1 g)

  module _ (firm_id execution_id : String) where
    attempt-success :
        (s : WorkflowStep) (m : Engine W) (r : ActionResult)
        → (attempt setting library context firm_id execution_id s m).0 ≡ ok r
        → r.success ≡ true
    unfolding attempt
    attempt-success s m r h = ground arith

    skipped-Matches :
        (s : WorkflowStep)
        → gate setting library context s ≡ ok false
        → Matches s (skipped_result s)
    skipped-Matches s e = record { order = refl; gated = e; outcome = tt }

    done-Matches :
        (s : WorkflowStep) (m : Engine W) (r : ActionResult)
        → gate setting library context s ≡ ok true
        → (attempt setting library context firm_id execution_id s m).0 ≡ ok r
        → Matches s (done_result s r)
    done-Matches s m r e h = record { order = refl; gated = e; outcome = attempt-success s m r h }

    done-ok :
        (s : WorkflowStep) (o : Result ActionResult) (r : StepExecutionResult)
        → (o >>= λ a. ok (done_result s a)) ≡ ok r
        → (a : ActionResult) × (o ≡ ok a) × (done_result s a ≡ r)
    done-ok s (ok a) r h = (a, refl, ok_injective h)
    done-ok s (raise exc) r h = absurd (cc)

    -- A step that runs alone and does not raise has a result that matches it.
    pub run_step-Matches :
        (s : WorkflowStep) (m : Engine W) (r : StepExecutionResult)
        → (run_step setting library context firm_id execution_id s m).0 ≡ ok r
        → Matches s r
    unfolding run_step
    run_step-Matches s m r h = elim (Result-cases (gate setting library context s)) [
      | inl (true, e) ↦
          let (a, ran, same) = done-ok s _ r (rw (e, run_step) at h) in
          rw (← same) (
            run-ok _ _ (λ a. Matches s (done_result s a)) (λ m' a' h'. done-Matches s m' a' e h') _
              m a ran)
      | inl (false, e) ↦
          let same : skipped_result s ≡ r = ok_injective (rw (e, run_step) at h) in
          rw (← same) (skipped-Matches s e)
      | inr (exc, e) ↦ absurd (cc (rw (e, run_step) at h))
    ]

    -- How far a task of the group is with its step.
    abbrev pub TaskFor : WorkflowStep → Task → Type 0
    TaskFor s (waiting s') = s' ≡ s
    TaskFor s (trying s' i left e) = (s' ≡ s) × (gate setting library context s ≡ ok true)
    TaskFor s (finished r) = Matches s r

    pub move-TaskFor :
        (s : WorkflowStep) (t t' : Task) (m : Engine W)
        → TaskFor s t
        → (move setting library context firm_id execution_id t m).0 ≡ ok t'
        → TaskFor s t'
    unfolding move
    move-TaskFor s (finished r) t' m f h = subst (TaskFor s) (ok_injective h) f
    move-TaskFor s (waiting s') t' m f h = elim (Result-cases (gate setting library context s')) [
      | inl (true, e) ↦ subst (TaskFor s) (ok_injective (rw (e, move) at h)) (f, rw (← f) e)
      | inl (false, e) ↦
          subst (TaskFor s) (ok_injective (rw (e, move) at h))
            (subst (λ x. Matches x (skipped_result s')) f (skipped-Matches s' e))
      | inr (exc, e) ↦ absurd (cc (rw (e, move) at h))
    ]
    move-TaskFor s (trying s' i zero none) t' m f h = absurd (cc)
    move-TaskFor s (trying s' i zero (some exc)) t' m f h = absurd (cc)
    move-TaskFor s (trying s' i (suc left) prev) t' m f h =
        elim (Result-cases (attempt setting library context firm_id execution_id s' m).0) [
          | inl (r, e) ↦
              subst (TaskFor s) (ok_injective (rw (e, move) at h))
                (subst (λ x. Matches x (done_result s' r)) f.0 (done-Matches s' m r (rw f.0 f.1) e))
          | inr (exc, e) ↦ subst (TaskFor s) (ok_injective (rw (e, move) at h)) f
        ]

    pub move-work :
        (t t' : Task) (m : Engine W)
        → is_finished t ≡ false
        → (move setting library context firm_id execution_id t m).0 ≡ ok t'
        → work setting.max_attempts t' < work setting.max_attempts t
    unfolding move
    move-work (finished r) t' m f h = absurd (cc)
    move-work (waiting s) t' m f h = ground arith
    move-work (trying s i zero none) t' m f h = absurd (cc)
    move-work (trying s i zero (some exc)) t' m f h = absurd (cc)
    move-work (trying s i (suc left) prev) t' m f h = ground arith
