-- ===== src/Execution/Progression.antt =====
-- What `_run_from` keeps and reaches: the results line up with the steps, before, between and after
-- failures.
use tmis.Prelude.{
  String, ◌≡◌, refl, sym, subst, inl, inr, Option, none, some, List, [], ◌∷◌, ◌++◌, arith,
  Bool-cases, Option-cases, ◌==◌, nat_eq, string_eq, key_eq, length, length-append,
}
use tmis.Prelude.Python.{Result, ok, raise, ◌>>=◌, ok_injective}
use mathlib.Core.List.{append_assoc}
use tmis.Condition.{Context, Library}
use tmis.Action.{Engine}
use tmis.Workflow.Schemas.{WorkflowStep}
use tmis.Execution.Schemas.{StepExecutionResult, WorkflowExecution}
use tmis.Execution.Step.{Setting}
use tmis.Execution.Steps.{Covers, Covers-append, run_step-Matches}
use tmis.Execution.Gather.{gather-Covers}
use tmis.Execution.Run.{
  Progress, Outcome, record_results, run_group, run_single, continue, run_steps,
}

module _ {W : Type 0} (setting : Setting W) (library : Library) (context : Context)
    (steps : List WorkflowStep) where
  -- The execution has one result for each of the first `current_step_index` steps, each of which
  -- matches its step; `rest` are the steps that are left.
  pub record IsAt (rest : List WorkflowStep) (e : WorkflowExecution) : Type 0 where
    pub covered : Covers setting library context steps e.step_results rest
    pub counted : length e.step_results ≡ e.current_step_index

  -- After the loops: at the end if they return, and at some step if they raise.
  abbrev pub Lands : Outcome setting library context → Type 0
  Lands (ok _, p) = IsAt [] p.execution
  Lands (raise exc, p) = (rest : List WorkflowStep) × IsAt rest p.execution

  record_results-ok :
      (group rest : List WorkflowStep) (p : Progress W) (rs : List StepExecutionResult)
      (m : Engine W)
      → IsAt (group ++ rest) p.execution
      → Covers setting library context group rs []
      → IsAt rest (record_results setting library context p (ok rs, m)).1.execution
  unfolding record_results
  record_results-ok group rest p rs m at c = record {
    covered =
        Covers-append setting library context steps p.execution.step_results rs group rest
          at.covered c;
    counted = omega (arith, length-append p.execution.step_results rs, at.counted);
  }

  -- The next step or group, and then what follows where it does not raise.
  abbrev Continues :
      List WorkflowStep → List WorkflowStep → Outcome setting library context → Type 0
  Continues group rest (ok _, p) = IsAt rest p.execution
  Continues group rest (raise exc, p) = IsAt (group ++ rest) p.execution

  record_results-Continues :
      (group rest : List WorkflowStep) (p : Progress W)
      (o : Result (List StepExecutionResult) × Engine W)
      → IsAt (group ++ rest) p.execution
      → ((rs : List StepExecutionResult) → o.0 ≡ ok rs → Covers setting library context group rs [])
      → Continues group rest (record_results setting library context p o)
  unfolding record_results
  record_results-Continues group rest p (ok rs, m) at c =
      record_results-ok group rest p rs m at (c rs refl)
  record_results-Continues group rest p (raise exc, m) at c = at

  run_group-Continues :
      (group rest : List WorkflowStep) (p : Progress W)
      → IsAt (group ++ rest) p.execution
      → Continues group rest (run_group setting library context group p)
  unfolding run_group
  run_group-Continues group rest p at = record_results-Continues group rest p _ at (λ rs.
      gather-Covers setting library context p.execution.firm_id p.execution.id group p.engine rs)

  singleton-ok :
      (r : Result StepExecutionResult) (rs : List StepExecutionResult)
      → (r >>= λ x. ok (x ∷ [])) ≡ ok rs
      → (x : StepExecutionResult) × (r ≡ ok x) × (x ∷ [] ≡ rs)
  singleton-ok (ok x) rs h = (x, refl, ok_injective h)
  singleton-ok (raise exc) rs h = absurd (cc)

  run_single-Continues :
      (s : WorkflowStep) (rest : List WorkflowStep) (p : Progress W)
      → IsAt (s ∷ rest) p.execution
      → Continues (s ∷ []) rest (run_single setting library context s p)
  unfolding run_single
  run_single-Continues s rest p at = record_results-Continues (s ∷ []) rest p _ at (λ rs h.
      let (x, ran, same) = singleton-ok _ rs h in
      subst (λ v. Covers setting library context (s ∷ []) v []) same
        (
          run_step-Matches setting library context p.execution.firm_id p.execution.id s p.engine x
              ran,
          refl,
        ))

  continue-Lands :
      (group rest : List WorkflowStep) (o : Outcome setting library context)
      (next : Progress W → Outcome setting library context)
      → Continues group rest o
      → ((p : Progress W) → IsAt rest p.execution → Lands (next p))
      → Lands (continue setting library context o next)
  continue-Lands group rest (ok u, p) next c n = n p c
  continue-Lands group rest (raise exc, p) next c n = (group ++ rest, c)

  abbrev collected : Option (String × List WorkflowStep) → List WorkflowStep
  collected none = []
  collected (some (tag, group)) = group

  ends :
      (group : List WorkflowStep) (o : Outcome setting library context)
      → Continues group [] o
      → Lands o
  ends group (ok u, p) c = c
  ends group (raise exc, p) c = (group ++ [], c)

  pub run_steps-Lands :
      (pending : Option (String × List WorkflowStep)) (rest : List WorkflowStep) (p : Progress W)
      → IsAt (collected pending ++ rest) p.execution
      → Lands (run_steps setting library context pending rest p)
  unfolding run_steps
  run_steps-Lands none [] p at = at
  run_steps-Lands (some (tag, group)) [] p at = ends group _ (run_group-Continues group [] p at)
  run_steps-Lands none (s ∷ rest) p at = elim (Option-cases s.parallel_group) [
    | inl alone ↦
        rw (alone, run_steps)
          (continue-Lands (s ∷ []) rest _ _ (run_single-Continues s rest p at)
            (run_steps-Lands none rest))
    | inr (tag, grouped) ↦ rw (grouped, run_steps) (run_steps-Lands (some (tag, s ∷ [])) rest p at)
  ]
  run_steps-Lands (some (tag, group)) (s ∷ rest) p at = elim (Option-cases s.parallel_group) [
    | inl alone ↦
        rw (alone, run_steps)
          (continue-Lands group (s ∷ rest) _ _ (run_group-Continues group (s ∷ rest) p at)
            (λ p' at'.
              continue-Lands (s ∷ []) rest _ _ (run_single-Continues s rest p' at')
                (run_steps-Lands none rest)))
    | inr (tag', grouped) ↦ elim (Bool-cases (tag' == tag)) [
      | inl same ↦
          rw (grouped, run_steps)
            (rw (same, run_steps)
              (run_steps-Lands (some (tag, group ++ s ∷ [])) rest p
                (subst (λ l. IsAt l p.execution) (sym (append_assoc group (s ∷ []) rest)) at)))
      | inr other ↦
          rw (grouped, run_steps)
            (rw (other, run_steps)
              (continue-Lands group (s ∷ rest) _ _ (run_group-Continues group (s ∷ rest) p at)
                (run_steps-Lands (some (tag', s ∷ [])) rest)))
    ]
  ]
