-- ===== src/Simulation/Prediction.antt =====
-- What a simulation predicts, and what an execution does.
use tmis.Prelude.{
  String, ◌≡◌, refl, sym, ◌∙◌, subst, inl, inr, true, false, not, List, [], ◌∷◌, arith,
}
use tmis.Prelude.Python.{Exception, ok, raise, Result-cases, ok_injective}
use tmis.Condition.{Condition, Context, Library}
use tmis.Workflow.Schemas.{WorkflowStep, Workflow, ordered_steps}
use tmis.Execution.Schemas.{completed, cancelled, StepExecutionResult, WorkflowExecution}
use tmis.Execution.Step.{Setting, gate}
use tmis.Execution.Steps.{Covers}
use tmis.Execution.Run.{Executor, all_hold, start}
use tmis.Execution.Outcomes.{steps, Ended, all_done, stopped, Starts, start_lem}
use tmis.Simulation.{
  SimulatedStepOutcome, SimulationReport, conditions_pass, simulate_step, simulate_steps, simulate,
}

-- The outcomes and the results are of the same steps, and a step would run exactly if it was not
-- skipped.
abbrev pub Foretells : List SimulatedStepOutcome → List StepExecutionResult → Type 0
Foretells [] [] = Unit
Foretells [] (r ∷ rs) = ⊥
Foretells (o ∷ os) [] = ⊥
Foretells (o ∷ os) (r ∷ rs) =
    (o.step_order ≡ r.step_order) × (o.would_run ≡ not r.skipped) × Foretells os rs

module _ {W : Type 0} (setting : Setting W) (library : Library) (context : Context) where
  conditions_pass-eq-all_hold :
      (cs : List Condition)
      → conditions_pass setting.py setting.room library context cs
        ≡ all_hold setting library context cs
  unfolding conditions_pass all_hold
  conditions_pass-eq-all_hold [] = refl
  conditions_pass-eq-all_hold (c ∷ cs) = ground (arith, conditions_pass-eq-all_hold cs)

  simulate_step-gate :
      (s : WorkflowStep) (o : SimulatedStepOutcome)
      → simulate_step setting.py setting.room library context s ≡ ok o
      → (o.step_order ≡ s.order) × (gate setting library context s ≡ ok o.would_run)
  unfolding simulate_step gate
  simulate_step-gate s o h = ground arith

  simulate_steps-Foretells :
      (steps : List WorkflowStep) (os : List SimulatedStepOutcome) (rs : List StepExecutionResult)
      → simulate_steps setting.py setting.room library context steps ≡ ok os
      → Covers setting library context steps rs []
      → Foretells os rs
  unfolding simulate_steps
  simulate_steps-Foretells [] [] [] h c = tt
  simulate_steps-Foretells [] (o ∷ os) rs h c = absurd (cc)
  simulate_steps-Foretells [] [] (r ∷ rs) h c = c
  simulate_steps-Foretells (s ∷ steps) os [] h c = absurd (cc)
  simulate_steps-Foretells (s ∷ steps) os (r ∷ rs) h c =
      elim (Result-cases (simulate_step setting.py setting.room library context s)) [
        | inr (exc, e) ↦ absurd (cc (rw (e, simulate_steps) at h))
        | inl (o, e) ↦
            elim (Result-cases (simulate_steps setting.py setting.room library context steps)) [
              | inr (exc, e') ↦
                  absurd (cc (rw (e', simulate_steps) at (rw (e, simulate_steps) at h)))
              | inl (os', e') ↦
                  let same : o ∷ os' ≡ os =
                    ok_injective (rw (e', simulate_steps) at (rw (e, simulate_steps) at h)) in
                  let (order, gated) = simulate_step-gate s o e in
                  subst (λ v. Foretells v (r ∷ rs)) same
                    (
                      order ∙ sym c.0.order,
                      ok_injective (sym gated ∙ c.0.gated),
                      simulate_steps-Foretells steps os' rs e' c.1,
                    )
            ]
      ]

  module _ (workflow : Workflow) (report : SimulationReport)
      (h : simulate setting.py setting.room library context workflow ≡ ok report) where
    simulate-raise :
        (exc : Exception)
        → ¬ (
            conditions_pass setting.py setting.room library context workflow.conditions ≡ raise exc)
    unfolding simulate
    simulate-raise exc e = ground arith

    simulate-false :
        conditions_pass setting.py setting.room library context workflow.conditions ≡ ok false
        → report.would_complete ≡ false
    unfolding simulate
    simulate-false e = ground arith

    simulate-true :
        conditions_pass setting.py setting.room library context workflow.conditions ≡ ok true
        → (report.would_complete ≡ true)
          × (simulate_steps setting.py setting.room library context (ordered_steps workflow)
              ≡ ok report.steps)
    unfolding simulate
    simulate-true e = ground arith

  -- A simulation that returns tells how `start` goes on the same workflow and context. If it says
  -- that the workflow would not complete, `start` cancels the execution. If it says that it would,
  -- an execution that `start` returns as completed has run exactly the steps that the simulation
  -- lists as running, in the same order.
  pub simulate-start :
      (workflow : Workflow) (report : SimulationReport) (id span : String) (x : Executor W)
      (e : WorkflowExecution)
      → simulate setting.py setting.room library context workflow ≡ ok report
      → (start setting library context id span workflow x).0 ≡ ok e
      → (report.would_complete ≡ false → e.status ≡ cancelled)
        × (report.would_complete ≡ true
            → e.status ≡ completed
            → Foretells report.steps e.step_results)
  simulate-start workflow report id span x e h started =
      let same = conditions_pass-eq-all_hold workflow.conditions in
      let ends = start_lem setting library context workflow id span x in
      let result = (start setting library context id span workflow x).0 in
      let after = (start setting library context id span workflow x).1 in
      elim (Result-cases (all_hold setting library context workflow.conditions)) [
        | inr (exc, passed) ↦ absurd (simulate-raise workflow report h exc (same ∙ passed))
        | inl (false, passed) ↦
            let incomplete = simulate-false workflow report h (same ∙ passed) in
            let (e', returned, status, untouched, kept) =
              subst (λ b. Starts setting library context workflow b result x after) passed ends in
            let eq : e' ≡ e = ok_injective (sym returned ∙ started) in
            (
              λ _. subst (λ (v : WorkflowExecution). v.status ≡ cancelled) eq status,
              λ c. absurd (cc),
            )
        | inl (true, passed) ↦
            let (complete, simulated) = simulate-true workflow report h (same ∙ passed) in
            let (e', returned, ended, kept) =
              subst (λ b. Starts setting library context workflow b result x after) passed ends in
            let eq : e' ≡ e = ok_injective (sym returned ∙ started) in
            (
              λ c. absurd (cc),
              λ _ over. elim (subst (Ended setting library context workflow) eq ended) [
                | all_done _ at ↦
                    simulate_steps-Foretells (ordered_steps workflow) report.steps e.step_results
                      simulated at.covered
                | stopped reason status _ _ ↦ absurd (cc)
              ],
            )
      ]
