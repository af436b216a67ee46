-- ===== src/Simulation.antt =====
-- Dry runs: backend/src/tmis/workflow_automation/simulation (schemas.py and engine.py).
pub mod Prediction
mod Samples
use tmis.Prelude.Int.{ℤ}
use tmis.Prelude.{ℕ, String, Bool, true, false, Option, none, some, List, [], ◌∷◌, if◌then◌else◌}
use tmis.Prelude.Python.{Result, ok, ◌>>=◌, ◌>>◌, Builtins}
use tmis.Condition.{Condition, condition, Context, Library, evaluate}
use tmis.Workflow.Schemas.{WorkflowStep, Workflow, ordered_steps}

pub record SimulatedStepOutcome : Type 0 where
  pub step_order : ℤ
  pub name : String
  pub would_run : Bool
  pub skip_reason : Option String

pub record SimulationReport : Type 0 where
  pub workflow_id : String
  pub would_complete : Bool
  pub steps : List SimulatedStepOutcome
  pub workflow_condition_failure : Option String

module _ (py : Builtins) (room : ℕ) (library : Library) (context : Context) where
  -- The first loop: whether no condition of the workflow fails.
  unfoldable pub conditions_pass : List Condition → Result Bool
  conditions_pass [] = ok true
  conditions_pass (c ∷ cs) = do
    b ← evaluate py room library context c
    elim b [ false ↦ ok false | true ↦ conditions_pass cs ]

  unfoldable pub simulate_step : WorkflowStep → Result SimulatedStepOutcome
  simulate_step step = elim step.condition [
    | none ↦
        ok (record {
          step_order = step.order;
          name = step.name;
          would_run = true;
          skip_reason = none;
        })
    | some c ↦ do
      would_run ← evaluate py room library context c
      ok (record {
        step_order = step.order;
        name = step.name;
        would_run = would_run;
        skip_reason = if would_run then none else some "Condition de l'étape non satisfaite.";
      })
  ]

  unfoldable pub simulate_steps : List WorkflowStep → Result (List SimulatedStepOutcome)
  unfolding simulate_step
  simulate_steps [] = ok []
  simulate_steps (s ∷ ss) = do
    outcome ← simulate_step s
    outcomes ← simulate_steps ss
    ok (outcome ∷ outcomes)

  unfoldable pub simulate : Workflow → Result SimulationReport
  unfolding conditions_pass simulate_steps
  simulate workflow = do
    passed ← conditions_pass workflow.conditions
    elim passed [
      | false ↦ ok (record {
        workflow_id = workflow.id;
        would_complete = false;
        steps = [];
        workflow_condition_failure =
            some "Une condition de niveau workflow n'est pas satisfaite par le contexte fourni.";
      })
      | true ↦ do
        outcomes ← simulate_steps (ordered_steps workflow)
        ok (record {
          workflow_id = workflow.id;
          would_complete = true;
          steps = outcomes;
          workflow_condition_failure = none;
        })
    ]
