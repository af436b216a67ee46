-- ===== src/Workflow/Schemas.antt =====
-- The `Workflow` aggregate: workflow_engine/schemas.py.
use tmis.Prelude.Int.{ℤ, leb_ℤ}
use tmis.Prelude.{ℕ, String, Option, List}
use tmis.Prelude.Sort.{sort}
use tmis.Condition.{Condition}
use tmis.Action.{Action}
use tmis.Trigger.{Trigger}

pub data WorkflowStatus : Type 0 where
  draft active archived : WorkflowStatus

pub record WorkflowStep : Type 0 where
  pub order : ℤ
  pub name : String
  pub action : Action
  pub condition : Option Condition
  pub parallel_group : Option String

pub record Workflow : Type 0 where
  pub id : String
  pub workflow_key : String
  pub firm_id : String
  pub name : String
  pub version : ℕ
  pub owner : String
  pub description : String
  pub triggers : List Trigger
  pub conditions : List Condition
  pub steps : List WorkflowStep
  pub status : WorkflowStatus
  pub created_at : ℕ

-- `sorted(workflow.steps, key=lambda s: s.order)`
abbrev pub ordered_steps : Workflow → List WorkflowStep
ordered_steps workflow = sort (λ a b. leb_ℤ a.order b.order) workflow.steps
