-- ===== src/Execution/Schemas.antt =====
-- The state of an execution, and the calls that the engine makes to other parts of the program:
-- execution_engine/schemas.py, and the calls of cloud_operations and of workflow_automation/metrics
-- in execution_engine/engine.py.
use tmis.Prelude.{
  ℕ, String, Bool, ◌&&◌, Option, List, [], ◌∷◌, if◌then◌else◌, ◌==◌, nat_eq, string_eq, key_eq,
}
use tmis.Prelude.Dict.{Dict, put}
use tmis.Prelude.Python.{Exception}
use tmis.Prelude.Int.{ℤ}
use tmis.Action.{ActionResult}

pub data ExecutionStatus : Type 0 where
  pending running paused completed failed cancelled : ExecutionStatus

-- The text of a status in a message.
abbrev pub value : ExecutionStatus → String
value pending = "pending"
value running = "running"
value paused = "paused"
value completed = "completed"
value failed = "failed"
value cancelled = "cancelled"

pub record StepExecutionResult : Type 0 where
  pub step_order : ℤ
  pub skipped : Bool
  pub action_result : Option ActionResult

pub record WorkflowExecution : Type 0 where
  pub id : String
  pub firm_id : String
  pub workflow_id : String
  pub status : ExecutionStatus
  pub current_step_index : ℕ
  pub step_results : List StepExecutionResult
  pub failure_reason : Option String
  pub started_at : Option ℕ
  pub completed_at : Option ℕ
  pub telemetry_span_id : Option String

-- `WorkflowRunMetrics`, with times in milliseconds.
pub record WorkflowRunMetrics : Type 0 where
  pub workflow_id : String
  pub execution_id : String
  pub duration_ms : ℤ
  pub step_count : ℕ
  pub error_count : ℕ
  pub validation_count : ℕ
  pub cancellation_count : ℕ
  pub retry_count : ℕ
  pub ai_automations_triggered : ℕ

-- A call to the metrics, tracing and error tracking engines, in the order in which they are made.
pub data Telemetry : Type 0 where
  workflow_count : (workflow_name firm_id : String) → Telemetry
  span_started :
      (trace_id span_id workflow_name firm_id execution_id workflow_id : String) → Telemetry
  span_ended : (span_id : String) → (is_error : Bool) → Telemetry
  error_recorded : (exc : Exception) → (firm_id : String) → Telemetry
  run_recorded : WorkflowRunMetrics → Telemetry

-- `InMemoryExecutionStore`
abbrev pub ExecutionStore : Type 0
ExecutionStore = Dict (String × String) WorkflowExecution

unfoldable pub add : ExecutionStore → WorkflowExecution → ExecutionStore
add store e = put store (e.firm_id, e.id) e

unfoldable pub list_for_workflow : ExecutionStore → String → String → List WorkflowExecution
list_for_workflow [] firm_id workflow_id = []
list_for_workflow (((fid, _), e) ∷ store) firm_id workflow_id =
    if fid == firm_id && e.workflow_id == workflow_id
    then e ∷ list_for_workflow store firm_id workflow_id
    else list_for_workflow store firm_id workflow_id
