-- ===== src/Execution/Run.antt =====
-- A whole run of an execution: `start`, `get`, `resume` and `_run_from`, with the telemetry that
-- they emit, execution_engine/engine.py.
use tmis.Prelude.{
  ℕ, ◌+◌, String, Bool, true, false, Option, none, some, List, [], ◌∷◌, ◌++◌, if◌then◌else◌, ◌==◌,
  nat_eq, string_eq, key_eq, length, drop,
}
use tmis.Prelude.Dict.{get}
use tmis.Prelude.Python.{
  key_error, workflow_execution_error, Result, ok, raise, ◌>>=◌, ◌>>◌, append,
}
use tmis.Prelude.Int.{ℤ, pos, sub_ℕ}
use tmis.Condition.{Condition, Context, Library, evaluate}
use tmis.Action.{Engine}
use tmis.Workflow.Schemas.{WorkflowStep, Workflow, ordered_steps}
use tmis.Execution.Schemas.{
  ExecutionStatus, running, paused, completed, failed, cancelled, value, StepExecutionResult,
  WorkflowExecution, Telemetry, workflow_count, span_started, span_ended, error_recorded,
  run_recorded, ExecutionStore, add,
}
use tmis.Execution.Step.{Setting, run_step, gather}

-- The execution object, which its store shares, and the action engine.
pub record Progress (W : Type 0) : Type 0 where
  pub execution : WorkflowExecution
  pub engine : Engine W
  pub telemetry : List Telemetry

-- `ExecutionEngine` with its store, beside the action engine and the telemetry that was emitted.
pub record Executor (W : Type 0) : Type 0 where
  pub store : ExecutionStore
  pub actions : Engine W
  pub emitted : List Telemetry

-- `ExecutionEngine.get`
unfoldable pub get_execution : ExecutionStore → String → String → Result WorkflowExecution
get_execution store firm_id execution_id = elim (get store (firm_id, execution_id)) [
  | none ↦ raise (key_error execution_id)
  | some e ↦ ok e
]

module _ {W : Type 0} (setting : Setting W) (library : Library) (context : Context) where
  open setting use {py, room, stamp}

  abbrev pub Outcome : Type 0
  Outcome = Result (Unit {0}) × Progress W

  -- `execution.step_results.extend(results)`, and the index moves on; an exception leaves both.
  unfoldable pub record_results :
      Progress W → Result (List StepExecutionResult) × Engine W → Outcome
  record_results p (raise exc, m) = (raise exc, record p { engine = m })
  record_results p (ok rs, m) = (
    ok tt,
    record p {
      execution = record p.execution {
        step_results = p.execution.step_results ++ rs;
        current_step_index = p.execution.current_step_index + length rs;
      };
      engine = m;
    },
  )

  unfoldable pub run_group : List WorkflowStep → Progress W → Outcome
  unfolding record_results gather
  run_group group p =
      record_results p
        (gather setting library context p.execution.firm_id p.execution.id group p.engine)

  unfoldable pub run_single : WorkflowStep → Progress W → Outcome
  unfolding record_results run_step
  run_single step p =
      let (r, m) =
        run_step setting library context p.execution.firm_id p.execution.id step p.engine in
      record_results p ((do result ← r; ok (result ∷ [])), m)

  abbrev pub continue : Outcome → (Progress W → Outcome) → Outcome
  continue (raise exc, p) next = (raise exc, p)
  continue (ok _, p) next = next p

  -- The loops of `_run_from` over the remaining steps. The first argument is the group that is being
  -- collected, if any: it runs as soon as a step of another group, or the end, is met.
  unfoldable pub run_steps :
      Option (String × List WorkflowStep) → List WorkflowStep → Progress W → Outcome
  unfolding run_group run_single
  run_steps none [] p = (ok tt, p)
  run_steps (some (tag, group)) [] p = run_group group p
  run_steps none (s ∷ rest) p = elim s.parallel_group [
    | none ↦ continue (run_single s p) (run_steps none rest)
    | some tag' ↦ run_steps (some (tag', s ∷ [])) rest p
  ]
  run_steps (some (tag, group)) (s ∷ rest) p = elim s.parallel_group [
    | none ↦ continue (run_group group p) (λ p'. continue (run_single s p') (run_steps none rest))
    | some tag' ↦ elim (tag' == tag) [
      | true ↦ run_steps (some (tag, group ++ s ∷ [])) rest p
      | false ↦ continue (run_group group p) (run_steps (some (tag', s ∷ [])) rest)
    ]
  ]

  abbrev now : Progress W → ℕ
  now p = (stamp p.engine.world).at

  abbrev emit : Telemetry → Progress W → Progress W
  emit t p = record p { telemetry = p.telemetry ++ t ∷ [] }

  unfoldable pub close_span : Progress W → Progress W
  close_span p = elim p.execution.telemetry_span_id [
    | none ↦ p
    | some span ↦ emit (span_ended span (elim p.execution.status [ failed ↦ true | _ ↦ false ])) p
  ]

  abbrev pub duration : Option ℕ → Option ℕ → ℤ
  duration (some started) (some ended) = sub_ℕ ended started
  duration _ _ = pos 0

  abbrev pub one_if : Bool → ℕ
  one_if b = if b then 1 else 0

  unfoldable pub record_workflow_metrics : Progress W → Progress W
  record_workflow_metrics p =
      let e = p.execution in
      emit
        (run_recorded (record {
          workflow_id = e.workflow_id;
          execution_id = e.id;
          duration_ms =
              duration (elim e.started_at [ none ↦ e.completed_at | some t ↦ some t ])
                e.completed_at;
          step_count = length e.step_results;
          error_count = elim e.status [ failed ↦ 1 | _ ↦ 0 ];
          validation_count = 0;
          cancellation_count = elim e.status [ cancelled ↦ 1 | _ ↦ 0 ];
          retry_count = 0;
          ai_automations_triggered = 0;
        }))
        p

  -- The `else`, `except` and `finally` of the loops.
  unfoldable pub settle : Outcome → Progress W
  unfolding close_span record_workflow_metrics
  settle (ok _, p) = record_workflow_metrics (
      close_span (record p {
        execution = record p.execution { status = completed; completed_at = some (now p) };
      }))
  settle (raise exc, p) = record_workflow_metrics (
      close_span (
        emit (error_recorded exc p.execution.firm_id) (record p {
          execution = record p.execution {
            status = failed;
            failure_reason = some (py.str exc);
            completed_at = some (now p);
          };
        })))

  unfoldable pub run_from : Workflow → Progress W → Progress W
  unfolding run_steps settle
  run_from workflow p =
      settle (run_steps none (drop p.execution.current_step_index (ordered_steps workflow)) p)

  -- `all(evaluate(c, context) for c in workflow.conditions)`
  unfoldable pub all_hold : List Condition → Result Bool
  all_hold [] = ok true
  all_hold (c ∷ cs) = do
    b ← evaluate py room library context c
    elim b [ true ↦ all_hold cs | false ↦ ok false ]

  -- `_record_started`: the span's identifier is the one that the tracing engine gives it.
  unfoldable pub record_started : String → Workflow → Progress W → Progress W
  record_started span_id workflow p =
      let e = p.execution in
      let counted = emit (workflow_count workflow.name e.firm_id) p in
      elim (get context "trace_id") [
        | none ↦ counted
        | some trace_id ↦
            record (emit (span_started trace_id span_id workflow.name e.firm_id e.id workflow.id)
              counted) { execution = record e { telemetry_span_id = some span_id } }
      ]

  abbrev pub fresh_execution : String → ℕ → Workflow → WorkflowExecution
  fresh_execution id at workflow = record {
    id = id;
    firm_id = workflow.firm_id;
    workflow_id = workflow.id;
    status = running;
    current_step_index = 0;
    step_results = [];
    failure_reason = none;
    started_at = some at;
    completed_at = none;
    telemetry_span_id = none;
  }

  -- What `start` does with its new execution. An exception of a workflow condition leaves `start`
  -- with the execution still running.
  unfoldable pub begin : Workflow → Progress W → Result (Unit {0}) × Progress W
  unfolding all_hold run_from
  begin workflow p = elim (all_hold workflow.conditions) [
    | raise exc ↦ (raise exc, p)
    | ok false ↦ (
      ok tt,
      record p {
        execution = record p.execution {
          status = cancelled;
          failure_reason = some "Workflow-level conditions not satisfied";
          completed_at = some (now p);
        };
      },
    )
    | ok true ↦ (ok tt, run_from workflow p)
  ]

  -- `start` adds its execution. The object in the store is the object that the run changes, so the store has its last state.
  abbrev pub stored : Executor W → Progress W → Executor W
  stored x p = record { store = add x.store p.execution; actions = p.engine; emitted = p.telemetry }

  unfoldable pub start :
      String → String → Workflow → Executor W → Result WorkflowExecution × Executor W
  unfolding begin
  start id span_id workflow x =
      let e = fresh_execution id (stamp x.actions.world).at workflow in
      let opened : Progress W = record {
        execution = e;
        engine = x.actions;
        telemetry = x.emitted;
      } in
      let (r, p) = begin workflow (record_started span_id workflow opened) in
      ((do r; ok p.execution), stored x p)

  abbrev pub may_resume : ExecutionStatus → Bool
  may_resume failed = true
  may_resume paused = true
  may_resume _ = false

  -- `resume` adds nothing: the store has the execution's last state only if it holds the execution,
  -- which the firm and the identifier tell.
  abbrev pub kept : ExecutionStore → WorkflowExecution → ExecutionStore
  kept store e = elim (get store (e.firm_id, e.id)) [ none ↦ store | some _ ↦ add store e ]

  abbrev pub shared : Executor W → Progress W → Executor W
  shared x p = record {
    store = kept x.store p.execution;
    actions = p.engine;
    emitted = p.telemetry;
  }

  unfoldable pub resume :
      WorkflowExecution → Workflow → Executor W → Result WorkflowExecution × Executor W
  unfolding run_from
  resume e workflow x =
      let again = record e { status = running; failure_reason = none } in
      let opened : Progress W = record {
        execution = again;
        engine = x.actions;
        telemetry = x.emitted;
      } in
      let p = run_from workflow opened in
      if may_resume e.status then (ok p.execution, shared x p) else (
        raise (
            workflow_execution_error
              (append "Cannot resume execution in status " (value e.status))),
        x,
      )
