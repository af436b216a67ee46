-- ===== src/Execution/Samples.antt =====
-- A workflow with a group of two steps and a step with a condition, run to its end.
use tmis.Prelude.{
  ℕ, String, ◌≡◌, refl, true, false, Option, none, some, List, [], ◌∷◌, ◌++◌, nat_eq, string_eq,
  key_eq,
}
use tmis.Prelude.Dict.{get, put}
use tmis.Prelude.Sort.{sort}
use tmis.Prelude.Python.{workflow_execution_error, Result, ok, raise, append}
use tmis.Prelude.Sample.{plain}
use tmis.Prelude.Int.{ℤ, pos}
use tmis.Execution.Run.{
  Executor, all_hold, record_started, fresh_execution, start, may_resume, kept, resume,
}
use tmis.Execution.Extension.{Extends}
use tmis.Execution.Outcomes.{IsInterrupted, Ended, resume_lem, Starts, start_lem}
use tmis.Condition.{Condition, cond_role_is, Context, evaluate}
use tmis.Action.{execute}
use tmis.Action.Samples.{mail, stamp_of, mailer}
use tmis.Retry.{run}
use tmis.Workflow.Schemas.{active, WorkflowStep, Workflow}
use tmis.Execution.Schemas.{completed, failed, value, StepExecutionResult, WorkflowExecution, add}
use tmis.Execution.Step.{Setting, attempt, gather}
use tmis.Execution.Steps.{Covers}
use tmis.Execution.Gather.{gather-Covers}

abbrev pub here : Setting ℕ
here = record {
  py = plain;
  room = 10;
  stamp = stamp_of;
  timed_out = λ n. false;
  sleep = λ delay n. n;
  max_attempts = 3;
  choice = λ n. 1;
}

abbrev step_of : ℤ → Option Condition → Option String → WorkflowStep
step_of order test tag = record {
  order = order;
  name = "Mail";
  action = mail;
  condition = test;
  parallel_group = tag;
}

abbrev last_step : List WorkflowStep
last_step = step_of (pos 3) (some (cond_role_is "partner")) none ∷ []

abbrev pair : List WorkflowStep
pair = step_of (pos 1) none (some "both") ∷ step_of (pos 2) none (some "both") ∷ []

abbrev pub intake : Workflow
intake = record {
  id = "w1";
  workflow_key = "key";
  firm_id = "f";
  name = "Intake";
  version = 1;
  owner = "ann";
  description = "";
  triggers = [];
  conditions = [];
  steps = last_step ++ pair;
  status = active;
  created_at = 0;
}

abbrev pub idle : Executor ℕ
idle = record { store = []; actions = mailer; emitted = [] }

abbrev pub partner : Context
partner = ("role", "partner") ∷ []

abbrev pub got : {A : Type 0} → A → Result A → A
got otherwise (ok a) = a
got otherwise (raise exc) = otherwise

abbrev pub unstarted : WorkflowExecution
unstarted = fresh_execution here [] partner "e1" 0 intake

-- The execution that `start` returns.
abbrev pub done_run : WorkflowExecution
done_run = got unstarted (start here [] partner "e1" "span" intake idle).0

pub started_ok : (start here [] partner "e1" "span" intake idle).0 ≡ ok done_run
unfolding start get execute run attempt evaluate record_started sort
started_ok = refl

pub done_run-completed : done_run.status ≡ completed
unfolding start get execute run attempt evaluate record_started sort
done_run-completed = refl

abbrev group_results : List StepExecutionResult
group_results = got [] (gather here [] partner "f" "e1" pair mailer).0

gathered_ok : (gather here [] partner "f" "e1" pair mailer).0 ≡ ok group_results
unfolding get execute gather
gathered_ok = refl

gather-Covers_example : Covers here [] partner pair group_results []
gather-Covers_example = gather-Covers here [] partner "f" "e1" pair mailer group_results gathered_ok

start_lem_example :
    Starts here [] partner intake
      (all_hold here [] partner intake.conditions)
      (start here [] partner "e1" "span" intake idle).0
      idle
      (start here [] partner "e1" "span" intake idle).1
start_lem_example = start_lem here [] partner intake "e1" "span" idle

-- An execution that failed after the group of two, and a store that holds it.
abbrev stopped_run : WorkflowExecution
stopped_run = record unstarted {
  status = failed;
  failure_reason = some "no answer";
  step_results = group_results;
  current_step_index = 2;
}

abbrev holding : Executor ℕ
holding = record idle { store = (("f", "e1"), stopped_run) ∷ [] }

stopped_run-IsInterrupted : IsInterrupted here [] partner intake stopped_run
unfolding sort get execute gather
stopped_run-IsInterrupted =
    let (first_one, (second_one, _)) =
      gather-Covers here [] partner "f" "e1" pair mailer group_results gathered_ok in
    (last_step, record { covered = (first_one, (second_one, refl)); counted = refl })

resume_lem_example :
    (may_resume here [] partner stopped_run.status ≡ true
      → (e' : WorkflowExecution) × ((resume here [] partner stopped_run intake holding).0 ≡ ok e')
        × Ended here [] partner intake e'
        × Extends stopped_run e'
        × ((resume here [] partner stopped_run intake holding).1.store
            ≡ kept here [] partner holding.store e'))
    × (may_resume here [] partner stopped_run.status ≡ false
        → ((resume here [] partner stopped_run intake holding).0
            ≡ raise (
                workflow_execution_error
                  (append "Cannot resume execution in status " (value stopped_run.status))))
          × ((resume here [] partner stopped_run intake holding).1 ≡ holding))
resume_lem_example = resume_lem here [] partner intake stopped_run holding stopped_run-IsInterrupted

resumed-held :
    get (resume here [] partner stopped_run intake holding).1.store ("f", "e1")
    ≡ some (got unstarted (resume here [] partner stopped_run intake holding).0)
unfolding resume get put add execute run attempt evaluate record_started sort
resumed-held = refl
