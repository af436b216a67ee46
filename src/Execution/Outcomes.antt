-- ===== src/Execution/Outcomes.antt =====
-- How `start` and `resume` end.
use tmis.Prelude.{
  ℕ, String, ◌≡◌, refl, sym, ap, ◌∙◌, subst, inl, inr, Bool, true, false, none, some, List, [], ◌∷◌,
  Option-cases, nat_eq, string_eq, key_eq, length, drop,
}
use tmis.Prelude.Dict.{get}
use tmis.Prelude.Python.{workflow_execution_error, Result, ok, raise, Result-cases, append}
use tmis.Execution.Run.{
  Progress, Executor, Outcome, close_span, settle, run_from, all_hold, record_started,
  fresh_execution, begin, start, may_resume, kept, resume,
}
use tmis.Execution.Extension.{Extends, run_from-Extends}
use tmis.Condition.{Context, Library}
use tmis.Workflow.Schemas.{WorkflowStep, Workflow, ordered_steps}
use tmis.Execution.Schemas.{
  running, completed, failed, cancelled, value, StepExecutionResult, WorkflowExecution, add,
}
use tmis.Execution.Step.{Setting}
use tmis.Execution.Steps.{Covers}
use tmis.Execution.Progression.{IsAt, Lands, run_steps-Lands}

drop-Covers :
    {W : Type 0} (setting : Setting W) (library : Library) (context : Context)
    (steps : List WorkflowStep) (rs : List StepExecutionResult) (rest : List WorkflowStep)
    → Covers setting library context steps rs rest
    → drop (length rs) steps ≡ rest
drop-Covers setting library context steps [] rest h = h
drop-Covers setting library context [] (r ∷ rs) rest h = elim h [ ]
drop-Covers setting library context (s ∷ steps) (r ∷ rs) rest h =
    drop-Covers setting library context steps rs rest h.1

module _ {W : Type 0} (setting : Setting W) (library : Library) (context : Context)
    (workflow : Workflow) where
  abbrev pub steps : List WorkflowStep
  steps = ordered_steps workflow

  -- Every step has its result, and the results match the steps.
  abbrev pub IsFinished : WorkflowExecution → Type 0
  IsFinished e = IsAt setting library context steps [] e

  -- Some first steps have their results, which match, and the index is their number.
  abbrev pub IsInterrupted : WorkflowExecution → Type 0
  IsInterrupted e = (rest : List WorkflowStep) × IsAt setting library context steps rest e

  -- What a run ends in.
  pub data Ended (e : WorkflowExecution) : Type 0 where
    all_done : e.status ≡ completed → IsFinished e → Ended e
    stopped :
        (reason : String)
        → e.status ≡ failed
        → e.failure_reason ≡ some reason
        → IsInterrupted e
        → Ended e

  settle-execution :
      (o : Outcome setting library context)
      → Lands setting library context steps o
      → Ended (settle setting library context o).execution
  unfolding settle
  settle-execution (ok u, p) at = elim (Option-cases p.execution.telemetry_span_id) [
    | inl untraced ↦
        rw (untraced, close_span)
          (all_done refl (record { covered = at.covered; counted = at.counted }))
    | inr (span, traced) ↦
        rw (traced, close_span)
          (all_done refl (record { covered = at.covered; counted = at.counted }))
  ]
  settle-execution (raise exc, p) (rest, at) = elim (Option-cases p.execution.telemetry_span_id) [
    | inl untraced ↦
        rw (untraced, close_span)
          (stopped _ refl refl (rest, record { covered = at.covered; counted = at.counted }))
    | inr (span, traced) ↦
        rw (traced, close_span)
          (stopped _ refl refl (rest, record { covered = at.covered; counted = at.counted }))
  ]

  run_from-Ended :
      (p : Progress W)
      → IsInterrupted p.execution
      → Ended (run_from setting library context workflow p).execution
  unfolding run_from
  run_from-Ended p (rest, at) =
      let left : drop p.execution.current_step_index steps ≡ rest =
        ap (λ n. drop n steps) (sym at.counted)
        ∙ drop-Covers setting library context steps p.execution.step_results rest at.covered in
      settle-execution _ (
        run_steps-Lands setting library context steps none
          (drop p.execution.current_step_index steps) p
          (subst (λ l. IsAt setting library context steps l p.execution) (sym left) at))

  -- What `resume` runs on.
  abbrev reopened : WorkflowExecution → Executor W → Progress W
  reopened e x = record {
    execution = record e { status = running; failure_reason = none };
    engine = x.actions;
    telemetry = x.emitted;
  }

  -- Resuming an execution whose results match the first steps: if it had failed or was paused, it
  -- keeps its identity and its results, to which the run only adds, and runs to an end in which it
  -- is completed, with a result for every step that matches it, or has failed again, with a reason,
  -- its index the number of results and each of these matching its step. The store has the last
  -- state if it held the execution, and is unchanged if not. In any other status the call raises and
  -- changes nothing.
  pub resume_lem :
      (e : WorkflowExecution) (x : Executor W)
      → IsInterrupted e
      → (may_resume setting library context e.status ≡ true
          → (e' : WorkflowExecution) × ((resume setting library context e workflow x).0 ≡ ok e')
            × Ended e'
            × Extends e e'
            × ((resume setting library context e workflow x).1.store
                ≡ kept setting library context x.store e'))
        × (may_resume setting library context e.status ≡ false
            → ((resume setting library context e workflow x).0
                ≡ raise (
                    workflow_execution_error
                      (append "Cannot resume execution in status " (value e.status))))
              × ((resume setting library context e workflow x).1 ≡ x))
  unfolding resume
  resume_lem e x (rest, at) =
      let run_on = run_from-Extends setting library context workflow (reopened e x) in
      (
        λ allowed. (
          (run_from setting library context workflow (reopened e x)).execution,
          rw (allowed, resume) refl,
          run_from-Ended (reopened e x)
              (rest, record { covered = at.covered; counted = at.counted }),
          record {
            added = run_on.added;
            extended = run_on.extended;
            same_id = run_on.same_id;
            same_firm = run_on.same_firm;
            same_workflow = run_on.same_workflow;
            same_start = run_on.same_start;
          },
          rw (allowed, resume) refl,
        ),
        λ refused. (rw (refused, resume) refl, rw (refused, resume) refl),
      )

  -- The execution that `start` makes, before any step.
  fresh-IsInterrupted :
      (id : String) (at : ℕ)
      → IsInterrupted (fresh_execution setting library context id at workflow)
  fresh-IsInterrupted id at = (steps, record { covered = refl; counted = refl })

  record_started-IsInterrupted :
      (span : String) (p : Progress W)
      → IsInterrupted p.execution
      → IsInterrupted (record_started setting library context span workflow p).execution
  unfolding record_started
  record_started-IsInterrupted span p (rest, at) = elim (Option-cases (get context "trace_id")) [
    | inl untraced ↦ rw (untraced, record_started) (rest, at)
    | inr (t, traced) ↦
        rw (traced, record_started) (rest, record { covered = at.covered; counted = at.counted })
  ]

  engine-record_started :
      (span : String) (p : Progress W)
      → (record_started setting library context span workflow p).engine ≡ p.engine
  unfolding record_started
  engine-record_started span p = elim (Option-cases (get context "trace_id")) [
    | inl untraced ↦ rw (untraced, record_started) refl
    | inr (t, traced) ↦ rw (traced, record_started) refl
  ]

  -- How `start` ends: the workflow's conditions decide.
  abbrev pub Starts : Result Bool → Result WorkflowExecution → Executor W → Executor W → Type 0
  Starts (raise exc) r x y = (r ≡ raise exc) × (y.actions ≡ x.actions)
  Starts (ok false) r x y =
      (e : WorkflowExecution) × (r ≡ ok e)
      × (e.status ≡ cancelled)
      × (y.actions ≡ x.actions)
      × (y.store ≡ add x.store e)
  Starts (ok true) r x y =
      (e : WorkflowExecution) × (r ≡ ok e) × Ended e × (y.store ≡ add x.store e)

  -- Starting a workflow: an exception of its conditions is passed on, and conditions that do not
  -- hold cancel the execution, and in both cases no action is run. If they hold, the execution
  -- ends completed, with a result for every step that matches it, or failed, with a reason and
  -- results that match the first steps. A returned execution is the one in the store.
  pub start_lem :
      (id span : String) (x : Executor W)
      → Starts
          (all_hold setting library context workflow.conditions)
          (start setting library context id span workflow x).0
          x
          (start setting library context id span workflow x).1
  unfolding start begin
  start_lem id span x =
      let fresh =
        fresh_execution setting library context id (setting.stamp x.actions.world).at workflow in
      let opened : Progress W = record {
        execution = fresh;
        engine = x.actions;
        telemetry = x.emitted;
      } in
      let p = record_started setting library context span workflow opened in
      let same : p.engine ≡ x.actions = engine-record_started span opened in
      elim (Result-cases (all_hold setting library context workflow.conditions)) [
        | inl (true, e) ↦
            rw (e, begin)
              (
                (run_from setting library context workflow p).execution,
                refl,
                run_from-Ended p (
                    record_started-IsInterrupted span opened
                      (fresh-IsInterrupted id (setting.stamp x.actions.world).at)),
                refl,
              )
        | inl (false, e) ↦ rw (e, begin) (_, refl, refl, same, refl)
        | inr (exc, e) ↦ rw (e, begin) (refl, same)
      ]
