-- ===== src/Execution/Extension.antt =====
-- What `_run_from` keeps: the results that an execution has, and its identity.
use tmis.Prelude.{
  String, ◌≡◌, refl, sym, ◌∙◌, inl, inr, Option, none, some, List, [], ◌∷◌, ◌++◌, Bool-cases,
  Option-cases, ◌==◌, nat_eq, string_eq, key_eq, drop,
}
use tmis.Prelude.Python.{Result, ok, raise}
use tmis.Workflow.Schemas.{WorkflowStep, Workflow, ordered_steps}
use mathlib.Core.List.{append_assoc, append-nil}
use tmis.Condition.{Context, Library}
use tmis.Action.{Engine}
use tmis.Execution.Schemas.{StepExecutionResult, WorkflowExecution}
use tmis.Execution.Step.{Setting, results}
use tmis.Execution.Run.{
  Progress, Outcome, record_results, run_group, run_single, continue, run_steps, close_span, settle,
  run_from, start,
}

-- The later state of an execution: its earlier results come first, and the fields that `start` sets
-- once and for all are the same.
pub record Extends (e e' : WorkflowExecution) : Type 0 where
  pub added : List StepExecutionResult
  pub extended : e'.step_results ≡ e.step_results ++ added
  pub same_id : e'.id ≡ e.id
  pub same_firm : e'.firm_id ≡ e.firm_id
  pub same_workflow : e'.workflow_id ≡ e.workflow_id
  pub same_start : e'.started_at ≡ e.started_at

Extends-refl : (e : WorkflowExecution) → Extends e e
Extends-refl e = record {
  added = [];
  extended = sym (append-nil e.step_results);
  same_id = refl;
  same_firm = refl;
  same_workflow = refl;
  same_start = refl;
}

Extends-trans : {e f g : WorkflowExecution} → Extends e f → Extends f g → Extends e g
Extends-trans {e} h k = record {
  added = h.added ++ k.added;
  extended = k.extended ∙ rw h.extended (append_assoc e.step_results h.added k.added);
  same_id = k.same_id ∙ h.same_id;
  same_firm = k.same_firm ∙ h.same_firm;
  same_workflow = k.same_workflow ∙ h.same_workflow;
  same_start = k.same_start ∙ h.same_start;
}

module _ {W : Type 0} (setting : Setting W) (library : Library) (context : Context) where
  abbrev To : WorkflowExecution → Outcome setting library context → Type 0
  To e o = Extends e o.1.execution

  record_results-To :
      (p : Progress W) (o : Result (List StepExecutionResult) × Engine W)
      → To p.execution (record_results setting library context p o)
  unfolding record_results
  record_results-To p (raise exc, m) = Extends-refl p.execution
  record_results-To p (ok rs, m) = record {
    added = rs;
    extended = refl;
    same_id = refl;
    same_firm = refl;
    same_workflow = refl;
    same_start = refl;
  }

  run_group-To :
      (group : List WorkflowStep) (p : Progress W)
      → To p.execution (run_group setting library context group p)
  unfolding run_group
  run_group-To group p = record_results-To p _

  run_single-To :
      (s : WorkflowStep) (p : Progress W) → To p.execution (run_single setting library context s p)
  unfolding run_single
  run_single-To s p = record_results-To p _

  continue-To :
      (e : WorkflowExecution) (o : Outcome setting library context)
      (next : Progress W → Outcome setting library context)
      → To e o
      → ((p : Progress W) → To p.execution (next p))
      → To e (continue setting library context o next)
  continue-To e (ok u, p) next h n = Extends-trans h (n p)
  continue-To e (raise exc, p) next h n = h

  single_then :
      (s : WorkflowStep) (next : Progress W → Outcome setting library context) (p : Progress W)
      → ((p : Progress W) → To p.execution (next p))
      → To p.execution
          (continue setting library context (run_single setting library context s p) next)
  single_then s next p n =
      continue-To p.execution (run_single setting library context s p) next (run_single-To s p) n

  group_then :
      (group : List WorkflowStep) (next : Progress W → Outcome setting library context)
      (p : Progress W)
      → ((p : Progress W) → To p.execution (next p))
      → To p.execution
          (continue setting library context (run_group setting library context group p) next)
  group_then group next p n =
      continue-To p.execution (run_group setting library context group p) next
        (run_group-To group p) n

  run_steps-To :
      (pending : Option (String × List WorkflowStep)) (rest : List WorkflowStep) (p : Progress W)
      → To p.execution (run_steps setting library context pending rest p)
  unfolding run_steps
  run_steps-To none [] p = Extends-refl p.execution
  run_steps-To (some (tag, group)) [] p = run_group-To group p
  run_steps-To none (s ∷ rest) p = elim (Option-cases s.parallel_group) [
    | inl alone ↦
        rw (alone, run_steps)
          (single_then s (run_steps setting library context none rest) p (run_steps-To none rest))
    | inr (tag, grouped) ↦ rw (grouped, run_steps) (run_steps-To (some (tag, s ∷ [])) rest p)
  ]
  run_steps-To (some (tag, group)) (s ∷ rest) p =
      let go = run_steps setting library context in
      elim (Option-cases s.parallel_group) [
        | inl alone ↦
            rw (alone, run_steps)
              (group_then group
                (λ p'.
                  continue setting library context (run_single setting library context s p')
                    (go none rest))
                p (λ p'. single_then s (go none rest) p' (run_steps-To none rest)))
        | inr (tag', grouped) ↦ elim (Bool-cases (tag' == tag)) [
          | inl same ↦
              rw (grouped, run_steps)
                (rw (same, run_steps) (run_steps-To (some (tag, group ++ s ∷ [])) rest p))
          | inr other ↦
              rw (grouped, run_steps)
                (rw (other, run_steps)
                  (group_then group (go (some (tag', s ∷ [])) rest) p
                    (run_steps-To (some (tag', s ∷ [])) rest)))
        ]
      ]

  -- A later state with the same results and identity.
  again :
      {e f g : WorkflowExecution}
      → Extends e f
      → g.step_results ≡ f.step_results
      → g.id ≡ f.id
      → g.firm_id ≡ f.firm_id
      → g.workflow_id ≡ f.workflow_id
      → g.started_at ≡ f.started_at
      → Extends e g
  again h results ident firm workflow start = record {
    added = h.added;
    extended = results ∙ h.extended;
    same_id = ident ∙ h.same_id;
    same_firm = firm ∙ h.same_firm;
    same_workflow = workflow ∙ h.same_workflow;
    same_start = start ∙ h.same_start;
  }

  settle-Extends :
      (e : WorkflowExecution) (o : Outcome setting library context)
      → To e o
      → Extends e (settle setting library context o).execution
  unfolding settle
  settle-Extends e (ok u, p) h = elim (Option-cases p.execution.telemetry_span_id) [
    | inl untraced ↦ rw (untraced, close_span) (again h refl refl refl refl refl)
    | inr (span, traced) ↦ rw (traced, close_span) (again h refl refl refl refl refl)
  ]
  settle-Extends e (raise exc, p) h = elim (Option-cases p.execution.telemetry_span_id) [
    | inl untraced ↦ rw (untraced, close_span) (again h refl refl refl refl refl)
    | inr (span, traced) ↦ rw (traced, close_span) (again h refl refl refl refl refl)
  ]

  pub run_from-Extends :
      (workflow : Workflow) (p : Progress W)
      → Extends p.execution (run_from setting library context workflow p).execution
  unfolding run_from
  run_from-Extends workflow p =
      let left = drop p.execution.current_step_index (ordered_steps workflow) in
      settle-Extends p.execution (run_steps setting library context none left p)
        (run_steps-To none left p)
