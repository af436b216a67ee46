-- ===== src/Execution/Step.antt =====
-- One step of an execution, and a group of steps that `asyncio.gather` runs together: `_run_step`
-- and its use in `_run_from`, execution_engine/engine.py.
use tmis.Prelude.{
  ℕ, zero, suc, ◌+◌, ◌-◌, ◌^◌, String, Bool, true, false, not, ◌&&◌, ◌||◌, Option, none, some, List,
  [], ◌∷◌, ltb, if◌then◌else◌, all,
}
use tmis.Prelude.Python.{
  Exception, workflow_execution_error, assertion_error, timeout_error, Result, ok, raise, ◌>>=◌,
  Builtins,
}
use tmis.Condition.{Context, Library, evaluate}
use tmis.Action.{ActionResult, Stamp, Engine, execute}
use tmis.Retry.{run}
use tmis.Workflow.Schemas.{WorkflowStep}
use tmis.Execution.Schemas.{StepExecutionResult}

-- What surrounds the engine: the built-ins, the room on the stack for conditions, the stamps of a
-- world, whether `asyncio.wait_for` gave up on the call that left the world so, how
-- `asyncio.sleep` moves the world on, the retry limit, and, among the tasks of a group that are
-- not finished, the one that the event loop moves next.
pub record Setting (W : Type 0) : Type 1 where
  pub py : Builtins
  pub room : ℕ
  pub stamp : W → Stamp
  pub timed_out : W → Bool
  pub sleep : ℕ → W → W
  pub max_attempts : ℕ
  pub choice : W → ℕ

-- A task of a group: not started, between two attempts, or finished.
pub data Task : Type 0 where
  waiting : WorkflowStep → Task
  trying : WorkflowStep → (attempt left : ℕ) → (last_error : Option Exception) → Task
  finished : StepExecutionResult → Task

abbrev pub skipped_result : WorkflowStep → StepExecutionResult
skipped_result step = record { step_order = step.order; skipped = true; action_result = none }

abbrev pub done_result : WorkflowStep → ActionResult → StepExecutionResult
done_result step r = record { step_order = step.order; skipped = false; action_result = some r }

abbrev pub is_finished : Task → Bool
is_finished (finished r) = true
is_finished _ = false

-- The results of finished tasks, in the order of the tasks.
abbrev pub results : List Task → List StepExecutionResult
results [] = []
results (finished r ∷ ts) = r ∷ results ts
results (_ ∷ ts) = results ts

abbrev pub start_tasks : List WorkflowStep → List Task
start_tasks [] = []
start_tasks (s ∷ ss) = waiting s ∷ start_tasks ss

abbrev pub sleep_engine : {W : Type 0} → (ℕ → W → W) → ℕ → Engine W → Engine W
sleep_engine sleep n m = record m { world = sleep n m.world }

module _ (max_attempts : ℕ) where
  -- The moves that a task can still make.
  abbrev pub work : Task → ℕ
  work (waiting step) = max_attempts + 2
  work (trying step i left e) = left + 1
  work (finished r) = 0

  abbrev pub total_work : List Task → ℕ
  total_work [] = 0
  total_work (t ∷ ts) = work t + total_work ts

module _ {W : Type 0} (setting : Setting W) (library : Library) (context : Context) where
  open setting use {py, room}

  -- Whether the step's own condition lets it run.
  unfoldable pub gate : WorkflowStep → Result Bool
  gate step = elim step.condition [ none ↦ ok true | some c ↦ evaluate py room library context c ]

module _ {W : Type 0} (setting : Setting W) (library : Library) (context : Context)
    (firm_id execution_id : String) where
  open setting use {py, stamp, timed_out, sleep, max_attempts, choice}

  -- `_execute`: the call of the action engine under `wait_for`, and the test of its result. The
  -- thread of a call that timed out is not stopped, so its entry is in the journal all the same.
  unfoldable pub attempt : WorkflowStep → Engine W → Result ActionResult × Engine W
  attempt step m =
      let (outcome, m') = execute py stamp firm_id execution_id step.action context m in
      if timed_out m'.world then (raise timeout_error, m') else (
        (do
          result ← outcome
          if result.success then ok result else raise (workflow_execution_error result.detail)),
        m',
      )

  -- A step that runs alone.
  unfoldable pub run_step : WorkflowStep → Engine W → Result StepExecutionResult × Engine W
  run_step step m = elim (gate setting library context step) [
    | raise exc ↦ (raise exc, m)
    | ok false ↦ (ok (skipped_result step), m)
    | ok true ↦
        let (outcome, m') = run (sleep_engine sleep) (attempt step) max_attempts m in
        ((do r ← outcome; ok (done_result step r)), m')
  ]

  -- A task's next move: the test of its condition, or one attempt of its action and the delay
  -- after it. An exception is what `gather` raises.
  unfoldable pub move : Task → Engine W → Result Task × Engine W
  move (finished r) m = (ok (finished r), m)
  move (waiting step) m = elim (gate setting library context step) [
    | raise exc ↦ (raise exc, m)
    | ok false ↦ (ok (finished (skipped_result step)), m)
    | ok true ↦ (ok (trying step 0 max_attempts none), m)
  ]
  move (trying step i zero none) m = (raise assertion_error, m)
  move (trying step i zero (some exc)) m = (raise exc, m)
  move (trying step i (suc left) _) m =
      let (outcome, m') = attempt step m in
      elim outcome [
        | ok r ↦ (ok (finished (done_result step r)), m')
        | raise exc ↦ (
          ok (trying step (i + 1) left (some exc)),
          (if ltb 0 left then sleep_engine sleep (2 ^ i) m' else m'),
        )
      ]

  -- Moves the unfinished task at place `k`, or the last one if there are not so many.
  unfoldable pub advance : ℕ → List Task → Engine W → Result (List Task) × Engine W
  advance k [] m = (ok [], m)
  advance k (t ∷ ts) m =
      let later = advance (if is_finished t then k else k - 1) ts m in
      let now = move t m in
      if is_finished t || (ltb 0 k && not (all is_finished ts))
      then ((do ts' ← later.0; ok (t ∷ ts')), later.1)
      else ((do t' ← now.0; ok (t' ∷ ts)), now.1)

  -- Moves tasks, as the event loop chooses, until all are finished or one raises.
  unfoldable pub gather_from :
      ℕ → List Task → Engine W → Result (List StepExecutionResult) × Engine W
  gather_from zero ts m = (ok (results ts), m)
  gather_from (suc fuel) ts m =
      let (moved, m') = advance (choice m.world) ts m in
      let rest = λ (ts' : List Task). gather_from fuel ts' m' in
      if all is_finished ts
      then (ok (results ts), m)
      else (elim moved [ raise exc ↦ (raise exc, m') | ok ts' ↦ rest ts' ])

  unfoldable pub gather :
      List WorkflowStep → Engine W → Result (List StepExecutionResult) × Engine W
  unfolding gate attempt move advance gather_from
  gather group m = let ts = start_tasks group in gather_from (total_work max_attempts ts) ts m
