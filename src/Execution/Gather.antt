-- ===== src/Execution/Gather.antt =====
-- A group of steps under `asyncio.gather`, whatever order the event loop chooses.
use tmis.Prelude.{
  ℕ, zero, suc, ◌+◌, ◌-◌, ◌≤◌, ◌<◌, String, ◌≡◌, refl, subst, inl, inr, Bool, true, false, not,
  ◌&&◌, ◌||◌, List, [], ◌∷◌, arith, ltb, if◌then◌else◌, Bool-cases, all,
}
use tmis.Prelude.Python.{Result, ok, raise, ◌>>=◌, Result-cases, ok_injective}
use tmis.Execution.Schemas.{StepExecutionResult}
use native.Mathlib.Nat.{le_refl}
use tmis.Condition.{Context, Library}
use tmis.Action.{Engine}
use tmis.Workflow.Schemas.{WorkflowStep}
use tmis.Execution.Step.{
  Setting, Task, waiting, trying, finished, is_finished, results, start_tasks, work, total_work,
  advance, gather_from, gather,
}
use tmis.Execution.Steps.{Covers, TaskFor, move-TaskFor, move-work}

add_lt_left : (w a b : ℕ) → a < b → w + a < w + b
add_lt_left w a b h = omega arith

add_lt_right : (a b w : ℕ) → a < b → a + w < b + w
add_lt_right a b w h = omega arith

-- What the test of `advance` says of the tasks.
rest_unfinished : (f l r : Bool) → (f || (l && not r)) ≡ true → (f && r) ≡ false → r ≡ false
rest_unfinished f l r later e = ground arith

this_unfinished : (f l : Bool) → (f || l) ≡ false → f ≡ false
this_unfinished f l now = ground arith

module _ {W : Type 0} (setting : Setting W) (library : Library) (context : Context)
    (firm_id execution_id : String) where
  -- The tasks of a group, one for each of its steps.
  abbrev TasksFor : List WorkflowStep → List Task → Type 0
  TasksFor [] [] = Unit
  TasksFor [] (t ∷ ts) = ⊥
  TasksFor (s ∷ group) [] = ⊥
  TasksFor (s ∷ group) (t ∷ ts) =
      TaskFor setting library context firm_id execution_id s t × TasksFor group ts

  cons-ok :
      (t : Task) (r : Result (List Task)) (us : List Task)
      → (r >>= λ ts. ok (t ∷ ts)) ≡ ok us
      → (ts : List Task) × (r ≡ ok ts) × (t ∷ ts ≡ us)
  cons-ok t (ok ts) us h = (ts, refl, ok_injective h)
  cons-ok t (raise exc) us h = absurd (cc)

  head-ok :
      (r : Result Task) (ts us : List Task)
      → (r >>= λ t. ok (t ∷ ts)) ≡ ok us
      → (t : Task) × (r ≡ ok t) × (t ∷ ts ≡ us)
  head-ok (ok t) ts us h = (t, refl, ok_injective h)
  head-ok (raise exc) ts us h = absurd (cc)

  abbrev pub Smaller : List Task → List Task → Type 0
  Smaller us ts =
      all is_finished ts ≡ false
      → total_work setting.max_attempts us < total_work setting.max_attempts ts

  -- A move keeps the tasks in line with the steps, and makes progress unless all are finished.
  advance_lem :
      (k : ℕ) (group : List WorkflowStep) (ts us : List Task) (m : Engine W)
      → TasksFor group ts
      → (advance setting library context firm_id execution_id k ts m).0 ≡ ok us
      → TasksFor group us × Smaller us ts
  unfolding advance
  advance_lem k [] [] us m f h = (subst (TasksFor []) (ok_injective h) tt, λ e. absurd (cc))
  advance_lem k [] (t ∷ ts) us m f h = elim f [ ]
  advance_lem k (s ∷ group) [] us m f h = elim f [ ]
  advance_lem k (s ∷ group) (t ∷ ts) us m f h =
      elim (Bool-cases (is_finished t || (ltb 0 k && not (all is_finished ts)))) [
        | inl later ↦
            let j : ℕ = if is_finished t then k else k - 1 in
            let (us', moved, same) = cons-ok t _ us (rw (later, advance) at h) in
            let (fits, less) = advance_lem j group ts us' m f.1 moved in
            subst (λ v. TasksFor (s ∷ group) v × Smaller v (t ∷ ts)) same
              (
                (f.0, fits),
                λ e.
                    add_lt_left (work setting.max_attempts t) _ _
                      (less (rest_unfinished _ _ _ later e)),
              )
        | inr now ↦
            let (t', moved, same) = head-ok _ ts us (rw (now, advance) at h) in
            subst (λ v. TasksFor (s ∷ group) v × Smaller v (t ∷ ts)) same
              (
                (move-TaskFor setting library context firm_id execution_id s t t' m f.0 moved, f.1),
                λ e. add_lt_right _ _ _ (
                    move-work setting library context firm_id execution_id t t' m
                      (this_unfinished _ _ now) moved),
              )
      ]

  -- Finished tasks have results that match the steps.
  results-Covers :
      (group : List WorkflowStep) (ts : List Task)
      → TasksFor group ts
      → all is_finished ts ≡ true
      → Covers setting library context group (results ts) []
  results-Covers [] [] f e = refl
  results-Covers [] (t ∷ ts) f e = elim f [ ]
  results-Covers (s ∷ group) [] f e = elim f [ ]
  results-Covers (s ∷ group) (finished r ∷ ts) f e = (f.0, results-Covers group ts f.1 e)
  results-Covers (s ∷ group) (waiting s' ∷ ts) f e = absurd (cc)
  results-Covers (s ∷ group) (trying s' i left prev ∷ ts) f e = absurd (cc)

  no_work : (ts : List Task) → total_work setting.max_attempts ts ≤ 0 → all is_finished ts ≡ true
  no_work [] h = refl
  no_work (finished r ∷ ts) h = no_work ts (omega arith)
  no_work (waiting s ∷ ts) h = absurd (omega arith)
  no_work (trying s i left prev ∷ ts) h = absurd (omega arith)

  gather_from-Covers :
      (fuel : ℕ) (group : List WorkflowStep) (ts : List Task) (m : Engine W)
      (rs : List StepExecutionResult)
      → TasksFor group ts
      → total_work setting.max_attempts ts ≤ fuel
      → (gather_from setting library context firm_id execution_id fuel ts m).0 ≡ ok rs
      → Covers setting library context group rs []
  unfolding gather_from
  gather_from-Covers zero group ts m rs f w h =
      subst (λ x. Covers setting library context group x []) (ok_injective h)
        (results-Covers group ts f (no_work ts w))
  gather_from-Covers (suc fuel) group ts m rs f w h = elim (Bool-cases (all is_finished ts)) [
    | inl over ↦
        subst (λ x. Covers setting library context group x [])
          (ok_injective (rw (over, gather_from) at h)) (results-Covers group ts f over)
    | inr more ↦
        elim (Result-cases
          (advance setting library context firm_id execution_id (setting.choice m.world) ts m).0) [
            | inl (us, moved) ↦
                let (fits, less) = advance_lem (setting.choice m.world) group ts us m f moved in
                let fewer = less more in
                gather_from-Covers fuel group us _ rs fits (omega arith)
                  (rw (moved, gather_from) at (rw (more, gather_from) at h))
            | inr (exc, stopped) ↦
                absurd (cc (rw (stopped, gather_from) at (rw (more, gather_from) at h)))
          ]
  ]

  start_tasks-TasksFor : (group : List WorkflowStep) → TasksFor group (start_tasks group)
  start_tasks-TasksFor [] = tt
  start_tasks-TasksFor (s ∷ group) = (refl, start_tasks-TasksFor group)

  -- Whatever order the event loop chooses, a group that does not raise gives one result for each of
  -- its steps, in the order of the steps, that matches the step.
  pub gather-Covers :
      (group : List WorkflowStep) (m : Engine W) (rs : List StepExecutionResult)
      → (gather setting library context firm_id execution_id group m).0 ≡ ok rs
      → Covers setting library context group rs []
  unfolding gather
  gather-Covers group m rs h =
      gather_from-Covers _ group (start_tasks group) m rs (start_tasks-TasksFor group) (le_refl _) h
