-- ===== src/AiTeam/Coordinator/Idle.antt =====
-- A live mission with nothing left to run has the results of all its sub-tasks.
use tmis.Prelude.{
  String, ◌≡◌, refl, sym, ◌∙◌, inl, inr, Bool, true, false, none, List, [], ◌∷◌, arith, eq_iff,
  Bool-cases, ◌==◌, nat_eq, string_eq, key_eq, length, keep, all, Every, Every-map,
}
use tmis.Prelude.Dict.{Dict}
use tmis.Prelude.Sort.{length-sort}
use tmis.AiTeam.Agents.{AgentOutput}
use tmis.AiTeam.Planner.{SubTask, MissionPlan}
use tmis.AiTeam.Planner.Ordered.{has_id, IsOrdered}
use tmis.AiTeam.Delegation.{Team}
use tmis.AiTeam.WorkQueue.{WorkItem, WorkQueue, is_runnable, runs_first, head_item}
use tmis.AiTeam.Coordinator.{next_runnable_item}
use tmis.AiTeam.Mission.{Mission, Setting, Run, items_of, has_result, is_met}
use tmis.AiTeam.Coordinator.Budget.{queued}
use tmis.AiTeam.Coordinator.Live.{IsWorked}
use tmis.AiTeam.Coordinator.LiveTurn.{LiveRun}

keep_nothing :
    {A : Type 0} (p : A → Bool) (xs : List A) → length (keep p xs) ≡ 0 → Every (λ x. p x ≡ false) xs
keep_nothing p [] e = tt
keep_nothing p (x ∷ xs) e = elim (Bool-cases (p x)) [
  | inl hit ↦ absurd (omega (arith, rw hit at e))
  | inr miss ↦ (miss, keep_nothing p xs (rw miss at e))
]

head_nothing : (items : List WorkItem) → head_item items ≡ none → length items ≡ 0
head_nothing [] e = refl
head_nothing (i ∷ items) e = absurd (cc)

next_nothing :
    {W : Type 0} (run : Run W)
    → next_runnable_item run ≡ none
    → Every (λ i. is_runnable i ≡ false) (items_of run.office.queue run.mission.work_item_ids)
unfolding next_runnable_item
next_nothing run e =
    let items = items_of run.office.queue run.mission.work_item_ids in
    keep_nothing is_runnable items
      (sym (length-sort runs_first (keep is_runnable items)) ∙ head_nothing _ e)

module _ {W : Type 0} (setting : Setting W) (team : Team) where
  -- An item that cannot be run has its result.
  queued_result :
      (queue : WorkQueue) (m : Mission) (ids : List String) (x : String)
      → Every (IsWorked setting team queue m) ids
      → Every (λ i. is_runnable i ≡ false) (items_of queue ids)
      → has_id x (queued queue ids) ≡ true
      → has_result m.results x ≡ true
  unfolding items_of
  queued_result queue m [] x worked idle e = absurd (cc)
  queued_result queue m (j ∷ ids) x ((i, there, manned, fine), worked) idle e =
      let idle' = rw (there, items_of) at idle in
      let e' = rw (there, items_of) at e in
      elim (Bool-cases (i.sub_task_id == x)) [
        | inl hit ↦
            let at : i.sub_task_id ≡ x = (eq_iff i.sub_task_id x).0 hit in
            let not_runnable = idle'.0 in
            let result : has_result m.results i.sub_task_id ≡ true = rw not_runnable at fine in
            rw at at result
        | inr miss ↦ queued_result queue m ids x worked idle'.1 (rw miss at e')
      ]

known_result :
    (results : Dict String AgentOutput) (seen : List String) (x : String)
    → Every (λ s. has_result results s ≡ true) seen
    → has_id x seen ≡ true
    → has_result results x ≡ true
known_result results [] x h e = absurd (cc)
known_result results (s ∷ seen) x h e = elim (Bool-cases (s == x)) [
  | inl hit ↦ let at : s ≡ x = (eq_iff s x).0 hit in rw at at h.0
  | inr miss ↦ known_result results seen x h.1 (rw miss at e)
]

all_met :
    (results : Dict String AgentOutput) (seen deps : List String)
    → Every (λ s. has_result results s ≡ true) seen
    → Every (λ d. has_id d seen ≡ true) deps
    → all (has_result results) deps ≡ true
all_met results seen [] h e = refl
all_met results seen (d ∷ deps) h e =
    rw (known_result results seen d h e.0) (all_met results seen deps h e.1)

ordered_results :
    (m : Mission) (seen : List String) (ts : MissionPlan)
    → IsOrdered seen ts
    → Every (λ s. has_result m.results s ≡ true) seen
    → Every (λ (t : SubTask). is_met m t ≡ true → has_result m.results t.id ≡ true) ts
    → Every (λ (t : SubTask). has_result m.results t.id ≡ true) ts
ordered_results m seen [] ordered h step = tt
ordered_results m seen (t ∷ ts) ordered h step =
    let here = step.0 (all_met m.results seen t.depends_on h ordered.0) in
    (here, ordered_results m (t.id ∷ seen) ts ordered.1 (here, h) step.1)

pub idle_results :
    {W : Type 0} (setting : Setting W) (team : Team) (run : Run W)
    → LiveRun setting team run
    → IsOrdered [] run.mission.plan
    → next_runnable_item run ≡ none
    → Every (λ (t : SubTask). has_result run.mission.results t.id ≡ true) run.mission.plan
idle_results setting team run (live, spread) ordered no_item =
    let idle = next_nothing run no_item in
    ordered_results run.mission [] run.mission.plan ordered tt (
      Every-map _ _ run.mission.plan
        (λ t h met.
          queued_result setting team run.office.queue run.mission run.mission.work_item_ids t.id
            live.worked idle (h met))
        spread)
