-- ===== src/AiTeam/Samples/Choices.antt =====
-- Decisions on a stored mission.
use tmis.Prelude.{
  ℕ, ◌+◌, ◌≡◌, refl, ◌≢◌, true, false, none, some, [], ◌∷◌, ◌++◌, nat_eq, string_eq, key_eq,
}
use tmis.Prelude.Dict.{get, put}
use tmis.Prelude.Distinct.{Distinct}
use tmis.Prelude.Python.{ok}
use tmis.AiTeam.Capabilities.{general, TaskType, verifier}
use tmis.AiTeam.Planner.{SubTask}
use tmis.AiTeam.Delegation.{matching_agent}
use tmis.AiTeam.HumanLoop.{
  HumanDecision, decide_new_analysis, decide_exclude_agent, decide_rerun_steps,
}
use tmis.AiTeam.WorkQueue.{WorkItem, is_runnable}
use tmis.AiTeam.Mission.{MissionStatus, Mission, has_result, sub_tasks_by_id}
use tmis.AiTeam.Coordinator.Sound.{by_id}
use tmis.AiTeam.Missions.{Desk}
use tmis.AiTeam.Decisions.{sub_task_ids_from, apply_human_decision}
use tmis.AiTeam.Decisions.Effects.{excluded_agent-unassigned, new_analysis-queued}
use tmis.AiTeam.Decisions.Steps.{rerun_steps-read}
use tmis.AiTeam.Samples.Firm.{
  five_agents, answer, firm, empty_office, tax_team, five_agents-IsRegistered,
}

abbrev one_task : SubTask
one_task = record {
  id = "t1";
  task_type = TaskType.verification;
  assigned_role = verifier;
  description = "";
  depends_on = [];
}

abbrev stored : Mission
stored = record {
  id = "m1";
  firm_id = "f1";
  request_description = "Audit";
  domain = general;
  team_id = "team";
  plan = one_task ∷ [];
  status = MissionStatus.completed;
  work_item_ids = [];
  results = ("t1", answer) ∷ [];
  synthesis = none;
  created_at = 0;
  completed_at = some 3;
}

abbrev desk : Desk ℕ
desk = record { missions = ("m1", stored) ∷ []; office = empty_office }

stored_there : get desk.missions "m1" ≡ some stored
unfolding get
stored_there = refl

one_known : get (by_id stored) "t1" ≡ some one_task
unfolding get sub_tasks_by_id put
one_known = refl

stored-Distinct : Distinct stored.results
unfolding get
stored-Distinct = (refl, tt)

abbrev exclusion : HumanDecision
exclusion = (decide_exclude_agent "d1" 5 [] "m1" "lawyer" "checks").0

excluded_agent-unassigned_example :
    let (r, after) = apply_human_decision firm "m1" exclusion tax_team desk in
    (r ≡ ok stored)
    × (get after.1.office.validations "m1"
        ≡ some (elim (get desk.office.validations "m1") [ none ↦ 0 | some n ↦ n ] + 1))
    × (matching_agent five_agents verifier after.0 ≢ some "checks")
excluded_agent-unassigned_example =
    excluded_agent-unassigned firm "d1" "m1" "lawyer" "checks" 5 [] tax_team desk stored verifier
      five_agents-IsRegistered stored_there

abbrev redo : HumanDecision
redo = (decide_new_analysis "d2" 6 [] "m1" "lawyer" "t1").0

new_analysis-queued_example :
    let (r, after) = apply_human_decision firm "m1" redo tax_team desk in
    let new_id = firm.new_id desk.office.queue in
    (m : Mission) × (i : WorkItem) × (r ≡ ok m)
    × (get after.1.missions m.id ≡ some m)
    × (m.status ≡ MissionStatus.running)
    × (has_result m.results "t1" ≡ false)
    × (m.work_item_ids ≡ stored.work_item_ids ++ new_id ∷ [])
    × (get after.1.office.queue new_id ≡ some i)
    × (i.sub_task_id ≡ "t1")
    × (is_runnable i ≡ true)
new_analysis-queued_example =
    new_analysis-queued firm "d2" "m1" "lawyer" "t1" 6 [] tax_team desk stored one_task stored_there
      one_known stored-Distinct

rerun_steps-read_example :
    sub_task_ids_from (decide_rerun_steps "d3" 7 [] "m1" "lawyer" ("t1" ∷ "t2" ∷ [])).0
    ≡ ok ("t1" ∷ "t2" ∷ [])
rerun_steps-read_example =
    rerun_steps-read "d3" 7 [] "m1" "lawyer" "t1" ("t2" ∷ []) (refl, (refl, tt))
