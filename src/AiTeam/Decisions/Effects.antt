-- ===== src/AiTeam/Decisions/Effects.antt =====
-- What a person's decision does to a mission and its team.
use tmis.Prelude.{
  ℕ, ◌+◌, String, ◌≡◌, refl, sym, ◌∙◌, ◌≢◌, inl, inr, true, false, not, false≢true, none, some,
  List, [], ◌∷◌, ◌++◌, Bool-cases, ◌==◌, nat_eq, string_eq, key_eq, keep,
}
use tmis.Prelude.Dict.{get, remove, test_refl, get-put_self}
use tmis.Prelude.Distinct.{Distinct}
use tmis.Prelude.Python.{ok}
use tmis.AiTeam.Capabilities.{AgentRole}
use tmis.AiTeam.Agents.{AgentRegistry}
use tmis.AiTeam.Delegation.{Team, matching_agent}
use tmis.AiTeam.Planner.{SubTask}
use tmis.AiTeam.HumanLoop.{
  HumanDecision, record_decision, decide_new_analysis, decide_exclude_agent,
}
use tmis.AiTeam.WorkQueue.{WorkItem, enqueue_item, is_runnable}
use tmis.AiTeam.Coordinator.{enqueue_sub_task}
use tmis.AiTeam.Mission.{MissionStatus, Mission, Setting, has_result}
use tmis.AiTeam.Coordinator.Sound.{by_id}
use tmis.AiTeam.Coordinator.Chosen.{by_id-id}
use tmis.AiTeam.Missions.{save_mission, Desk}
use tmis.AiTeam.Decisions.{
  rerun_from, rerun_sub_tasks, sub_task_ids_from, exclude_member, effect_of, apply_human_decision,
}
use tmis.AiTeam.Missions.Counts.{has_result-remove}
use tmis.AiTeam.Teams.Members.{IsRegistered}
use tmis.AiTeam.Teams.Matching.{AllHave, matching_agent-Every}

excluded_names :
    (registry : AgentRegistry) (agent_id : String) (ids : List String)
    → AllHave registry (λ y. (y == agent_id) ≡ false) (keep (λ a. not (a == agent_id)) ids)
excluded_names registry agent_id [] = tt
excluded_names registry agent_id (x ∷ ids) = elim (Bool-cases (x == agent_id)) [
  | inl hit ↦ rw hit (excluded_names registry agent_id ids)
  | inr miss ↦ rw miss (λ d found. miss, excluded_names registry agent_id ids)
]

-- Where agents are registered under their own identifiers: once the exclusion of an agent is applied
-- to a stored mission, the call returns the mission as it was, the human validation is counted, and
-- the agent is picked for no role of the team that is left.
pub excluded_agent-unassigned :
    {W : Type 0} (setting : Setting W) (decision_id mission_id actor_id agent_id : String)
    (decided_at : ℕ) (store : List HumanDecision) (team : Team) (desk : Desk W) (mission : Mission)
    (role : AgentRole)
    → IsRegistered setting.registry
    → get desk.missions mission_id ≡ some mission
    → (let decision =
          (decide_exclude_agent decision_id decided_at store mission_id actor_id agent_id).0 in
        let (r, after) = apply_human_decision setting mission_id decision team desk in
        (r ≡ ok mission)
        × (get after.1.office.validations mission_id
            ≡ some (elim (get desk.office.validations mission_id) [ none ↦ 0 | some n ↦ n ] + 1))
        × (matching_agent setting.registry role after.0 ≢ some agent_id))
unfolding apply_human_decision effect_of decide_exclude_agent record_decision get
excluded_agent-unassigned setting decision_id mission_id actor_id agent_id decided_at store team
      desk mission role reg there =
    rw (apply_human_decision, there)
      (
        refl,
        get-put_self desk.office.validations mission_id _,
        λ e.
            let other =
              matching_agent-Every setting.registry (λ y. (y == agent_id) ≡ false) role
                (exclude_member agent_id team) agent_id reg
                (excluded_names setting.registry agent_id team.member_agent_ids) e in
            absurd (false≢true (sym other ∙ test_refl agent_id)),
      )

-- Once a new analysis of a sub-task is asked for, the stored mission is running again and has no
-- result for the sub-task, and a new item for it, which can be run, stands last among the mission's.
pub new_analysis-queued :
    {W : Type 0} (setting : Setting W) (decision_id mission_id actor_id x : String) (decided_at : ℕ)
    (store : List HumanDecision) (team : Team) (desk : Desk W) (mission : Mission) (t : SubTask)
    → get desk.missions mission_id ≡ some mission
    → get (by_id mission) x ≡ some t
    → Distinct mission.results
    → (let decision = (decide_new_analysis decision_id decided_at store mission_id actor_id x).0 in
        let (r, after) = apply_human_decision setting mission_id decision team desk in
        let new_id = setting.new_id desk.office.queue in
        (m : Mission) × (i : WorkItem) × (r ≡ ok m)
        × (get after.1.missions m.id ≡ some m)
        × (m.status ≡ MissionStatus.running)
        × (has_result m.results x ≡ false)
        × (m.work_item_ids ≡ mission.work_item_ids ++ new_id ∷ [])
        × (get after.1.office.queue new_id ≡ some i)
        × (i.sub_task_id ≡ x)
        × (is_runnable i ≡ true))
unfolding apply_human_decision effect_of decide_new_analysis record_decision get sub_task_ids_from
    rerun_sub_tasks rerun_from enqueue_sub_task save_mission enqueue_item
new_analysis-queued setting decision_id mission_id actor_id x decided_at store team desk mission t
      there known distinct =
    let gone : has_result (remove mission.results x) x ≡ false =
      has_result-remove mission.results x x distinct ∙ rw (test_refl x) refl in
    rw (apply_human_decision, there)
      (rw (rerun_from, known)
        (
          _,
          _,
          refl,
          get-put_self desk.missions mission.id _,
          refl,
          gone,
          refl,
          get-put_self desk.office.queue (setting.new_id desk.office.queue) _,
          by_id-id mission x t known,
          refl,
        ))
