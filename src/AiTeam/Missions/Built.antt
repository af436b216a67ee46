-- ===== src/AiTeam/Missions/Built.antt =====
-- From the team that `build_team` puts together to a mission that is completed.
use tmis.Prelude.{
  ℕ, String, ◌≡◌, true, none, some, List, [], ◌∷◌, nat_eq, string_eq, key_eq, length, last, Every,
  Every-map,
}
use tmis.Prelude.Dict.{get}
use tmis.Prelude.Distinct.{Every-get_entry}
use tmis.Prelude.Python.{ok}
use tmis.AiTeam.Capabilities.{LegalDomain}
use tmis.AiTeam.Agents.{AgentDescriptor, AgentRegistry}
use tmis.AiTeam.Delegation.{Team, matching_agent}
use tmis.AiTeam.Planner.{SubTask, decompose}
use tmis.AiTeam.Planner.Apart.{IsInjective}
use tmis.AiTeam.Mission.{MissionStatus, Mission, Setting}
use tmis.AiTeam.Coordinator.Queueing.{IsFresh}
use tmis.AiTeam.Coordinator.Live.{IsManned, IsStaffed}
use tmis.AiTeam.Missions.{Desk, launch_mission, run_mission}
use tmis.AiTeam.Missions.Runs.{IsKeyed}
use tmis.AiTeam.Missions.Completes.{launched_run-completes}
use tmis.AiTeam.Teams.{MissionComplexity, TeamStore, is_not_low, team_roles, build_team}
use tmis.AiTeam.Teams.Members.{IsRegistered}
use tmis.AiTeam.Teams.Matching.{AllHave, matching_agent-Every}
use tmis.AiTeam.Teams.Staffing.{IsFilled, build_team-matches}

-- A sub-task is staffed where the team's agent for it is one of the registry's.
matched-IsStaffed :
    {W : Type 0} (setting : Setting W) (team : Team) (t : SubTask) (y : String)
    → IsRegistered setting.registry
    → Every (λ (e : String × AgentDescriptor). IsManned setting team e.0) setting.registry
    → matching_agent setting.registry t.assigned_role team ≡ some y
    → IsStaffed setting team t
matched-IsStaffed setting team t y reg manned e =
    let have : (ids : List String) → AllHave setting.registry (IsManned setting team) ids =
      every_have setting.registry (IsManned setting team) (λ x d found.
        Every-get_entry (λ (e : String × AgentDescriptor). IsManned setting team e.0)
          setting.registry x d manned found) in
    let it =
      matching_agent-Every setting.registry (IsManned setting team) t.assigned_role team y reg
        (have team.member_agent_ids) e in
    rw e it
  where
    every_have :
        (registry : AgentRegistry) (P : String → Type 0)
        → ((x : String) (d : AgentDescriptor) → get registry x ≡ some d → P x)
        → (ids : List String) → AllHave registry P ids
    every_have registry P all_of [] = tt
    every_have registry P all_of (x ∷ ids) = (all_of x, every_have registry P all_of ids)

-- The team that `build_team` gives with no cost target and no delay.
abbrev pub built :
    {W : Type 0}
    → Setting W
    → String
    → ℕ
    → TeamStore
    → LegalDomain
    → MissionComplexity
    → String
    → Team
built setting team_id t teams domain complexity case_type =
    (build_team team_id t setting.registry teams domain complexity case_type none none).0

-- Where the registry has an agent for each role of the team, and all its agents answer without
-- raising, a team that is built without a budget and not for low complexity completes the mission
-- of its domain and case type: the run returns the mission as completed, with as many results as
-- the plan has sub-tasks. The identifiers that are drawn are new, and the queue's items stand under
-- their own.
pub built_run-completes :
    {W : Type 0} (setting : Setting W) (fresh : IsFresh setting) (ids : ℕ → String)
    (domain : LegalDomain) (complexity : MissionComplexity) (team_id : String) (t : ℕ)
    (teams : TeamStore) (id firm_id request_description case_type : String) (desk : Desk W)
    → IsInjective ids
    → IsKeyed desk.office.queue
    → IsRegistered setting.registry
    → Every (IsFilled setting.registry) (team_roles domain complexity case_type)
    → is_not_low complexity ≡ true
    → Every
        (λ (e : String × AgentDescriptor).
          IsManned setting (built setting team_id t teams domain complexity case_type) e.0)
        setting.registry
    → (let team = built setting team_id t teams domain complexity case_type in
        let (m, after) =
          launch_mission setting team ids id firm_id request_description case_type desk in
        (last : Mission) × ((run_mission setting team id after).0 ≡ ok last)
        × (last.status ≡ MissionStatus.completed)
        × (length last.results ≡ length m.plan))
unfolding build_team
built_run-completes setting fresh ids domain complexity team_id t teams id firm_id
      request_description case_type desk inj keyed reg filled not_low manned =
    let team = built setting team_id t teams domain complexity case_type in
    let matches =
      build_team-matches team_id t setting.registry teams ids domain complexity case_type reg filled
        not_low in
    let staffed : Every (IsStaffed setting team) (decompose ids domain case_type) =
      Every-map _ _ (decompose ids domain case_type)
        (λ task (y, e). matched-IsStaffed setting team task y reg manned e) matches in
    let (last, returned, status, synthesis, count) =
      launched_run-completes setting fresh team ids id firm_id request_description case_type desk
        inj keyed staffed in
    (last, returned, status, count)
