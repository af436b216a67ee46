-- ===== src/AiTeam/Missions.antt =====
-- The life of a mission, from its launch to its end: launch_mission, run_mission and
-- _build_synthesis of ai_team/coordinator/engine.py, and the store of missions in store.py.
pub mod Counts
pub mod Runs
pub mod Completes
pub mod Built
use tmis.Prelude.{
  ℕ, suc, String, not, none, some, List, [], ◌∷◌, if◌then◌else◌, ◌==◌, nat_eq, string_eq, key_eq,
  length, keep,
}
use tmis.Prelude.Dict.{Dict, get, put, values}
use tmis.Prelude.Python.{value_error, Result, ok, raise, append, join}
use tmis.AiTeam.Capabilities.{task_value}
use tmis.AiTeam.Agents.{AgentOutput, text_of}
use tmis.AiTeam.Planner.{MissionPlan, decompose}
use tmis.AiTeam.Delegation.{Team}
use tmis.AiTeam.Coordinator.{enqueue_ready_subtasks, rounds}
use tmis.AiTeam.Mission.{MissionStatus, created, completed, Mission, Office, Setting, Run}
use tmis.AiTeam.Coordinator.Budget.{total_work}

-- `InMemoryMissionStore`
abbrev pub MissionStore : Type 0
MissionStore = Dict String Mission

unfoldable pub save_mission : MissionStore → Mission → MissionStore
save_mission missions mission = put missions mission.id mission

unfoldable pub list_for_firm : MissionStore → String → List Mission
list_for_firm missions firm_id = keep (λ m. m.firm_id == firm_id) (values missions)

-- The store of missions beside what the coordinator's other parts keep. A mission in the store is
-- the object that the methods change.
pub record Desk (W : Type 0) : Type 0 where
  pub missions : MissionStore
  pub office : Office W

-- `_build_synthesis`
unfoldable pub sections_of : Dict String AgentOutput → MissionPlan → List String
sections_of results [] = []
sections_of results (t ∷ ts) =
    let rest = sections_of results ts in
    elim (get results t.id) [
      | none ↦ rest
      | some output ↦
          append "## " (append (task_value t.task_type) (append "\n" (text_of output))) ∷ rest
    ]

unfoldable pub build_synthesis : Mission → String
unfolding sections_of
build_synthesis mission = join "\n\n" (sections_of mission.results mission.plan)

module _ {W : Type 0} (setting : Setting W) (team : Team) where
  open setting use {now}

  -- The mission as `launch_mission` builds it, before anything is queued.
  abbrev pub new_mission :
      (ids : ℕ → String) (id firm_id request_description case_type : String) → ℕ → Mission
  new_mission ids id firm_id request_description case_type t = record {
    id = id;
    firm_id = firm_id;
    request_description = request_description;
    domain = team.domain;
    team_id = team.id;
    plan = decompose ids team.domain case_type;
    status = MissionStatus.created;
    work_item_ids = [];
    results = [];
    synthesis = none;
    created_at = t;
    completed_at = none;
  }

  -- `ids` and `id` are the identifiers that the planner and the coordinator draw.
  unfoldable pub launch_mission :
      (ids : ℕ → String) (id firm_id request_description case_type : String)
      → Desk W
      → Mission × Desk W
  unfolding decompose enqueue_ready_subtasks save_mission
  launch_mission ids id firm_id request_description case_type desk =
      let mission =
        new_mission ids id firm_id request_description case_type (now desk.office.world) in
      let run =
        enqueue_ready_subtasks setting team
          (record { mission = mission; context = []; office = desk.office }) in
      (
        run.mission,
        record { missions = save_mission desk.missions run.mission; office = run.office },
      )

  -- The mission after the loop.
  abbrev pub concluded : ℕ → Mission → Mission
  concluded t mission =
      if length mission.results == length mission.plan
      then record mission {
        completed_at = some t;
        synthesis = some (build_synthesis mission);
        status = MissionStatus.completed;
      }
      else record mission { completed_at = some t; status = MissionStatus.failed }

  -- The run that `run_mission` starts its loop with.
  abbrev pub first_run : Mission → Office W → Run W
  first_run mission office = record {
    mission = record mission { status = MissionStatus.running };
    context = ("case_summary", mission.request_description) ∷ [];
    office = office;
  }

  -- The rounds that the loop has at most, by `rounds-Ended`.
  abbrev pub fuel_for : Run W → ℕ
  fuel_for run = suc (total_work run.office.queue run.mission)

  unfoldable pub run_mission : String → Desk W → Result Mission × Desk W
  unfolding rounds build_synthesis save_mission total_work
  run_mission mission_id desk = elim (get desk.missions mission_id) [
    | none ↦ (raise (value_error (append "mission " (append mission_id " not found"))), desk)
    | some mission ↦
        let run = first_run mission desk.office in
        let (r, after) = rounds setting team (fuel_for run) run in
        let mission' = concluded (now after.office.world) after.mission in
        elim r [
          | raise exc ↦ (
            raise exc,
            record { missions = save_mission desk.missions after.mission; office = after.office },
          )
          | ok _ ↦ (
            ok mission',
            record { missions = save_mission desk.missions mission'; office = after.office },
          )
        ]
  ]
