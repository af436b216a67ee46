-- ===== src/AiTeam/Decisions.antt =====
-- What a person's decision does to a mission and its team: apply_human_decision and _rerun_sub_tasks
-- of ai_team/coordinator/engine.py.
pub mod Effects
pub mod Steps
use tmis.Prelude.{
  ℕ, ◌+◌, String, not, none, some, List, [], ◌∷◌, ◌++◌, if◌then◌else◌, ◌==◌, nat_eq, string_eq,
  key_eq, keep, any,
}
use tmis.Prelude.Dict.{Dict, get, put, remove}
use tmis.Prelude.Python.{
  key_error, value_error, Result, ok, raise, ◌>>=◌, ◌>>◌, append, split_commas,
}
use tmis.Prelude.Int.{pos}
use tmis.AiTeam.Planner.{SubTask}
use tmis.AiTeam.Delegation.{Team}
use tmis.AiTeam.Mission.{MissionStatus, Mission, Office, Setting, Run, sub_tasks_by_id}
use tmis.AiTeam.Coordinator.{enqueue_sub_task}
use tmis.AiTeam.HumanLoop.{
  request_new_analysis, exclude_agent, add_agent, rerun_steps, HumanDecision,
}
use tmis.AiTeam.Missions.{save_mission, Desk}

module _ {W : Type 0} (setting : Setting W) (team : Team) where
  -- The loop of `_rerun_sub_tasks`; the items have the default priority.
  unfoldable pub rerun_from : Dict String SubTask → List String → Run W → Run W
  unfolding enqueue_sub_task
  rerun_from known [] run = run
  rerun_from known (x ∷ xs) run = elim (get known x) [
    | none ↦ rerun_from known xs run
    | some sub_task ↦ rerun_from known xs (
        enqueue_sub_task setting team (pos 0) sub_task
          (record run { mission = record run.mission { results = remove run.mission.results x } }))
  ]

  unfoldable pub rerun_sub_tasks : List String → Mission → Office W → Mission × Office W
  unfolding rerun_from sub_tasks_by_id
  rerun_sub_tasks xs mission office =
      let run =
        rerun_from (sub_tasks_by_id [] mission.plan) xs
          (record { mission = mission; context = []; office = office }) in
      (record run.mission { status = MissionStatus.running }, run.office)

-- `payload[key]`
abbrev pub item_at : Dict String String → String → Result String
item_at payload key = elim (get payload key) [ none ↦ raise (key_error key) | some x ↦ ok x ]

unfoldable pub sub_task_ids_from : HumanDecision → Result (List String)
sub_task_ids_from decision = elim decision.decision_type [
  | request_new_analysis ↦ (do x ← item_at decision.payload "sub_task_id"; ok (x ∷ []))
  | _ ↦ (do x ← item_at decision.payload "sub_task_ids"; ok (split_commas x))
]

-- `record_human_validation` and `record_revision`
abbrev pub count_one : Dict String ℕ → String → Dict String ℕ
count_one counts k = put counts k (elim (get counts k) [ none ↦ 0 | some n ↦ n ] + 1)

abbrev pub exclude_member : String → Team → Team
exclude_member agent_id team = record team {
  member_agent_ids = keep (λ a. not (a == agent_id)) team.member_agent_ids;
}

abbrev pub add_member : String → Team → Team
add_member agent_id team =
    if any (λ a. a == agent_id) team.member_agent_ids
    then team
    else record team { member_agent_ids = team.member_agent_ids ++ agent_id ∷ [] }

module _ {W : Type 0} (setting : Setting W) where
  -- What the decision changes: the mission, the team and the office. The same three are left as they
  -- were where the payload lacks its key.
  unfoldable pub effect_of :
      String
      → HumanDecision
      → Mission
      → Team
      → Office W
      → Result (Unit {0}) × (Mission × Team × Office W)
  unfolding rerun_sub_tasks sub_task_ids_from
  effect_of mission_id decision mission team office =
      let revised = record office { revisions = count_one office.revisions mission_id } in
      let rerun : Result (Unit {0}) × (Mission × Team × Office W) =
        elim (sub_task_ids_from decision) [
          | raise exc ↦ (raise exc, (mission, team, revised))
          | ok xs ↦
              let (m, o) = rerun_sub_tasks setting team xs mission revised in (ok tt, (m, team, o))
        ] in
      elim decision.decision_type [
        | exclude_agent ↦ elim (item_at decision.payload "agent_id") [
          | raise exc ↦ (raise exc, (mission, team, office))
          | ok agent_id ↦ (ok tt, (mission, exclude_member agent_id team, office))
        ]
        | add_agent ↦ elim (item_at decision.payload "agent_id") [
          | raise exc ↦ (raise exc, (mission, team, office))
          | ok agent_id ↦ (ok tt, (mission, add_member agent_id team, office))
        ]
        | request_new_analysis ↦ rerun
        | rerun_steps ↦ rerun
        | _ ↦ (ok tt, (mission, team, office))
      ]

  unfoldable pub apply_human_decision :
      String → HumanDecision → Team → Desk W → Result Mission × (Team × Desk W)
  unfolding effect_of save_mission
  apply_human_decision mission_id decision team desk = elim (get desk.missions mission_id) [
    | none ↦
        (raise (value_error (append "mission " (append mission_id " not found"))), (team, desk))
    | some mission ↦
        let office = record desk.office {
          validations = count_one desk.office.validations mission_id;
        } in
        let (r, state) = effect_of mission_id decision mission team office in
        let (mission', team', office') = state in
        (
          (do r; ok mission'),
          (team', record { missions = save_mission desk.missions mission'; office = office' }),
        )
  ]
