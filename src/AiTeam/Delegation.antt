-- ===== src/AiTeam/Delegation.antt =====
-- Which agent of a team gets a sub-task: ai_team/delegation (schemas.py and engine.py) and the team
-- of ai_team/teams/schemas.py.
use tmis.Prelude.{
  ℕ, String, Bool, Option, none, some, List, [], ◌∷◌, ◌++◌, if◌then◌else◌, ◌==◌, nat_eq, string_eq,
  key_eq, keep,
}
use tmis.Prelude.Dict.{Dict, get, put}
use tmis.AiTeam.Capabilities.{LegalDomain, AgentRole, same_role}
use tmis.AiTeam.Agents.{AgentDescriptor, AgentRegistry}
use tmis.AiTeam.Planner.{SubTask}

pub record Team : Type 0 where
  pub id : String
  pub name : String
  pub member_agent_ids : List String
  pub domain : LegalDomain
  pub is_custom : Bool
  pub created_at : ℕ

pub record DelegationRecord : Type 0 where
  pub mission_id : String
  pub sub_task_id : String
  pub agent_id : Option String
  pub delegated_at : ℕ

-- The dict `team_descriptors`, built over the members that the registry knows.
unfoldable pub team_descriptors :
    AgentRegistry → Dict String AgentDescriptor → List String → Dict String AgentDescriptor
team_descriptors registry known [] = known
team_descriptors registry known (agent_id ∷ ids) = elim (get registry agent_id) [
  | none ↦ team_descriptors registry known ids
  | some descriptor ↦ team_descriptors registry (put known descriptor.id descriptor) ids
]

-- The first key whose agent has the role, if any.
unfoldable pub first_match : Dict String AgentDescriptor → AgentRole → Option String
first_match [] role = none
first_match ((agent_id, d) ∷ ds) role =
    if same_role d.role role then some agent_id else first_match ds role

-- `DelegationEngine.assign_agent`, without its record.
unfoldable pub matching_agent : AgentRegistry → AgentRole → Team → Option String
unfolding team_descriptors first_match
matching_agent registry role team =
    first_match (team_descriptors registry [] team.member_agent_ids) role

unfoldable pub assign_agent :
    AgentRegistry
    → ℕ
    → List DelegationRecord
    → String
    → SubTask
    → Team
    → Option String × List DelegationRecord
unfolding matching_agent
assign_agent registry now records mission_id sub_task team =
    let agent_id = matching_agent registry sub_task.assigned_role team in
    let entry : DelegationRecord = record {
      mission_id = mission_id;
      sub_task_id = sub_task.id;
      agent_id = agent_id;
      delegated_at = now;
    } in
    (agent_id, records ++ entry ∷ [])

unfoldable pub records_for_mission : List DelegationRecord → String → List DelegationRecord
records_for_mission records mission_id = keep (λ r. r.mission_id == mission_id) records
