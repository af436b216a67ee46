-- ===== src/AiTeam/Teams.antt =====
-- How a team is put together: ai_team/teams (schemas.py, engine.py and store.py).
pub mod Roles
pub mod Members
pub mod Matching
pub mod Staffing
use tmis.Prelude.{
  ℕ, ◌+◌, String, Bool, true, false, ◌&&◌, ◌||◌, Option, none, some, List, [], ◌∷◌, ◌++◌, ltb,
  if◌then◌else◌, ◌==◌, nat_eq, string_eq, key_eq,
}
use tmis.Prelude.Dict.{Dict, get, put}
use tmis.Prelude.Python.{append}
use tmis.AiTeam.Capabilities.{
  LegalDomain, general, AgentRole, domain_value, roles_for_case_type, domain_expert_role,
}
use tmis.AiTeam.Agents.{AgentRegistry, list_by_role}
use tmis.AiTeam.Delegation.{Team}

pub data MissionComplexity : Type 0 where
  low medium high : MissionComplexity

-- `InMemoryTeamStore`
abbrev pub TeamStore : Type 0
TeamStore = Dict String Team

unfoldable pub save_team : TeamStore → Team → TeamStore
save_team teams team = put teams team.id team

-- `_resolve_role`
unfoldable pub resolve_role : AgentRegistry → AgentRole → Option String
unfolding list_by_role
resolve_role registry role = elim (list_by_role registry role) [ [] ↦ none | d ∷ _ ↦ some d.id ]

-- `[aid for aid in (self._resolve_role(role) for role in template_roles) if aid]`
unfoldable pub resolved_roles : AgentRegistry → List AgentRole → List String
unfolding resolve_role
resolved_roles registry [] = []
resolved_roles registry (role ∷ roles) = elim (resolve_role registry role) [
  | none ↦ resolved_roles registry roles
  | some x ↦ if x == "" then resolved_roles registry roles else x ∷ resolved_roles registry roles
]

-- `target is not None and next > target`
abbrev pub is_over : Option ℕ → ℕ → Bool
is_over none next = false
is_over (some target) next = ltb target next

-- The loop of `_apply_budget`, with whether something is kept and the totals so far.
unfoldable pub keep_within :
    AgentRegistry
    → (target_cost desired_delay : Option ℕ) → Bool
    → (cost time : ℕ) → List String
    → List String
keep_within registry target_cost desired_delay some_kept cost time [] = []
keep_within registry target_cost desired_delay some_kept cost time (x ∷ xs) =
    elim (get registry x) [
      | none ↦ keep_within registry target_cost desired_delay some_kept cost time xs
      | some d ↦
          let next_cost = cost + d.estimated_cost_usd in
          let next_time = time + d.average_duration_seconds in
          let without = keep_within registry target_cost desired_delay some_kept cost time xs in
          let with_it =
            keep_within registry target_cost desired_delay true next_cost next_time xs in
          if some_kept && (is_over target_cost next_cost || is_over desired_delay next_time)
          then without
          else x ∷ with_it
    ]

unfoldable pub apply_budget :
    AgentRegistry → (target_cost desired_delay : Option ℕ) → List String → List String
unfolding keep_within
apply_budget registry none none xs = xs
apply_budget registry target_cost desired_delay xs =
    keep_within registry target_cost desired_delay false 0 0 xs

-- `complexity is not MissionComplexity.LOW`
abbrev pub is_not_low : MissionComplexity → Bool
is_not_low low = false
is_not_low _ = true

-- `template_roles` of `build_team`, with the expert's role.
unfoldable pub team_roles : LegalDomain → MissionComplexity → String → List AgentRole
unfolding roles_for_case_type domain_expert_role
team_roles domain complexity case_type =
    let roles = roles_for_case_type case_type in
    elim (domain_expert_role domain) [
      | none ↦ roles
      | some expert ↦ if is_not_low complexity then roles ++ expert ∷ [] else roles
    ]

module _ (id : String) (now : ℕ) (registry : AgentRegistry) (teams : TeamStore) where
  unfoldable pub build_team :
      LegalDomain
      → MissionComplexity
      → String
      → (target_cost desired_delay : Option ℕ) → Team × TeamStore
  unfolding team_roles resolved_roles apply_budget save_team
  build_team domain complexity case_type target_cost desired_delay =
      let team : Team = record {
        id = id;
        name = append "Équipe " (append case_type (append " (" (append (domain_value domain) ")")));
        member_agent_ids =
            apply_budget registry target_cost desired_delay
              (resolved_roles registry (team_roles domain complexity case_type));
        domain = domain;
        is_custom = false;
        created_at = now;
      } in
      (team, save_team teams team)

  unfoldable pub build_custom_team : String → List String → Team × TeamStore
  unfolding save_team
  build_custom_team name agent_ids =
      let team : Team = record {
        id = id;
        name = name;
        member_agent_ids = agent_ids;
        domain = general;
        is_custom = true;
        created_at = now;
      } in
      (team, save_team teams team)
