-- ===== src/AiTeam/Teams/Staffing.antt =====
-- A team that is built without a budget can do the plan of its mission.
use tmis.Prelude.{
  ℕ, String, ◌≡◌, refl, true, false, none, some, List, [], ◌∷◌, arith, ◌==◌, nat_eq, string_eq,
  key_eq, Every, Every-map,
}
use tmis.Prelude.Dict.{test_refl}
use tmis.AiTeam.Capabilities.{LegalDomain, AgentRole}
use tmis.AiTeam.Agents.{AgentRegistry}
use tmis.AiTeam.Delegation.{Team, team_descriptors, matching_agent}
use tmis.AiTeam.Planner.{SubTask, decompose}
use tmis.AiTeam.Planner.Ordered.{has_id}
use tmis.AiTeam.Teams.{
  MissionComplexity, TeamStore, resolve_role, resolved_roles, apply_budget, is_not_low, team_roles,
  build_team,
}
use tmis.AiTeam.Teams.Roles.{team_roles-decompose}
use tmis.AiTeam.Teams.Members.{
  IsRegistered, resolve_role-found, member_descriptor, first_match-finds,
}

-- The registry has an agent of the role, under a name that is not empty.
abbrev pub IsFilled : AgentRegistry → AgentRole → Type 0
IsFilled registry role = (x : String) × (resolve_role registry role ≡ some x) × ((x == "") ≡ false)

-- ... and it is among the names.
abbrev IsTaken : AgentRegistry → List String → AgentRole → Type 0
IsTaken registry ids role =
    (x : String) × (resolve_role registry role ≡ some x) × (has_id x ids ≡ true)

resolved_roles-take :
    (registry : AgentRegistry) (roles : List AgentRole)
    → Every (IsFilled registry) roles
    → Every (IsTaken registry (resolved_roles registry roles)) roles
unfolding resolved_roles
resolved_roles-take registry [] h = tt
resolved_roles-take registry (role ∷ roles) ((x, found, named), h) =
    let rest = resolved_roles-take registry roles h in
    rw (resolved_roles, found, named)
      (
        (x, refl, rw (test_refl x) refl),
        Every-map (IsTaken registry (resolved_roles registry roles)) _ roles
            (λ r (y, f, e). (y, f, ground arith)) rest,
      )

taken_match :
    (registry : AgentRegistry) (team : Team) (role : AgentRole)
    → IsRegistered registry
    → IsTaken registry team.member_agent_ids role
    → (y : String) × (matching_agent registry role team ≡ some y)
unfolding matching_agent
taken_match registry team role reg (x, resolved, member) =
    let (d, there, same) = resolve_role-found registry role x reg resolved in
    first_match-finds (team_descriptors registry [] team.member_agent_ids) role x d
      (member_descriptor registry [] team.member_agent_ids x d reg there member) same

-- Where the registry has an agent for each role of the team, `build_team` without a cost target or
-- a delay, and not for a mission of low complexity, gives a team that has an agent for every
-- sub-task of the plan of the same domain and case type, the domain expert's included.
pub build_team-matches :
    (id : String) (now : ℕ) (registry : AgentRegistry) (teams : TeamStore) (ids : ℕ → String)
    (domain : LegalDomain) (complexity : MissionComplexity) (case_type : String)
    → IsRegistered registry
    → Every (IsFilled registry) (team_roles domain complexity case_type)
    → is_not_low complexity ≡ true
    → (let team = (build_team id now registry teams domain complexity case_type none none).0 in
        Every
          (λ (t : SubTask). (y : String) × (matching_agent registry t.assigned_role team ≡ some y))
          (decompose ids domain case_type))
unfolding build_team apply_budget
build_team-matches id now registry teams ids domain complexity case_type reg filled not_low =
    let team = (build_team id now registry teams domain complexity case_type none none).0 in
    let roles = team_roles domain complexity case_type in
    team_roles-decompose (λ role. (y : String) × (matching_agent registry role team ≡ some y)) ids
      domain complexity case_type not_low
      (Every-map (IsTaken registry (resolved_roles registry roles)) _ roles
        (λ role taken. taken_match registry team role reg taken)
        (resolved_roles-take registry roles filled))
