-- ===== src/AiTeam/Samples/Runs.antt =====
-- A mission of tax law from its launch to its end.
use tmis.Prelude.{ℕ, String, ◌≡◌, refl, none, some, [], nat_eq, string_eq, key_eq, length, Every}
use tmis.Prelude.Dict.{get, put, values}
use tmis.Prelude.Python.{ok}
use tmis.AiTeam.Capabilities.{
  fiscal, tax_expert, template_for, roles_from, roles_for_case_type, domain_expert_role,
}
use tmis.AiTeam.Agents.{list_by_role}
use tmis.AiTeam.Planner.{SubTask, decompose}
use tmis.AiTeam.Planner.Samples.{names, names-IsInjective}
use tmis.AiTeam.Delegation.{Team, team_descriptors, first_match, matching_agent}
use tmis.AiTeam.Mission.{MissionStatus, Mission}
use tmis.AiTeam.Missions.{Desk, build_synthesis, launch_mission, run_mission}
use tmis.AiTeam.Missions.Runs.{Ran, launched_run-Ran}
use tmis.AiTeam.Missions.Completes.{launched_run-completes}
use tmis.AiTeam.Missions.Built.{built, built_run-completes}
use tmis.AiTeam.Teams.{
  MissionComplexity, resolve_role, resolved_roles, apply_budget, team_roles, build_team,
}
use tmis.AiTeam.Teams.Staffing.{build_team-matches}
use tmis.AiTeam.Samples.Firm.{
  five_agents, firm, empty_desk, tax_team, firm-IsFresh, empty_desk-IsKeyed,
  five_agents-IsRegistered, five_agents-IsManned, five_agents-IsFilled, tax_plan-IsStaffed,
}

abbrev launched : Mission × Desk ℕ
launched = launch_mission firm tax_team names "m1" "f1" "Audit" "standard_analysis" empty_desk

launched_run-Ran_example :
    Ran firm firm-IsFresh tax_team (run_mission firm tax_team "m1" launched.1)
launched_run-Ran_example =
    launched_run-Ran firm firm-IsFresh tax_team tax_team names "m1" "f1" "Audit" "standard_analysis"
      empty_desk names-IsInjective empty_desk-IsKeyed

launched_run-completes_example :
    (last : Mission) × ((run_mission firm tax_team "m1" launched.1).0 ≡ ok last)
    × (last.status ≡ MissionStatus.completed)
    × (last.synthesis ≡ some (build_synthesis last))
    × (length last.results ≡ length launched.0.plan)
launched_run-completes_example =
    launched_run-completes firm firm-IsFresh tax_team names "m1" "f1" "Audit" "standard_analysis"
      empty_desk names-IsInjective empty_desk-IsKeyed tax_plan-IsStaffed

build_team-matches_example :
    Every
      (λ (t : SubTask).
        (y : String) × (matching_agent five_agents t.assigned_role
            (build_team "team" 0 five_agents [] fiscal MissionComplexity.medium "standard_analysis"
              none none).0
          ≡ some y))
      (decompose names fiscal "standard_analysis")
build_team-matches_example =
    build_team-matches "team" 0 five_agents [] names fiscal MissionComplexity.medium
      "standard_analysis" five_agents-IsRegistered five_agents-IsFilled refl

abbrev team_built : Team
team_built = built firm "team" 0 [] fiscal MissionComplexity.medium "standard_analysis"

abbrev launched_built : Mission × Desk ℕ
launched_built =
    launch_mission firm team_built names "m1" "f1" "Audit" "standard_analysis" empty_desk

built_run-completes_example :
    (last : Mission) × ((run_mission firm team_built "m1" launched_built.1).0 ≡ ok last)
    × (last.status ≡ MissionStatus.completed)
    × (length last.results ≡ length launched_built.0.plan)
built_run-completes_example =
    built_run-completes firm firm-IsFresh names fiscal MissionComplexity.medium "team" 0 [] "m1"
      "f1" "Audit" "standard_analysis" empty_desk names-IsInjective empty_desk-IsKeyed
      five_agents-IsRegistered five_agents-IsFilled refl (five_agents-IsManned team_built)

-- At low complexity the team leaves the tax expert out, whose sub-task the plan has all the same.
low_team :
    matching_agent five_agents tax_expert
      (build_team "team" 0 five_agents [] fiscal MissionComplexity.low "standard_analysis" none
        none).0
    ≡ none
unfolding get build_team team_roles roles_for_case_type roles_from template_for domain_expert_role
    resolve_role resolved_roles list_by_role values apply_budget matching_agent team_descriptors
    first_match put
low_team = refl
