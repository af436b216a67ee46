-- ===== src/AiTeam/Samples/Firm.antt =====
-- A firm with five agents, which count their calls, and an empty office.
use tmis.Prelude.{ℕ, suc, ◌-◌, String, refl, true, [], ◌∷◌, nat_eq, string_eq, key_eq, Every}
use tmis.Prelude.Dict.{get, put, values}
use tmis.Prelude.Python.{ok}
use tmis.AiTeam.Capabilities.{
  fiscal, AgentRole, document_analyst, legal_researcher, verifier, quality_controller, tax_expert,
  template_for, roles_from, roles_for_case_type, domain_expert_role,
}
use tmis.AiTeam.Agents.{
  ConfidenceLevel, AgentOutput, Agent, AgentDescriptor, AgentRegistry, list_by_role,
}
use tmis.AiTeam.Planner.{chain_from, rewired, splice_after, decompose}
use tmis.AiTeam.Delegation.{Team, team_descriptors, first_match, matching_agent}
use tmis.AiTeam.Mission.{Office, Setting}
use tmis.AiTeam.Coordinator.Queueing.{IsFresh}
use tmis.AiTeam.Coordinator.Live.{IsAnswering, IsManned, IsStaffed}
use tmis.AiTeam.Missions.{Desk}
use tmis.AiTeam.Missions.Runs.{IsKeyed}
use tmis.AiTeam.Teams.{MissionComplexity, resolve_role, team_roles}
use tmis.AiTeam.Teams.Members.{IsRegistered}
use tmis.AiTeam.Teams.Staffing.{IsFilled}
use tmis.AiTeam.Planner.Samples.{names}
use tmis.AiTeam.Samples.Fresh.{longer_name, longer_name-new}

abbrev pub described : String → AgentRole → AgentDescriptor
described x r = record {
  id = x;
  name = x;
  role = r;
  description = "";
  skills = [];
  tools = [];
  compatible_models = [];
  estimated_cost_usd = 20;
  average_duration_seconds = 1500;
  quality_score = 800;
  version = "1.0.0";
  metadata = [];
}

abbrev pub five_agents : AgentRegistry
five_agents =
    ("documents", described "documents" document_analyst)
    ∷ ("law", described "law" legal_researcher)
    ∷ ("checks", described "checks" verifier)
    ∷ ("quality", described "quality" quality_controller)
    ∷ ("tax", described "tax" tax_expert)
    ∷ []

abbrev pub answer : AgentOutput
answer = record {
  result = ("text", "done") ∷ [];
  citations = [];
  confidence = ConfidenceLevel.high;
  warnings = [];
}

abbrev pub good_agent : Agent ℕ
good_agent input calls = (ok answer, suc calls)

abbrev pub firm : Setting ℕ
firm = record {
  registry = five_agents;
  agents =
      ("documents", good_agent)
      ∷ ("law", good_agent)
      ∷ ("checks", good_agent)
      ∷ ("quality", good_agent)
      ∷ ("tax", good_agent)
      ∷ [];
  str = λ e. "error";
  now = λ calls. calls;
  elapsed = λ before after. after - before;
  task_id = λ calls. "task";
  new_id = longer_name;
}

abbrev pub empty_office : Office ℕ
empty_office = record {
  queue = [];
  delegations = [];
  trace = [];
  runs = [];
  revisions = [];
  validations = [];
  world = 0;
}

abbrev pub empty_desk : Desk ℕ
empty_desk = record { missions = []; office = empty_office }

abbrev pub tax_team : Team
tax_team = record {
  id = "team";
  name = "Tax";
  member_agent_ids = "documents" ∷ "law" ∷ "checks" ∷ "quality" ∷ "tax" ∷ [];
  domain = fiscal;
  is_custom = true;
  created_at = 0;
}

pub firm-IsFresh : IsFresh firm
firm-IsFresh queue = longer_name-new queue

pub empty_desk-IsKeyed : IsKeyed []
unfolding get
empty_desk-IsKeyed k i e = absurd (cc)

pub five_agents-IsRegistered : IsRegistered five_agents
unfolding get
five_agents-IsRegistered =
    ((refl, (refl, (refl, (refl, (refl, tt))))), (refl, (refl, (refl, (refl, (refl, tt))))))

pub five_agents-IsManned :
    (team : Team) → Every (λ (e : String × AgentDescriptor). IsManned firm team e.0) five_agents
unfolding get
five_agents-IsManned team =
    let good : IsAnswering firm team good_agent = λ input calls. (answer, refl) in
    (
      (good_agent, refl, good),
      (
        (good_agent, refl, good),
        ((good_agent, refl, good), ((good_agent, refl, good), ((good_agent, refl, good), tt))),
      ),
    )

pub five_agents-IsFilled :
    Every (IsFilled five_agents) (team_roles fiscal MissionComplexity.medium "standard_analysis")
unfolding team_roles roles_for_case_type roles_from template_for domain_expert_role resolve_role
    list_by_role values get
five_agents-IsFilled = (
  ("documents", refl, refl),
  (
    ("law", refl, refl),
    (("checks", refl, refl), (("quality", refl, refl), (("tax", refl, refl), tt))),
  ),
)

pub tax_plan-IsStaffed :
    Every (IsStaffed firm tax_team) (decompose names fiscal "standard_analysis")
unfolding get decompose template_for domain_expert_role chain_from splice_after rewired
    matching_agent team_descriptors first_match put
tax_plan-IsStaffed =
    let good : IsAnswering firm tax_team good_agent = λ input calls. (answer, refl) in
    (
      (good_agent, refl, good),
      (
        (good_agent, refl, good),
        ((good_agent, refl, good), ((good_agent, refl, good), ((good_agent, refl, good), tt))),
      ),
    )
