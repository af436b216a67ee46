-- ===== src/AiTeam/Capabilities.antt =====
-- What missions are made of, by their case type and domain: ai_team/capabilities (schemas.py,
-- mission_templates.py and catalog.py) and the roles of ai_team/agents/schemas.py.
use tmis.Prelude.{
  String, Bool, Option, none, some, List, [], ◌∷◌, ◌++◌, if◌then◌else◌, ◌==◌, nat_eq, string_eq,
  key_eq, any,
}
use tmis.Prelude.Dict.{Dict, get}

pub data LegalDomain : Type 0 where
  general civil commercial social fiscal data_protection penal : LegalDomain

pub data TaskType : Type 0 where
  document_analysis legal_research jurisprudence_research risk_analysis reasoning drafting :
      TaskType
  verification quality_control coordination critique : TaskType

pub data AgentRole : Type 0 where
  coordinator document_analyst legal_researcher jurisprudence_expert drafter verifier : AgentRole
  quality_controller gdpr_expert tax_expert social_law_expert critic : AgentRole

abbrev pub domain_value : LegalDomain → String
domain_value general = "general"
domain_value civil = "civil"
domain_value commercial = "commercial"
domain_value social = "social"
domain_value fiscal = "fiscal"
domain_value data_protection = "data_protection"
domain_value penal = "penal"

abbrev pub task_value : TaskType → String
task_value document_analysis = "document_analysis"
task_value legal_research = "legal_research"
task_value jurisprudence_research = "jurisprudence_research"
task_value risk_analysis = "risk_analysis"
task_value reasoning = "reasoning"
task_value drafting = "drafting"
task_value verification = "verification"
task_value quality_control = "quality_control"
task_value coordination = "coordination"
task_value critique = "critique"

abbrev pub role_value : AgentRole → String
role_value coordinator = "coordinator"
role_value document_analyst = "document_analyst"
role_value legal_researcher = "legal_researcher"
role_value jurisprudence_expert = "jurisprudence_expert"
role_value drafter = "drafter"
role_value verifier = "verifier"
role_value quality_controller = "quality_controller"
role_value gdpr_expert = "gdpr_expert"
role_value tax_expert = "tax_expert"
role_value social_law_expert = "social_law_expert"
role_value critic = "critic"

-- Two roles are equal if their values are, which differ in pairs.
abbrev pub same_role : AgentRole → AgentRole → Bool
same_role a b = role_value a == role_value b

abbrev pub MissionStep : Type 0
MissionStep = TaskType × AgentRole

abbrev pub full_case_analysis : List MissionStep
full_case_analysis =
    (document_analysis, document_analyst)
    ∷ (legal_research, legal_researcher)
    ∷ (jurisprudence_research, jurisprudence_expert)
    ∷ (reasoning, drafter)
    ∷ (drafting, drafter)
    ∷ (verification, verifier)
    ∷ (quality_control, quality_controller)
    ∷ []

-- `MISSION_TEMPLATES`
abbrev pub mission_templates : Dict String (List MissionStep)
mission_templates =
    ("quick_review", (verification, verifier) ∷ (quality_control, quality_controller) ∷ [])
    ∷ ("drafting_only", (drafting, drafter) ∷ (verification, verifier) ∷ [])
    ∷ (
      "standard_analysis",
      (document_analysis, document_analyst)
          ∷ (legal_research, legal_researcher)
          ∷ (verification, verifier)
          ∷ (quality_control, quality_controller)
          ∷ [],
    )
    ∷ ("full_case_analysis", full_case_analysis)
    ∷ []

unfoldable pub template_for : String → List MissionStep
template_for case_type = elim (get mission_templates case_type) [
  | none ↦ full_case_analysis
  | some steps ↦ steps
]

-- The loop of `roles_for_case_type`, with the roles seen so far.
unfoldable pub roles_from : List AgentRole → List MissionStep → List AgentRole
roles_from seen [] = seen
roles_from seen ((_, role) ∷ steps) =
    roles_from (if any (same_role role) seen then seen else seen ++ role ∷ []) steps

unfoldable pub roles_for_case_type : String → List AgentRole
unfolding roles_from template_for
roles_for_case_type case_type = roles_from [] (template_for case_type)

unfoldable pub domain_expert_role : LegalDomain → Option AgentRole
domain_expert_role data_protection = some gdpr_expert
domain_expert_role fiscal = some tax_expert
domain_expert_role social = some social_law_expert
domain_expert_role _ = none
