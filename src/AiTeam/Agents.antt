-- ===== src/AiTeam/Agents.antt =====
-- What agents take and give: backend/src/tmis/ai/schemas (agent.py and citation.py), and their
-- entries in ai_team/registry (schemas.py and store.py).
use tmis.Prelude.{ℕ, String, Option, none, some, List, ◌==◌, nat_eq, string_eq, key_eq, keep, any}
use tmis.Prelude.Dict.{Dict, get, put, values}
use tmis.Prelude.Python.{Result}
use tmis.AiTeam.Capabilities.{AgentRole, same_role}

pub data ConfidenceLevel : Type 0 where
  high medium low : ConfidenceLevel

pub record Citation : Type 0 where
  pub source_id : String
  pub connector : String
  pub excerpt : String
  pub reference : String

-- The values of contexts and results are texts.
pub record AgentInput : Type 0 where
  pub task_id : String
  pub case_id : Option String
  pub context : Dict String String

pub record AgentOutput : Type 0 where
  pub result : Dict String String
  pub citations : List Citation
  pub confidence : ConfidenceLevel
  pub warnings : List String

-- `output.result.get("text", "")`
abbrev pub text_of : AgentOutput → String
text_of output = elim (get output.result "text") [ none ↦ "" | some t ↦ t ]

-- `TeamAgentPort.run`: an agent may raise, and may change the world outside the team.
abbrev pub Agent : Type 0 → Type 0
Agent W = AgentInput → W → Result AgentOutput × W

-- Costs, durations and qualities are in thousandths.
pub record AgentDescriptor : Type 0 where
  pub id : String
  pub name : String
  pub role : AgentRole
  pub description : String
  pub skills : List String
  pub tools : List String
  pub compatible_models : List String
  pub estimated_cost_usd : ℕ
  pub average_duration_seconds : ℕ
  pub quality_score : ℕ
  pub version : String
  pub metadata : Dict String String

-- `InMemoryAgentRegistry`
abbrev pub AgentRegistry : Type 0
AgentRegistry = Dict String AgentDescriptor

unfoldable pub register_agent : AgentRegistry → AgentDescriptor → AgentRegistry
register_agent registry descriptor = put registry descriptor.id descriptor

unfoldable pub list_by_role : AgentRegistry → AgentRole → List AgentDescriptor
list_by_role registry role = keep (λ d. same_role d.role role) (values registry)

unfoldable pub list_by_skill : AgentRegistry → String → List AgentDescriptor
list_by_skill registry skill = keep (λ d. any (λ s. s == skill) d.skills) (values registry)
