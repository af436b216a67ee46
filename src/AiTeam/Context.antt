-- ===== src/AiTeam/Context.antt =====
-- Which part of a mission's context an agent is given: ai_team/context (schemas.py and engine.py).
use tmis.Prelude.{
  ℕ, ◌+◌, ◌/◌, max, String, List, [], ◌∷◌, ◌++◌, map, ◌==◌, nat_eq, string_eq, key_eq, length, keep,
  any,
}
use tmis.Prelude.Dict.{Dict}
use tmis.Prelude.Sort.{sort}
use tmis.Prelude.Python.{text_le, codes, starts_with}
use tmis.AiTeam.Capabilities.{
  AgentRole, document_analyst, legal_researcher, jurisprudence_expert, drafter, verifier,
  gdpr_expert, tax_expert, social_law_expert,
}

pub record ContextSlice : Type 0 where
  pub agent_role : AgentRole
  pub content : Dict String String
  pub token_estimate : ℕ

pub record ContextTraceEntry : Type 0 where
  pub mission_id : String
  pub agent_role : AgentRole
  pub keys_included : List String
  pub token_estimate : ℕ
  pub provided_at : ℕ

-- `_RELEVANT_KEY_PREFIXES`, where a role that is absent is like one with no prefix.
abbrev pub relevant_key_prefixes : AgentRole → List String
relevant_key_prefixes document_analyst = "case_" ∷ []
relevant_key_prefixes legal_researcher = "case_" ∷ "document_analysis_" ∷ []
relevant_key_prefixes jurisprudence_expert = "case_" ∷ "legal_research_" ∷ []
relevant_key_prefixes gdpr_expert = "case_" ∷ "document_analysis_" ∷ "legal_research_" ∷ []
relevant_key_prefixes tax_expert = "case_" ∷ "document_analysis_" ∷ "legal_research_" ∷ []
relevant_key_prefixes social_law_expert = "case_" ∷ "document_analysis_" ∷ "legal_research_" ∷ []
relevant_key_prefixes drafter =
    "case_" ∷ "document_analysis_" ∷ "legal_research_" ∷ "jurisprudence_research_"
    ∷ "risk_analysis_" ∷ []
relevant_key_prefixes verifier = "case_" ∷ "drafting_" ∷ "reasoning_" ∷ []
relevant_key_prefixes _ = []

-- `max(1, len(str(value)) // 4)`
abbrev pub estimate_tokens : String → ℕ
estimate_tokens value = max 1 (length (codes value) / 4)

abbrev pub estimate_all : Dict String String → ℕ
estimate_all [] = 0
estimate_all ((_, value) ∷ content) = estimate_tokens value + estimate_all content

unfoldable pub relevant : AgentRole → Dict String String → Dict String String
relevant role context = elim (relevant_key_prefixes role) [
  | [] ↦ context
  | p ∷ ps ↦ keep (λ (kv : String × String). any (starts_with kv.0) (p ∷ ps)) context
]

abbrev pub keys_of : Dict String String → List String
keys_of content = map (λ (kv : String × String). kv.0) content

unfoldable pub build_context_for :
    ℕ
    → List ContextTraceEntry
    → String
    → AgentRole
    → Dict String String
    → ContextSlice × List ContextTraceEntry
unfolding relevant
build_context_for now trace mission_id role context =
    let content = relevant role context in
    let tokens = estimate_all content in
    let entry : ContextTraceEntry = record {
      mission_id = mission_id;
      agent_role = role;
      keys_included = sort text_le (keys_of content);
      token_estimate = tokens;
      provided_at = now;
    } in
    let slice : ContextSlice = record {
      agent_role = role;
      content = content;
      token_estimate = tokens;
    } in
    (slice, trace ++ entry ∷ [])

unfoldable pub trace_for_mission : List ContextTraceEntry → String → List ContextTraceEntry
trace_for_mission trace mission_id = keep (λ e. e.mission_id == mission_id) trace
