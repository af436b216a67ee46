-- ===== src/AiTeam/Teams/Matching.antt =====
-- What is known of the agent that `assign_agent` picks.
use tmis.Prelude.{
  String, ◌≡◌, sym, subst, inl, inr, some, List, [], ◌∷◌, Bool-cases, Option-cases, ◌==◌, nat_eq,
  string_eq, key_eq, Every, some_injective,
}
use tmis.Prelude.Dict.{Dict, get, put}
use tmis.AiTeam.Capabilities.{AgentRole, same_role}
use tmis.AiTeam.Agents.{AgentDescriptor, AgentRegistry}
use tmis.AiTeam.Delegation.{Team, team_descriptors, first_match, matching_agent}
use tmis.AiTeam.Teams.Members.{IsRegistered, registered-id}

module _ (registry : AgentRegistry) (P : String → Type 0) where
  -- The registered ones among the names have the property.
  abbrev pub AllHave : List String → Type 0
  AllHave ids = Every (λ x. (d : AgentDescriptor) → get registry x ≡ some d → P x) ids

  Every-put :
      (known : Dict String AgentDescriptor) (k : String) (d : AgentDescriptor)
      → P k
      → Every (λ (e : String × AgentDescriptor). P e.0) known
      → Every (λ (e : String × AgentDescriptor). P e.0) (put known k d)
  unfolding put
  Every-put [] k d p h = (p, tt)
  Every-put ((j, c) ∷ known) k d p h = elim (Bool-cases (j == k)) [
    | inl hit ↦ rw hit h
    | inr miss ↦ rw miss (h.0, Every-put known k d p h.1)
  ]

  team_descriptors-Every :
      (known : Dict String AgentDescriptor) (ids : List String)
      → IsRegistered registry
      → AllHave ids
      → Every (λ (e : String × AgentDescriptor). P e.0) known
      → Every (λ (e : String × AgentDescriptor). P e.0) (team_descriptors registry known ids)
  unfolding team_descriptors
  team_descriptors-Every known [] reg have h = h
  team_descriptors-Every known (y ∷ ids) reg have h = elim (Option-cases (get registry y)) [
    | inl no_one ↦ rw (team_descriptors, no_one) (team_descriptors-Every known ids reg have.1 h)
    | inr (c, found) ↦
        let named : c.id ≡ y = registered-id registry y c reg found in
        rw (team_descriptors, found)
          (team_descriptors-Every (put known c.id c) ids reg have.1
            (Every-put known c.id c (subst P (sym named) (have.0 c found)) h))
  ]

  first_match-Every :
      (ds : Dict String AgentDescriptor) (role : AgentRole) (y : String)
      → Every (λ (e : String × AgentDescriptor). P e.0) ds
      → first_match ds role ≡ some y
      → P y
  unfolding first_match
  first_match-Every [] role y h e = absurd (cc)
  first_match-Every ((k, c) ∷ ds) role y h e = elim (Bool-cases (same_role c.role role)) [
    | inl hit ↦ let at : k ≡ y = some_injective (rw hit at e) in subst P at h.0
    | inr miss ↦ first_match-Every ds role y h.1 (rw miss at e)
  ]

  pub matching_agent-Every :
      (role : AgentRole) (team : Team) (y : String)
      → IsRegistered registry
      → AllHave team.member_agent_ids
      → matching_agent registry role team ≡ some y
      → P y
  unfolding matching_agent
  matching_agent-Every role team y reg have e =
      first_match-Every (team_descriptors registry [] team.member_agent_ids) role y
        (team_descriptors-Every [] team.member_agent_ids reg have tt) e
