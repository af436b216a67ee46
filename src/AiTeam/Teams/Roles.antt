-- ===== src/AiTeam/Teams/Roles.antt =====
-- The roles of a team cover those of the plan.
use tmis.Prelude.{
  ℕ, suc, String, ◌≡◌, refl, sym, ap, ◌∙◌, subst, inl, inr, true, not, ◌&&◌, Option, none, some,
  List, [], ◌∷◌, ◌++◌, eq_iff, if◌then◌else◌, Bool-cases, Option-cases, ◌==◌, nat_eq, string_eq,
  key_eq, length, any, Every,
}
use tmis.AiTeam.Capabilities.{
  LegalDomain, AgentRole, coordinator, document_analyst, legal_researcher, jurisprudence_expert,
  drafter, verifier, quality_controller, gdpr_expert, tax_expert, social_law_expert, critic,
  role_value, same_role, MissionStep, template_for, roles_from, roles_for_case_type,
  domain_expert_role,
}
use tmis.AiTeam.Planner.{
  SubTask, MissionPlan, chain_from, rewired, splice_after, expert_task, decompose,
}
use tmis.AiTeam.Teams.{MissionComplexity, is_not_low, team_roles}

abbrev role_of : String → AgentRole
role_of value =
    if value == "coordinator"
    then coordinator
    else if value == "document_analyst"
    then document_analyst
    else if value == "legal_researcher"
    then legal_researcher
    else if value == "jurisprudence_expert"
    then jurisprudence_expert
    else if value == "drafter"
    then drafter
    else if value == "verifier"
    then verifier
    else if value == "quality_controller"
    then quality_controller
    else if value == "gdpr_expert"
    then gdpr_expert
    else if value == "tax_expert"
    then tax_expert
    else if value == "social_law_expert"
    then social_law_expert
    else critic

role_of-role_value : (a : AgentRole) → role_of (role_value a) ≡ a
role_of-role_value coordinator = refl
role_of-role_value document_analyst = refl
role_of-role_value legal_researcher = refl
role_of-role_value jurisprudence_expert = refl
role_of-role_value drafter = refl
role_of-role_value verifier = refl
role_of-role_value quality_controller = refl
role_of-role_value gdpr_expert = refl
role_of-role_value tax_expert = refl
role_of-role_value social_law_expert = refl
role_of-role_value critic = refl

pub same_role-eq : (a b : AgentRole) → same_role a b ≡ true → a ≡ b
same_role-eq a b e =
    sym (role_of-role_value a)
    ∙ ap role_of ((eq_iff (role_value a) (role_value b)).0 e)
    ∙ role_of-role_value b

seen_role :
    (P : AgentRole → Type 0) (role : AgentRole) (seen : List AgentRole)
    → any (same_role role) seen ≡ true
    → Every P seen
    → P role
seen_role P role [] e h = absurd (cc)
seen_role P role (r ∷ seen) e h = elim (Bool-cases (same_role role r)) [
  | inl hit ↦ subst P (sym (same_role-eq role r hit)) h.0
  | inr miss ↦ seen_role P role seen (rw miss at e) h.1
]

Every-left :
    (P : AgentRole → Type 0) (xs ys : List AgentRole) → Every P (xs ++ ys) → Every P xs × Every P ys
Every-left P [] ys h = (tt, h)
Every-left P (x ∷ xs) ys h = let (l, r) = Every-left P xs ys h.1 in ((h.0, l), r)

-- What holds of all roles of `roles_from` holds of those that it started with and of the steps'.
roles_from-steps :
    (P : AgentRole → Type 0) (seen : List AgentRole) (steps : List MissionStep)
    → Every P (roles_from seen steps)
    → Every P seen × Every (λ (s : MissionStep). P s.1) steps
unfolding roles_from
roles_from-steps P seen [] h = (h, tt)
roles_from-steps P seen ((k, role) ∷ steps) h = elim (Bool-cases (any (same_role role) seen)) [
  | inl hit ↦
      let (old, rest) = roles_from-steps P seen steps (rw (hit, roles_from) at h) in
      (old, (seen_role P role seen hit old, rest))
  | inr miss ↦
      let (all_seen, rest) =
        roles_from-steps P (seen ++ role ∷ []) steps (rw (miss, roles_from) at h) in
      let (old, new) = Every-left P seen (role ∷ []) all_seen in (old, (new.0, rest))
]

chain_from-roles :
    (P : AgentRole → Type 0) (ids : ℕ → String) (n : ℕ) (previous last_research : Option String)
    (steps : List MissionStep)
    → Every (λ (s : MissionStep). P s.1) steps
    → Every (λ (t : SubTask). P t.assigned_role) (chain_from ids n previous last_research steps).0
unfolding chain_from
chain_from-roles P ids n previous last_research [] h = tt
chain_from-roles P ids n previous last_research ((k, role) ∷ steps) h =
    (h.0, chain_from-roles P ids (suc n) (some (ids n)) _ steps h.1)

rewired-role :
    (after_id : String) (new_task t : SubTask)
    → (rewired after_id new_task t).assigned_role ≡ t.assigned_role
unfolding rewired
rewired-role after_id new_task t =
    elim (Bool-cases (any (λ dep. dep == after_id) t.depends_on && not (t.id == new_task.id))) [
      | inl hit ↦ rw (rewired, hit) refl
      | inr miss ↦ rw (rewired, miss) refl
    ]

splice_after-roles :
    (P : AgentRole → Type 0) (after_id : String) (new_task : SubTask) (ts : MissionPlan)
    → P new_task.assigned_role
    → Every (λ (t : SubTask). P t.assigned_role) ts
    → Every (λ (t : SubTask). P t.assigned_role) (splice_after after_id new_task ts)
unfolding splice_after
splice_after-roles P after_id new_task [] new h = tt
splice_after-roles P after_id new_task (t ∷ ts) new h =
    let rest = splice_after-roles P after_id new_task ts new h.1 in
    let here : P (rewired after_id new_task t).assigned_role =
      subst P (sym (rewired-role after_id new_task t)) h.0 in
    elim (Bool-cases (t.id == after_id)) [
      | inl at ↦ rw (splice_after, at) (here, (new, rest))
      | inr other ↦ rw (splice_after, other) (here, rest)
    ]

-- What holds of the roles of a team that is not for a mission of low complexity holds of the role of
-- each sub-task of the plan.
pub team_roles-decompose :
    (P : AgentRole → Type 0) (ids : ℕ → String) (domain : LegalDomain)
    (complexity : MissionComplexity) (case_type : String)
    → is_not_low complexity ≡ true
    → Every P (team_roles domain complexity case_type)
    → Every (λ (t : SubTask). P t.assigned_role) (decompose ids domain case_type)
unfolding team_roles roles_for_case_type decompose
team_roles-decompose P ids domain complexity case_type not_low h =
    let steps = template_for case_type in
    let chain = chain_from ids 0 none none steps in
    elim (Option-cases (domain_expert_role domain)) [
      | inl no_one ↦
          let (_, roles) = roles_from-steps P [] steps (rw (no_one, team_roles) at h) in
          rw (no_one, decompose) (chain_from-roles P ids 0 none none steps roles)
      | inr (role, expert) ↦
          let (left, right) =
            Every-left P (roles_from [] steps) (role ∷ [])
              (rw (expert, team_roles, not_low) at h) in
          let (_, roles) = roles_from-steps P [] steps left in
          let plan = chain_from-roles P ids 0 none none steps roles in
          elim (Option-cases chain.1) [
            | inl no_research ↦ rw (decompose, expert, no_research) plan
            | inr (after_id, research) ↦
                rw (decompose, expert, research)
                  (splice_after-roles P after_id
                    (expert_task (ids (length steps)) role domain after_id) chain.0 right.0 plan)
          ]
    ]
