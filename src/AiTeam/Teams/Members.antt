-- ===== src/AiTeam/Teams/Members.antt =====
-- Which members of a team the registry gives sub-tasks to.
use tmis.Prelude.{
  String, ◌≡◌, refl, sym, ap, ◌∙◌, subst, inl, inr, true, false≢true, none, some, List, [], ◌∷◌,
  eq_iff, Bool-cases, Option-cases, ◌==◌, nat_eq, string_eq, key_eq, keep, Every, Every-keep,
  some_injective,
}
use tmis.Prelude.Dict.{Dict, get, put, values, get-put, get-put_self}
use tmis.Prelude.Distinct.{Distinct, Every-found, Every-get_entry}
use tmis.AiTeam.Capabilities.{AgentRole, same_role}
use tmis.AiTeam.Agents.{AgentDescriptor, AgentRegistry, list_by_role}
use tmis.AiTeam.Delegation.{team_descriptors, first_match}
use tmis.AiTeam.Planner.Ordered.{has_id}
use tmis.AiTeam.Teams.{resolve_role}

-- Agents are registered under their own identifiers.
abbrev pub IsRegistered : AgentRegistry → Type 0
IsRegistered registry =
    Distinct registry × Every (λ (e : String × AgentDescriptor). e.1.id ≡ e.0) registry

pub registered-id :
    (registry : AgentRegistry) (x : String) (d : AgentDescriptor)
    → IsRegistered registry
    → get registry x ≡ some d
    → d.id ≡ x
registered-id registry x d (distinct, named) found =
    Every-get_entry (λ (e : String × AgentDescriptor). e.1.id ≡ e.0) registry x d named found

values-found :
    (registry ds : AgentRegistry)
    → Every (λ (e : String × AgentDescriptor). get registry e.0 ≡ some e.1) ds
    → Every (λ (e : String × AgentDescriptor). e.1.id ≡ e.0) ds
    → Every (λ (d : AgentDescriptor). get registry d.id ≡ some d) (values ds)
unfolding values
values-found registry [] found named = tt
values-found registry ((k, d) ∷ ds) found named =
    (ap (get registry) named.0 ∙ found.0, values-found registry ds found.1 named.1)

-- The agent of a role is registered, and has the role.
pub resolve_role-found :
    (registry : AgentRegistry) (role : AgentRole) (x : String)
    → IsRegistered registry
    → resolve_role registry role ≡ some x
    → (d : AgentDescriptor) × (get registry x ≡ some d) × (same_role d.role role ≡ true)
unfolding resolve_role list_by_role
resolve_role-found registry role x (distinct, named) e =
    let found =
      Every-found (λ (e : String × AgentDescriptor). get registry e.0 ≡ some e.1) registry distinct
        (λ k v f. f) in
    let h =
      Every-keep (λ (d : AgentDescriptor). get registry d.id ≡ some d)
        (λ (d : AgentDescriptor). same_role d.role role) (values registry)
        (values-found registry registry found named) in
    head_of (keep (λ (d : AgentDescriptor). same_role d.role role) (values registry)) h e
  where
    head_of :
        (ds : List AgentDescriptor)
        → Every
            (λ (d : AgentDescriptor). (get registry d.id ≡ some d) × (same_role d.role role ≡ true))
            ds
        → (elim ds [ [] ↦ none | d ∷ _ ↦ some d.id ]) ≡ some x
        → (d : AgentDescriptor) × (get registry x ≡ some d) × (same_role d.role role ≡ true)
    head_of [] h e = absurd (cc)
    head_of (d ∷ ds) ((there, same), h) e =
        let at : d.id ≡ x = some_injective e in (d, ap (get registry) (sym at) ∙ there, same)

kept_descriptor :
    (registry : AgentRegistry) (known : Dict String AgentDescriptor) (ids : List String)
    (x : String) (d : AgentDescriptor)
    → IsRegistered registry
    → get registry x ≡ some d
    → get known x ≡ some d
    → get (team_descriptors registry known ids) x ≡ some d
unfolding team_descriptors
kept_descriptor registry known [] x d h there e = e
kept_descriptor registry known (y ∷ ids) x d h there e = elim (Option-cases (get registry y)) [
  | inl no_one ↦ rw (team_descriptors, no_one) (kept_descriptor registry known ids x d h there e)
  | inr (c, found) ↦
      let named = registered-id registry y c h found in
      rw (team_descriptors, found)
        (kept_descriptor registry (put known c.id c) ids x d h there (
          rw get-put (elim (Bool-cases (c.id == x)) [
            | inl hit ↦
                let at : y ≡ x = sym named ∙ (eq_iff c.id x).0 hit in
                let same : c ≡ d = some_injective (sym found ∙ ap (get registry) at ∙ there) in
                rw hit (ap some same)
            | inr miss ↦ rw miss e
          ])))
]

-- A member that is registered is among the team's descriptors.
pub member_descriptor :
    (registry : AgentRegistry) (known : Dict String AgentDescriptor) (ids : List String)
    (x : String) (d : AgentDescriptor)
    → IsRegistered registry
    → get registry x ≡ some d
    → has_id x ids ≡ true
    → get (team_descriptors registry known ids) x ≡ some d
unfolding team_descriptors
member_descriptor registry known [] x d h there e = absurd (cc)
member_descriptor registry known (y ∷ ids) x d h there e = elim (Bool-cases (y == x)) [
  | inl hit ↦
      let at : y ≡ x = (eq_iff y x).0 hit in
      let found : get registry y ≡ some d = ap (get registry) at ∙ there in
      let named : d.id ≡ x = registered-id registry x d h there in
      rw (team_descriptors, found)
        (kept_descriptor registry (put known d.id d) ids x d h there
          (subst (λ k. get (put known d.id d) k ≡ some d) named (get-put_self known d.id d)))
  | inr miss ↦
      let e' : has_id x ids ≡ true = rw miss at e in
      elim (Option-cases (get registry y)) [
        | inl no_one ↦
            rw (team_descriptors, no_one) (member_descriptor registry known ids x d h there e')
        | inr (c, found) ↦
            rw (team_descriptors, found)
              (member_descriptor registry (put known c.id c) ids x d h there e')
      ]
]

pub first_match-finds :
    (ds : Dict String AgentDescriptor) (role : AgentRole) (x : String) (d : AgentDescriptor)
    → get ds x ≡ some d
    → same_role d.role role ≡ true
    → (y : String) × (first_match ds role ≡ some y)
unfolding first_match get
first_match-finds [] role x d there same = absurd (cc)
first_match-finds ((k, c) ∷ ds) role x d there same = elim (Bool-cases (same_role c.role role)) [
  | inl hit ↦ (k, rw hit refl)
  | inr miss ↦ elim (Bool-cases (k == x)) [
    | inl at ↦
        let eq : c ≡ d = some_injective (rw at at there) in
        absurd (
          false≢true
            (sym (ap (λ (b : AgentDescriptor). same_role b.role role) (sym eq) ∙ miss) ∙ same))
    | inr other ↦
        let (y, rest) = first_match-finds ds role x d (rw other at there) same in (y, rw miss rest)
  ]
]
