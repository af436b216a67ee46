-- ===== src/Approval.antt =====
-- The approval gateway and its policies:
-- backend/src/tmis/workflow_automation/approval_gateway (schemas.py, store.py and engine.py).
mod Samples
use tmis.Prelude.{
  ℕ, String, ◌≡◌, refl, inl, inr, Bool, false, ◌&&◌, Option, none, some, List, if◌then◌else◌,
  Bool-cases, ◌==◌, nat_eq, string_eq, key_eq,
}
use tmis.Prelude.Dict.{Dict, get, put, get-put}
use tmis.Prelude.Python.{Result}
use tmis.Validation.{
  ValidationDecisionType, ValidationRequest, ValidationStore, request_simple, decide, is_validated,
}

pub record ApprovalPolicy : Type 0 where
  pub firm_id : String
  pub action_type : String
  pub required : Bool

-- `InMemoryApprovalPolicyStore`
abbrev pub PolicyStore : Type 0
PolicyStore = Dict (String × String) ApprovalPolicy

unfoldable pub configure : PolicyStore → String → String → Bool → ApprovalPolicy × PolicyStore
configure policies firm_id action_type required =
    let policy : ApprovalPolicy = record {
      firm_id = firm_id;
      action_type = action_type;
      required = required;
    } in
    (policy, put policies (policy.firm_id, policy.action_type) policy)

unfoldable pub requires_approval : PolicyStore → String → String → Bool
requires_approval policies firm_id action_type = elim (get policies (firm_id, action_type)) [
  | none ↦ false
  | some policy ↦ policy.required
]

-- The action's identifier is the production's of the validation engine.
unfoldable pub request_approval :
    String
    → ℕ
    → ValidationStore
    → (firm_id action_id requested_by : String) → List String
    → ValidationRequest × ValidationStore
unfolding request_simple
request_approval id now store firm_id action_id requested_by approver_ids =
    request_simple id now store firm_id action_id requested_by approver_ids

unfoldable pub decide_approval :
    ValidationStore
    → (firm_id request_id approver_id : String) → ValidationDecisionType
    → Option String
    → ℕ
    → Result ValidationRequest × ValidationStore
unfolding decide
decide_approval store firm_id request_id approver_id decision comment now =
    decide store firm_id request_id approver_id decision comment now

unfoldable pub is_approved : ValidationStore → String → String → Bool
unfolding is_validated
is_approved store firm_id action_id = is_validated store firm_id action_id

-- After a policy is configured, that action type of that firm requires approval as configured, and
-- every other firm and action type as before.
pub requires_approval-configure :
    (policies : PolicyStore) (firm_id action_type firm action : String) (required : Bool)
    → requires_approval (configure policies firm_id action_type required).1 firm action ≡ (
        if firm_id == firm && action_type == action
        then required
        else requires_approval policies firm action)
unfolding requires_approval configure
requires_approval-configure policies firm_id action_type firm action required =
    elim (Bool-cases (firm_id == firm && action_type == action)) [
      | inl hit ↦ rw (get-put, hit, requires_approval) refl
      | inr miss ↦ rw (get-put, miss, requires_approval) refl
    ]
