-- ===== src/Signoff.antt =====
-- Approval requests of a workspace: backend/src/tmis/collaboration/approvals (schemas.py, store.py
-- and engine.py).
pub mod Latest
mod Samples
use tmis.Prelude.{
  ℕ, String, Bool, true, false, not, ◌&&◌, Option, none, some, List, [], ◌∷◌, ◌++◌, if◌then◌else◌,
  ◌==◌, nat_eq, string_eq, key_eq, keep, all, any,
}
use tmis.Prelude.Dict.{Dict, get, put, values}
use tmis.Prelude.Python.{value_error, Result, ok, raise, append, Builtins}

pub data ApprovalMode : Type 0 where
  single multiple : ApprovalMode

pub data ApprovalStatus : Type 0 where
  pending approved rejected changes_requested : ApprovalStatus

pub data ApprovalDecisionType : Type 0 where
  approve reject request_changes : ApprovalDecisionType

pub record ApprovalDecision : Type 0 where
  pub approver_id : String
  pub decision : ApprovalDecisionType
  pub comment : Option String
  pub decided_at : ℕ

pub record ApprovalRequest : Type 0 where
  pub id : String
  pub workspace_id : String
  pub target_type : String
  pub target_id : String
  pub requested_by : String
  pub approver_ids : List String
  pub mode : ApprovalMode
  pub status : ApprovalStatus
  pub history : List ApprovalDecision
  pub created_at : Option ℕ

-- `InMemoryApprovalStore`
abbrev pub ApprovalStore : Type 0
ApprovalStore = Dict String ApprovalRequest

unfoldable pub save_approval : ApprovalStore → ApprovalRequest → ApprovalStore
save_approval store approval = put store approval.id approval

unfoldable pub list_for_workspace : ApprovalStore → String → List ApprovalRequest
list_for_workspace store workspace_id = keep (λ a. a.workspace_id == workspace_id) (values store)

unfoldable pub list_for_target : ApprovalStore → String → String → List ApprovalRequest
list_for_target store target_type target_id =
    keep (λ a. a.target_type == target_type && a.target_id == target_id) (values store)

abbrev pub is_approve : ApprovalDecisionType → Bool
is_approve approve = true
is_approve _ = false

abbrev pub is_reject : ApprovalDecisionType → Bool
is_reject reject = true
is_reject _ = false

abbrev pub is_change : ApprovalDecisionType → Bool
is_change request_changes = true
is_change _ = false

-- The loop `for entry in history: latest[entry.approver_id] = entry.decision`
unfoldable pub latest_from :
    Dict String ApprovalDecisionType → List ApprovalDecision → Dict String ApprovalDecisionType
latest_from latest [] = latest
latest_from latest (e ∷ es) = latest_from (put latest e.approver_id e.decision) es

-- `latest.get(approver_id) is APPROVE`
abbrev pub has_approved : Dict String ApprovalDecisionType → String → Bool
has_approved latest approver_id = elim (get latest approver_id) [
  | none ↦ false
  | some d ↦ is_approve d
]

abbrev pub settled : ApprovalMode → List String → Dict String ApprovalDecisionType → Bool
settled single approver_ids latest = any is_approve (values latest)
settled multiple approver_ids latest = all (has_approved latest) approver_ids

unfoldable pub compute_status : ApprovalRequest → ApprovalStatus
unfolding latest_from
compute_status approval =
    let latest = latest_from [] approval.history in
    if any is_reject (values latest)
    then rejected
    else if any is_change (values latest)
    then changes_requested
    else if settled approval.mode approval.approver_ids latest
    then approved
    else pending

-- `ApprovalEngine.request`. The new identifier and the time are arguments.
unfoldable pub request :
    String
    → ℕ
    → ApprovalStore
    → (workspace_id target_type target_id requested_by : String) → List String
    → ApprovalMode
    → ApprovalRequest × ApprovalStore
unfolding save_approval
request id now store workspace_id target_type target_id requested_by approver_ids mode =
    let approval : ApprovalRequest = record {
      id = id;
      workspace_id = workspace_id;
      target_type = target_type;
      target_id = target_id;
      requested_by = requested_by;
      approver_ids = approver_ids;
      mode = mode;
      status = pending;
      history = [];
      created_at = some now;
    } in
    (approval, save_approval store approval)

module _ (py : Builtins) where
  unfoldable pub require_approval : ApprovalStore → String → Result ApprovalRequest
  require_approval store approval_id = elim (get store approval_id) [
    | none ↦ raise (value_error (append "Unknown approval request " (py.repr approval_id)))
    | some approval ↦ ok approval
  ]

  abbrev pub with_decision :
      ApprovalRequest → String → ApprovalDecisionType → Option String → ℕ → ApprovalRequest
  with_decision approval approver_id decision comment now =
      let entry : ApprovalDecision = record {
        approver_id = approver_id;
        decision = decision;
        comment = comment;
        decided_at = now;
      } in
      let appended = record approval { history = approval.history ++ entry ∷ [] } in
      record appended { status = compute_status appended }

  unfoldable pub decide_request :
      ApprovalStore
      → (approval_id approver_id : String) → ApprovalDecisionType
      → Option String
      → ℕ
      → Result ApprovalRequest × ApprovalStore
  unfolding require_approval save_approval
  decide_request store approval_id approver_id decision comment now =
      elim (require_approval store approval_id) [
        | raise exc ↦ (raise exc, store)
        | ok approval ↦
            let approval' = with_decision approval approver_id decision comment now in
            if any (λ a. a == approver_id) approval.approver_ids
            then (ok approval', save_approval store approval')
            else (
              raise (
                  value_error (
                    append (py.repr approver_id)
                      (append " is not an approver for " (py.repr approval_id)))),
              store,
            )
      ]
