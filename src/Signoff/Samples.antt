-- ===== src/Signoff/Samples.antt =====
-- A request with two approvers, of whom one has approved.
use tmis.Prelude.{◌≡◌, refl, ◌↔◌, none, some, [], ◌∷◌, nat_eq, string_eq, key_eq, Every}
use tmis.Prelude.Dict.{get, put, values}
use tmis.Prelude.Python.{value_error, raise, append}
use tmis.Prelude.Sample.{plain}
use tmis.Signoff.{
  multiple, pending, approved, approve, ApprovalDecision, ApprovalRequest, ApprovalStore, is_reject,
  is_change, compute_status, with_decision, decide_request,
}
use tmis.Signoff.Latest.{last_decision, NobodyLast, compute_status-multiple}

abbrev by_ann : ApprovalDecision
by_ann = record { approver_id = "ann"; decision = approve; comment = none; decided_at = 1 }

abbrev half_signed : ApprovalRequest
half_signed = record {
  id = "r1";
  workspace_id = "w";
  target_type = "draft";
  target_id = "t";
  requested_by = "clerk";
  approver_ids = "ann" ∷ "bob" ∷ [];
  mode = multiple;
  status = pending;
  history = by_ann ∷ [];
  created_at = some 0;
}

compute_status-multiple_example : (compute_status half_signed ≡ approved) ↔ (
    NobodyLast is_reject half_signed.history
    × NobodyLast is_change half_signed.history
    × Every (λ a. last_decision a half_signed.history ≡ some approve) half_signed.approver_ids)
compute_status-multiple_example = compute_status-multiple half_signed refl

abbrev one_request : ApprovalStore
one_request = ("r1", half_signed) ∷ []

signed_by_both : (with_decision plain half_signed "bob" approve none 2).status ≡ approved
unfolding compute_status get values put
signed_by_both = refl

-- Somebody who is not listed cannot decide.
unlisted_refused : decide_request plain one_request "r1" "mallory" approve none 2 ≡ (
  raise (value_error (append "'mallory'" (append " is not an approver for " "'r1'"))),
  one_request,
)
unfolding decide_request get
unlisted_refused = refl
