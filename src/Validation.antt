-- ===== src/Validation.antt =====
-- Human validation: backend/src/tmis/ai_governance/human_validation (schemas.py, store.py and
-- engine.py).
pub mod Tiers
pub mod Decisions
mod Samples
use tmis.Prelude.{
  ℕ, suc, ◌-◌, String, Bool, true, false, not, ◌&&◌, Option, none, some, List, [], ◌∷◌, ◌++◌,
  nat_beq, if◌then◌else◌, ◌==◌, nat_eq, string_eq, key_eq, length, keep, all, any,
}
use tmis.Prelude.Dict.{Dict, get, put, values}
use tmis.Prelude.Python.{key_error, Result, ok, raise, append}

pub data ValidationMode : Type 0 where
  simple multiple hierarchical : ValidationMode

pub data ValidationStatus : Type 0 where
  pending approved rejected revision_requested : ValidationStatus

pub data ValidationDecisionType : Type 0 where
  approve reject request_revision : ValidationDecisionType

pub record ValidationDecisionEntry : Type 0 where
  pub approver_id : String
  pub decision : ValidationDecisionType
  pub tier : ℕ
  pub comment : Option String
  pub decided_at : ℕ

pub record ValidationRequest : Type 0 where
  pub id : String
  pub firm_id : String
  pub production_id : String
  pub requested_by : String
  pub approver_tiers : List (List String)
  pub mode : ValidationMode
  pub status : ValidationStatus
  pub history : List ValidationDecisionEntry
  pub created_at : ℕ

-- `InMemoryValidationStore`
abbrev pub ValidationStore : Type 0
ValidationStore = Dict String ValidationRequest

unfoldable pub save : ValidationStore → ValidationRequest → ValidationStore
save store request = put store request.id request

-- A request of another firm is not found.
unfoldable pub get_request : ValidationStore → String → String → Option ValidationRequest
get_request store firm_id request_id = elim (get store request_id) [
  | none ↦ none
  | some request ↦ if request.firm_id == firm_id then some request else none
]

unfoldable pub list_for_production : ValidationStore → String → String → List ValidationRequest
list_for_production store firm_id production_id =
    keep (λ r. r.firm_id == firm_id && r.production_id == production_id) (values store)

abbrev pub approves : ValidationDecisionType → Bool
approves approve = true
approves _ = false

abbrev pub rejects : ValidationDecisionType → Bool
rejects reject = true
rejects _ = false

abbrev pub revises : ValidationDecisionType → Bool
revises request_revision = true
revises _ = false

-- Whether the entry is an approval of the tier.
abbrev pub in_tier : ℕ → ValidationDecisionEntry → Bool
in_tier tier_index entry = nat_beq entry.tier tier_index && approves entry.decision

-- `set(tier_approver_ids) <= tier_approvals` in MULTIPLE mode, `len(tier_approvals) > 0` otherwise,
-- where `tier_approvals` is the set of the approvers of the tier's approvals.
unfoldable pub tier_is_approved :
    List String → ℕ → List ValidationDecisionEntry → ValidationMode → Bool
tier_is_approved tier_approver_ids tier_index history multiple =
    all (λ a. any (λ entry. in_tier tier_index entry && entry.approver_id == a) history)
      tier_approver_ids
tier_is_approved tier_approver_ids tier_index history simple = any (in_tier tier_index) history
tier_is_approved tier_approver_ids tier_index history hierarchical =
    any (in_tier tier_index) history

-- The loops of `_recompute_status` and `_current_tier_index` over `enumerate(approver_tiers)`.
unfoldable pub tiers_approved :
    ℕ → List (List String) → List ValidationDecisionEntry → ValidationMode → Bool
tiers_approved tier_index [] history mode = true
tiers_approved tier_index (t ∷ ts) history mode =
    tier_is_approved t tier_index history mode && tiers_approved (suc tier_index) ts history mode

unfoldable pub first_open_tier :
    ℕ → List (List String) → List ValidationDecisionEntry → ValidationMode → Option ℕ
first_open_tier tier_index [] history mode = none
first_open_tier tier_index (t ∷ ts) history mode =
    if tier_is_approved t tier_index history mode
    then first_open_tier (suc tier_index) ts history mode
    else some tier_index

unfoldable pub recompute_status : ValidationRequest → ValidationStatus
unfolding tiers_approved
recompute_status request =
    if any (λ e. rejects e.decision) request.history
    then rejected
    else if any (λ e. revises e.decision) request.history
    then revision_requested
    else if tiers_approved 0 request.approver_tiers request.history request.mode
    then approved
    else pending

-- `max(0, len(approver_tiers) - 1)` where every tier is approved
unfoldable pub current_tier_index : ValidationRequest → ℕ
unfolding first_open_tier
current_tier_index request =
    elim (first_open_tier 0 request.approver_tiers request.history request.mode) [
      | none ↦ length request.approver_tiers - 1
      | some tier_index ↦ tier_index
    ]

-- `HumanValidationEngine._request` and the three requests that call it. The new identifier and the
-- time are arguments.
unfoldable pub make_request :
    String
    → ℕ
    → ValidationStore
    → (firm_id production_id requested_by : String) → List (List String)
    → ValidationMode
    → ValidationRequest × ValidationStore
unfolding save
make_request id now store firm_id production_id requested_by approver_tiers mode =
    let request : ValidationRequest = record {
      id = id;
      firm_id = firm_id;
      production_id = production_id;
      requested_by = requested_by;
      approver_tiers = approver_tiers;
      mode = mode;
      status = pending;
      history = [];
      created_at = now;
    } in
    (request, save store request)

module _ (id : String) (now : ℕ) (store : ValidationStore)
    (firm_id production_id requested_by : String) where
  unfoldable pub request_simple : List String → ValidationRequest × ValidationStore
  unfolding make_request
  request_simple approver_ids =
      make_request id now store firm_id production_id requested_by (approver_ids ∷ []) simple

  unfoldable pub request_multiple : List String → ValidationRequest × ValidationStore
  unfolding make_request
  request_multiple approver_ids =
      make_request id now store firm_id production_id requested_by (approver_ids ∷ []) multiple

  unfoldable pub request_hierarchical : List (List String) → ValidationRequest × ValidationStore
  unfolding make_request
  request_hierarchical approver_tiers =
      make_request id now store firm_id production_id requested_by approver_tiers hierarchical

-- What `decide` makes of the request: one more entry, at the current tier, and a new status.
unfoldable pub decided :
    ValidationRequest → String → ValidationDecisionType → Option String → ℕ → ValidationRequest
unfolding current_tier_index recompute_status
decided request approver_id decision comment now =
    let entry : ValidationDecisionEntry = record {
      approver_id = approver_id;
      decision = decision;
      tier = current_tier_index request;
      comment = comment;
      decided_at = now;
    } in
    let appended = record request { history = request.history ++ entry ∷ [] } in
    record appended { status = recompute_status appended }

unfoldable pub decide :
    ValidationStore
    → (firm_id request_id approver_id : String) → ValidationDecisionType
    → Option String
    → ℕ
    → Result ValidationRequest × ValidationStore
unfolding decided save
decide store firm_id request_id approver_id decision comment now =
    elim (get_request store firm_id request_id) [
      | none ↦ (
        raise (
            key_error (
              append "validation request "
                (append request_id (append " not found for firm " firm_id)))),
        store,
      )
      | some request ↦
          let request' = decided request approver_id decision comment now in
          (ok request', save store request')
    ]

unfoldable pub history : ValidationStore → String → String → List ValidationRequest
unfolding list_for_production
history store firm_id production_id = list_for_production store firm_id production_id

unfoldable pub is_validated : ValidationStore → String → String → Bool
unfolding history
is_validated store firm_id production_id =
    any (λ r. elim r.status [ approved ↦ true | _ ↦ false ]) (history store firm_id production_id)
