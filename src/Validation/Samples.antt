-- ===== src/Validation/Samples.antt =====
-- The theorems on validation requests at a request with two tiers and one with a single tier.
use tmis.Prelude.{
  ◌≡◌, refl, ◌↔◌, true, false, none, some, [], ◌∷◌, ◌++◌, arith, nat_eq, string_eq, key_eq, any,
}
use tmis.Prelude.Dict.{get}
use tmis.Prelude.Python.{ok}
use tmis.Validation.{
  simple, hierarchical, pending, approved, rejected, approve, reject, ValidationDecisionEntry,
  ValidationRequest, ValidationStore, get_request, rejects, revises, in_tier, tier_is_approved,
  recompute_status, current_tier_index, decided, decide,
}
use tmis.Validation.Tiers.{AllTiers, IsSigned, recompute_status-approved}
use tmis.Validation.Decisions.{decided-rejected, decided_tiers_in_order, decide-approved_by_anyone}

abbrev two_tiers : ValidationRequest
two_tiers = record {
  id = "r1";
  firm_id = "f";
  production_id = "p";
  requested_by = "clerk";
  approver_tiers = ("ann" ∷ []) ∷ ("bob" ∷ []) ∷ [];
  mode = hierarchical;
  status = pending;
  history = [];
  created_at = 0;
}

abbrev signed_once : ValidationRequest
signed_once = decided two_tiers "ann" approve none 1

abbrev turned_down : ValidationRequest
turned_down = decided two_tiers "ann" reject none 1

abbrev one_tier : ValidationRequest
one_tier = record two_tiers { approver_tiers = ("ann" ∷ []) ∷ []; mode = simple }

tier_one : current_tier_index signed_once ≡ 1
unfolding decided tier_is_approved
tier_one = refl

all_signed : (decided signed_once "bob" approve none 2).status ≡ approved
unfolding decided tier_is_approved
all_signed = refl

recompute_status-approved_example : (recompute_status signed_once ≡ approved) ↔ (
    (any (λ (e : ValidationDecisionEntry). rejects e.decision) signed_once.history ≡ false)
    × (any (λ (e : ValidationDecisionEntry). revises e.decision) signed_once.history ≡ false)
    × AllTiers (IsSigned signed_once.history signed_once.mode) 0 signed_once.approver_tiers)
recompute_status-approved_example = recompute_status-approved signed_once

was_turned_down :
    any (λ (e : ValidationDecisionEntry). rejects e.decision) turned_down.history ≡ true
unfolding decided
was_turned_down = refl

decided-rejected_example :
    ((decided turned_down "bob" approve none 2).status ≡ rejected)
    × ((entry : ValidationDecisionEntry) × ((decided turned_down "bob" approve none 2).history
          ≡ turned_down.history ++ entry ∷ []))
decided-rejected_example = decided-rejected turned_down "bob" approve none 2 was_turned_down

mode_kept : signed_once.mode ≡ hierarchical
unfolding decided
mode_kept = refl

decided_tiers_in_order_example : any (in_tier 0) signed_once.history ≡ true
decided_tiers_in_order_example =
    decided_tiers_in_order signed_once 0 mode_kept (omega (arith, tier_one))

abbrev asked : ValidationStore
asked = ("r1", one_tier) ∷ []

was_asked : get asked "r1" ≡ some one_tier
unfolding get
was_asked = refl

decide-approved_by_anyone_example :
    (request' : ValidationRequest) × ((decide asked "f" "r1" "mallory" approve none 1).0
      ≡ ok request')
    × (request'.status ≡ approved)
    × (get_request (decide asked "f" "r1" "mallory" approve none 1).1 "f" "r1" ≡ some request')
decide-approved_by_anyone_example =
    decide-approved_by_anyone asked one_tier ("ann" ∷ []) "mallory" none 1 was_asked (λ e. cc) refl
      refl
