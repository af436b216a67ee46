-- ===== src/Validation/Decisions.antt =====
-- What one more decision does to a validation request.
use tmis.Prelude.{
  ℕ, suc, ◌+◌, ◌-◌, ◌≤◌, ◌<◌, String, ◌≡◌, refl, subst, ◌≢◌, ◌⊎◌, inl, inr, true, Option, none,
  some, List, [], ◌∷◌, ◌++◌, arith, Bool-cases, Option-cases, ◌==◌, nat_eq, string_eq, key_eq,
  length, any, any-append, some_injective,
}
use tmis.Prelude.Dict.{get, test_refl, get-put_self}
use tmis.Prelude.Python.{ok}
use tmis.Validation.{
  ValidationMode, simple, multiple, hierarchical, approved, rejected, ValidationDecisionType,
  approve, ValidationDecisionEntry, ValidationRequest, ValidationStore, save, get_request, rejects,
  in_tier, tier_is_approved, tiers_approved, first_open_tier, recompute_status, current_tier_index,
  decided, decide,
}
use native.Mathlib.Decide.{dec_le}

any-rejects-append :
    (h : List ValidationDecisionEntry) (e : ValidationDecisionEntry)
    → any (λ (x : ValidationDecisionEntry). rejects x.decision) h ≡ true
    → any (λ (x : ValidationDecisionEntry). rejects x.decision) (h ++ e ∷ []) ≡ true
any-rejects-append h e r =
    ground (arith, any-append (λ (x : ValidationDecisionEntry). rejects x.decision) h (e ∷ []))

-- A rejection is final: once the history has one, the request is rejected after any further
-- decision, and the history keeps every entry.
pub decided-rejected :
    (request : ValidationRequest) (approver_id : String) (d : ValidationDecisionType)
    (comment : Option String) (now : ℕ)
    → any (λ (e : ValidationDecisionEntry). rejects e.decision) request.history ≡ true
    → ((decided request approver_id d comment now).status ≡ rejected)
      × ((entry : ValidationDecisionEntry) × ((decided request approver_id d comment now).history
            ≡ request.history ++ entry ∷ []))
unfolding decided recompute_status
decided-rejected request approver_id d comment now r =
    let entry : ValidationDecisionEntry = record {
      approver_id = approver_id;
      decision = d;
      tier = current_tier_index request;
      comment = comment;
      decided_at = now;
    } in
    (rw (any-rejects-append request.history entry r) refl, (entry, refl))

module _ (history : List ValidationDecisionEntry) where
  first_open_tier-some :
      (i k j : ℕ) (ts : List (List String))
      → first_open_tier i ts history hierarchical ≡ some k
      → i ≤ j
      → j < k
      → any (in_tier j) history ≡ true
  unfolding first_open_tier tier_is_approved
  first_open_tier-some i k j [] e le lt = absurd (cc)
  first_open_tier-some i k j (t ∷ ts) e le lt = elim (Bool-cases (any (in_tier i) history)) [
    | inr open_one ↦
        let at : i ≡ k = some_injective (rw (open_one, first_open_tier) at e) in
        absurd (omega arith)
    | inl signed ↦ elim (dec_le (suc i) j) [
      | yes later ↦ first_open_tier-some (suc i) k j ts (rw (signed, first_open_tier) at e) later lt
      | no same ↦
          let eq : i ≡ j = omega arith in subst (λ n. any (in_tier n) history ≡ true) eq signed
    ]
  ]

  first_open_tier-none :
      (i j : ℕ) (ts : List (List String))
      → first_open_tier i ts history hierarchical ≡ none
      → i ≤ j
      → j < i + length ts
      → any (in_tier j) history ≡ true
  unfolding first_open_tier tier_is_approved
  first_open_tier-none i j [] e le lt = absurd (omega arith)
  first_open_tier-none i j (t ∷ ts) e le lt = elim (Bool-cases (any (in_tier i) history)) [
    | inr open_one ↦ absurd (cc (rw (open_one, first_open_tier) at e))
    | inl signed ↦ elim (dec_le (suc i) j) [
      | yes later ↦
          first_open_tier-none (suc i) j ts (rw (signed, first_open_tier) at e) later (omega arith)
      | no same ↦
          let eq : i ≡ j = omega arith in subst (λ n. any (in_tier n) history ≡ true) eq signed
    ]
  ]

-- In HIERARCHICAL mode every tier below the current tier, at which the next decision is recorded,
-- has an approval in the history.
pub decided_tiers_in_order :
    (request : ValidationRequest) (j : ℕ)
    → request.mode ≡ hierarchical
    → j < current_tier_index request
    → any (in_tier j) request.history ≡ true
unfolding current_tier_index
decided_tiers_in_order request j mode lt =
    elim (Option-cases (first_open_tier 0 request.approver_tiers request.history request.mode)) [
      | inl closed ↦
          first_open_tier-none request.history 0 j request.approver_tiers (rw mode at closed)
            (omega arith)
            (let lt' : j < length request.approver_tiers - 1 =
                rw (closed, current_tier_index) at lt in
              omega arith)
      | inr (k, open_one) ↦
          first_open_tier-some request.history 0 k j request.approver_tiers (rw mode at open_one)
            (omega arith) (rw (open_one, current_tier_index) at lt)
    ]

decided-approved :
    (request : ValidationRequest) (tier : List String) (approver_id : String)
    (comment : Option String) (now : ℕ)
    → request.mode ≢ multiple
    → request.approver_tiers ≡ tier ∷ []
    → request.history ≡ []
    → (decided request approver_id approve comment now).status ≡ approved
unfolding decided recompute_status current_tier_index tiers_approved first_open_tier
    tier_is_approved
decided-approved request tier approver_id comment now mode tiers new =
    elim (dec_mode request.mode mode) [
      | inl simply ↦ rw (tiers, new, simply) refl
      | inr ranked ↦ rw (tiers, new, ranked) refl
    ]
  where
    dec_mode : (m : ValidationMode) → m ≢ multiple → (m ≡ simple) ⊎ (m ≡ hierarchical)
    dec_mode simple h = inl refl
    dec_mode hierarchical h = inr refl
    dec_mode multiple h = absurd (h refl)

-- `decide` does not ask whether the approver is listed. In SIMPLE and HIERARCHICAL mode the approval
-- of any person at all approves a new request with one tier that is stored under its identifier:
-- the call returns it approved, and the store has it approved.
pub decide-approved_by_anyone :
    (store : ValidationStore) (request : ValidationRequest) (tier : List String)
    (approver_id : String) (comment : Option String) (now : ℕ)
    → get store request.id ≡ some request
    → request.mode ≢ multiple
    → request.approver_tiers ≡ tier ∷ []
    → request.history ≡ []
    → (request' : ValidationRequest) × ((decide store request.firm_id request.id approver_id approve
          comment now).0
        ≡ ok request')
      × (request'.status ≡ approved)
      × (get_request
            (decide store request.firm_id request.id approver_id approve comment now).1
            request.firm_id
            request.id
          ≡ some request')
unfolding decide get_request save decided
decide-approved_by_anyone store request tier approver_id comment now found mode tiers new =
    let request' = decided request approver_id approve comment now in
    let mine : (request.firm_id == request.firm_id) ≡ true = test_refl request.firm_id in
    let there : get_request store request.firm_id request.id ≡ some request =
      rw (found, get_request) (rw mine refl) in
    (
      request',
      rw (there, decide) refl,
      decided-approved request tier approver_id comment now mode tiers new,
      rw (there, decide) (rw (get-put_self store request.id request', get_request) (rw mine refl)),
    )
