-- ===== src/Validation/Tiers.antt =====
-- What the status of a validation request says of its history.
use tmis.Prelude.{
  ℕ, suc, String, ◌≡◌, refl, ◌↔◌, Bool, true, false, ◌&&◌, List, [], ◌∷◌, arith, ◌==◌, nat_eq,
  string_eq, key_eq, all, any, Every,
}
use tmis.Validation.{
  ValidationMode, simple, multiple, hierarchical, approved, ValidationDecisionEntry,
  ValidationRequest, rejects, revises, in_tier, tier_is_approved, tiers_approved, recompute_status,
  history,
}

-- Every tier, from the given index on, has what its mode asks for in the history.
abbrev pub AllTiers : (ℕ → List String → Type 0) → ℕ → List (List String) → Type 0
AllTiers P i [] = Unit
AllTiers P i (t ∷ ts) = P i t × AllTiers P (suc i) ts

-- An approval of the tier: one, by whomever, in SIMPLE and HIERARCHICAL mode, and one of each
-- listed approver in MULTIPLE mode.
abbrev pub IsSigned : List ValidationDecisionEntry → ValidationMode → ℕ → List String → Type 0
IsSigned history multiple i approvers =
    Every
      (λ a.
        any (λ (entry : ValidationDecisionEntry). in_tier i entry && entry.approver_id == a) history
        ≡ true)
      approvers
IsSigned history _ i approvers = any (in_tier i) history ≡ true

all-Every :
    {A : Type 0} (p : A → Bool) (xs : List A) → (all p xs ≡ true) ↔ Every (λ x. p x ≡ true) xs
all-Every p [] = (λ _. tt, λ _. refl)
all-Every p (x ∷ xs) =
    let (there, back) = all-Every p xs in
    (λ h. (ground arith, there (ground arith)), λ h. let rest = back h.1 in ground arith)

tier_is_approved-IsSigned :
    (t : List String) (i : ℕ) (history : List ValidationDecisionEntry) (mode : ValidationMode)
    → (tier_is_approved t i history mode ≡ true) ↔ IsSigned history mode i t
unfolding tier_is_approved
tier_is_approved-IsSigned t i history multiple = all-Every _ t
tier_is_approved-IsSigned t i history simple = (λ h. h, λ h. h)
tier_is_approved-IsSigned t i history hierarchical = (λ h. h, λ h. h)

tiers_approved-AllTiers :
    (i : ℕ) (ts : List (List String)) (history : List ValidationDecisionEntry)
    (mode : ValidationMode)
    → (tiers_approved i ts history mode ≡ true) ↔ AllTiers (IsSigned history mode) i ts
unfolding tiers_approved
tiers_approved-AllTiers i [] history mode = (λ _. tt, λ _. refl)
tiers_approved-AllTiers i (t ∷ ts) history mode =
    let (there, back) = tiers_approved-AllTiers (suc i) ts history mode in
    let (signed, unsigned) = tier_is_approved-IsSigned t i history mode in
    (
      λ h. (signed (ground arith), there (ground arith)),
      λ h. let a = unsigned h.0 in let b = back h.1 in ground arith,
    )

-- The status is APPROVED exactly if the history has no rejection and no request for revision, and
-- every tier is signed: by one approval recorded at that tier or, in MULTIPLE mode, by one of each
-- listed approver.
pub recompute_status-approved :
    (request : ValidationRequest)
    → (recompute_status request ≡ approved) ↔ (
        (any (λ (e : ValidationDecisionEntry). rejects e.decision) request.history ≡ false)
        × (any (λ (e : ValidationDecisionEntry). revises e.decision) request.history ≡ false)
        × AllTiers (IsSigned request.history request.mode) 0 request.approver_tiers)
unfolding recompute_status
recompute_status-approved request =
    let (there, back) =
      tiers_approved-AllTiers 0 request.approver_tiers request.history request.mode in
    (
      λ h. (ground arith, ground arith, there (ground arith)),
      λ (a, b, c). let d = back c in ground arith,
    )
