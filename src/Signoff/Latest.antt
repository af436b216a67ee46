-- ===== src/Signoff/Latest.antt =====
-- The status of an approval request, by the last decision of each approver.
use tmis.Prelude.{
  String, ◌≡◌, refl, sym, ◌∙◌, ◌↔◌, Bool, true, false, Option, none, some, List, [], ◌∷◌, arith,
  if◌then◌else◌, ◌==◌, nat_eq, string_eq, key_eq, all, any, Every,
}
use tmis.Prelude.Dict.{Dict, get, put, values, get-put, Every-get}
use tmis.Prelude.Distinct.{Distinct, Distinct-put, Every-found}
use tmis.Signoff.{
  multiple, approved, ApprovalDecisionType, approve, ApprovalDecision, ApprovalRequest, is_reject,
  is_change, latest_from, has_approved, compute_status,
}

-- The last decision of a person in a history.
abbrev pub last_decision : String → List ApprovalDecision → Option ApprovalDecisionType
last_decision a [] = none
last_decision a (e ∷ es) = elim (last_decision a es) [
  | some d ↦ some d
  | none ↦ if e.approver_id == a then some e.decision else none
]

get-latest_from :
    (latest : Dict String ApprovalDecisionType) (history : List ApprovalDecision) (a : String)
    → get (latest_from latest history) a
      ≡ elim (last_decision a history) [ none ↦ get latest a | some d ↦ some d ]
unfolding latest_from
get-latest_from latest [] a = refl
get-latest_from latest (e ∷ es) a = ground (
  arith,
  get-latest_from (put latest e.approver_id e.decision) es a,
  get-put latest e.approver_id a e.decision,
)

get-latest :
    (history : List ApprovalDecision) (a : String)
    → get (latest_from [] history) a ≡ last_decision a history
unfolding get
get-latest history a = ground (arith, get-latest_from [] history a)

Distinct-latest_from :
    (latest : Dict String ApprovalDecisionType) (history : List ApprovalDecision)
    → Distinct latest
    → Distinct (latest_from latest history)
unfolding latest_from
Distinct-latest_from latest [] h = h
Distinct-latest_from latest (e ∷ es) h =
    Distinct-latest_from (put latest e.approver_id e.decision) es
      (Distinct-put latest e.approver_id e.decision h)

-- Nobody's last decision passes the test.
abbrev pub NobodyLast : (ApprovalDecisionType → Bool) → List ApprovalDecision → Type 0
NobodyLast p history =
    (a : String) (d : ApprovalDecisionType) → last_decision a history ≡ some d → p d ≡ false

any-Every :
    {A : Type 0} (p : A → Bool) (xs : List A) → (any p xs ≡ false) ↔ Every (λ x. p x ≡ false) xs
any-Every p [] = (λ _. tt, λ _. refl)
any-Every p (x ∷ xs) =
    let (there, back) = any-Every p xs in
    (λ h. (ground arith, there (ground arith)), λ h. let rest = back h.1 in ground arith)

Every-values :
    (p : ApprovalDecisionType → Bool) (d : Dict String ApprovalDecisionType)
    → Every (λ (kv : String × ApprovalDecisionType). p kv.1 ≡ false) d
    → Every (λ x. p x ≡ false) (values d)
unfolding values
Every-values p [] h = tt
Every-values p ((k, v) ∷ d) h = (h.0, Every-values p d h.1)

any-latest :
    (p : ApprovalDecisionType → Bool) (history : List ApprovalDecision)
    → (any p (values (latest_from [] history)) ≡ false) ↔ NobodyLast p history
any-latest p history = (
  λ h a d e.
      Every-get (λ x. p x ≡ false) (latest_from [] history) a d ((any-Every p _).0 h)
        (get-latest history a ∙ e),
  λ nobody. (any-Every p _).1 (
      Every-values p _ (
        Every-found _ (latest_from [] history) (Distinct-latest_from [] history tt)
          λ a d found. nobody a d (sym (get-latest history a) ∙ found))),
)

is_approve-some :
    (history : List ApprovalDecision) (a : String)
    → (has_approved (latest_from [] history) a ≡ true) ↔ (last_decision a history ≡ some approve)
is_approve-some history a =
    let same = get-latest history a in (λ h. ground arith, λ h. ground arith)

all-Every :
    {A : Type 0} (p : A → Bool) (P : A → Type 0) (each : (x : A) → (p x ≡ true) ↔ P x) (xs : List A)
    → (all p xs ≡ true) ↔ Every P xs
all-Every p P each [] = (λ _. tt, λ _. refl)
all-Every p P each (x ∷ xs) =
    let (there, back) = all-Every p P each xs in
    let (to, from) = each x in
    (
      λ h. (to (ground arith), there (ground arith)),
      λ h. let a = from h.0 in let b = back h.1 in ground arith,
    )

-- In MULTIPLE mode a request is approved exactly if nobody's last decision is a rejection or a
-- request for changes and the last decision of every listed approver is an approval.
pub compute_status-multiple :
    (approval : ApprovalRequest)
    → approval.mode ≡ multiple
    → (compute_status approval ≡ approved) ↔ (
        NobodyLast is_reject approval.history
        × NobodyLast is_change approval.history
        × Every (λ a. last_decision a approval.history ≡ some approve) approval.approver_ids)
unfolding compute_status
compute_status-multiple approval mode =
    let (no_reject, some_reject) = any-latest is_reject approval.history in
    let (no_change, some_change) = any-latest is_change approval.history in
    let (to, from) =
      all-Every (has_approved (latest_from [] approval.history)) _
        (is_approve-some approval.history) approval.approver_ids in
    (
      λ h. (no_reject (ground arith), no_change (ground arith), to (ground arith)),
      λ h. let a = some_reject h.0 in let b = some_change h.1 in let c = from h.2 in ground arith,
    )
