-- ===== src/Trigger/Matching.antt =====
-- Which triggers an event fires.
use tmis.Prelude.{
  String, ◌≡◌, refl, sym, ◌∙◌, inl, inr, Bool, true, false, not, ◌&&◌, Option, none, some, List, [],
  ◌∷◌, arith, nat_beq, if◌then◌else◌, ◌==◌, nat_eq, string_eq, key_eq, keep, all, Every,
}
use tmis.Prelude.Dict.{Dict, get}
use tmis.Prelude.Python.{value_error, Result, ok, raise, ◌>>=◌, Result-cases, ok_injective}
use tmis.Prelude.Int.{ℤ, leb_ℤ}
use tmis.Trigger.{
  TriggerType, business_event, deadline, document_created, case_updated, validation,
  integration_event, Trigger, EventBody, business_event_occurred, deadline_approaching,
  document_created_event, case_updated_event, validation_completed, integration_event_received,
  workflow_execution_started, workflow_execution_completed, workflow_execution_failed, accepts,
  equals, default_matchers, rank, matches, find_matching_triggers,
}

-- The type of trigger that an event is for. An event on an execution is for none.
abbrev pub subject : EventBody → Option TriggerType
subject (business_event_occurred _ _ _) = some business_event
subject (deadline_approaching _ _ _) = some deadline
subject (document_created_event _ _ _) = some document_created
subject (case_updated_event _ _) = some case_updated
subject (validation_completed _ _ _) = some validation
subject (integration_event_received _ _ _) = some integration_event
subject _ = none

-- A field of an event that a trigger's configuration may name, and whether it has to.
abbrev pub Field : Type 0
Field = String × Bool × String

abbrev pub fields : EventBody → List Field
fields (business_event_occurred source label _) =
    ("source", true, source) ∷ ("label", true, label) ∷ []
fields (document_created_event _ _ document_type) = ("document_type", false, document_type) ∷ []
fields (case_updated_event _ field_changed) = ("field", false, field_changed) ∷ []
fields (validation_completed target_type _ _) = ("target_type", false, target_type) ∷ []
fields (integration_event_received name _ _) = ("integration_name", false, name) ∷ []
fields _ = []

abbrev pub agrees : Dict String String → Field → Bool
agrees config (key, required, actual) = elim (get config key) [
  | none ↦ not required
  | some expected ↦ actual == expected
]

-- What an event asks beside its fields: a validation has to be an approval, and a deadline has to
-- be within the configured number of days, which may not be a number.
abbrev pub occasion : (String → Option ℤ) → Dict String String → EventBody → Result Bool
occasion int config (validation_completed _ _ approved) = ok approved
occasion int config (deadline_approaching _ _ days) =
    elim (get config "days_remaining_at_or_below") [
      | none ↦ ok true
      | some threshold ↦ elim (int threshold) [
        | none ↦ raise (value_error threshold)
        | some limit ↦ ok (leb_ℤ days limit)
      ]
    ]
occasion int config _ = ok true

abbrev same_type : TriggerType → Option TriggerType → Bool
same_type kind none = false
same_type kind (some other) = nat_beq (rank kind) (rank other)

-- Whether the answer is that the trigger matches.
abbrev pub is_hit : Result Bool → Bool
is_hit (ok b) = b
is_hit (raise exc) = false

-- A trigger fires on an event for its type whose fields agree with its configuration.
abbrev pub fires : (String → Option ℤ) → EventBody → Trigger → Result Bool
fires int event t =
    if same_type t.trigger_type (subject event)
    then (do fits ← occasion int t.config event; ok (fits && all (agrees t.config) (fields event)))
    else ok false

matches-fires :
    (int : String → Option ℤ) (event : EventBody) (t : Trigger) (kind : TriggerType)
    → t.trigger_type ≡ kind
    → matches (default_matchers int) t event ≡ fires int event t
unfolding matches default_matchers accepts equals
matches-fires int (business_event_occurred _ _ _) t kind e = ground arith
matches-fires int (deadline_approaching _ _ _) t kind e = ground arith
matches-fires int (document_created_event _ _ _) t kind e = ground arith
matches-fires int (case_updated_event _ _) t kind e = ground arith
matches-fires int (validation_completed _ _ _) t kind e = ground arith
matches-fires int (integration_event_received _ _ _) t kind e = ground arith
matches-fires int (workflow_execution_started _ _) t kind e = ground arith
matches-fires int (workflow_execution_completed _ _) t kind e = ground arith
matches-fires int (workflow_execution_failed _ _ _) t kind e = ground arith

module _ (int : String → Option ℤ) (event : EventBody) where
  -- If `find_matching_triggers` returns, then no trigger of the list raised, and it returns those
  -- that fire, in the order of the list; and if no trigger raises, it returns.
  pub find_matching_triggers_lem :
      (triggers : List Trigger)
      → ((found : List Trigger)
          → find_matching_triggers (default_matchers int) triggers event ≡ ok found
          → (found ≡ keep (λ t. is_hit (fires int event t)) triggers)
            × Every (λ t. fires int event t ≡ ok (is_hit (fires int event t))) triggers)
        × (Every (λ t. fires int event t ≡ ok (is_hit (fires int event t))) triggers
            → find_matching_triggers (default_matchers int) triggers event
              ≡ ok (keep (λ t. is_hit (fires int event t)) triggers))
  unfolding find_matching_triggers
  find_matching_triggers_lem [] = (λ found h. (sym (ok_injective h), tt), λ _. refl)
  find_matching_triggers_lem (t ∷ ts) =
      let (there, back) = find_matching_triggers_lem ts in
      let same_answer = matches-fires int event t t.trigger_type refl in
      elim (Result-cases (fires int event t)) [
        | inr (exc, e) ↦ (
          λ found h. absurd (
              cc (
                rw (e, find_matching_triggers) at (rw (same_answer, find_matching_triggers) at h))),
          λ every. let h = every.0 in absurd (cc),
        )
        | inl (b, e) ↦
            elim (Result-cases (find_matching_triggers (default_matchers int) ts event)) [
              | inr (exc, e') ↦ (
                λ found h. absurd (
                    cc (
                      rw (e', find_matching_triggers) at
                        (rw (same_answer ∙ e, find_matching_triggers) at h))),
                λ every. let h = back every.1 in absurd (cc),
              )
              | inl (rest, e') ↦ (
                λ found h.
                    let eq = ok_injective (
                      rw (e', find_matching_triggers) at
                        (rw (same_answer ∙ e, find_matching_triggers) at h)) in
                    let same = (there rest e').0 in
                    (sym eq ∙ rw e (rw (← same) refl), (rw e refl, (there rest e').1)),
                λ every.
                    rw (same_answer ∙ e, find_matching_triggers) (rw (back every.1) (rw e refl)),
              )
            ]
      ]
