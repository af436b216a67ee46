-- ===== src/Trigger.antt =====
-- Workflow events, triggers and their matching: backend/src/tmis/workflow_automation/event_bus
-- (schemas.py) and trigger_engine (schemas.py, matchers.py and engine.py).
pub mod Matching
mod Samples
use tmis.Prelude.{nat_beq}
use tmis.Prelude.{
  ℕ, String, Bool, true, false, ◌&&◌, Option, none, some, List, [], ◌∷◌, if◌then◌else◌, ◌==◌,
  nat_eq, string_eq, key_eq,
}
use tmis.Prelude.Dict.{Dict, get}
use tmis.Prelude.Python.{value_error, Result, ok, raise, ◌>>=◌, ◌>>◌}
use tmis.Prelude.Int.{ℤ, leb_ℤ}

pub data TriggerType : Type 0 where
  business_event schedule deadline document_created case_updated validation integration_event :
      TriggerType

pub record Trigger : Type 0 where
  pub id : String
  pub workflow_id : String
  pub trigger_type : TriggerType
  pub config : Dict String String

-- The subclasses of `WorkflowEvent`, each with its own fields in their order.
pub data EventBody : Type 0 where
  business_event_occurred : (source label : String) → (payload : Dict String String) → EventBody
  deadline_approaching : (case_id deadline_label : String) → (days_remaining : ℤ) → EventBody
  document_created_event : (case_id document_id document_type : String) → EventBody
  case_updated_event : (case_id field_changed : String) → EventBody
  validation_completed : (target_type target_id : String) → (approved : Bool) → EventBody
  integration_event_received :
      (integration_name label : String) → (payload : Dict String String) → EventBody
  workflow_execution_started : (workflow_id execution_id : String) → EventBody
  workflow_execution_completed : (workflow_id execution_id : String) → EventBody
  workflow_execution_failed : (workflow_id execution_id reason : String) → EventBody

pub record WorkflowEvent : Type 0 where
  pub firm_id : String
  pub event_id : String
  pub occurred_at : ℕ
  pub body : EventBody

-- `config.get(key)`, where `None` accepts every value
unfoldable pub accepts : Option String → String → Bool
accepts none actual = true
accepts (some expected) actual = actual == expected

-- `actual == config.get(key)`, where `None` accepts no value
unfoldable pub equals : Option String → String → Bool
equals none actual = false
equals (some expected) actual = actual == expected

unfoldable pub business_event_matches : Trigger → EventBody → Bool
unfolding equals
business_event_matches trigger (business_event_occurred source label payload) =
    equals (get trigger.config "source") source && equals (get trigger.config "label") label
business_event_matches trigger _ = false

-- The parameter is `int` on a text, where `none` is its `ValueError`.
unfoldable pub deadline_matches : (String → Option ℤ) → Trigger → EventBody → Result Bool
deadline_matches int trigger (deadline_approaching case_id label days_remaining) =
    elim (get trigger.config "days_remaining_at_or_below") [
      | none ↦ ok true
      | some threshold ↦ elim (int threshold) [
        | none ↦ raise (value_error threshold)
        | some limit ↦ ok (leb_ℤ days_remaining limit)
      ]
    ]
deadline_matches int trigger _ = ok false

unfoldable pub document_created_matches : Trigger → EventBody → Bool
unfolding accepts
document_created_matches trigger (document_created_event case_id document_id document_type) =
    accepts (get trigger.config "document_type") document_type
document_created_matches trigger _ = false

unfoldable pub case_updated_matches : Trigger → EventBody → Bool
unfolding accepts
case_updated_matches trigger (case_updated_event case_id field_changed) =
    accepts (get trigger.config "field") field_changed
case_updated_matches trigger _ = false

unfoldable pub validation_matches : Trigger → EventBody → Bool
unfolding accepts
validation_matches trigger (validation_completed target_type target_id approved) =
    approved && accepts (get trigger.config "target_type") target_type
validation_matches trigger _ = false

unfoldable pub integration_event_matches : Trigger → EventBody → Bool
unfolding accepts
integration_event_matches trigger (integration_event_received integration_name label payload) =
    accepts (get trigger.config "integration_name") integration_name
integration_event_matches trigger _ = false

-- `TriggerMatcherPort.matches`
abbrev pub Matcher : Type 0
Matcher = Trigger → EventBody → Result Bool

-- `_matchers`: a dict whose keys are the trigger types, as the function of its entries.
abbrev pub Matchers : Type 0
Matchers = TriggerType → Option Matcher

unfoldable pub default_matchers : (String → Option ℤ) → Matchers
unfolding business_event_matches deadline_matches document_created_matches case_updated_matches
    validation_matches integration_event_matches
default_matchers int business_event = some (λ t e. ok (business_event_matches t e))
default_matchers int schedule = none
default_matchers int deadline = some (deadline_matches int)
default_matchers int document_created = some (λ t e. ok (document_created_matches t e))
default_matchers int case_updated = some (λ t e. ok (case_updated_matches t e))
default_matchers int validation = some (λ t e. ok (validation_matches t e))
default_matchers int integration_event = some (λ t e. ok (integration_event_matches t e))

-- The values of the enumeration, to compare them.
abbrev pub rank : TriggerType → ℕ
rank business_event = 0
rank schedule = 1
rank deadline = 2
rank document_created = 3
rank case_updated = 4
rank validation = 5
rank integration_event = 6

-- `TriggerEngine.register`
unfoldable pub register_matcher : Matchers → TriggerType → Matcher → Matchers
register_matcher matchers trigger_type matcher other =
    if nat_beq (rank trigger_type) (rank other) then some matcher else matchers other

-- `TriggerEngine.matches`: a type with no matcher, such as `SCHEDULE`, matches nothing.
unfoldable pub matches : Matchers → Trigger → EventBody → Result Bool
matches matchers trigger event = elim (matchers trigger.trigger_type) [
  | none ↦ ok false
  | some matcher ↦ matcher trigger event
]

unfoldable pub find_matching_triggers : Matchers → List Trigger → EventBody → Result (List Trigger)
find_matching_triggers matchers [] event = ok []
find_matching_triggers matchers (t ∷ ts) event = do
  b ← matches matchers t event
  rest ← find_matching_triggers matchers ts event
  ok (if b then t ∷ rest else rest)
