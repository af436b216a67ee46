-- ===== src/Incident.antt =====
-- Incidents and their timelines: backend/src/tmis/cloud_operations/incident_management (schemas.py,
-- store.py and engine.py).
pub mod Lifecycle
mod Samples
use tmis.Prelude.{
  ℕ, String, Bool, true, false, ◌&&◌, Option, none, some, List, [], ◌∷◌, ◌++◌, ◌==◌, nat_eq,
  string_eq, key_eq, keep,
}
use tmis.Prelude.Dict.{Dict, get, put, values}
use tmis.Prelude.Python.{key_error, Result, ok, raise}
use tmis.Prelude.Int.{ℤ, sub_ℕ}

pub data IncidentStatus : Type 0 where
  opened investigating resolved post_mortem closed : IncidentStatus

pub data IncidentSeverity : Type 0 where
  low medium high critical : IncidentSeverity

pub record IncidentUpdate : Type 0 where
  pub id : String
  pub incident_id : String
  pub message : String
  pub author : String
  pub created_at : ℕ

-- Times are in seconds.
pub record Incident : Type 0 where
  pub id : String
  pub title : String
  pub description : String
  pub severity : IncidentSeverity
  pub status : IncidentStatus
  pub firm_id : Option String
  pub opened_at : ℕ
  pub resolved_at : Option ℕ
  pub root_cause : Option String

-- The duration is in seconds, where the source divides it by 60.
pub record PostMortemReport : Type 0 where
  pub incident_id : String
  pub title : String
  pub severity : IncidentSeverity
  pub summary : String
  pub root_cause : String
  pub impact : String
  pub resolution : String
  pub action_items : List String
  pub duration : ℤ

-- `InMemoryIncidentStore` and `InMemoryIncidentUpdateStore`
pub record Incidents : Type 0 where
  pub incidents : Dict String Incident
  pub updates : List IncidentUpdate

unfoldable pub save_incident : Incidents → Incident → Incidents
save_incident m incident = record m { incidents = put m.incidents incident.id incident }

abbrev pub is_open_status : IncidentStatus → Bool
is_open_status opened = true
is_open_status investigating = true
is_open_status _ = false

abbrev pub of_firm : Option String → Incident → Bool
of_firm none incident = true
of_firm (some firm_id) incident = elim incident.firm_id [ none ↦ false | some f ↦ f == firm_id ]

unfoldable pub open_incidents : Incidents → Option String → List Incident
open_incidents m firm_id =
    keep (λ i. is_open_status i.status && of_firm firm_id i) (values m.incidents)

unfoldable pub timeline : Incidents → String → List IncidentUpdate
timeline m incident_id = keep (λ u. u.incident_id == incident_id) m.updates

-- `self._incidents.get(incident_id)` and the `UnknownIncidentError`, a `KeyError`
unfoldable pub find_incident : Incidents → String → Result Incident
find_incident m incident_id = elim (get m.incidents incident_id) [
  | none ↦ raise (key_error incident_id)
  | some incident ↦ ok incident
]

unfoldable pub open_incident :
    String
    → ℕ
    → Incidents
    → (title description : String) → IncidentSeverity
    → Option String
    → Incident × Incidents
unfolding save_incident
open_incident id now m title description severity firm_id =
    let incident : Incident = record {
      id = id;
      title = title;
      description = description;
      severity = severity;
      status = opened;
      firm_id = firm_id;
      opened_at = now;
      resolved_at = none;
      root_cause = none;
    } in
    (incident, save_incident m incident)

-- An open incident is under investigation from its first update on.
unfoldable pub investigated : Incidents → Incident → Incidents
unfolding save_incident
investigated m incident = elim incident.status [
  | opened ↦ save_incident m (record incident { status = investigating })
  | _ ↦ m
]

unfoldable pub track :
    String
    → ℕ
    → Incidents
    → (incident_id message author : String) → Result IncidentUpdate × Incidents
unfolding find_incident investigated
track id now m incident_id message author = elim (find_incident m incident_id) [
  | raise exc ↦ (raise exc, m)
  | ok incident ↦
      let update : IncidentUpdate = record {
        id = id;
        incident_id = incident_id;
        message = message;
        author = author;
        created_at = now;
      } in
      let m' = investigated m incident in
      (ok update, record m' { updates = m'.updates ++ update ∷ [] })
]

unfoldable pub resolve : ℕ → Incidents → String → Result Incident × Incidents
unfolding find_incident save_incident
resolve now m incident_id = elim (find_incident m incident_id) [
  | raise exc ↦ (raise exc, m)
  | ok incident ↦
      let incident' = record incident { status = resolved; resolved_at = some now } in
      (ok incident', save_incident m incident')
]

unfoldable pub record_post_mortem :
    ℕ
    → Incidents
    → (incident_id root_cause impact resolution : String) → List String
    → Result PostMortemReport × Incidents
unfolding find_incident save_incident
record_post_mortem now m incident_id root_cause impact resolution action_items =
    elim (find_incident m incident_id) [
      | raise exc ↦ (raise exc, m)
      | ok incident ↦
          let incident' = record incident { status = post_mortem; root_cause = some root_cause } in
          let end : ℕ = elim incident.resolved_at [ none ↦ now | some t ↦ t ] in
          let report : PostMortemReport = record {
            incident_id = incident.id;
            title = incident.title;
            severity = incident.severity;
            summary = incident.description;
            root_cause = root_cause;
            impact = impact;
            resolution = resolution;
            action_items = action_items;
            duration = sub_ℕ end incident.opened_at;
          } in
          (ok report, save_incident m incident')
    ]

unfoldable pub close : Incidents → String → Result Incident × Incidents
unfolding find_incident save_incident
close m incident_id = elim (find_incident m incident_id) [
  | raise exc ↦ (raise exc, m)
  | ok incident ↦
      let incident' = record incident { status = closed } in
      (ok incident', save_incident m incident')
]
