-- ===== src/Incident/Samples.antt =====
-- The theorems on incidents at a store with one open incident.
use tmis.Prelude.{
  String, ◌≡◌, refl, none, some, [], ◌∷◌, ◌++◌, if◌then◌else◌, ◌==◌, nat_eq, string_eq, key_eq,
}
use tmis.Prelude.Dict.{get}
use tmis.Prelude.Python.{ok}
use tmis.Incident.{
  opened, investigating, closed, high, IncidentUpdate, Incident, Incidents, timeline, track, close,
}
use tmis.Incident.Lifecycle.{track_lem, close_lem}

abbrev outage : Incident
outage = record {
  id = "i1";
  title = "Outage";
  description = "";
  severity = high;
  status = opened;
  firm_id = none;
  opened_at = 0;
  resolved_at = none;
  root_cause = none;
}

abbrev one_open : Incidents
one_open = record { incidents = ("i1", outage) ∷ []; updates = [] }

abbrev name_of : String
name_of = "i1"

found_outage : get one_open.incidents name_of ≡ some outage
unfolding get
found_outage = refl

track_lem_example :
    (u : IncidentUpdate) × ((track "u1" 5 one_open name_of "looking" "ann").0 ≡ ok u)
    × (timeline (track "u1" 5 one_open name_of "looking" "ann").1 name_of
        ≡ timeline one_open name_of ++ u ∷ [])
    × ((other : String)
        → get (track "u1" 5 one_open name_of "looking" "ann").1.incidents other ≡ (
            if name_of == other
            then some (record outage { status = investigating })
            else get one_open.incidents other))
track_lem_example = track_lem one_open name_of outage found_outage refl "u1" "looking" "ann" 5

close_lem_example : get (close one_open name_of).1.incidents name_of ≡ (
    if name_of == name_of
    then some (record outage { status = closed })
    else get one_open.incidents name_of)
close_lem_example = close_lem one_open name_of outage found_outage refl name_of
