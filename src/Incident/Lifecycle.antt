-- ===== src/Incident/Lifecycle.antt =====
-- What tracking and closing do to an incident.
use tmis.Prelude.{
  ℕ, String, ◌≡◌, refl, inl, inr, some, [], ◌∷◌, ◌++◌, arith, eq_iff, if◌then◌else◌, Bool-cases,
  ◌==◌, nat_eq, string_eq, key_eq, keep-append,
}
use tmis.Prelude.Dict.{get, test_refl, get-put}
use tmis.Prelude.Python.{ok}
use tmis.Incident.{
  IncidentStatus, opened, investigating, resolved, post_mortem, closed, IncidentUpdate, Incident,
  Incidents, save_incident, timeline, find_incident, investigated, track, close,
}

abbrev pub after_update : IncidentStatus → IncidentStatus
after_update opened = investigating
after_update status = status

module _ (m : Incidents) (incident_id : String) (i : Incident)
    (found : get m.incidents incident_id ≡ some i) (keyed : i.id ≡ incident_id) where
  found_ok : find_incident m incident_id ≡ ok i
  unfolding find_incident
  found_ok = rw (found, find_incident) refl

  kept :
      (other : String)
      → get m.incidents other ≡ (if incident_id == other then some i else get m.incidents other)
  kept other = elim (Bool-cases (incident_id == other)) [
    | inl hit ↦ let same = (eq_iff incident_id other).0 hit in rw hit (rw (← same) found)
    | inr miss ↦ rw miss refl
  ]

  investigated-get :
      (other : String)
      → get (investigated m i).incidents other ≡ (
          if incident_id == other
          then some (record i { status = after_update i.status })
          else get m.incidents other)
  unfolding investigated save_incident
  investigated-get other = go i.status refl
    where
      go :
          (s : IncidentStatus)
          → i.status ≡ s
          → get (investigated m i).incidents other ≡ (
              if incident_id == other
              then some (record i { status = after_update i.status })
              else get m.incidents other)
      go opened e = rw (e, investigated) (rw (get-put, keyed) refl)
      go investigating e = rw (e, investigated) (rw (← e) (kept other))
      go resolved e = rw (e, investigated) (rw (← e) (kept other))
      go post_mortem e = rw (e, investigated) (rw (← e) (kept other))
      go closed e = rw (e, investigated) (rw (← e) (kept other))

  investigated-updates : (investigated m i).updates ≡ m.updates
  unfolding investigated save_incident
  investigated-updates = ground arith

  -- Tracking an incident that the store holds under its identifier appends the update that it
  -- returns to the incident's timeline, puts the incident under investigation if it was open, keeps
  -- its status otherwise, and leaves every other incident as it was.
  pub track_lem :
      (id message author : String) (now : ℕ)
      → (u : IncidentUpdate) × ((track id now m incident_id message author).0 ≡ ok u)
        × (timeline (track id now m incident_id message author).1 incident_id
            ≡ timeline m incident_id ++ u ∷ [])
        × ((other : String)
            → get (track id now m incident_id message author).1.incidents other ≡ (
                if incident_id == other
                then some (record i { status = after_update i.status })
                else get m.incidents other))
  unfolding track timeline
  track_lem id message author now =
      let u : IncidentUpdate = record {
        id = id;
        incident_id = incident_id;
        message = message;
        author = author;
        created_at = now;
      } in
      (
        u,
        rw (found_ok, track) refl,
        rw (found_ok, track, investigated-updates)
            (rw keep-append (rw (test_refl incident_id) refl)),
        λ other. rw (found_ok, track) (investigated-get other),
      )

  -- `close` asks neither for a status nor for a post-mortem: an incident that the store holds
  -- under its identifier is closed with its other fields as they were, and no other incident
  -- changes.
  pub close_lem :
      (other : String)
      → get (close m incident_id).1.incidents other ≡ (
          if incident_id == other
          then some (record i { status = closed })
          else get m.incidents other)
  unfolding close save_incident
  close_lem other = rw (found_ok, close) (rw (get-put, keyed) refl)
