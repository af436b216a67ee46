-- ===== src/Schedule/Samples.antt =====
-- A weekly trigger and a single hearing.
use tmis.Prelude.{
  ℕ, ◌+◌, ◌<◌, String, ◌≡◌, refl, ◌≢◌, none, some, [], ◌∷◌, nat_eq, string_eq, key_eq, Every,
}
use tmis.Prelude.Dict.{get}
use tmis.Prelude.Distinct.{Every-get_entry}
use tmis.Schedule.{ScheduledTrigger, SchedulerStore, due, mark_fired}
use tmis.Schedule.Firing.{IsKeyed, mark_fired_lem}

abbrev weekly : ScheduledTrigger
weekly = record {
  id = "s1";
  firm_id = "f";
  workflow_id = "w1";
  trigger_id = "t1";
  next_fire_at = 5;
  interval = some 7;
}

abbrev agenda : SchedulerStore
agenda = (("f", "s1"), weekly) ∷ []

agenda-IsKeyed : IsKeyed agenda
unfolding get
agenda-IsKeyed = record {
  distinct = (refl, tt);
  keyed = λ k s found.
      Every-get_entry
        (λ (kv : (String × String) × ScheduledTrigger). kv.0 ≡ (kv.1.firm_id, kv.1.id)) agenda k s
        (refl, tt) found;
}

found_weekly : get agenda ("f", "s1") ≡ some weekly
unfolding get
found_weekly = refl

mark_fired_lem_example :
    ((interval t : ℕ)
      → weekly.interval ≡ some interval
      → t < 6 + interval
      → Every (λ (x : ScheduledTrigger). x.id ≢ "s1") (due (mark_fired agenda weekly 6).1 "f" t))
    × (weekly.interval ≡ none → mark_fired agenda weekly 6 ≡ (weekly, agenda))
mark_fired_lem_example = mark_fired_lem agenda agenda-IsKeyed weekly 6 found_weekly
