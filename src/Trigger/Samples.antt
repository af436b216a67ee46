-- ===== src/Trigger/Samples.antt =====
-- A deadline that fires one of three triggers.
use tmis.Prelude.{
  String, ◌≡◌, refl, true, Option, some, List, [], ◌∷◌, nat_eq, string_eq, key_eq, keep, Every,
}
use tmis.Prelude.Dict.{get}
use tmis.Prelude.Python.{ok}
use tmis.Prelude.Int.{ℤ, pos}
use tmis.Trigger.{
  TriggerType, schedule, deadline, case_updated, Trigger, EventBody, deadline_approaching,
  default_matchers, register_matcher, matches, find_matching_triggers,
}
use tmis.Trigger.Matching.{is_hit, fires, find_matching_triggers_lem}

-- Every threshold is read as three days.
abbrev three : String → Option ℤ
three text = some (pos 3)

abbrev trigger_of : String → TriggerType → Trigger
trigger_of name kind = record {
  id = name;
  workflow_id = "w1";
  trigger_type = kind;
  config = ("days_remaining_at_or_below", "3") ∷ [];
}

abbrev three_triggers : List Trigger
three_triggers =
    trigger_of "t1" deadline ∷ trigger_of "t2" schedule ∷ trigger_of "t3" case_updated ∷ []

abbrev soon : EventBody
soon = deadline_approaching "c1" "appeal" (pos 2)

fired :
    find_matching_triggers (default_matchers three) three_triggers soon
    ≡ ok (trigger_of "t1" deadline ∷ [])
unfolding find_matching_triggers matches default_matchers get
fired = refl

-- A matcher for a type that had none.
fired_always :
    find_matching_triggers
      (register_matcher (default_matchers three) schedule (λ t e. ok true))
      three_triggers
      soon
    ≡ ok (trigger_of "t1" deadline ∷ trigger_of "t2" schedule ∷ [])
unfolding find_matching_triggers matches default_matchers get register_matcher
fired_always = refl

find_matching_triggers_lem_example :
    ((found : List Trigger)
      → find_matching_triggers (default_matchers three) three_triggers soon ≡ ok found
      → (found ≡ keep (λ t. is_hit (fires three soon t)) three_triggers)
        × Every (λ t. fires three soon t ≡ ok (is_hit (fires three soon t))) three_triggers)
    × (Every (λ t. fires three soon t ≡ ok (is_hit (fires three soon t))) three_triggers
        → find_matching_triggers (default_matchers three) three_triggers soon
          ≡ ok (keep (λ t. is_hit (fires three soon t)) three_triggers))
find_matching_triggers_lem_example = find_matching_triggers_lem three soon three_triggers
