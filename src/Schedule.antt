-- ===== src/Schedule.antt =====
-- Triggers that fire by time: backend/src/tmis/workflow_automation/scheduler (schemas.py, store.py
-- and engine.py).
pub mod Firing
mod Samples
use tmis.Prelude.{
  ℕ, ◌+◌, String, Bool, Option, none, some, List, [], ◌∷◌, leb, if◌then◌else◌, ◌==◌, nat_eq,
  string_eq, key_eq, keep,
}
use tmis.Prelude.Dict.{Dict, get, put}

-- `interval` is `none` for a trigger that fires once.
pub record ScheduledTrigger : Type 0 where
  pub id : String
  pub firm_id : String
  pub workflow_id : String
  pub trigger_id : String
  pub next_fire_at : ℕ
  pub interval : Option ℕ

-- `InMemorySchedulerStore`
abbrev pub SchedulerStore : Type 0
SchedulerStore = Dict (String × String) ScheduledTrigger

unfoldable pub add_scheduled : SchedulerStore → ScheduledTrigger → SchedulerStore
add_scheduled store scheduled = put store (scheduled.firm_id, scheduled.id) scheduled

unfoldable pub scheduled_for_firm : SchedulerStore → String → List ScheduledTrigger
scheduled_for_firm [] firm_id = []
scheduled_for_firm (((fid, _), s) ∷ store) firm_id =
    if fid == firm_id
    then s ∷ scheduled_for_firm store firm_id
    else scheduled_for_firm store firm_id

-- `SchedulerEngine.schedule`. The new identifier is an argument.
unfoldable pub schedule :
    String
    → SchedulerStore
    → (firm_id workflow_id trigger_id : String) → ℕ
    → Option ℕ
    → ScheduledTrigger × SchedulerStore
unfolding add_scheduled
schedule id store firm_id workflow_id trigger_id next_fire_at interval =
    let scheduled : ScheduledTrigger = record {
      id = id;
      firm_id = firm_id;
      workflow_id = workflow_id;
      trigger_id = trigger_id;
      next_fire_at = next_fire_at;
      interval = interval;
    } in
    (scheduled, add_scheduled store scheduled)

abbrev pub is_due : ℕ → ScheduledTrigger → Bool
is_due now s = leb s.next_fire_at now

unfoldable pub due : SchedulerStore → String → ℕ → List ScheduledTrigger
unfolding scheduled_for_firm
due store firm_id now = keep (is_due now) (scheduled_for_firm store firm_id)

abbrev pub after_firing : ScheduledTrigger → ℕ → ScheduledTrigger
after_firing scheduled now = elim scheduled.interval [
  | none ↦ scheduled
  | some interval ↦ record scheduled { next_fire_at = now + interval }
]

-- The object that is changed is the one that the store holds, if it holds it.
unfoldable pub mark_fired :
    SchedulerStore → ScheduledTrigger → ℕ → ScheduledTrigger × SchedulerStore
mark_fired store scheduled now =
    let key : String × String = (scheduled.firm_id, scheduled.id) in
    (
      after_firing scheduled now,
      elim (get store key) [ none ↦ store | some _ ↦ put store key (after_firing scheduled now) ],
    )
