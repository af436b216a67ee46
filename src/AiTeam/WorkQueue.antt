-- ===== src/AiTeam/WorkQueue.antt =====
-- The work queue of missions: ai_team/work_queue (schemas.py and engine.py).
use tmis.Prelude.{
  ℕ, ◌+◌, String, Bool, true, false, ◌&&◌, Option, none, some, List, [], ◌∷◌, ltb, leb,
  if◌then◌else◌, nat_eq, string_eq, key_eq, keep,
}
use tmis.Prelude.Dict.{Dict, get, put, values}
use tmis.Prelude.Sort.{sort}
use tmis.Prelude.Python.{key_error, Result, ok, raise}
use tmis.Prelude.Int.{ℤ, leb_ℤ}
use tmis.AiTeam.Agents.{AgentOutput}

pub data WorkItemStatus : Type 0 where
  pending running done failed retrying cancelled timed_out : WorkItemStatus

-- Times are in milliseconds.
pub record WorkItem : Type 0 where
  pub id : String
  pub sub_task_id : String
  pub agent_id : String
  pub priority : ℤ
  pub status : WorkItemStatus
  pub attempts : ℕ
  pub max_attempts : ℕ
  pub timeout : ℕ
  pub created_at : ℕ
  pub started_at : Option ℕ
  pub completed_at : Option ℕ
  pub result : Option AgentOutput
  pub error : Option String

-- `InMemoryWorkQueue`
abbrev pub WorkQueue : Type 0
WorkQueue = Dict String WorkItem

unfoldable pub enqueue_item : WorkQueue → WorkItem → WorkQueue
enqueue_item queue item = put queue item.id item

-- `item.status in (PENDING, RETRYING)`
abbrev pub is_runnable : WorkItem → Bool
is_runnable item = elim item.status [ pending ↦ true | retrying ↦ true | _ ↦ false ]

-- The order of the key `(-item.priority, item.created_at)`.
unfoldable pub runs_first : WorkItem → WorkItem → Bool
runs_first a b =
    if leb_ℤ a.priority b.priority
    then leb_ℤ b.priority a.priority && leb a.created_at b.created_at
    else true

abbrev pub head_item : List WorkItem → Option WorkItem
head_item [] = none
head_item (item ∷ _) = some item

unfoldable pub dequeue_next : WorkQueue → Option WorkItem
unfolding runs_first
dequeue_next queue = head_item (sort runs_first (keep is_runnable (values queue)))

-- A method that looks the item up, which may raise `KeyError`, and changes it.
unfoldable pub change_item :
    (WorkItem → WorkItem) → WorkQueue → String → Result WorkItem × WorkQueue
change_item change queue item_id = elim (get queue item_id) [
  | none ↦ (raise (key_error item_id), queue)
  | some item ↦ (ok (change item), put queue item_id (change item))
]

abbrev pub started : ℕ → WorkItem → WorkItem
started now item = record item {
  status = running;
  attempts = item.attempts + 1;
  started_at = some now;
}

unfoldable pub mark_item_running : ℕ → WorkQueue → String → Result WorkItem × WorkQueue
unfolding change_item
mark_item_running now = change_item (started now)

abbrev pub finished : ℕ → AgentOutput → WorkItem → WorkItem
finished now output item = record item {
  status = done;
  result = some output;
  completed_at = some now;
}

unfoldable pub mark_item_done : ℕ → AgentOutput → WorkQueue → String → Result WorkItem × WorkQueue
unfolding change_item
mark_item_done now output = change_item (finished now output)

abbrev pub failing : ℕ → String → WorkItem → WorkItem
failing now error item =
    if ltb item.attempts item.max_attempts
    then record item { error = some error; status = retrying }
    else record item { error = some error; status = failed; completed_at = some now }

unfoldable pub mark_item_failed : ℕ → String → WorkQueue → String → Result WorkItem × WorkQueue
unfolding change_item
mark_item_failed now error = change_item (failing now error)

unfoldable pub cancel_item : ℕ → WorkQueue → String → Result WorkItem × WorkQueue
unfolding change_item
cancel_item now = change_item (λ item. record item { status = cancelled; completed_at = some now })

abbrev pub is_late : ℕ → WorkItem → Bool
is_late now item = elim item.status [
  | running ↦ elim item.started_at [ none ↦ false | some t ↦ ltb (t + item.timeout) now ]
  | _ ↦ false
]

-- A failure for good that a timeout causes is `TIMED_OUT`.
abbrev pub note_late : WorkItem → WorkItem
note_late item = elim item.status [ failed ↦ record item { status = timed_out } | _ ↦ item ]

-- The loop of `check_timeouts`; `message` is the text of an item's elapsed time. `clock` is the
-- time that `mark_failed` reads.
unfoldable pub expire_items :
    (now clock : ℕ) → (WorkItem → String) → List WorkItem → WorkQueue → List WorkItem × WorkQueue
expire_items now clock message [] queue = ([], queue)
expire_items now clock message (item ∷ items) queue =
    let late = note_late (failing clock (message item) item) in
    let after_late = expire_items now clock message items (put queue item.id late) in
    let after_none = expire_items now clock message items queue in
    if is_late now item then (late ∷ after_late.0, after_late.1) else after_none

unfoldable pub check_item_timeouts :
    (now clock : ℕ) → (WorkItem → String) → WorkQueue → List WorkItem × WorkQueue
unfolding expire_items
check_item_timeouts now clock message queue = expire_items now clock message (values queue) queue
