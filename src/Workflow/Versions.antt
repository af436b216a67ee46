-- ===== src/Workflow/Versions.antt =====
-- `InMemoryWorkflowStore` and `WorkflowEngine`: workflow_engine/store.py and engine.py.
use tmis.Prelude.{
  ℕ, ◌+◌, String, Bool, true, false, ◌&&◌, Option, none, some, List, [], ◌∷◌, leb, if◌then◌else◌,
  ◌==◌, nat_eq, string_eq, key_eq, first, last,
}
use tmis.Prelude.Dict.{Dict, get, put}
use tmis.Prelude.Sort.{sort}
use tmis.Prelude.Python.{key_error, Result, ok, raise}
use tmis.Condition.{Condition}
use tmis.Trigger.{Trigger}
use tmis.Workflow.Schemas.{WorkflowStatus, draft, active, archived, WorkflowStep, Workflow}

abbrev pub WorkflowStore : Type 0
WorkflowStore = Dict (String × String) Workflow

-- `self._workflows[(workflow.firm_id, workflow.id)] = workflow`
unfoldable pub add : WorkflowStore → Workflow → WorkflowStore
add store w = put store (w.firm_id, w.id) w

-- The versions of a workflow in the order of the store.
unfoldable pub matching : WorkflowStore → String → String → List Workflow
matching [] firm_id workflow_key = []
matching (((fid, _), w) ∷ store) firm_id workflow_key =
    if fid == firm_id && w.workflow_key == workflow_key
    then w ∷ matching store firm_id workflow_key
    else matching store firm_id workflow_key

unfoldable pub list_versions : WorkflowStore → String → String → List Workflow
unfolding matching
list_versions store firm_id workflow_key =
    sort (λ a b. leb a.version b.version) (matching store firm_id workflow_key)

unfoldable pub list_for_firm : WorkflowStore → String → List Workflow
list_for_firm [] firm_id = []
list_for_firm (((fid, _), w) ∷ store) firm_id =
    if fid == firm_id then w ∷ list_for_firm store firm_id else list_for_firm store firm_id

-- `WorkflowEngine.create`. The new identifier, the new key and the time are arguments.
unfoldable pub create :
    String
    → String
    → ℕ
    → WorkflowStore
    → (firm_id name owner description : String) → List Trigger
    → List Condition
    → List WorkflowStep
    → Workflow × WorkflowStore
unfolding add
create id workflow_key now store firm_id name owner description triggers conditions steps =
    let workflow : Workflow = record {
      id = id;
      workflow_key = workflow_key;
      firm_id = firm_id;
      name = name;
      version = 1;
      owner = owner;
      description = description;
      triggers = triggers;
      conditions = conditions;
      steps = steps;
      status = draft;
      created_at = now;
    } in
    (workflow, add store workflow)

-- `x if x is not None else default`
abbrev pub given {ℓ} : {A : Type ℓ} → Option A → A → A
given none default = default
given (some x) default = x

-- What `new_version` makes of the latest version.
abbrev pub next_version :
    String
    → ℕ
    → Workflow
    → (firm_id owner : String) → Option String
    → Option (List Trigger)
    → Option (List Condition)
    → Option (List WorkflowStep)
    → Workflow
next_version id now latest firm_id owner description triggers conditions steps = record {
  id = id;
  workflow_key = latest.workflow_key;
  firm_id = firm_id;
  name = latest.name;
  version = latest.version + 1;
  owner = owner;
  description = given description latest.description;
  triggers = given triggers latest.triggers;
  conditions = given conditions latest.conditions;
  steps = given steps latest.steps;
  status = draft;
  created_at = now;
}

unfoldable pub new_version :
    String
    → ℕ
    → WorkflowStore
    → (firm_id workflow_key owner : String) → Option String
    → Option (List Trigger)
    → Option (List Condition)
    → Option (List WorkflowStep)
    → Result Workflow × WorkflowStore
unfolding list_versions add
new_version id now store firm_id workflow_key owner description triggers conditions steps =
    elim (list_versions store firm_id workflow_key) [
      | [] ↦ (raise (key_error workflow_key), store)
      | w ∷ ws ↦
          let made : Workflow =
            record (next_version id now (last w ws) firm_id owner description triggers conditions
              steps) { workflow_key = workflow_key } in
          (ok made, add store made)
    ]

unfoldable pub get_workflow : WorkflowStore → String → String → Result Workflow
get_workflow store firm_id workflow_id = elim (get store (firm_id, workflow_id)) [
  | none ↦ raise (key_error workflow_id)
  | some w ↦ ok w
]

abbrev pub is_active : Workflow → Bool
is_active w = elim w.status [ active ↦ true | _ ↦ false ]

unfoldable pub get_active : WorkflowStore → String → String → Option Workflow
unfolding list_versions
get_active store firm_id workflow_key = first is_active (list_versions store firm_id workflow_key)

-- The engine changes the status of the object that the store holds, so the store is written too.
abbrev pub with_status : WorkflowStatus → Workflow → Workflow
with_status status w = record w { status = status }

-- The previously active version, if it is another one, is archived.
unfoldable pub archive_other : WorkflowStore → Workflow → Option Workflow → WorkflowStore
unfolding add
archive_other store w none = store
archive_other store w (some previous) =
    if previous.id == w.id then store else add store (with_status archived previous)

unfoldable pub activate : WorkflowStore → String → String → Result Workflow × WorkflowStore
activate store firm_id workflow_id = elim (get_workflow store firm_id workflow_id) [
  | raise exc ↦ (raise exc, store)
  | ok w ↦ (
    ok (with_status active w),
    add (archive_other store w (get_active store firm_id w.workflow_key)) (with_status active w),
  )
]

unfoldable pub archive : WorkflowStore → String → String → Result Workflow × WorkflowStore
archive store firm_id workflow_id = elim (get_workflow store firm_id workflow_id) [
  | raise exc ↦ (raise exc, store)
  | ok w ↦ (ok (with_status archived w), add store (with_status archived w))
]
