-- ===== src/Action.antt =====
-- Actions and the engine that runs and journals them:
-- backend/src/tmis/workflow_automation/action_engine (schemas.py, store.py and engine.py).
pub mod Journal
pub mod Samples
use tmis.Prelude.{
  ℕ, String, Bool, false, ◌&&◌, none, some, List, [], ◌∷◌, ◌++◌, ◌==◌, nat_eq, string_eq, key_eq,
  keep,
}
use tmis.Prelude.Dict.{Dict, get, put}
use tmis.Prelude.Python.{unknown_action_type, Result, ok, raise, Builtins}
use tmis.Condition.{Context}

pub record Action : Type 0 where
  pub id : String
  pub workflow_id : String
  pub action_type : String
  pub config : Dict String String
  pub requires_approval : Bool

pub record ActionResult : Type 0 where
  pub success : Bool
  pub detail : String
  pub output : Dict String String

pub record ActionLogEntry : Type 0 where
  pub id : String
  pub firm_id : String
  pub execution_id : String
  pub action_id : String
  pub action_type : String
  pub result : ActionResult
  pub executed_at : ℕ

-- A handler returns a result or raises, and may change the world outside the engine.
abbrev pub Handler : Type 0 → Type 0
Handler W = Action → Context → W → Result ActionResult × W

-- A fresh identifier and the time, as `uuid.uuid4` and `datetime.now` give them.
pub record Stamp : Type 0 where
  pub id : String
  pub at : ℕ

-- `ActionEngine`, with its log store, beside the world on which its handlers act.
pub record Engine (W : Type 0) : Type 0 where
  pub handlers : Dict String (Handler W)
  pub log : List ActionLogEntry
  pub world : W

-- `InMemoryActionLogStore.list_for_execution`
unfoldable pub list_for_execution : List ActionLogEntry → String → String → List ActionLogEntry
list_for_execution log firm_id execution_id =
    keep (λ e. e.firm_id == firm_id && e.execution_id == execution_id) log

module _ {W : Type 0} where
  unfoldable pub register : Engine W → String → Handler W → Engine W
  register m action_type handler = record m { handlers = put m.handlers action_type handler }

  unfoldable pub history_for_execution : Engine W → String → String → List ActionLogEntry
  unfolding list_for_execution
  history_for_execution m firm_id execution_id = list_for_execution m.log firm_id execution_id

  module _ (py : Builtins) (stamp : W → Stamp) where
    -- `except Exception as exc: result = ActionResult(success=False, detail=str(exc))`
    unfoldable pub caught : Result ActionResult → ActionResult
    caught (ok result) = result
    caught (raise exc) = record { success = false; detail = py.str exc; output = [] }

    unfoldable pub execute :
        String → String → Action → Context → Engine W → Result ActionResult × Engine W
    unfolding caught
    execute firm_id execution_id action context m = elim (get m.handlers action.action_type) [
      | none ↦ (raise (unknown_action_type action.action_type), m)
      | some handler ↦
          let (outcome, world) = handler action context m.world in
          let result = caught outcome in
          let entry : ActionLogEntry = record {
            id = (stamp world).id;
            firm_id = firm_id;
            execution_id = execution_id;
            action_id = action.id;
            action_type = action.action_type;
            result = result;
            executed_at = (stamp world).at;
          } in
          (ok result, record m { log = m.log ++ entry ∷ []; world = world })
    ]
