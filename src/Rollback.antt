-- ===== src/Rollback.antt =====
-- The rollback engine: backend/src/tmis/workflow_automation/rollback (schemas.py, store.py and
-- engine.py).
mod Samples
use tmis.Prelude.{
  ℕ, String, ◌≡◌, refl, Bool, false, ◌&&◌, Option, none, some, List, [], ◌∷◌, ◌++◌, ◌==◌, nat_eq,
  string_eq, key_eq, keep,
}
use tmis.Prelude.Dict.{Dict, get, put}
use tmis.Prelude.Python.{Result, ok, raise, append, Builtins}
use tmis.Condition.{Context}
use tmis.Action.{Action, Stamp}

pub record RollbackResult : Type 0 where
  pub compensated : Bool
  pub detail : String

pub record RollbackLogEntry : Type 0 where
  pub id : String
  pub firm_id : String
  pub execution_id : String
  pub action_id : String
  pub action_type : String
  pub result : RollbackResult
  pub executed_at : ℕ

-- `RollbackHandlerPort.compensate`
abbrev pub Compensation : Type 0 → Type 0
Compensation W = Action → Context → W → Result RollbackResult × W

-- `RollbackEngine`, with its log store, beside the world on which its handlers act.
pub record RollbackEngine (W : Type 0) : Type 0 where
  pub handlers : Dict String (Compensation W)
  pub entries : List RollbackLogEntry
  pub world : W

unfoldable pub list_for_execution : List RollbackLogEntry → String → String → List RollbackLogEntry
list_for_execution entries firm_id execution_id =
    keep (λ e. e.firm_id == firm_id && e.execution_id == execution_id) entries

module _ {W : Type 0} where
  unfoldable pub register : RollbackEngine W → String → Compensation W → RollbackEngine W
  register m action_type handler = record m { handlers = put m.handlers action_type handler }

  unfoldable pub history_for_execution : RollbackEngine W → String → String → List RollbackLogEntry
  unfolding list_for_execution
  history_for_execution m firm_id execution_id = list_for_execution m.entries firm_id execution_id

  module _ (py : Builtins) (stamp : W → Stamp) where
    -- The handler's result, that of its exception, or that of a missing handler.
    unfoldable pub compensation :
        Option (Compensation W) → Action → Context → W → RollbackResult × W
    compensation none action context world = (
      record {
        compensated = false;
        detail = append "No rollback handler registered for " (py.repr action.action_type);
      },
      world,
    )
    compensation (some handler) action context world =
        let (outcome, world') = handler action context world in
        elim outcome [
          | ok result ↦ (result, world')
          | raise exc ↦ (record { compensated = false; detail = py.str exc }, world')
        ]

    unfoldable pub rollback :
        String → String → Action → Context → RollbackEngine W → RollbackResult × RollbackEngine W
    unfolding compensation
    rollback firm_id execution_id action context m =
        let (result, world) =
          compensation (get m.handlers action.action_type) action context m.world in
        let entry : RollbackLogEntry = record {
          id = (stamp world).id;
          firm_id = firm_id;
          execution_id = execution_id;
          action_id = action.id;
          action_type = action.action_type;
          result = result;
          executed_at = (stamp world).at;
        } in
        (result, record m { entries = m.entries ++ entry ∷ []; world = world })

    module _ (firm_id execution_id : String) (action : Action) (context : Context)
        (m : RollbackEngine W) where
      -- Every rollback writes one entry at the end of the journal, that holds the result it
      -- returns and names the firm, the execution and the action; and where no handler is
      -- registered for the action's type, the result is not compensated and the world is untouched.
      pub rollback_journals :
          (entry : RollbackLogEntry) × ((rollback firm_id execution_id action context m).1.entries
            ≡ m.entries ++ entry ∷ [])
          × ((rollback firm_id execution_id action context m).0 ≡ entry.result)
          × (entry.firm_id ≡ firm_id)
          × (entry.execution_id ≡ execution_id)
          × (entry.action_id ≡ action.id)
          × (get m.handlers action.action_type ≡ none
              → (entry.result.compensated ≡ false)
                × ((rollback firm_id execution_id action context m).1.world ≡ m.world))
      unfolding rollback
      rollback_journals =
          let (result, world) =
            compensation (get m.handlers action.action_type) action context m.world in
          let entry : RollbackLogEntry = record {
            id = (stamp world).id;
            firm_id = firm_id;
            execution_id = execution_id;
            action_id = action.id;
            action_type = action.action_type;
            result = result;
            executed_at = (stamp world).at;
          } in
          (
            entry,
            refl,
            refl,
            refl,
            refl,
            refl,
            λ missing. (rw (missing, compensation) refl, rw (missing, compensation) refl),
          )
