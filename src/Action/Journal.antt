-- ===== src/Action/Journal.antt =====
-- What `ActionEngine.execute` writes to its journal.
use tmis.Prelude.{
  String, ◌≡◌, refl, inl, inr, false, ◌&&◌, some, [], ◌∷◌, ◌++◌, Option-cases, ◌==◌, nat_eq,
  string_eq, key_eq, keep-append,
}
use tmis.Prelude.Dict.{get}
use tmis.Prelude.Python.{Result, ok, Builtins}
use mathlib.Core.List.{append-nil}
use tmis.Condition.{Context}
use tmis.Action.{
  Action, ActionResult, ActionLogEntry, Handler, Stamp, Engine, history_for_execution, caught,
  execute,
}

module _ {W : Type 0} (py : Builtins) (stamp : W → Stamp) (firm_id execution_id : String)
    (action : Action) (context : Context) (m : Engine W) where
  abbrev done : Result ActionResult × Engine W
  done = execute py stamp firm_id execution_id action context m

  -- An action with a handler returns a result, whether or not the handler raises, and its journal
  -- gains one entry, at the end, that holds the firm, the execution, the action and that result.
  pub execute_journals :
      (handler : Handler W)
      → get m.handlers action.action_type ≡ some handler
      → (entry : ActionLogEntry) × (done.0 ≡ ok entry.result)
        × (done.1.log ≡ m.log ++ entry ∷ [])
        × (entry.firm_id ≡ firm_id)
        × (entry.execution_id ≡ execution_id)
        × (entry.action_id ≡ action.id)
        × (entry.action_type ≡ action.action_type)
  unfolding execute
  execute_journals handler found = elim (Option-cases (get m.handlers action.action_type)) [
    | inl missing ↦ absurd (cc)
    | inr (h, there) ↦
        let (outcome, world) = h action context m.world in
        let entry : ActionLogEntry = record {
          id = (stamp world).id;
          firm_id = firm_id;
          execution_id = execution_id;
          action_id = action.id;
          action_type = action.action_type;
          result = caught py stamp outcome;
          executed_at = (stamp world).at;
        } in
        (entry, rw (there, execute) refl, rw (there, execute) refl, refl, refl, refl, refl)
  ]

  -- Running an action leaves the history of every other execution as it was, of the same firm and
  -- of any other, whether there is a handler or not.
  pub history_for_execution-execute_ne :
      (firm execution : String)
      → (firm_id == firm && execution_id == execution) ≡ false
      → history_for_execution done.1 firm execution ≡ history_for_execution m firm execution
  unfolding execute history_for_execution
  history_for_execution-execute_ne firm execution other =
      elim (Option-cases (get m.handlers action.action_type)) [
        | inl missing ↦ rw (missing, execute) refl
        | inr (h, there) ↦ rw (there, execute) (rw keep-append (rw other (append-nil _)))
      ]
