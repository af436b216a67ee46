-- ===== src/Action/Samples.antt =====
-- Concrete actions, and the journal's theorems at a run of one of them.
use tmis.Prelude.{ℕ, ◌+◌, ◌≡◌, refl, true, false, some, [], ◌∷◌, ◌++◌, nat_eq, string_eq, key_eq}
use tmis.Prelude.Dict.{get}
use tmis.Prelude.Python.{ok}
use tmis.Prelude.Sample.{plain}
use tmis.Action.{Action, ActionLogEntry, Handler, Stamp, Engine, history_for_execution, execute}
use tmis.Action.Journal.{execute_journals, history_for_execution-execute_ne}

abbrev pub mail : Action
mail = record {
  id = "a1";
  workflow_id = "w1";
  action_type = "mail";
  config = [];
  requires_approval = false;
}

abbrev pub stamp_of : ℕ → Stamp
stamp_of n = record { id = "stamp"; at = n }

-- The world counts the calls of the handler.
abbrev pub send : Handler ℕ
send action context n = (ok (record { success = true; detail = "sent"; output = [] }), n + 1)

abbrev pub mailer : Engine ℕ
mailer = record { handlers = ("mail", send) ∷ []; log = []; world = 0 }

found_send : get mailer.handlers mail.action_type ≡ some send
unfolding get
found_send = refl

execute_journals_example :
    (entry : ActionLogEntry) × ((execute plain stamp_of "f" "e" mail [] mailer).0 ≡ ok entry.result)
    × ((execute plain stamp_of "f" "e" mail [] mailer).1.log ≡ mailer.log ++ entry ∷ [])
    × (entry.firm_id ≡ "f")
    × (entry.execution_id ≡ "e")
    × (entry.action_id ≡ "a1")
    × (entry.action_type ≡ "mail")
execute_journals_example = execute_journals plain stamp_of "f" "e" mail [] mailer send found_send

history_for_execution-execute_ne_example :
    history_for_execution (execute plain stamp_of "f" "e" mail [] mailer).1 "g" "e"
    ≡ history_for_execution mailer "g" "e"
history_for_execution-execute_ne_example =
    history_for_execution-execute_ne plain stamp_of "f" "e" mail [] mailer "g" "e" refl
