-- ===== src/Rollback/Samples.antt =====
-- The rollback theorem at an action with no compensation.
use tmis.Prelude.{ℕ, ◌≡◌, false, none, [], ◌∷◌, ◌++◌, nat_eq, string_eq, key_eq}
use tmis.Prelude.Dict.{get}
use tmis.Prelude.Sample.{plain}
use tmis.Action.Samples.{mail, stamp_of}
use tmis.Rollback.{RollbackLogEntry, RollbackEngine, rollback, rollback_journals}

abbrev idle : RollbackEngine ℕ
idle = record { handlers = []; entries = []; world = 0 }

rollback_journals_example :
    (entry : RollbackLogEntry) × ((rollback plain stamp_of "f" "e" mail [] idle).1.entries
      ≡ idle.entries ++ entry ∷ [])
    × ((rollback plain stamp_of "f" "e" mail [] idle).0 ≡ entry.result)
    × (entry.firm_id ≡ "f")
    × (entry.execution_id ≡ "e")
    × (entry.action_id ≡ "a1")
    × (get idle.handlers mail.action_type ≡ none
        → (entry.result.compensated ≡ false)
          × ((rollback plain stamp_of "f" "e" mail [] idle).1.world ≡ idle.world))
rollback_journals_example = rollback_journals plain stamp_of "f" "e" mail [] idle
