-- ===== src/Toolbelt/Executor/Recover.antt =====
-- `Executor.recover` of toolbelt/src/toolbelt/executor.py.
use agent_tooling.Prelude.{
  String, Bool, true, false, not, Option, none, some, List, [], ◌∷◌, is_some, find, select, map,
  if◌then◌else◌, ◌==◌,
}
use agent_tooling.Toolbelt.Errors.{
  validation, drift, os_error, Check, raise_when, Attempt, returned, raised, with_value, after,
}
use agent_tooling.Toolbelt.Schemas.{TransactionState}
use agent_tooling.Toolbelt.State.{
  ActionState, mutated, verified, is_terminal, TransactionRow, ActionRow, BackupRow,
  get_transaction, record_recovery, backups_for_transaction, actions_for_transaction,
}
use agent_tooling.Toolbelt.Executor.{Host, Session, on_store}
use agent_tooling.Toolbelt.Executor.Rollback.{end_state, rollback}
use agent_tooling.Toolbelt.Executor.Apply.{ExecutionResult, Ending, concluded, escaped, opened}

abbrev is_mutated : ActionState → Bool
is_mutated mutated = true
is_mutated verified = true
is_mutated _ = false

abbrev pub has_mutated : ActionRow → Bool
has_mutated row = is_mutated row.state

abbrev pub last : List BackupRow → Option BackupRow
last [] = none
last (b ∷ []) = some b
last (b ∷ c ∷ backups) = last (c ∷ backups)

abbrev pub content_of : Option (String × String) → Attempt String
content_of none = raised os_error
content_of (some file) = returned file.1

module _ (host : Host) (id : String) where
  -- The content of a backup file, if its digest is the one that was recorded.
  abbrev read_backup : BackupRow → Session → Attempt (Option String)
  read_backup b s =
      if b.backup_path == ""
      then returned none
      else after (host.owned b.backup_path) (
          with_value (content_of (find (λ file. file.0 == b.backup_path) s.backup_files)) λ content.
            after (raise_when (not (host.planning.sha256 content == b.sha256)) drift none)
              (returned (some content)))

  abbrev read_last : Option BackupRow → Session → Attempt (Option String)
  read_last none s = returned none
  read_last (some b) s = read_backup b s

  -- `_backup_bytes`
  unfoldable pub backup_bytes : Session → Attempt (Option String)
  backup_bytes s = read_last (last (backups_for_transaction id s.tables)) s

  abbrev pub recovered : TransactionState → ExecutionResult
  recovered state = record {
    transaction_id = id;
    state = state;
    commands = [];
    error = none;
    dry_run = false;
  }

  abbrev return_recovered : ExecutionResult → Check × Session → Ending × Session
  return_recovered r (none, s) = (concluded r, s)
  return_recovered r (some fault, s) = (escaped fault, s)

  -- `store.record_recovery(...)` and the `return`.
  abbrev pub finish : Check × Session → Ending × Session
  finish (some fault, s) = (escaped fault, s)
  finish (none, s) =
      return_recovered (record (recovered (end_state host id s)) { commands = s.commands })
        (on_store (record_recovery id (end_state host id s)) s)

  abbrev pub roll_back_to : Attempt (Option String) → Session → Ending × Session
  roll_back_to (raised fault) s = (escaped fault, s)
  roll_back_to (returned before) s = finish (
      rollback host id
        (map ActionRow.payload (select has_mutated (actions_for_transaction id s.tables))) before
        (is_some (last (backups_for_transaction id s.tables))) (opened host s))

  abbrev pub recover_row : Option TransactionRow → Session → Ending × Session
  recover_row none s = (escaped validation, s)
  recover_row (some r) s =
      if is_terminal r.state
      then (concluded (recovered r.state), s)
      else roll_back_to (backup_bytes s) s

  -- `recover`
  unfoldable pub recover : Session → Ending × Session
  recover s = recover_row (get_transaction id s.tables) s
