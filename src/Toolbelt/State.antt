-- ===== src/Toolbelt/State.antt =====
-- `StateStore` of toolbelt/src/toolbelt/state.py: the tables as lists of rows, oldest first, and the
-- operations on them. The times of the rows, what the commands printed and the messages of errors
-- are left out; an error is kept as its exception.
pub mod Lifecycle
pub mod History
use agent_tooling.Prelude.{
  ℕ, String, Bool, true, false, not, ◌&&◌, ◌||◌, Option, none, some, List, [], ◌∷◌, ◌++◌, leb, eqb,
  any, every, find, select, update_where, length, codes, is_some, if◌then◌else◌, ◌==◌,
}
use agent_tooling.Toolbelt.Errors.{
  Fault, value_error, integrity_error, Check, raise_when, Attempt, returned, raised, after,
}
use agent_tooling.Toolbelt.Schemas.{
  TransactionState, planned, preflight, applying, verifying, succeeded, rolling_back, rolled_back,
  rollback_failed, interrupted, Action, CommandResult,
}

pub data ActionState : Type 0 where
  started mutated verified undone undo_failed : ActionState

pub data Phase : Type 0 where
  in_apply in_verify in_rollback : Phase

pub record TransactionRow : Type 0 where
  pub transaction_id : String
  pub plan_id : String
  pub repository_identity : String
  pub state : TransactionState
  pub error : Option Fault

pub record ActionRow : Type 0 where
  pub transaction_id : String
  pub action_id : String
  pub sequence : ℕ
  pub state : ActionState
  pub payload : Action

pub record CommandRow : Type 0 where
  pub transaction_id : String
  pub action_id : String
  pub phase : Phase
  pub result : CommandResult

pub record BackupRow : Type 0 where
  pub transaction_id : String
  pub relative_path : String
  pub backup_path : String
  pub sha256 : String
  pub restored : Bool

pub record RecoveryRow : Type 0 where
  pub transaction_id : String
  pub status : TransactionState

pub record Tables : Type 0 where
  pub transactions : List TransactionRow
  pub actions : List ActionRow
  pub command_results : List CommandRow
  pub backups : List BackupRow
  pub recovery_records : List RecoveryRow

-- `destination in _TRANSITIONS[source]`
abbrev pub is_transition : TransactionState → TransactionState → Bool
is_transition planned preflight = true
is_transition planned interrupted = true
is_transition preflight applying = true
is_transition preflight rolling_back = true
is_transition preflight interrupted = true
is_transition applying verifying = true
is_transition applying rolling_back = true
is_transition applying interrupted = true
is_transition verifying succeeded = true
is_transition verifying rolling_back = true
is_transition verifying interrupted = true
is_transition rolling_back rolled_back = true
is_transition rolling_back rollback_failed = true
is_transition rolling_back interrupted = true
is_transition interrupted verifying = true
is_transition interrupted rolling_back = true
is_transition _ _ = false

abbrev pub is_terminal : TransactionState → Bool
is_terminal succeeded = true
is_terminal rolled_back = true
is_terminal rollback_failed = true
is_terminal _ = false

abbrev is_hex : ℕ → Bool
is_hex c = (leb b'0' c && leb c b'9') || (leb b'a' c && leb c b'f')

-- What `_validate_digest` accepts.
abbrev is_digest : String → Bool
is_digest value = eqb (length (codes value)) 64 && every is_hex (codes value)

abbrev is_separator : ℕ → Bool
is_separator c = eqb c b'/' || eqb c b'\\' || eqb c 0

abbrev pub is_transaction : String → TransactionRow → Bool
is_transaction id r = r.transaction_id == id

-- `get_transaction`
abbrev pub get_transaction : String → Tables → Option TransactionRow
get_transaction id t = find (is_transaction id) t.transactions

-- `REFERENCES transactions(transaction_id)`
abbrev check_reference : String → Tables → Check → Check
check_reference id t rest = raise_when (not (is_some (get_transaction id t))) integrity_error rest

unfoldable pub is_malformed : String → String → String → Bool
is_malformed plan_id identity id =
    not (is_digest plan_id)
    || not (is_digest identity)
    || eqb (length (codes id)) 0
    || not (leb (length (codes id)) 128)
    || any is_separator (codes id)

abbrev pub check_begin : String → String → String → Tables → Check
check_begin plan_id identity id t =
    raise_when (is_malformed plan_id identity id) value_error
      (raise_when (is_some (get_transaction id t)) integrity_error none)

abbrev pub begun : String → String → String → TransactionRow
begun plan_id identity id = record {
  transaction_id = id;
  plan_id = plan_id;
  repository_identity = identity;
  state = planned;
  error = none;
}

-- `begin_transaction`, with the id that the call gives or a fresh one.
unfoldable pub begin_transaction : String → String → String → Tables → Attempt Tables
begin_transaction plan_id identity id t =
    after (check_begin plan_id identity id t)
      (returned (record t { transactions = t.transactions ++ (begun plan_id identity id ∷ []) }))

abbrev is_incomplete : TransactionRow → Bool
is_incomplete r = not (is_terminal r.state)

-- `incomplete_transactions`: the rows stand in the order of their creation.
abbrev pub incomplete_transactions : Tables → List TransactionRow
incomplete_transactions t = select is_incomplete t.transactions

abbrev pub with_state : TransactionState → Option Fault → TransactionRow → TransactionRow
with_state state error r = record r { state = state; error = error }

abbrev check_transition : TransactionState → Option TransactionRow → Check
check_transition destination none = some value_error
check_transition destination (some r) =
    raise_when (not (is_transition r.state destination)) value_error none

-- `set_transaction_state`
unfoldable pub set_transaction_state :
    String → TransactionState → Option Fault → Tables → Attempt Tables
set_transaction_state id destination error t =
    after (check_transition destination (get_transaction id t)) (
      returned (record t {
        transactions =
            update_where (is_transaction id) (with_state destination error) t.transactions;
      }))

abbrev pub is_action : String → String → ActionRow → Bool
is_action id action_id r = r.transaction_id == id && r.action_id == action_id

abbrev has_sequence : String → ℕ → ActionRow → Bool
has_sequence id sequence r = r.transaction_id == id && eqb r.sequence sequence

abbrev update_action : ActionState → Action → ActionRow → ActionRow
update_action state payload r = record r { state = state; payload = payload }

-- `record_action`: the row of an action keeps the sequence that it was inserted with.
unfoldable pub record_action : String → Action → ℕ → ActionState → Tables → Attempt Tables
record_action id a sequence state t =
    after
      (check_reference id t (
        raise_when
          (not (any (is_action id a.id) t.actions) && any (has_sequence id sequence) t.actions)
          integrity_error none))
      (returned (record t {
        actions =
            if any (is_action id a.id) t.actions
            then update_where (is_action id a.id) (update_action state a) t.actions
            else t.actions
              ++ (record {
                transaction_id = id;
                action_id = a.id;
                sequence = sequence;
                state = state;
                payload = a;
              }
                  ∷ []);
      }))

-- `record_command`
unfoldable pub record_command : String → String → Phase → CommandResult → Tables → Attempt Tables
record_command id action_id phase result t = after (check_reference id t none) (
    returned (record t {
      command_results =
          t.command_results
          ++ (record { transaction_id = id; action_id = action_id; phase = phase; result = result }
              ∷ []);
    }))

-- `record_recovery`
unfoldable pub record_recovery : String → TransactionState → Tables → Attempt Tables
record_recovery id status t = after (check_reference id t none) (
    returned (record t {
      recovery_records =
          t.recovery_records ++ (record { transaction_id = id; status = status } ∷ []);
    }))

abbrev pub is_backup : String → String → BackupRow → Bool
is_backup id path r = r.transaction_id == id && r.relative_path == path

abbrev update_backup : String → String → BackupRow → BackupRow
update_backup path sha256 r = record r { backup_path = path; sha256 = sha256 }

-- `record_backup`
unfoldable pub record_backup : String → String → String → String → Tables → Attempt Tables
record_backup id path backup_path sha256 t =
    after (raise_when (not (is_digest sha256)) value_error (check_reference id t none)) (
      returned (record t {
        backups =
            if any (is_backup id path) t.backups
            then update_where (is_backup id path) (update_backup backup_path sha256) t.backups
            else t.backups
              ++ (record {
                transaction_id = id;
                relative_path = path;
                backup_path = backup_path;
                sha256 = sha256;
                restored = false;
              }
                  ∷ []);
      }))

abbrev restore : BackupRow → BackupRow
restore r = record r { restored = true }

-- `mark_backup_restored`
unfoldable pub mark_backup_restored : String → String → Tables → Tables
mark_backup_restored id path t = record t {
  backups = update_where (is_backup id path) restore t.backups;
}

abbrev backup_of : String → BackupRow → Bool
backup_of id r = r.transaction_id == id

-- `backups_for_transaction`
abbrev pub backups_for_transaction : String → Tables → List BackupRow
backups_for_transaction id t = select (backup_of id) t.backups

abbrev action_of : String → ActionRow → Bool
action_of id r = r.transaction_id == id

unfoldable pub insert_row : ActionRow → List ActionRow → List ActionRow
insert_row r [] = r ∷ []
insert_row r (s ∷ rows) =
    let later = insert_row r rows in if leb r.sequence s.sequence then r ∷ s ∷ rows else s ∷ later

unfoldable pub by_sequence : List ActionRow → List ActionRow
by_sequence [] = []
by_sequence (r ∷ rows) = insert_row r (by_sequence rows)

-- `actions_for_transaction`
abbrev pub actions_for_transaction : String → Tables → List ActionRow
actions_for_transaction id t = by_sequence (select (action_of id) t.actions)
