-- ===== src/Toolbelt/Executor/Rollback.antt =====
-- `_rollback` of toolbelt/src/toolbelt/executor.py. What an `except Exception` catches is noted in the
-- flags of the session; an interrupt goes through.
use agent_tooling.Prelude.{
  ℕ, String, Bool, true, false, not, ◌&&◌, ◌||◌, Option, none, some, List, [], ◌∷◌, ◌++◌, eqb, find,
  if◌then◌else◌, ◌==◌,
}
use agent_tooling.Toolbelt.Errors.{interrupt, validation, key_error, Check}
use agent_tooling.Toolbelt.Schemas.{
  TransactionState, planned, rolling_back, rolled_back, rollback_failed, interrupted, ActionStep,
  Action, CommandResult,
}
use agent_tooling.Toolbelt.State.{
  Phase, in_rollback, undone, undo_failed, TransactionRow, ActionRow, get_transaction,
  set_transaction_state, record_action, record_command, mark_backup_restored,
  actions_for_transaction,
}
use agent_tooling.Toolbelt.Executor.{
  Host, Session, Statement, ◌▸◌, nothing, assign, require, on_store, run_step,
}

abbrev pub lock_file : String
lock_file = ".toolbelt/lock.toml"

-- `except Exception`
abbrev pub caught : (Session → Session) → Check × Session → Check × Session
caught note (none, s) = (none, s)
caught note (some interrupt, s) = (some interrupt, s)
caught note (some _, s) = (none, note s)

unfoldable pub catching : (Session → Session) → Statement → Statement
catching note f s = caught note (f s)

abbrev pub note_failed : Session → Session
note_failed s = record s { failed = true }

abbrev pub note_action_failed : Session → Session
note_action_failed s = record s { action_failed = true }

abbrev pub is_zero : Option ℕ → Bool
is_zero none = false
is_zero (some code) = eqb code 0

-- Neither timed out nor ended with another code than 0.
abbrev pub is_success : CommandResult → Bool
is_success r = not r.timed_out && is_zero r.returncode

-- `commands.append(result)` and `store.record_command(...)`
abbrev pub record_result : String → Action → Phase → CommandResult → Statement
record_result id a phase r =
    assign (λ s. record s { commands = s.commands ++ (r ∷ []) })
    ▸ on_store (record_command id a.id phase r)

abbrev pub enter_from : String → TransactionState → Statement
enter_from id rolling_back = nothing
enter_from id planned =
    on_store (set_transaction_state id interrupted none)
    ▸ on_store (set_transaction_state id rolling_back none)
enter_from id _ = on_store (set_transaction_state id rolling_back none)

abbrev enter : String → Option TransactionRow → Statement
enter id none = require (some validation)
enter id (some r) = enter_from id r.state

-- `_transition_to_rollback`
unfoldable pub transition_to_rollback : String → Statement
transition_to_rollback id s = enter id (get_transaction id s.tables) s

module _ (host : Host) (id : String) where
  -- The body of the inner loop.
  unfoldable pub undo_step : Action → ActionStep → Statement
  undo_step a step = catching note_action_failed (
      run_step host step λ r.
        record_result id a in_rollback r
        ▸ assign (λ s. record s { action_failed = s.action_failed || not (is_success r) }))

  -- The inner loop, over the steps in reverse order.
  unfoldable pub undo_steps : Action → List ActionStep → Statement
  undo_steps a [] = nothing
  undo_steps a (step ∷ steps) = undo_steps a steps ▸ undo_step a step

  abbrev pub record_undone : Action → Option ActionRow → Statement
  record_undone a none = require (some key_error)
  record_undone a (some row) = λ s.
      on_store (record_action id a row.sequence (if s.action_failed then undo_failed else undone)) s

  -- The row of the action gets its end.
  unfoldable pub note_undone : Action → Statement
  note_undone a s =
      record_undone a (find (λ row. row.action_id == a.id) (actions_for_transaction id s.tables)) s

  -- The body of the outer loop.
  unfoldable pub undo_action : Action → Statement
  undo_action a =
      assign (λ s. record s { action_failed = false })
      ▸ undo_steps a a.rollback_steps
      ▸ assign (λ s. record s { failed = s.failed || s.action_failed })
      ▸ catching note_failed (note_undone a)

  -- The outer loop, over the completed actions in reverse order.
  unfoldable pub undo_actions : List Action → Statement
  undo_actions [] = nothing
  undo_actions (a ∷ actions) = undo_actions actions ▸ undo_action a

  -- `_restore_declaration`
  abbrev restore_declaration : Option String → Statement
  restore_declaration before =
      require (host.owned lock_file) ▸ assign (λ s. record s { declaration = before })

  abbrev pub restore_if : Bool → Option String → Statement
  restore_if false before = nothing
  restore_if true before = catching note_failed (
      restore_declaration before
      ▸ assign (λ s. record s { tables = mark_backup_restored id lock_file s.tables }))

  abbrev pub end_state : Session → TransactionState
  end_state s = if s.failed then rollback_failed else rolled_back

  unfoldable pub set_end_state : Statement
  set_end_state s = on_store (set_transaction_state id (end_state s) none) s

  -- `_rollback`; whether it failed is left in the session.
  unfoldable pub rollback : List Action → Option String → Bool → Statement
  rollback completed before restore =
      assign (λ s. record s { failed = false })
      ▸ catching note_failed (transition_to_rollback id)
      ▸ undo_actions completed
      ▸ restore_if restore before
      ▸ catching note_failed set_end_state
