-- ===== src/Toolbelt/Executor.antt =====
-- The executor of toolbelt/src/toolbelt/executor.py as statements on a session: the tables, the
-- files, and the local variables of a call. A statement ends with or without an exception and leaves
-- the session as it is then.
pub mod Preflight
pub mod Rollback
pub mod Apply
pub mod Frames
pub mod Trying
pub mod Undoing
pub mod Settling
pub mod Recover
pub mod Recovering
pub mod Extending
pub mod Completing
use agent_tooling.Prelude.{
  ℕ, ◌+◌, String, Bool, true, false, not, ◌&&◌, ◌||◌, Option, none, some, List, [], ◌∷◌, ◌++◌, ltb,
  eqb, if◌then◌else◌,
}
use agent_tooling.Toolbelt.Errors.{
  Fault, apply_failed, os_error, interrupt, Check, raise_when, and_then, Attempt, returned, raised,
}
use agent_tooling.Toolbelt.Schemas.{
  TransactionState, ActionStep, Action, CommandResult, Declaration,
}
use agent_tooling.Toolbelt.Planner as planner
use agent_tooling.Toolbelt.State.{
  ActionState, Phase, Tables, set_transaction_state, record_action, record_command,
}

-- How a command ends: with a return code or killed at its timeout, or by an exception of `Popen`, or
-- by an interrupt while the executor waits for it.
pub data Ran : Type 0 where
  exited : Option ℕ → Bool → Ran
  not_started stopped : Ran

-- What the executor is given. A command may do anything, so its end depends on all the commands that
-- were started before. `owned` is the check of `resolve_owned_path`, `quote` a JSON string, `parse`
-- the TOML parser with the checks of `DeclarationV2`.
pub record Host : Type 0 where
  pub planning : planner.Host
  pub run : List ActionStep → ActionStep → ℕ → Ran
  pub owned : String → Check
  pub executable : String → Bool
  pub has_variable : String → Bool
  pub command_timeout : ℕ
  pub fault_after : Option ℕ
  pub quote : String → String
  pub parse : String → Attempt Declaration

-- The tables and the files, the steps that were started, and the variables of `apply`, `recover` and
-- `_rollback`.
pub record Session : Type 0 where
  pub tables : Tables
  pub declaration : Option String
  pub backup_files : List (String × String)
  pub history : List ActionStep
  pub commands : List CommandResult
  pub completed : List Action
  pub declaration_written : Bool
  pub boundaries : ℕ
  pub failed : Bool
  pub action_failed : Bool

abbrev pub Statement : Type 0
Statement = Session → Check × Session

abbrev pub resume : Check × Session → Statement → Check × Session
resume (none, s) rest = rest s
resume (some fault, s) rest = (some fault, s)

infixr 4 ◌▸◌
-- One statement and then another.
unfoldable pub ◌▸◌ : Statement → Statement → Statement
(first ▸ rest) s = resume (first s) rest

unfoldable pub nothing : Statement
nothing s = (none, s)

unfoldable pub assign : (Session → Session) → Statement
assign f s = (none, f s)

unfoldable pub require : Check → Statement
require check s = (check, s)

unfoldable pub use_value {ℓ} : {A : Type ℓ} → Attempt A → (A → Statement) → Statement
use_value (returned a) rest = rest a
use_value (raised fault) rest = require (some fault)

abbrev pub stored : Attempt Tables → Session → Check × Session
stored (returned t) s = (none, record s { tables = t })
stored (raised fault) s = (some fault, s)

-- A call of the store.
unfoldable pub on_store : (Tables → Attempt Tables) → Statement
on_store f s = stored (f s.tables) s

abbrev pub is_boundary : Option ℕ → ℕ → Bool
is_boundary none n = false
is_boundary (some m) n = eqb m n

module _ (host : Host) where
  -- `_checkpoint`
  unfoldable pub checkpoint : Statement
  checkpoint s = (
    raise_when (is_boundary host.fault_after (s.boundaries + 1)) apply_failed none,
    record s { boundaries = s.boundaries + 1 },
  )

  abbrev owned_if : Option String → Check
  owned_if none = none
  owned_if (some path) = host.owned path

  abbrev min : ℕ → ℕ → ℕ
  min a b = if ltb b a then b else a

  abbrev pub result_of : ActionStep → Ran → Attempt CommandResult
  result_of step (exited code timed_out) =
      returned (record { argv = step.argv; returncode = code; timed_out = timed_out })
  result_of step not_started = raised os_error
  result_of step stopped = raised interrupt

  -- How the command ends that is started now.
  abbrev pub started : ActionStep → Session → Attempt CommandResult
  started step s = result_of step (host.run s.history step (min step.timeout host.command_timeout))

  abbrev pub with_started : ActionStep → Session → Session
  with_started step s = record s { history = s.history ++ (step ∷ []) }

  -- Starts a command, and goes on with its result.
  unfoldable pub start : ActionStep → (CommandResult → Statement) → Statement
  start step rest s = use_value (started step s) rest (with_started step s)

  -- `_run_step`, and what is done with its result.
  unfoldable pub run_step : ActionStep → (CommandResult → Statement) → Statement
  run_step step rest = require (owned_if step.cwd) ▸ start step rest
