-- ===== src/Toolbelt/Executor/Apply.antt =====
-- `Executor.apply` and `Executor.recover` of toolbelt/src/toolbelt/executor.py, under the lock that
-- makes them the only ones that run.
use Prim.Native.String.{◌++◌ as ◌<>◌}
use agent_tooling.Prelude.{
  ℕ, ◌+◌, String, Bool, true, false, not, Option, none, some, List, [], ◌∷◌, ◌++◌, ltb, length,
  codes,
}
use agent_tooling.Toolbelt.Errors.{
  Fault, validation, apply_failed, verification, interrupt, Check, raise_when,
}
use agent_tooling.Toolbelt.Schemas.{
  TransactionState, preflight, applying, verifying, succeeded, interrupted, ActionStep, Action,
  Plan, CapabilitySnapshot, CommandResult, Declaration,
}
use agent_tooling.Toolbelt.Planner.{Catalog}
use agent_tooling.Toolbelt.Planner.Plans.{validate_plan_binding}
use agent_tooling.Toolbelt.State.{
  started, mutated, verified, Phase, in_apply, in_verify, begin_transaction, set_transaction_state,
  record_action, record_backup,
}
use agent_tooling.Toolbelt.Declaration.{one_mib, render_declaration, updated_declaration}
use agent_tooling.Toolbelt.Executor.{
  Host, Session, Statement, ◌▸◌, nothing, assign, require, use_value, on_store, checkpoint,
  run_step,
}
use agent_tooling.Toolbelt.Executor.Preflight.{Approvals, preflight as check_plan}
use agent_tooling.Toolbelt.Executor.Rollback.{
  lock_file, is_success, record_result, end_state, rollback,
}

pub record ExecutionResult : Type 0 where
  pub transaction_id : String
  pub state : TransactionState
  pub commands : List CommandResult
  pub error : Option Fault
  pub dry_run : Bool

-- What a call comes to.
pub data Ending : Type 0 where
  concluded : ExecutionResult → Ending
  escaped : Fault → Ending

-- The arguments of `apply`, and the id that `begin_transaction` makes.
pub record Order : Type 0 where
  pub plan : Plan
  pub catalog : Catalog
  pub capabilities : CapabilitySnapshot
  pub approved : Approvals
  pub now : ℕ
  pub fresh_id : String

abbrev pub unless : Bool → Statement → Statement
unless true f = nothing
unless false f = f

abbrev pub no_digest : String
no_digest = "0000000000000000000000000000000000000000000000000000000000000000"

module _ (host : Host) (id : String) where
  -- Runs a step, records its result, and raises if it failed.
  unfoldable pub run_recorded : Action → Phase → Fault → ActionStep → Statement
  run_recorded a phase fault step =
      run_step host step
        λ r. record_result id a phase r ▸ require (raise_when (not (is_success r)) fault none)

  unfoldable pub run_all : Action → Phase → Fault → List ActionStep → Statement
  run_all a phase fault [] = nothing
  run_all a phase fault (step ∷ steps) =
      run_recorded a phase fault step ▸ run_all a phase fault steps

  -- `if mutated: completed.append(action)`
  abbrev pub complete : Action → List ActionStep → Statement
  complete a [] = nothing
  complete a (step ∷ steps) = assign (λ s. record s { completed = s.completed ++ (a ∷ []) })

  -- The loop that applies the actions, with the sequence of the next one.
  unfoldable pub apply_actions : ℕ → List Action → Statement
  apply_actions sequence [] = nothing
  apply_actions sequence (a ∷ actions) =
      on_store (record_action id a sequence started)
      ▸ run_all a in_apply apply_failed a.steps
      ▸ complete a a.steps
      ▸ on_store (record_action id a sequence mutated)
      ▸ checkpoint host
      ▸ apply_actions (sequence + 1) actions

  -- The loop that verifies them.
  unfoldable pub verify_actions : ℕ → List Action → Statement
  verify_actions sequence [] = nothing
  verify_actions sequence (a ∷ actions) =
      run_all a in_verify verification a.verify_steps
      ▸ on_store (record_action id a sequence verified)
      ▸ verify_actions (sequence + 1) actions

  abbrev backup_path : String
  backup_path = ".toolbelt/backups/" <> (id <> "/lock.toml")

  -- `_record_declaration_backup`
  unfoldable pub record_declaration_backup : Option String → Statement
  record_declaration_backup none = on_store (record_backup id lock_file "" no_digest)
  record_declaration_backup (some content) =
      require (host.owned backup_path)
      ▸ assign (λ s. record s { backup_files = (backup_path, content) ∷ s.backup_files })
      ▸ on_store (record_backup id lock_file backup_path (host.planning.sha256 content))

  -- `write_declaration`, and `declaration_written = True`.
  unfoldable pub write_declaration : Declaration → Statement
  write_declaration d =
      require (host.owned lock_file)
      ▸ assign λ s. record s {
        declaration = some (render_declaration host.quote d);
        declaration_written = true;
      }

  module _ (o : Order) where
    -- The statements that a dry run leaves out.
    unfoldable pub install_tools : Statement
    install_tools = unless o.approved.dry_run (apply_actions 1 o.plan.actions)

    unfoldable pub verify_tools : Option String → Option Declaration → Statement
    verify_tools before existing = unless o.approved.dry_run (
        verify_actions 1 o.plan.actions
        ▸ checkpoint host
        ▸ checkpoint host
        ▸ record_declaration_backup before
        ▸ use_value (updated_declaration o.plan o.catalog.tools existing) write_declaration
        ▸ checkpoint host)

    -- The body of the `try`, after the declaration was read.
    unfoldable pub carry_out : Option String → Option Declaration → Statement
    carry_out before existing =
        checkpoint host
        ▸ on_store (set_transaction_state id applying none)
        ▸ checkpoint host
        ▸ install_tools
        ▸ on_store (set_transaction_state id verifying none)
        ▸ checkpoint host
        ▸ verify_tools before existing
        ▸ on_store (set_transaction_state id succeeded none)

    unfoldable pub check_and_carry_out : Option String → Statement
    check_and_carry_out before s =
        use_value (check_plan host o.approved o.plan o.catalog s.declaration) (carry_out before) s

    -- The body of the `try`.
    unfoldable pub attempt : Option String → Statement
    attempt before =
        on_store (set_transaction_state id preflight none)
        ▸ require (validate_plan_binding host.planning o.plan o.catalog o.capabilities o.now)
        ▸ check_and_carry_out before

    abbrev result : TransactionState → Option Fault → Session → ExecutionResult
    result state error s = record {
      transaction_id = id;
      state = state;
      commands = s.commands;
      error = error;
      dry_run = o.approved.dry_run;
    }

    -- What `apply` returns when its `except Exception` has rolled back.
    abbrev pub after_rollback : Fault → Check × Session → Ending × Session
    after_rollback error (none, s) = (concluded (result (end_state host id s) (some error) s), s)
    after_rollback error (some fault, s) = (escaped fault, s)

    abbrev escape : Fault → Check × Session → Ending × Session
    escape fault (check, s) = (escaped fault, s)

    -- The end of `apply`: the `return` of the `try`, and its two `except` clauses.
    abbrev pub conclude : Option String → Check × Session → Ending × Session
    conclude before (none, s) = (concluded (result succeeded none s), s)
    conclude before (some interrupt, s) =
        escape interrupt (on_store (set_transaction_state id interrupted (some interrupt)) s)
    conclude before (some fault, s) =
        after_rollback fault (rollback host id s.completed before s.declaration_written s)

module _ (host : Host) where
  -- A session at the start of a call.
  abbrev pub opened : Session → Session
  opened s = record s {
    commands = [];
    completed = [];
    declaration_written = false;
    boundaries = 0;
    failed = false;
    action_failed = false;
  }

  abbrev is_too_large : Option String → Bool
  is_too_large none = false
  is_too_large (some content) = ltb one_mib (length (codes content))

  abbrev pub run_transaction : Order → Check × Session → Ending × Session
  run_transaction o (some fault, s) = (escaped fault, s)
  run_transaction o (none, s) =
      conclude host o.fresh_id o s.declaration (attempt host o.fresh_id o s.declaration s)

  -- `apply`
  unfoldable pub apply : Order → Session → Ending × Session
  apply o s = run_transaction o (
      (require (raise_when (is_too_large s.declaration) validation none)
          ▸ on_store (begin_transaction o.plan.plan_id o.plan.repository.identity o.fresh_id))
        (opened s))
