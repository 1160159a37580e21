-- ===== src/Toolbelt/Tests/Runs.antt =====
-- Whole transactions of the executor: one that succeeds, one that is rolled back, and a recovery.
use agent_tooling.Toolbelt.Planner.{
  versions, put_item, validate_action_contracts, check_contract, tool_at,
}
use agent_tooling.Toolbelt.Planner.Plans.{validate_plan_binding, calculate_plan_id, catalog_digest}
use agent_tooling.Toolbelt.Declaration.{
  all_lines, declare_actions, in_id_order, load_declaration, put_tool, render_declaration,
  updated_declaration,
}
use agent_tooling.Toolbelt.State.{
  begin_transaction, is_malformed, set_transaction_state, by_sequence, insert_row,
  mark_backup_restored, record_action, record_backup, record_command,
}
use agent_tooling.Toolbelt.Executor.{
  ◌▸◌, require, on_store, assign, checkpoint, nothing, run_step, start, use_value, Host, Session,
  Ran, exited,
}
use agent_tooling.Toolbelt.Executor.Rollback.{
  catching, note_undone, rollback, set_end_state, transition_to_rollback, undo_action, undo_actions,
  undo_step, undo_steps,
}
use agent_tooling.Toolbelt.Executor.Apply.{
  Order, Ending, apply, concluded, escaped, attempt, check_and_carry_out, apply_actions, carry_out,
  install_tools, record_declaration_backup, run_all, run_recorded, verify_actions, verify_tools,
  write_declaration,
}
use agent_tooling.Toolbelt.Executor.Settling.{Settled, apply-Settled}
use agent_tooling.Toolbelt.Executor.Completing.{Completed, apply-Completed}
use agent_tooling.Toolbelt.Executor.Recover.{recover}
use agent_tooling.Toolbelt.Executor.Recovering.{Recovered, recover-Recovered}
use agent_tooling.Toolbelt.Tests.{
  planning, the_plan, catalog, nothing_installed, empty_tables, with_transaction,
}
use agent_tooling.Toolbelt.Errors.{raised, apply_failed}
use agent_tooling.Toolbelt.Schemas.{
  TransactionState, succeeded, rolled_back, interrupted, ActionStep,
}
use agent_tooling.Prelude.{
  ℕ, ◌≡◌, refl, true, false, Option, none, some, List, [], length, eqb, if◌then◌else◌, codes_leb,
  insert_by, sort_by,
}
use agent_tooling.Toolbelt.Executor.Preflight.{
  check_action, check_existing, preflight as check_plan,
}

-- The commands end as the last word says.
abbrev host_with : (List ActionStep → ActionStep → ℕ → Ran) → Option ℕ → Host
host_with run fault_after = record {
  planning = planning;
  run = run;
  owned = λ path. none;
  executable = λ word. true;
  has_variable = λ name. true;
  command_timeout = 300000;
  fault_after = fault_after;
  quote = λ text. text;
  parse = λ content. raised apply_failed;
}

abbrev all_succeed : List ActionStep → ActionStep → ℕ → Ran
all_succeed history step timeout = exited (some 0) false

-- The second command, which verifies, fails.
abbrev verification_fails : List ActionStep → ActionStep → ℕ → Ran
verification_fails history step timeout =
    exited (if eqb (length history) 1 then some 1 else some 0) false

abbrev clean : Session
clean = record {
  tables = empty_tables;
  declaration = none;
  backup_files = [];
  history = [];
  commands = [];
  completed = [];
  declaration_written = false;
  boundaries = 0;
  failed = false;
  action_failed = false;
}

abbrev order : Order
order = record {
  plan = the_plan;
  catalog = catalog;
  capabilities = nothing_installed;
  approved = record {
    allow_network = true;
    allow_user_scope = false;
    allow_elevation = false;
    dry_run = false;
  };
  now = 2000;
  fresh_id = "tx-1";
}

apply-Completed_example : Completed order (apply (host_with all_succeed none) order clean)
apply-Completed_example = apply-Completed (host_with all_succeed none) order clean

apply-Settled_example : Settled "tx-1" clean (apply (host_with verification_fails none) order clean)
apply-Settled_example = apply-Settled (host_with verification_fails none) order clean

abbrev half_applied : Session
half_applied = record clean { tables = with_transaction interrupted }

recover-Recovered_example :
    Recovered
      (host_with all_succeed none)
      "tx-1"
      half_applied
      (recover (host_with all_succeed none) "tx-1" half_applied)
recover-Recovered_example = recover-Recovered (host_with all_succeed none) "tx-1" half_applied

abbrev end_of : Ending × Session → Option TransactionState × ℕ
end_of (concluded r, s) = (some r.state, length r.commands)
end_of (escaped fault, s) = (none, 0)

-- The commands succeed: two of them run.
installs : end_of (apply (host_with all_succeed none) order clean) ≡ (some succeeded, 2)
unfolding apply ◌▸◌ require on_store begin_transaction is_malformed attempt set_transaction_state
    validate_plan_binding calculate_plan_id catalog_digest versions put_item
    validate_action_contracts check_contract tool_at check_and_carry_out codes_leb insert_by sort_by
    all_lines declare_actions in_id_order load_declaration put_tool render_declaration
    updated_declaration apply_actions carry_out install_tools record_declaration_backup run_all
    run_recorded verify_actions verify_tools write_declaration check_action check_existing
    check_plan catching note_undone rollback set_end_state transition_to_rollback undo_action
    undo_actions undo_step undo_steps assign checkpoint nothing run_step start use_value by_sequence
    insert_row mark_backup_restored record_action record_backup record_command
installs = refl

-- The verification fails: the rollback is the third command.
rolls_back : end_of (apply (host_with verification_fails none) order clean) ≡ (some rolled_back, 3)
unfolding apply ◌▸◌ require on_store begin_transaction is_malformed attempt set_transaction_state
    validate_plan_binding calculate_plan_id catalog_digest versions put_item
    validate_action_contracts check_contract tool_at check_and_carry_out codes_leb insert_by sort_by
    all_lines declare_actions in_id_order load_declaration put_tool render_declaration
    updated_declaration apply_actions carry_out install_tools record_declaration_backup run_all
    run_recorded verify_actions verify_tools write_declaration check_action check_existing
    check_plan catching note_undone rollback set_end_state transition_to_rollback undo_action
    undo_actions undo_step undo_steps assign checkpoint nothing run_step start use_value by_sequence
    insert_row mark_backup_restored record_action record_backup record_command
rolls_back = refl
