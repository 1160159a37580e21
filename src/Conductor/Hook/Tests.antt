-- ===== src/Conductor/Hook/Tests.antt =====
-- The hook on one spawn of the ladder of two tiers.
use agent_tooling.Prelude.{
  ◌+◌, ℕ, ◌≡◌, refl, ◌≤◌, String, none, some, if◌then◌else◌, ◌==◌, arith, [], ◌∷◌,
}
use agent_tooling.Conductor.Policy.Outcome.{result, deny_if, or_deny, or_raise}
use agent_tooling.Conductor.Policy.Inputs.{
  requested_text, requested_model, requested_effort, forks_all, forced_frontier,
}
use agent_tooling.Conductor.Policy.Routing.{
  routed, requested_worker, route_target, default_effort, lower_effort, model_ceilings,
  effort_ceilings, compare_efforts, cheaper,
}
use agent_tooling.Conductor.Policy.{
  tolerance, evaluate_policy, evaluate, screen, mode_gate, check_depth, admit_caller, reserve_for,
  within_budget, savings_eligible,
}
use agent_tooling.Conductor.Schemas.{
  effort_index, supports_effort, effective_capability_rank, tier_index_for_model, index_from,
}
use agent_tooling.Conductor.Policy.Tests.{
  two_tiers, two_tiers-IsLadder, routed_call, routed_evaluation,
}
use agent_tooling.Conductor.Store.Tests.{one_run, three_ids, small_request}
use agent_tooling.Conductor.Store.Reservations.Caps.{active, committed}
use agent_tooling.Conductor.Store.Result.{ok}
use agent_tooling.Conductor.Store.Tables.{DecisionRow, Tables, is_identifier}
use agent_tooling.Conductor.Store.Reservations.{
  approved_row, operation_row, decision_row, decide_and_reserve, decision_for, decide_new,
  decide_in_run, insert_operation, record_decision, specify, insert_reservation, insert_decision,
  is_request,
}
use agent_tooling.Conductor.Store.Snapshots.{
  expire_reservations, expire_rows, snapshot, active_by_tier,
}
use agent_tooling.Conductor.Hook.{HookCall, evaluator, persist}
use agent_tooling.Conductor.Hook.Budget.{persist_within_budget}
use agent_tooling.Conductor.Hook.Persist.{AreCaps, persist_within_caps}

abbrev spawn_hook : HookCall
spawn_hook = record {
  call = routed_call;
  run_id = "run-1";
  generation = 1;
  ttl_seconds = 60;
  correlation_id = some "call-1";
  task_name = "task-1";
  derived_task = "task-0";
  derived_request = "request-0";
}

abbrev tier_caps : String → ℕ
tier_caps tier = if tier == "small" then 3 else 2

tier_caps-AreCaps : AreCaps tier_caps two_tiers
tier_caps-AreCaps = record { at_tier = refl }

abbrev hook_decision : DecisionRow
hook_decision = decision_row 5 small_request three_ids routed_evaluation.spec

abbrev hooked_tables : Tables
hooked_tables = record one_run {
  operations = operation_row 5 small_request three_ids ∷ [];
  reservations = approved_row 5 small_request three_ids ∷ [];
  decisions = hook_decision ∷ [];
}

spawn_hook_runs : persist 5 three_ids spawn_hook none one_run ≡ ok (hook_decision, hooked_tables)
unfolding persist evaluator evaluate_policy evaluate screen mode_gate check_depth admit_caller
    reserve_for within_budget result deny_if or_deny or_raise routed requested_worker route_target
    default_effort lower_effort model_ceilings effort_ceilings compare_efforts cheaper
    requested_text requested_model requested_effort forks_all effort_index supports_effort
    effective_capability_rank tier_index_for_model index_from forced_frontier savings_eligible
    decide_and_reserve expire_reservations expire_rows decision_for decide_new decide_in_run
    insert_operation record_decision specify snapshot active_by_tier insert_reservation
    insert_decision is_request is_identifier
spawn_hook_runs = refl

persist_within_caps_example : active "run-1" "small" hooked_tables ≤ 3
persist_within_caps_example =
    persist_within_caps tier_caps spawn_hook 5 three_ids none one_run hook_decision hooked_tables
      "run-1" "small" two_tiers-IsLadder tier_caps-AreCaps refl spawn_hook_runs (omega arith)

persist_within_budget_example : committed "run-1" hooked_tables ≤ 1000 + tolerance
persist_within_budget_example =
    persist_within_budget spawn_hook 5 three_ids none one_run hook_decision hooked_tables "run-1"
      two_tiers-IsLadder refl refl spawn_hook_runs (omega arith)
