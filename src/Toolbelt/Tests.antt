-- ===== src/Toolbelt/Tests.antt =====
-- One tool with strong evidence: its recommendation, its plan, and the transactions that install it.
mod Runs
use agent_tooling.Prelude.{
  ℕ, ◌+◌, ◌≡◌, refl, ◌<◌, ◌↔◌, String, Bool, true, false, Option, none, some, List, [], ◌∷◌, every,
  arith, in_order, sort_by, insert_by, codes_leb, decimal, if◌then◌else◌, eqb, length,
}
use agent_tooling.Toolbelt.Errors.{Attempt, returned, raised, apply_failed, interrupt}
use agent_tooling.Toolbelt.Schemas.{
  TransactionState, network, install, project, planned, preflight, succeeded, rolling_back,
  rolled_back, rollback_failed, interrupted, strong, known, Evidence, CapabilitySnapshot,
  ActionStep, CatalogTool, Action, RepositoryBinding, Plan,
}
use agent_tooling.Toolbelt.Policy.{
  Recommendation, Request, recommend, recommend_each, recommend_tool, missing_capabilities,
}
use agent_tooling.Toolbelt.Policy.Matching.{matched, evidence_at, assign, in_key_order}
use agent_tooling.Toolbelt.Policy.Safety.{is_backed, is_offered, recommend_authorized}
use agent_tooling.Toolbelt.Planner.{
  Catalog, Host, tool_at, check_contract, put_item, versions, validate_action_contracts,
}
use agent_tooling.Toolbelt.Planner.Plans.{
  build_explicit_plan, catalog_digest, actions_from, sort_evidence, insert_evidence, is_plan,
  action_id, calculate_plan_id, make_action, install_action, build_plan, validate_plan_binding,
  finish, draft,
}
use agent_tooling.Toolbelt.Planner.Contracts.{AllContracts, validate_exact}
use agent_tooling.Toolbelt.Planner.Binding.{IsSameCheckout}
use agent_tooling.Toolbelt.Planner.Unchanged.{accepted_plan_unchanged}
use agent_tooling.Toolbelt.Planner.Building.{
  recommended, validate-build_plan, build_plan_reaches_model,
}
use agent_tooling.Toolbelt.State.{Tables, begun}
use agent_tooling.Toolbelt.State.Lifecycle.{Reach, reaches_terminal}
use agent_tooling.Toolbelt.State.History.{
  Call, begin, set_state, perform_all, state_of, perform_all-Moves, perform_all-terminal,
}
use agent_tooling.Toolbelt.Executor.{Session, Ran, exited, stopped}
use agent_tooling.Toolbelt.Executor as executor
use agent_tooling.Toolbelt.Executor.Preflight.{Approvals}
use agent_tooling.Toolbelt.Executor.Apply.{Order, Ending, apply, concluded, escaped}
use agent_tooling.Toolbelt.Executor.Settling.{Settled, apply-Settled}
use agent_tooling.Toolbelt.Executor.Completing.{Completed, apply-Completed}
use agent_tooling.Toolbelt.Executor.Recover.{recover}
use agent_tooling.Toolbelt.Executor.Recovering.{Recovered, recover-Recovered}

abbrev step : String → ActionStep
step word = record {
  argv = "npm" ∷ word ∷ [];
  cwd = none;
  timeout = 180000;
  requires_network = true;
  requires_elevation = false;
}

abbrev linter : CatalogTool
linter = record {
  id = "linter";
  name = "Linter";
  provenance = "npm";
  version = "1.0";
  permissions = network ∷ [];
  install_scope = project;
  artifacts = ".linter" ∷ [];
  required_env = [];
  strong_evidence = "file:package" ∷ [];
  weak_evidence = [];
  required_capabilities = [];
  suppressed_by_capabilities = "native-lint" ∷ [];
  live_name = none;
  installing = step "install";
  verifying_step = step "test";
  rollback_step = step "uninstall";
  enabled = true;
}

abbrev package_json : Evidence
package_json = record {
  kind = "file";
  key = "package";
  detail = "";
  source = "package.json";
  strength = strong;
}

abbrev pub nothing_installed : CapabilitySnapshot
nothing_installed = record { status = known; native = []; installed = []; managed = [] }

abbrev request : Request
request = record {
  evidence = package_json ∷ [];
  capabilities = nothing_installed;
  allow_user_scope = false;
  allow_network = true;
}

recommend_authorized_example :
    (every (is_backed request (linter ∷ [])) (recommend request (linter ∷ [])) ≡ true)
    × (every (is_offered request (recommend request (linter ∷ []))) (linter ∷ []) ≡ true)
    × (in_order Recommendation.tool_id (recommend request (linter ∷ [])) ≡ true)
recommend_authorized_example = recommend_authorized request (linter ∷ [])

abbrev zeros : String
zeros = "0000000000000000000000000000000000000000000000000000000000000000"

abbrev pub catalog : Catalog
catalog = record { tools = linter ∷ []; digest = zeros; raw_bytes = "catalog" }

abbrev checkout : RepositoryBinding
checkout = record {
  root = ".";
  identity = zeros;
  content_digest = zeros;
  git_head = some "main";
  dirty_digest = none;
}

abbrev pub planning : Host
planning = record {
  sha256 = λ content. zeros;
  plan_json = λ p. "plan";
  capability_json = λ c. "capabilities";
  binding = returned checkout;
}

abbrev the_action : Action
the_action = record {
  id = "a0001";
  operation = install;
  tool_id = "linter";
  tool_version = "1.0";
  install_scope = project;
  permissions = network ∷ [];
  evidence = package_json ∷ [];
  confidence = 90;
  why = "Matched strong evidence: file:package";
  steps = step "install" ∷ [];
  verify_steps = step "test" ∷ [];
  rollback_steps = step "uninstall" ∷ [];
  required_env = [];
}

abbrev pub the_plan : Plan
the_plan = record {
  plan_id = zeros;
  repository = checkout;
  catalog_digest = zeros;
  capability_digest = zeros;
  catalog_tools = ("linter", "1.0") ∷ [];
  actions = the_action ∷ [];
  created_at = 100;
  expires_at = 3600;
}

validate_exact_example :
    (validate_action_contracts (the_action ∷ []) (linter ∷ []) ≡ none)
    ↔ AllContracts (linter ∷ []) (the_action ∷ [])
validate_exact_example = validate_exact (linter ∷ []) (the_action ∷ [])

plan_is_built : build_plan planning request catalog 100 3500 ≡ returned the_plan
unfolding build_plan build_explicit_plan catalog_digest validate_action_contracts actions_from
    make_action sort_by recommend_each recommend_tool matched evidence_at sort_evidence
    insert_evidence insert_by missing_capabilities tool_at check_contract is_plan codes_leb decimal
    action_id calculate_plan_id put_item versions assign in_key_order
plan_is_built = refl

validate-build_plan_example :
    validate_plan_binding planning the_plan catalog nothing_installed 2000 ≡ none
validate-build_plan_example =
    validate-build_plan planning request catalog 100 3500 the_plan 2000 plan_is_built (omega arith)

catalog_is_read : catalog_digest planning catalog ≡ returned zeros
unfolding catalog_digest
catalog_is_read = refl

build_plan_reaches_model_example :
    (actions : List Action) × (actions_from (linter ∷ []) 1 (recommended request catalog)
      ≡ returned actions)
    × (build_plan planning request catalog 100 3500
        ≡ finish planning
            (draft planning catalog nothing_installed actions 100 3500 zeros checkout))
unfolding recommend_each recommend_tool matched evidence_at sort_evidence insert_evidence sort_by
    insert_by missing_capabilities assign in_key_order
build_plan_reaches_model_example =
    build_plan_reaches_model planning request catalog 100 3500 checkout refl catalog_is_read refl
      refl

explicit_plan_is_built :
    build_explicit_plan planning catalog nothing_installed (the_action ∷ []) 100 3500
    ≡ returned the_plan
unfolding build_explicit_plan catalog_digest validate_action_contracts tool_at check_contract
    is_plan calculate_plan_id put_item versions
explicit_plan_is_built = refl

accepted_plan_unchanged_example :
    (the_plan ≡ the_plan)
    × (the_plan.actions ≡ the_action ∷ [])
    × (2000 < 100 + 3500)
    × (catalog.raw_bytes ≡ catalog.raw_bytes)
    × (nothing_installed ≡ nothing_installed)
    × ((a : RepositoryBinding) × (b : RepositoryBinding) × (Attempt.returned checkout ≡ returned a)
        × (Attempt.returned checkout ≡ returned b)
        × IsSameCheckout b a)
    × AllContracts (linter ∷ []) (the_action ∷ [])
accepted_plan_unchanged_example =
    accepted_plan_unchanged planning catalog catalog nothing_installed nothing_installed
      (the_action ∷ []) 100 3500 2000 (returned checkout) the_plan the_plan explicit_plan_is_built
      validate-build_plan_example refl (λ _. refl) (λ _. refl) (λ _. refl)

reaches_terminal_example : Reach planned rolled_back × Reach planned rollback_failed
reaches_terminal_example = reaches_terminal planned refl

abbrev pub empty_tables : Tables
empty_tables = record {
  transactions = [];
  actions = [];
  command_results = [];
  backups = [];
  recovery_records = [];
}

abbrev pub with_transaction : TransactionState → Tables
with_transaction state = record empty_tables {
  transactions = record (begun zeros zeros "tx-1") { state = state } ∷ [];
}

-- A transition that is allowed, one that is not, and another transaction.
abbrev calls : List Call
calls =
    set_state "tx-1" preflight none
    ∷ set_state "tx-1" succeeded none
    ∷ begin zeros zeros "tx-2"
    ∷ []

perform_all-Moves_example :
    (u : TransactionState) × (state_of "tx-1" (perform_all calls (with_transaction planned))
      ≡ some u)
    × Reach planned u
perform_all-Moves_example = perform_all-Moves "tx-1" calls (with_transaction planned) planned refl

perform_all-terminal_example :
    state_of "tx-1" (perform_all calls (with_transaction rolled_back)) ≡ some rolled_back
perform_all-terminal_example =
    perform_all-terminal "tx-1" calls (with_transaction rolled_back) rolled_back refl refl
