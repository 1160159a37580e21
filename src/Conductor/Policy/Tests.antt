-- ===== src/Conductor/Policy/Tests.antt =====
-- A ladder of two tiers, and calls of a frontier model that delegates.
use agent_tooling.Prelude.{
  ℕ, ◌+◌, ◌≡◌, refl, ◌≤◌, ◌<◌, String, true, false, Option, none, some, [], ◌∷◌, contains_ℕ,
  get_elem?, ◌==◌, if◌then◌else◌,
}
use agent_tooling.Conductor.Schemas.{
  codex, OperatingMode, routing, admission, spawn, TierConfig, ConductorConfig, TaskEnvelope, text,
  PayloadValue, ReservationSnapshot, effort_index, supports_effort, effective_capability_rank,
  tier_index_for_model, index_from,
}
use agent_tooling.Conductor.Policy.Outcome.{
  PolicyEvaluation, result, allow, deny_if, or_deny, or_raise,
}
use agent_tooling.Conductor.Policy.Inputs.{
  Call, depth, forced_frontier, requested_text, requested_model, requested_effort, forks_all,
  frontier_from, frontier_index, owner_from, best_enabled, target_tier_index,
}
use agent_tooling.Conductor.Policy.Routing.{
  requested_worker, keep_on_frontier, route_target, lower_effort, default_effort, model_ceilings,
  compare_efforts, effort_ceilings, cheaper, routed,
}
use agent_tooling.Conductor.Policy.Authority.{IsLadder, IsWithinModel}
use agent_tooling.Conductor.Policy.{
  tolerance, mode_gate, screen, check_depth, admit_caller, owning_index, placed, savings_eligible,
  within_budget, reserve_for, evaluate, evaluate_policy,
}
use agent_tooling.Conductor.Policy.Safety.{
  evaluate_policy_total, reserve_within_capacity, reserve_within_budget, routing_authority,
  codex_effort_ceiling, high_risk_on_frontier, admission_claims_nothing,
}
use agent_tooling.Conductor.Policy.Snapshot.{empty_snapshot, with_snapshot, IsSame, preview_agrees}

abbrev small_tier : TierConfig
small_tier = record {
  name = "small";
  model = "gpt-small";
  generation_rank = some 5;
  capability_rank = some 1;
  reasoning_effort = "medium";
  pricing = record { input_rate = 1; cache_read_rate = 1; cache_write_rate = 1; output_rate = 4 };
  relative_cost_weight = 1;
  est_task_usd = 10;
  max_concurrent = 3;
  may_spawn = false;
  task_classes = "mechanical" ∷ [];
}

abbrev frontier_tier : TierConfig
frontier_tier = record {
  name = "frontier";
  model = "gpt-frontier";
  generation_rank = some 5;
  capability_rank = some 3;
  reasoning_effort = "high";
  pricing = record { input_rate = 3; cache_read_rate = 1; cache_write_rate = 4; output_rate = 15 };
  relative_cost_weight = 8;
  est_task_usd = 80;
  max_concurrent = 2;
  may_spawn = true;
  task_classes = "design" ∷ [];
}

abbrev pub two_tiers : ConductorConfig
two_tiers = record {
  budget = record { run_usd_cap = 1000; warn_at_fraction = 800000000000; enforce = true };
  policy = record { max_depth = 2; require_strictly_cheaper = false };
  tiers = frontier_tier ∷ small_tier ∷ [];
}

pub two_tiers-IsLadder : IsLadder two_tiers
unfolding effort_index
two_tiers-IsLadder = record { efforts = refl }

abbrev asking_for : String → String → Option PayloadValue
asking_for model key = if key == "model" then some (text model) else none

abbrev envelope_of : String → TaskEnvelope
envelope_of task_class = record { task_class = task_class; risk_triggers = []; new_task = true }

abbrev busy : ReservationSnapshot
busy = record { active_by_tier = λ _. 1; reserved_usd = 100; spent_usd = 200 }

-- The frontier model spawns a worker.
abbrev pub spawning : String → String → OperatingMode → Call
spawning model task_class mode = record {
  operation = record {
    provider = codex;
    operation = spawn;
    payload = asking_for model;
    envelope = some (envelope_of task_class);
    is_new_work = true;
  };
  run = record { provider = codex; mode = mode };
  config = two_tiers;
  enabled_tiers = 0 ∷ 1 ∷ [];
  snapshot = busy;
  caller_model = "gpt-frontier";
  caller_depth = depth 0;
  caller_effort = "high";
}

abbrev pub routed_call : Call
routed_call = spawning "gpt-small" "mechanical" routing

abbrev pub routed_evaluation : PolicyEvaluation
routed_evaluation = record {
  spec = record {
    allowed = true;
    rule = allow;
    selected_model = some "gpt-small";
    savings_eligible = true;
    reserve = true;
  };
  tier = some small_tier;
  selected_model = some "gpt-small";
  reasoning_effort = some "medium";
  estimate_usd = 10;
  reserve = true;
}

-- The whole policy on one call: the worker gets the lower effort of its tier.
routed_call_runs : evaluate_policy routed_call ≡ some routed_evaluation
unfolding evaluate_policy evaluate screen mode_gate check_depth admit_caller reserve_for
    within_budget result deny_if or_deny or_raise routed requested_worker route_target
    default_effort lower_effort model_ceilings effort_ceilings compare_efforts cheaper
    requested_text requested_model requested_effort forks_all effort_index supports_effort
    effective_capability_rank tier_index_for_model index_from forced_frontier savings_eligible
routed_call_runs = refl

abbrev risky_call : Call
risky_call = spawning "gpt-frontier" "high_risk" routing

abbrev risky_evaluation : PolicyEvaluation
risky_evaluation = record {
  spec = record {
    allowed = true;
    rule = allow;
    selected_model = some "gpt-frontier";
    savings_eligible = false;
    reserve = true;
  };
  tier = some frontier_tier;
  selected_model = some "gpt-frontier";
  reasoning_effort = some "high";
  estimate_usd = 80;
  reserve = true;
}

risky_call_runs : evaluate_policy risky_call ≡ some risky_evaluation
unfolding evaluate_policy evaluate screen mode_gate check_depth admit_caller reserve_for
    within_budget result deny_if or_deny or_raise routed requested_worker route_target
    default_effort lower_effort model_ceilings effort_ceilings compare_efforts cheaper
    requested_text requested_model requested_effort forks_all effort_index supports_effort
    effective_capability_rank tier_index_for_model index_from forced_frontier frontier_index
    frontier_from keep_on_frontier savings_eligible
risky_call_runs = refl

abbrev admitted_call : Call
admitted_call = spawning "gpt-small" "design" admission

abbrev admitted_evaluation : PolicyEvaluation
admitted_evaluation = record {
  spec = record {
    allowed = true;
    rule = allow;
    selected_model = none;
    savings_eligible = false;
    reserve = true;
  };
  tier = some frontier_tier;
  selected_model = none;
  reasoning_effort = none;
  estimate_usd = 80;
  reserve = true;
}

admitted_call_runs : evaluate_policy admitted_call ≡ some admitted_evaluation
unfolding evaluate_policy evaluate screen mode_gate check_depth admit_caller reserve_for
    within_budget result deny_if or_deny or_raise placed owning_index tier_index_for_model
    index_from forced_frontier target_tier_index owner_from best_enabled requested_model
    savings_eligible effective_capability_rank
admitted_call_runs = refl

evaluate_policy_total_example : (e : PolicyEvaluation) × (evaluate_policy routed_call ≡ some e)
evaluate_policy_total_example = evaluate_policy_total routed_call two_tiers-IsLadder

reserve_within_capacity_example :
    (target : TierConfig) × (routed_evaluation.tier ≡ some target)
    × (routed_call.snapshot.active_by_tier target.name < target.max_concurrent)
    × (routed_evaluation.estimate_usd ≡ target.est_task_usd)
    × (routed_evaluation.spec.allowed ≡ true)
    × ((d : ℕ) × (routed_call.caller_depth ≡ depth d) × (d + 1 ≤ 2))
reserve_within_capacity_example =
    reserve_within_capacity routed_call routed_evaluation two_tiers-IsLadder routed_call_runs refl

reserve_within_budget_example : 200 + 100 + 10 ≤ 1000 + tolerance
reserve_within_budget_example =
    reserve_within_budget routed_call routed_evaluation two_tiers-IsLadder routed_call_runs refl
      refl

routing_authority_example :
    (target : TierConfig) × (caller : TierConfig) × (i : ℕ) × (k : ℕ) × (routed_evaluation.tier
      ≡ some target)
    × (routed_evaluation.selected_model ≡ some target.model)
    × (get_elem? two_tiers.tiers i ≡ some target)
    × (contains_ℕ i routed_call.enabled_tiers ≡ true)
    × (tier_index_for_model two_tiers "gpt-frontier" ≡ some k)
    × (get_elem? two_tiers.tiers k ≡ some caller)
    × IsWithinModel target caller
routing_authority_example =
    routing_authority routed_call routed_evaluation two_tiers-IsLadder routed_call_runs refl refl

codex_effort_ceiling_example :
    (effort : String) × (i : ℕ) × (k : ℕ) × (target : TierConfig)
    × (routed_evaluation.reasoning_effort ≡ some effort)
    × (effort_index effort ≡ some i)
    × (effort_index "high" ≡ some k)
    × (i ≤ k)
    × (routed_evaluation.tier ≡ some target)
    × (supports_effort target effort ≡ true)
codex_effort_ceiling_example =
    codex_effort_ceiling routed_call routed_evaluation two_tiers-IsLadder routed_call_runs refl refl
      refl

high_risk_on_frontier_example :
    (target : TierConfig) × (risky_evaluation.tier ≡ some target) × (target.name ≡ "frontier")
unfolding forced_frontier
high_risk_on_frontier_example =
    high_risk_on_frontier risky_call risky_evaluation (envelope_of "high_risk") two_tiers-IsLadder
      risky_call_runs refl refl refl

admission_claims_nothing_example :
    (caller : TierConfig) × (caller.model ≡ "gpt-frontier")
    × (admitted_evaluation.tier ≡ some caller)
    × (admitted_evaluation.selected_model ≡ none)
    × (admitted_evaluation.reasoning_effort ≡ none)
admission_claims_nothing_example =
    admission_claims_nothing admitted_call admitted_evaluation two_tiers-IsLadder admitted_call_runs
      refl refl

preview_agrees_example :
    (f : PolicyEvaluation) × (evaluate_policy (with_snapshot routed_call empty_snapshot) ≡ some f)
    × IsSame routed_evaluation f
preview_agrees_example = preview_agrees routed_call busy routed_evaluation routed_call_runs refl
