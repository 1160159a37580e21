-- ===== src/Conductor/Hook.antt =====
-- `_persist` of codex-conductor/src/conductor/hooks/pre_tool_use.py: the hook evaluates the policy
-- twice, once for a request and once, inside the store's transaction, for the decision. The texts that
-- `_derived_id` hashes out of an operation are fields of the call.
pub mod Persist
pub mod Budget
mod Tests
use agent_tooling.Prelude.{ℕ, String, Bool, Option, none, some, List, [], ◌∷◌, get_elem?, not}
use agent_tooling.Conductor.Schemas.{
  ConductorConfig, TierConfig, ReservationSnapshot, Time, TaskEnvelope, tier_index_for_model,
}
use agent_tooling.Conductor.Policy.Outcome.{DecisionSpec, PolicyEvaluation, not_governed}
use agent_tooling.Conductor.Policy.Inputs.{Call}
use agent_tooling.Conductor.Policy.{evaluate_policy}
use agent_tooling.Conductor.Policy.Snapshot.{with_snapshot, empty_snapshot}
use agent_tooling.Conductor.Store.Result.{Result, ok, value_error, ◌>>=◌, ◌>>◌, raise_if, or_raise}
use agent_tooling.Conductor.Store.Tables.{DecisionRow, Tables}
use agent_tooling.Conductor.Store.Reservations.{
  ReservationRequest, FreshIds, is_request, denied, decide_and_reserve,
}

-- What `_persist` reads beside the arguments of the policy.
pub record HookCall : Type 0 where
  pub call : Call
  pub run_id : String
  pub generation : ℕ
  pub ttl_seconds : ℕ
  pub correlation_id : Option String
  pub task_name : String
  pub derived_task : String
  pub derived_request : String

abbrev tier_at : Option ℕ → List TierConfig → Option TierConfig
tier_at none tiers = none
tier_at (some i) tiers = get_elem? tiers i

-- `ConductorConfig.tier_for_model`
unfoldable pub tier_for_model : ConductorConfig → String → Option TierConfig
tier_for_model c m = tier_at (tier_index_for_model c m) c.tiers

-- `a or b`
abbrev pub or_else {ℓ} : {A : Type ℓ} → Option A → Option A → Option A
or_else none b = b
or_else (some a) b = some a

-- `preview.tier or caller_tier or config.tiers[0]`
abbrev pub request_tier : Call → PolicyEvaluation → Option TierConfig
request_tier c preview =
    or_else preview.tier
      (or_else (tier_for_model c.config c.caller_model) (get_elem? c.config.tiers 0))

abbrev or_text : Option String → String → String
or_text none b = b
or_text (some a) b = a

abbrev task_id : Option TaskEnvelope → HookCall → String
task_id none h = h.derived_task
task_id (some envelope) h = h.task_name

abbrev pub request_of : HookCall → PolicyEvaluation → TierConfig → ReservationRequest
request_of h preview tier = record {
  run_id = h.run_id;
  task_id = task_id h.call.operation.envelope h;
  correlation_id = h.correlation_id;
  idempotency_key = or_text h.correlation_id h.derived_request;
  operation = h.call.operation.operation;
  tier = tier.name;
  model = tier.model;
  estimated_usd = preview.estimate_usd;
  ttl_seconds = h.ttl_seconds;
  generation = h.generation;
  mode = h.call.run.mode;
  reasoning_effort = preview.reasoning_effort;
}

-- The policy does not raise here, so that the first clause is never taken.
abbrev spec_of : Option PolicyEvaluation → DecisionSpec
spec_of none = denied not_governed
spec_of (some e) = e.spec

-- `evaluator`
unfoldable pub evaluator : Call → Option DecisionSpec → ReservationSnapshot → DecisionSpec
evaluator c (some forced) shot = forced
evaluator c none shot = spec_of (evaluate_policy (with_snapshot c shot))

-- `_persist`
unfoldable pub persist :
    Time → FreshIds → HookCall → Option DecisionSpec → Tables → Result (DecisionRow × Tables)
unfolding evaluator
persist now ids h forced s = do
  preview ← or_raise (evaluate_policy (with_snapshot h.call empty_snapshot)) value_error
  tier ← or_raise (request_tier h.call preview) value_error
  raise_if (not (is_request (request_of h preview tier))) value_error
  decide_and_reserve now ids (request_of h preview tier) (evaluator h.call forced) s
