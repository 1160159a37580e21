-- ===== src/Conductor/Policy/Outcome.antt =====
-- The result of the policy, `_result` of codex-conductor/src/conductor/policy.py, and the control
-- flow of a function with early returns and exceptions.
use agent_tooling.Prelude.{String, Bool, true, false, ◌&&◌, Option, none, some}
use agent_tooling.Conductor.Schemas.{TierConfig, Usd}

-- The rules that the policy and the store write into a decision.
pub data Rule : Type 0 where
  not_governed unsupported_capability observe_only missing_envelope invalid_new_work : Rule
  provider_mismatch invalid_depth depth_limit unknown_caller_model caller_may_not_spawn : Rule
  missing_model_selection unknown_target_model target_model_disabled frontier_unavailable : Rule
  high_risk_caller_not_frontier high_risk_requires_frontier unknown_caller_effort : Rule
  unknown_model_authority model_generation_ceiling model_capability_ceiling : Rule
  unknown_target_effort effort_ceiling unsupported_model_effort strictly_cheaper_required : Rule
  no_enabled_tier stronger_child_forbidden routing_required model_mismatch : Rule
  concurrency_cap budget_cap budget_cap_warning budget_warning allow : Rule
  stale_generation run_lease_expired duplicate_correlation duplicate_reservation : Rule

-- `DecisionSpec` of store.py, less its message.
pub record DecisionSpec : Type 0 where
  pub allowed : Bool
  pub rule : Rule
  pub selected_model : Option String
  pub savings_eligible : Bool
  pub reserve : Bool

pub record PolicyEvaluation : Type 0 where
  pub spec : DecisionSpec
  pub tier : Option TierConfig
  pub selected_model : Option String
  pub reasoning_effort : Option String
  pub estimate_usd : Usd
  pub reserve : Bool

-- The keyword arguments of `_result`.
pub record Extras : Type 0 where
  pub tier : Option TierConfig
  pub selected_model : Option String
  pub effort : Option String
  pub estimate : Usd
  pub reserve : Bool
  pub savings : Bool

abbrev pub defaults : Extras
defaults = record {
  tier = none;
  selected_model = none;
  effort = none;
  estimate = 0;
  reserve = false;
  savings = false;
}

-- `_result`
unfoldable pub result : Bool → Rule → Extras → PolicyEvaluation
result allowed rule x = record {
  spec = record {
    allowed = allowed;
    rule = rule;
    selected_model = x.selected_model;
    savings_eligible = x.savings;
    reserve = x.reserve && allowed;
  };
  tier = x.tier;
  selected_model = x.selected_model;
  reasoning_effort = x.effort;
  estimate_usd = x.estimate;
  reserve = x.reserve && allowed;
}

-- A part of the function: it returned, it raised, or it goes on with a value.
pub data Verdict {ℓ} (A : Type ℓ) : Type ℓ where
  proceed : A → Verdict A
  decided : PolicyEvaluation → Verdict A
  raised : Verdict A

infixl 5 ◌>>=◌ ◌>>◌
abbrev pub ◌>>=◌ {ℓ κ} : {A : Type ℓ} {B : Type κ} → Verdict A → (A → Verdict B) → Verdict B
proceed a >>= f = f a
decided e >>= f = decided e
raised >>= f = raised

abbrev pub ◌>>◌ {ℓ} : {B : Type ℓ} → Verdict (Unit {0}) → Verdict B → Verdict B
m >> k = m >>= λ _. k

-- `return _result(False, rule, ...)`
abbrev pub deny_with {ℓ} : {A : Type ℓ} → Rule → Extras → Verdict A
deny_with rule x = decided (result false rule x)

abbrev pub deny {ℓ} : {A : Type ℓ} → Rule → Verdict A
deny rule = deny_with rule defaults

-- `if test: return _result(False, rule, ...)`
unfoldable pub deny_if : Bool → Rule → Extras → Verdict (Unit {0})
deny_if true rule x = deny_with rule x
deny_if false rule x = proceed tt

-- `x = f(); if x is None: return _result(False, rule, ...)`
unfoldable pub or_deny {ℓ} : {A : Type ℓ} → Option A → Rule → Verdict A
or_deny none rule = deny rule
or_deny (some a) rule = proceed a

-- A subscript or an `index` that raises where there is no such element.
unfoldable pub or_raise {ℓ} : {A : Type ℓ} → Option A → Verdict A
or_raise none = raised
or_raise (some a) = proceed a

-- What the caller of the function gets: an evaluation, or an exception.
abbrev pub returned : Verdict PolicyEvaluation → Option PolicyEvaluation
returned (proceed e) = some e
returned (decided e) = some e
returned raised = none
