-- ===== src/Conductor/Policy.antt =====
-- `evaluate_policy` of codex-conductor/src/conductor/policy.py. Each of its early returns is
-- `decided`, and an exception is `raised`. The function is cut where its parts end: `screen`,
-- `admit_caller`, `routed` (in the child `Routing`) or `placed`, and `reserve_for`. The message
-- texts are not modelled.
pub mod Outcome
pub mod Inputs
pub mod Routing
mod Ensures
mod Ladder
pub mod Authority
mod Admission
mod Placing
pub mod Approval
pub mod Safety
pub mod Snapshot
pub mod Tests
use agent_tooling.Prelude.{
  ℕ, ◌+◌, ◌*◌, ◌^◌, String, Bool, true, false, not, ◌&&◌, Option, none, some, ltb, leb, eqb,
  if◌then◌else◌, ◌==◌, opt_is, get_elem?,
}
use agent_tooling.Conductor.Schemas.{
  OperatingMode, routing, admission, observe, unsupported, TierConfig, TaskEnvelope, Usd,
  tier_index_for_model,
}
use Outcome.{
  Rule, not_governed, unsupported_capability, observe_only, missing_envelope, invalid_new_work,
  provider_mismatch, invalid_depth, depth_limit, unknown_caller_model, caller_may_not_spawn,
  frontier_unavailable, no_enabled_tier, stronger_child_forbidden, routing_required, model_mismatch,
  concurrency_cap, budget_cap, budget_cap_warning, budget_warning, allow, PolicyEvaluation, result,
  Extras, defaults, Verdict, proceed, decided, raised, ◌>>=◌, ◌>>◌, deny, deny_with, deny_if,
  or_deny, or_raise, returned,
}
use Inputs.{
  Call, Depth, depth, negative, is_governed, same_provider, is_routing, is_admission,
  requested_model, forced_frontier, frontier_index, target_tier_index,
}
use Routing.{Placement, at, routed}

-- `projected > cap + 1e-12`: the tolerance in picodollars.
abbrev pub tolerance : Usd
tolerance = 1

-- The unit of fractions.
abbrev pub trillion : ℕ
trillion = 10 ^ 12

unfoldable pub mode_gate : OperatingMode → Verdict (Unit {0})
mode_gate unsupported = deny unsupported_capability
mode_gate observe = decided (result true observe_only defaults)
mode_gate _ = proceed tt

-- From the operation to the envelope of new governed work.
unfoldable pub screen : Call → Verdict TaskEnvelope
unfolding mode_gate
screen c =
    if is_governed c.operation.operation && c.operation.is_new_work
    then (do
      mode_gate c.run.mode
      envelope ← or_deny c.operation.envelope missing_envelope
      deny_if (not envelope.new_task) invalid_new_work defaults
      deny_if (not (same_provider c.operation.provider c.run.provider)) provider_mismatch defaults
      proceed envelope)
    else decided (result true not_governed defaults)

unfoldable pub check_depth : Depth → ℕ → Verdict (Unit {0})
check_depth (negative n) max_depth = deny invalid_depth
check_depth (depth d) max_depth = deny_if (ltb max_depth (d + 1)) depth_limit defaults

-- The caller's place on the ladder.
unfoldable pub admit_caller : Call → Verdict (ℕ × TierConfig)
unfolding check_depth
admit_caller c = do
  check_depth c.caller_depth c.config.policy.max_depth
  index ← or_deny (tier_index_for_model c.config c.caller_model) unknown_caller_model
  tier ← or_raise (get_elem? c.config.tiers index)
  deny_if (not tier.may_spawn) caller_may_not_spawn defaults
  proceed (index, tier)

-- The index of the tier that owns the work where the provider picks the child's model.
unfoldable pub owning_index : Call → TaskEnvelope → Verdict ℕ
owning_index c envelope =
    if forced_frontier envelope
    then or_deny (frontier_index c.config c.enabled_tiers) frontier_unavailable
    else or_deny (target_tier_index c.config c.enabled_tiers envelope.task_class) no_enabled_tier

-- `else: ...` of `if model_led_routing`
unfoldable pub placed : Call → TaskEnvelope → ℕ → Verdict Placement
unfolding owning_index
placed c envelope caller_index = do
  target_index ← owning_index c envelope
  target ← or_raise (get_elem? c.config.tiers target_index)
  let p : Placement = record {
    target = target;
    selected_model = if is_routing c.run.mode then some target.model else none;
    effort = none;
    estimate = target.est_task_usd;
  }
  deny_if (ltb target_index caller_index) stronger_child_forbidden (at p)
  deny_if (is_admission c.run.mode && not (eqb target_index caller_index)) routing_required
      (record (at p) { selected_model = none })
  deny_if (is_routing c.run.mode && not (opt_is (requested_model c.operation) target.model))
      model_mismatch (record (at p) { selected_model = some target.model })
  proceed p

-- `_savings_eligible`
unfoldable pub savings_eligible : OperatingMode → TierConfig → TierConfig → Bool
savings_eligible mode caller target =
    is_routing mode && ltb target.relative_cost_weight caller.relative_cost_weight

-- The keyword arguments of an approval.
abbrev pub approval : Call → TierConfig → Placement → Extras
approval c caller p = record (at p) {
  reserve = true;
  savings = savings_eligible c.run.mode caller p.target;
}

-- The budget: the projected cost of the run against the cap and the warning threshold.
unfoldable pub within_budget : Call → TierConfig → Placement → Verdict PolicyEvaluation
unfolding savings_eligible
within_budget c caller p =
    let projected = c.snapshot.spent_usd + c.snapshot.reserved_usd + p.estimate in
    let budget = c.config.budget in
    if ltb (budget.run_usd_cap + tolerance) projected
    then (if budget.enforce
        then deny_with budget_cap (record (at p) { effort = none })
        else proceed (result true budget_cap_warning (approval c caller p)))
    else if leb (budget.run_usd_cap * budget.warn_at_fraction) (projected * trillion)
    then proceed (result true budget_warning (approval c caller p))
    else proceed (result true allow (approval c caller p))

-- The capacity and the budget of the chosen tier.
unfoldable pub reserve_for : Call → TierConfig → Placement → Verdict PolicyEvaluation
unfolding within_budget
reserve_for c caller p = do
  deny_if (leb p.target.max_concurrent (c.snapshot.active_by_tier p.target.name)) concurrency_cap
      (record (at p) { effort = none })
  within_budget c caller p

-- `evaluate_policy`, with its exceptions as `raised`.
unfoldable pub evaluate : Call → Verdict PolicyEvaluation
evaluate c = do
  envelope ← screen c
  (caller_index, caller) ← admit_caller c
  p ←
      (if is_routing c.run.mode
        then routed c (forced_frontier envelope) caller_index caller
        else placed c envelope caller_index)
  reserve_for c caller p

-- `evaluate_policy`; `none` where it raises.
unfoldable pub evaluate_policy : Call → Option PolicyEvaluation
unfolding evaluate
evaluate_policy c = returned (evaluate c)
