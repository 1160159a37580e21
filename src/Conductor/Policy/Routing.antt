-- ===== src/Conductor/Policy/Routing.antt =====
-- The branch of `evaluate_policy` for the routing mode: which worker model and which effort the
-- call asks for, and the ceilings that the caller sets.
use Prim.Native.Nat.{min}
use agent_tooling.Prelude.{
  ℕ, String, Bool, false, not, ◌&&◌, ◌||◌, Option, none, some, ltb, eqb, if◌then◌else◌, ◌==◌,
  is_some, contains_ℕ, get_elem?,
}
use agent_tooling.Conductor.Schemas.{
  TierConfig, Usd, reasoning_efforts, effort_index, supports_effort, effective_capability_rank,
  tier_index_for_model,
}
use agent_tooling.Conductor.Policy.Outcome.{
  missing_model_selection, unknown_target_model, target_model_disabled, frontier_unavailable,
  high_risk_caller_not_frontier, high_risk_requires_frontier, unknown_caller_effort,
  unknown_model_authority, model_generation_ceiling, model_capability_ceiling,
  unknown_target_effort, effort_ceiling, unsupported_model_effort, strictly_cheaper_required,
  Extras, defaults, Verdict, proceed, ◌>>=◌, ◌>>◌, deny_with, deny_if, or_deny, or_raise,
}
use agent_tooling.Conductor.Policy.Inputs.{
  Call, is_codex, requested_model, requested_effort, forks_all, frontier_index,
}

-- The tier that will be charged, and what is asserted of the child.
pub record Placement : Type 0 where
  pub target : TierConfig
  pub selected_model : Option String
  pub effort : Option String
  pub estimate : Usd

-- The keyword arguments of the denials that name a tier.
abbrev pub at : Placement → Extras
at p = record defaults {
  tier = some p.target;
  selected_model = p.selected_model;
  effort = p.effort;
  estimate = p.estimate;
}

abbrev or_caller : Option String → String → String
or_caller none m = m
or_caller (some r) m = r

-- The model and the effort that the call asks for.
unfoldable pub requested_worker : Call → Verdict (String × Option String)
requested_worker c =
    let model = requested_model c.operation in
    let effort = requested_effort c.operation in
    if is_codex c.run.provider
    then (if forks_all c.operation && not (is_some model) && not (is_some effort)
        then proceed (c.caller_model, some c.caller_effort)
        else do m ← or_deny model missing_model_selection; proceed (m, effort))
    else proceed (or_caller model c.caller_model, none)

-- `if forced_frontier: ...`
unfoldable pub keep_on_frontier : Call → ℕ → ℕ → Verdict (Unit {0})
keep_on_frontier c caller_index target_index = do
  frontier ← or_deny (frontier_index c.config c.enabled_tiers) frontier_unavailable
  deny_if (not (eqb caller_index frontier)) high_risk_caller_not_frontier defaults
  deny_if (not (eqb target_index frontier)) high_risk_requires_frontier defaults

-- From the requested model to the tier that may take the work.
unfoldable pub route_target : Call → Bool → ℕ → String → Verdict TierConfig
route_target c forced caller_index model = do
  target_index ← or_deny (tier_index_for_model c.config model) unknown_target_model
  deny_if (not (contains_ℕ target_index c.enabled_tiers)) target_model_disabled defaults
  if forced then keep_on_frontier c caller_index target_index else proceed tt
  or_raise (get_elem? c.config.tiers target_index)

-- The lower of the caller's effort and the tier's.
unfoldable pub lower_effort : Placement → Option ℕ → Verdict (Option String)
lower_effort p none = deny_with unknown_caller_effort (at p)
lower_effort p (some ci) = do
  ti ← or_raise (effort_index p.target.reasoning_effort)
  e ← or_raise (get_elem? reasoning_efforts (min ci ti))
  proceed (some e)

-- The effort of a Codex worker that the call leaves open.
unfoldable pub default_effort : Call → Placement → Verdict (Option String)
default_effort c p =
    if is_codex c.run.provider && not (is_some p.effort)
    then lower_effort p (effort_index c.caller_effort)
    else proceed p.effort

abbrev pub is_newer : Option ℕ → Option ℕ → Bool
is_newer (some t) (some k) = ltb k t
is_newer _ _ = false

-- The ceilings on the model: its generation and its capability.
unfoldable pub model_ceilings : Placement → TierConfig → Verdict (Unit {0})
model_ceilings p caller = do
  deny_if
      (not (p.target.model == caller.model)
        && (not (is_some p.target.generation_rank) || not (is_some caller.generation_rank)))
      unknown_model_authority (at p)
  deny_if (is_newer p.target.generation_rank caller.generation_rank) model_generation_ceiling (at p)
  deny_if (ltb (effective_capability_rank caller) (effective_capability_rank p.target))
      model_capability_ceiling (at p)

abbrev pub option_index : Option String → Option ℕ
option_index none = none
option_index (some e) = effort_index e

abbrev pub supports : TierConfig → Option String → Bool
supports t none = false
supports t (some e) = supports_effort t e

-- The caller's rank and the worker's, both of them canonical.
unfoldable pub compare_efforts : Placement → Option ℕ → Option ℕ → Verdict (Unit {0})
compare_efforts p none o = deny_with unknown_caller_effort (at p)
compare_efforts p (some ci) none = deny_with unknown_target_effort (at p)
compare_efforts p (some ci) (some ri) = do
  deny_if (ltb ci ri) effort_ceiling (at p)
  deny_if (not (supports p.target p.effort)) unsupported_model_effort (at p)

-- The ceilings on the effort, which only a Codex run enforces.
unfoldable pub effort_ceilings : Call → Placement → Verdict (Unit {0})
effort_ceilings c p =
    if is_codex c.run.provider
    then compare_efforts p (effort_index c.caller_effort) (option_index p.effort)
    else proceed tt

unfoldable pub cheaper : Call → Placement → TierConfig → Verdict (Unit {0})
cheaper c p caller =
    deny_if
      (c.config.policy.require_strictly_cheaper
        && not (ltb p.target.relative_cost_weight caller.relative_cost_weight)
        && not (p.target.model == caller.model))
      strictly_cheaper_required (at p)

-- `if model_led_routing: ...`
unfoldable pub routed : Call → Bool → ℕ → TierConfig → Verdict Placement
routed c forced caller_index caller = do
  (model, effort) ← requested_worker c
  target ← route_target c forced caller_index model
  let open_effort : Placement = record {
    target = target;
    selected_model = some target.model;
    effort = effort;
    estimate = target.est_task_usd;
  }
  filled ← default_effort c open_effort
  let p : Placement = record open_effort { effort = filled }
  model_ceilings p caller
  effort_ceilings c p
  cheaper c p caller
  proceed p
