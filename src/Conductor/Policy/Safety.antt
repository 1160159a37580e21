-- ===== src/Conductor/Policy/Safety.antt =====
-- What an evaluation of the policy that reserves guarantees, and that none raises.
use agent_tooling.Prelude.{
  ℕ, ◌+◌, ◌≡◌, ◌∙◌, ap, sym, ◌≤◌, ◌<◌, inl, inr, String, true, none, some, arith, contains_ℕ,
  get_elem?,
}
use agent_tooling.Conductor.Schemas.{
  routing, admission, TierConfig, TaskEnvelope, effort_index, supports_effort, codex,
  tier_index_for_model,
}
use agent_tooling.Conductor.Policy.Outcome.{PolicyEvaluation}
use agent_tooling.Conductor.Policy.Inputs.{Call, depth, forced_frontier}
use agent_tooling.Conductor.Policy.Authority.{IsLadder, IsWithinModel}
use agent_tooling.Conductor.Policy.{tolerance, evaluate_policy}
use agent_tooling.Conductor.Policy.Approval.{IsApproved, evaluate-Ensures, Ensures-total, approved}

-- On a ladder whose tiers have canonical reasoning efforts, as every loaded configuration has,
-- `evaluate_policy` returns an evaluation for every call: no subscript and no `index` in it raises.
pub evaluate_policy_total :
    (c : Call) → IsLadder c.config → (e : PolicyEvaluation) × (evaluate_policy c ≡ some e)
unfolding evaluate_policy
evaluate_policy_total c valid = Ensures-total (evaluate-Ensures c valid)

priced :
    (c : Call) {e : PolicyEvaluation} (a : IsApproved c e)
    → a.placement.estimate ≡ a.placement.target.est_task_usd
priced c a = elim a.screened.enforced [
  | inl mode ↦ (a.in_routing mode).priced
  | inr mode ↦ (a.in_admission mode).priced
]

on_frontier :
    (c : Call) {e : PolicyEvaluation} (a : IsApproved c e)
    → forced_frontier a.envelope ≡ true
    → a.placement.target.name ≡ "frontier"
on_frontier c a forced = elim a.screened.enforced [
  | inl mode ↦ ((a.in_routing mode).target.on_frontier forced).1
  | inr mode ↦ (a.in_admission mode).on_frontier forced
]

-- On a ladder with canonical efforts, an evaluation that reserves is allowed, is charged the task
-- estimate of a tier that has a free place, and comes from a caller above the depth limit: the
-- child's depth is at most `max_depth`.
pub reserve_within_capacity :
    (c : Call) (e : PolicyEvaluation)
    → IsLadder c.config
    → evaluate_policy c ≡ some e
    → e.reserve ≡ true
    → (target : TierConfig) × (e.tier ≡ some target)
      × (c.snapshot.active_by_tier target.name < target.max_concurrent)
      × (e.estimate_usd ≡ target.est_task_usd)
      × (e.spec.allowed ≡ true)
      × ((d : ℕ) × (c.caller_depth ≡ depth d) × (d + 1 ≤ c.config.policy.max_depth))
reserve_within_capacity c e valid h r =
    let a = approved c e valid h r in
    (
      a.placement.target,
      a.reserved.tier,
      a.reserved.room,
      a.reserved.estimate ∙ priced c a,
      a.reserved.allowed,
      (a.admitted.caller_depth, a.admitted.at_depth, omega (arith, a.admitted.below_limit)),
    )

-- On a ladder with canonical efforts and while the budget is enforced, an evaluation that
-- reserves keeps what is spent, what is reserved and its own estimate within the cap of the run,
-- up to the tolerance of one picodollar.
pub reserve_within_budget :
    (c : Call) (e : PolicyEvaluation)
    → IsLadder c.config
    → evaluate_policy c ≡ some e
    → e.reserve ≡ true
    → c.config.budget.enforce ≡ true
    → c.snapshot.spent_usd + c.snapshot.reserved_usd + e.estimate_usd
      ≤ c.config.budget.run_usd_cap + tolerance
reserve_within_budget c e valid h r enforced =
    let a = approved c e valid h r in omega (arith, a.reserved.budget enforced, a.reserved.estimate)

-- On a ladder with canonical efforts, in the routing mode, an evaluation that reserves names the
-- model of its tier, which is an enabled tier of the configuration. The caller is the tier of the
-- configuration that its model is looked up as. The chosen model is the caller's own or both are of
-- known generations, it is no newer in generation than the caller's where both are known, and it has no
-- greater capability rank than the caller.
pub routing_authority :
    (c : Call) (e : PolicyEvaluation)
    → IsLadder c.config
    → evaluate_policy c ≡ some e
    → e.reserve ≡ true
    → c.run.mode ≡ routing
    → (target : TierConfig) × (caller : TierConfig) × (i : ℕ) × (k : ℕ) × (e.tier ≡ some target)
      × (e.selected_model ≡ some target.model)
      × (get_elem? c.config.tiers i ≡ some target)
      × (contains_ℕ i c.enabled_tiers ≡ true)
      × (tier_index_for_model c.config c.caller_model ≡ some k)
      × (get_elem? c.config.tiers k ≡ some caller)
      × IsWithinModel target caller
routing_authority c e valid h r mode =
    let a = approved c e valid h r in
    let p = a.in_routing mode in
    (
      a.placement.target,
      a.caller,
      p.target.index,
      a.caller_index,
      a.reserved.tier,
      a.reserved.selected_model ∙ p.named,
      p.target.at_index,
      p.target.is_enabled,
      a.admitted.looked_up,
      a.admitted.at_index,
      p.within_model,
    )

-- On a ladder with canonical efforts, in a Codex run of the routing mode, an evaluation that
-- reserves records a canonical effort that is at most the caller's and that the chosen tier
-- supports.
pub codex_effort_ceiling :
    (c : Call) (e : PolicyEvaluation)
    → IsLadder c.config
    → evaluate_policy c ≡ some e
    → e.reserve ≡ true
    → c.run.mode ≡ routing
    → c.run.provider ≡ codex
    → (effort : String) × (i : ℕ) × (k : ℕ) × (target : TierConfig) × (e.reasoning_effort
        ≡ some effort)
      × (effort_index effort ≡ some i)
      × (effort_index c.caller_effort ≡ some k)
      × (i ≤ k)
      × (e.tier ≡ some target)
      × (supports_effort target effort ≡ true)
codex_effort_ceiling c e valid h r mode provider =
    let a = approved c e valid h r in
    let w = (a.in_routing mode).within_effort (ground arith) in
    (
      w.effort,
      w.rank,
      w.caller_rank,
      a.placement.target,
      a.reserved.effort ∙ w.chosen,
      w.ranked,
      w.caller_ranked,
      w.at_most,
      a.reserved.tier,
      w.supported,
    )

-- On a ladder with canonical efforts, work that is of the class `high_risk` or has a risk trigger
-- is reserved on a tier named `frontier` alone, in either mode.
pub high_risk_on_frontier :
    (c : Call) (e : PolicyEvaluation) (envelope : TaskEnvelope)
    → IsLadder c.config
    → evaluate_policy c ≡ some e
    → e.reserve ≡ true
    → c.operation.envelope ≡ some envelope
    → forced_frontier envelope ≡ true
    → (target : TierConfig) × (e.tier ≡ some target) × (target.name ≡ "frontier")
high_risk_on_frontier c e envelope valid h r enveloped forced =
    let a = approved c e valid h r in
    let same : a.envelope ≡ envelope = cc (a.screened.enveloped) in
    (a.placement.target, a.reserved.tier, on_frontier c a (rw same forced))

-- On a ladder with canonical efforts, in the admission mode, an evaluation that reserves charges
-- the caller's own tier and asserts neither a model nor an effort of the child.
pub admission_claims_nothing :
    (c : Call) (e : PolicyEvaluation)
    → IsLadder c.config
    → evaluate_policy c ≡ some e
    → e.reserve ≡ true
    → c.run.mode ≡ admission
    → (caller : TierConfig) × (caller.model ≡ c.caller_model)
      × (e.tier ≡ some caller)
      × (e.selected_model ≡ none)
      × (e.reasoning_effort ≡ none)
admission_claims_nothing c e valid h r mode =
    let a = approved c e valid h r in
    let p = a.in_admission mode in
    (
      a.caller,
      a.admitted.of_model,
      a.reserved.tier ∙ ap some p.own_tier,
      a.reserved.selected_model ∙ p.unnamed,
      a.reserved.effort ∙ p.no_effort,
    )

-- An evaluation that reserves does so on a tier of the ladder with a free place.
pub reserve_on_ladder :
    (c : Call) (e : PolicyEvaluation)
    → IsLadder c.config
    → evaluate_policy c ≡ some e
    → e.reserve ≡ true
    → (i : ℕ) × (target : TierConfig) × (get_elem? c.config.tiers i ≡ some target)
      × (e.tier ≡ some target)
      × (c.snapshot.active_by_tier target.name < target.max_concurrent)
reserve_on_ladder c e valid h r =
    let a = approved c e valid h r in
    elim a.screened.enforced [
      | inl mode ↦
          (let p = a.in_routing mode in
            (
              p.target.index, a.placement.target, p.target.at_index, a.reserved.tier,
              a.reserved.room,
            ))
      | inr mode ↦
          (let p = a.in_admission mode in
            (
              a.caller_index,
              a.placement.target,
              a.admitted.at_index ∙ ap some (sym p.own_tier),
              a.reserved.tier,
              a.reserved.room,
            ))
    ]
