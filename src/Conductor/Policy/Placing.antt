-- ===== src/Conductor/Policy/Placing.antt =====
-- What the admission branch and `reserve_for` of the policy let through.
use agent_tooling.Prelude.{
  ℕ, ◌+◌, ◌*◌, ◌≡◌, refl, ◌≤◌, ◌<◌, Bool, true, none, some, ltb, leb, arith, contains_ℕ, get_elem?,
}
use agent_tooling.Conductor.Schemas.{admission, TierConfig, TaskEnvelope}
use agent_tooling.Conductor.Policy.Outcome.{Rule, PolicyEvaluation, result, proceed}
use agent_tooling.Conductor.Policy.Inputs.{Call, forced_frontier}
use agent_tooling.Conductor.Policy.Routing.{Placement}
use agent_tooling.Conductor.Policy.Ensures.{
  Ensures, proceeds, Ensures-bind, Ensures-if, Ensures-deny_if, Ensures-deny_with,
  Ensures-or_deny_last, Ensures-or_raise_then,
}
use agent_tooling.Conductor.Policy.Ladder.{frontier_index-found, target_tier_index-found}
use agent_tooling.Conductor.Policy.{
  tolerance, trillion, owning_index, placed, within_budget, reserve_for, approval,
}

-- A placement of the admission mode: the caller's own tier, with no claim about the child's model.
pub record IsPlaced (c : Call) (forced : Bool) (caller_index : ℕ) (caller : TierConfig)
    (p : Placement) : Type 0 where
  pub own_tier : p.target ≡ caller
  pub is_enabled : contains_ℕ caller_index c.enabled_tiers ≡ true
  pub unnamed : p.selected_model ≡ none
  pub no_effort : p.effort ≡ none
  pub priced : p.estimate ≡ p.target.est_task_usd
  pub on_frontier : forced ≡ true → p.target.name ≡ "frontier"

-- The index that the work is placed at.
record IsOwner (c : Call) (envelope : TaskEnvelope) (i : ℕ) : Type 0 where
  tier : TierConfig
  at_index : get_elem? c.config.tiers i ≡ some tier
  is_enabled : contains_ℕ i c.enabled_tiers ≡ true
  on_frontier : forced_frontier envelope ≡ true → tier.name ≡ "frontier"

owning_index-Ensures :
    (c : Call) (envelope : TaskEnvelope) → Ensures (IsOwner c envelope) (owning_index c envelope)
unfolding owning_index
owning_index-Ensures c envelope =
    Ensures-if (forced_frontier envelope)
      (λ forced. Ensures-or_deny_last _ _ λ i e.
        let (t, found, named, on) = frontier_index-found c.config c.enabled_tiers i e in
        record { tier = t; at_index = found; is_enabled = on; on_frontier = λ _. named })
      (λ free. Ensures-or_deny_last _ _ λ i e.
        let (t, found, on) =
          target_tier_index-found c.config c.enabled_tiers envelope.task_class i e in
        record {
          tier = t;
          at_index = found;
          is_enabled = on;
          on_frontier = λ h. absurd (ground arith);
        })

pub placed-Ensures :
    (c : Call) (envelope : TaskEnvelope) (k : ℕ) (caller : TierConfig)
    → c.run.mode ≡ admission
    → get_elem? c.config.tiers k ≡ some caller
    → Ensures (IsPlaced c (forced_frontier envelope) k caller) (placed c envelope k)
unfolding placed
placed-Ensures c envelope k caller mode here =
    Ensures-bind (owning_index-Ensures c envelope) λ i own.
      Ensures-or_raise_then _ _ own.tier own.at_index (
        Ensures-deny_if _ _ _ λ no_stronger. Ensures-deny_if _ _ _ λ same.
          Ensures-deny_if _ _ _ λ matched.
            let e : i ≡ k = ground arith in
            let at_i : get_elem? c.config.tiers i ≡ some own.tier = own.at_index in
            let t : own.tier ≡ caller = cc in
            proceeds _ (record {
              own_tier = t;
              is_enabled = rw e at own.is_enabled;
              unnamed = ground arith;
              no_effort = refl;
              priced = refl;
              on_frontier = own.on_frontier;
            }))

-- An approval: the tier has room, and the run's budget has too unless it only warns.
pub record IsReserved (c : Call) (p : Placement) (e : PolicyEvaluation) : Type 0 where
  pub tier : e.tier ≡ some p.target
  pub selected_model : e.selected_model ≡ p.selected_model
  pub effort : e.reasoning_effort ≡ p.effort
  pub estimate : e.estimate_usd ≡ p.estimate
  pub allowed : e.spec.allowed ≡ true
  pub reserves : e.spec.reserve ≡ true
  pub reserving : e.reserve ≡ true
  pub room : c.snapshot.active_by_tier p.target.name < p.target.max_concurrent
  pub budget :
      c.config.budget.enforce ≡ true
      → c.snapshot.spent_usd + c.snapshot.reserved_usd + p.estimate
        ≤ c.config.budget.run_usd_cap + tolerance

approval-Ensures :
    (c : Call) (caller : TierConfig) (p : Placement) (rule : Rule)
    → c.snapshot.active_by_tier p.target.name < p.target.max_concurrent
    → (c.config.budget.enforce ≡ true
        → c.snapshot.spent_usd + c.snapshot.reserved_usd + p.estimate
          ≤ c.config.budget.run_usd_cap + tolerance)
    → Ensures (IsReserved c p) (proceed (result true rule (approval c caller p)))
unfolding result
approval-Ensures c caller p rule room budget = proceeds _ (record {
  tier = refl;
  selected_model = refl;
  effort = refl;
  estimate = refl;
  allowed = refl;
  reserves = refl;
  reserving = refl;
  room = room;
  budget = budget;
})

within_budget-Ensures :
    (c : Call) (caller : TierConfig) (p : Placement)
    → c.snapshot.active_by_tier p.target.name < p.target.max_concurrent
    → Ensures (IsReserved c p) (within_budget c caller p)
unfolding within_budget
within_budget-Ensures c caller p room =
    let projected = c.snapshot.spent_usd + c.snapshot.reserved_usd + p.estimate in
    let budget = c.config.budget in
    Ensures-if (ltb (budget.run_usd_cap + tolerance) projected)
      (λ over.
        Ensures-if budget.enforce (λ _. Ensures-deny_with _ _)
          (λ warns. approval-Ensures c caller p _ room (λ h. absurd (ground arith))))
      (λ under.
        Ensures-if (leb (budget.run_usd_cap * budget.warn_at_fraction) (projected * trillion))
          (λ _. approval-Ensures c caller p _ room (λ _. ground arith))
          (λ _. approval-Ensures c caller p _ room (λ _. ground arith)))

pub reserve_for-Ensures :
    (c : Call) (caller : TierConfig) (p : Placement)
    → Ensures (IsReserved c p) (reserve_for c caller p)
unfolding reserve_for
reserve_for-Ensures c caller p =
    Ensures-deny_if _ _ _ λ room. within_budget-Ensures c caller p (ground arith)
