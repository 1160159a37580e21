-- ===== src/Conductor/Policy/Snapshot.antt =====
-- The snapshot that the policy is given decides whether it reserves, never what it would reserve.
use agent_tooling.Prelude.{
  ℕ, ◌+◌, ◌≡◌, refl, sym, ◌*◌, Bool, true, false, ◌&&◌, some, arith, if◌then◌else◌, leb, ltb,
}
use agent_tooling.Conductor.Schemas.{ReservationSnapshot, TierConfig, TaskEnvelope, Usd}
use agent_tooling.Conductor.Policy.Outcome.{
  Rule, budget_cap_warning, budget_warning, allow, PolicyEvaluation, result, Verdict, proceed,
  decided, raised, ◌>>=◌, deny_if, returned,
}
use agent_tooling.Conductor.Policy.Inputs.{Call, forced_frontier, is_routing}
use agent_tooling.Conductor.Policy.Routing.{
  Placement, requested_worker, keep_on_frontier, route_target, default_effort, effort_ceilings,
  cheaper, routed,
}
use agent_tooling.Conductor.Policy.{
  tolerance, trillion, approval, screen, admit_caller, owning_index, placed, within_budget,
  reserve_for, evaluate, evaluate_policy,
}

-- `ReservationSnapshot(active_by_tier={}, reserved_usd=0.0, spent_usd=0.0)`
abbrev pub empty_snapshot : ReservationSnapshot
empty_snapshot = record { active_by_tier = λ _. 0; reserved_usd = 0; spent_usd = 0 }

abbrev pub with_snapshot : Call → ReservationSnapshot → Call
with_snapshot c shot = record c { snapshot = shot }

-- Two evaluations that reserve the same.
pub record IsSame (e f : PolicyEvaluation) : Type 0 where
  pub tier : f.tier ≡ e.tier
  pub effort : f.reasoning_effort ≡ e.reasoning_effort
  pub estimate : f.estimate_usd ≡ e.estimate_usd

Agrees : Verdict PolicyEvaluation → Verdict PolicyEvaluation → Type 0
Agrees v w =
    (e : PolicyEvaluation)
    → returned v ≡ some e
    → e.reserve ≡ true
    → (f : PolicyEvaluation) × (returned w ≡ some f) × IsSame e f

bind-Agrees :
    {A : Type 0} (m : Verdict A) (f g : A → Verdict PolicyEvaluation)
    → ((a : A) → Agrees (f a) (g a))
    → Agrees (m >>= f) (m >>= g)
unfolding Agrees
bind-Agrees (proceed a) f g same = same a
bind-Agrees (decided d) f g same =
    λ e h r. (e, h, record { tier = refl; effort = refl; estimate = refl })
bind-Agrees raised f g same = λ e h r. absurd (ground arith)

routed-snapshot :
    (c : Call) (a b : ReservationSnapshot) (forced : Bool) (k : ℕ) (t : TierConfig)
    → routed (with_snapshot c a) forced k t ≡ routed (with_snapshot c b) forced k t
unfolding routed requested_worker route_target keep_on_frontier default_effort effort_ceilings
    cheaper
routed-snapshot c a b forced k t = refl

placed-snapshot :
    (c : Call) (a b : ReservationSnapshot) (envelope : TaskEnvelope) (k : ℕ)
    → placed (with_snapshot c a) envelope k ≡ placed (with_snapshot c b) envelope k
unfolding placed owning_index
placed-snapshot c a b envelope k = refl

screen-snapshot :
    (c : Call) (a b : ReservationSnapshot) → screen (with_snapshot c a) ≡ screen (with_snapshot c b)
unfolding screen
screen-snapshot c a b = refl

admit_caller-snapshot :
    (c : Call) (a b : ReservationSnapshot)
    → admit_caller (with_snapshot c a) ≡ admit_caller (with_snapshot c b)
unfolding admit_caller
admit_caller-snapshot c a b = refl

abbrev projected : Call → Placement → Usd
projected c p = c.snapshot.spent_usd + c.snapshot.reserved_usd + p.estimate

-- The budget stands in the way.
abbrev is_over : Call → Placement → Bool
is_over c p =
    ltb (c.config.budget.run_usd_cap + tolerance) (projected c p) && c.config.budget.enforce

abbrev granted_rule : Call → Placement → Rule
granted_rule c p =
    if ltb (c.config.budget.run_usd_cap + tolerance) (projected c p)
    then budget_cap_warning
    else if leb (c.config.budget.run_usd_cap * c.config.budget.warn_at_fraction)
        (projected c p * trillion)
    then budget_warning
    else allow

within_budget-granted :
    (c : Call) (caller : TierConfig) (p : Placement)
    → is_over c p ≡ false
    → returned (within_budget c caller p)
      ≡ some (result true (granted_rule c p) (approval c caller p))
unfolding within_budget
within_budget-granted c caller p h = ground arith

-- What an evaluation that reserves reserves.
reserve_for-reserves :
    (c : Call) (caller : TierConfig) (p : Placement) (e : PolicyEvaluation)
    → returned (reserve_for c caller p) ≡ some e
    → e.reserve ≡ true
    → (e.tier ≡ some p.target)
      × (e.reasoning_effort ≡ p.effort)
      × (e.estimate_usd ≡ p.estimate)
      × (is_over c p ≡ false)
      × (leb p.target.max_concurrent (c.snapshot.active_by_tier p.target.name) ≡ false)
unfolding reserve_for within_budget result deny_if
reserve_for-reserves c caller p e h r = ground arith

reserve_for-granted :
    (c : Call) (caller : TierConfig) (p : Placement)
    → is_over c p ≡ false
    → leb p.target.max_concurrent (c.snapshot.active_by_tier p.target.name) ≡ false
    → returned (reserve_for c caller p)
      ≡ some (result true (granted_rule c p) (approval c caller p))
unfolding reserve_for deny_if
reserve_for-granted c caller p over room = rw room (within_budget-granted c caller p over)

reserve_for-Agrees :
    (c : Call) (shot : ReservationSnapshot) (caller : TierConfig) (p : Placement)
    → Agrees
        (reserve_for (with_snapshot c shot) caller p)
        (reserve_for (with_snapshot c empty_snapshot) caller p)
unfolding Agrees result
reserve_for-Agrees c shot caller p e h r =
    let (tier, effort, estimate, over, room) =
      reserve_for-reserves (with_snapshot c shot) caller p e h r in
    (
      _,
      reserve_for-granted (with_snapshot c empty_snapshot) caller p (ground arith) (ground arith),
      record { tier = sym tier; effort = sym effort; estimate = sym estimate },
    )

evaluate-Agrees :
    (c : Call) (shot : ReservationSnapshot)
    → Agrees (evaluate (with_snapshot c shot)) (evaluate (with_snapshot c empty_snapshot))
unfolding evaluate
evaluate-Agrees c shot = rw (screen-snapshot c shot empty_snapshot) (
    bind-Agrees (screen (with_snapshot c empty_snapshot)) _ _ λ envelope.
      rw (admit_caller-snapshot c shot empty_snapshot) (
        bind-Agrees (admit_caller (with_snapshot c empty_snapshot)) _ _ λ a.
          rw
            (
              routed-snapshot c shot empty_snapshot (forced_frontier envelope) a.0 a.1,
              placed-snapshot c shot empty_snapshot envelope a.0,
            )
            (bind-Agrees
              (if is_routing c.run.mode
                then routed (with_snapshot c empty_snapshot) (forced_frontier envelope) a.0 a.1
                else placed (with_snapshot c empty_snapshot) envelope a.0)
              _ _ λ p. reserve_for-Agrees c shot a.1 p)))

-- Where the policy reserves under a snapshot, its evaluation under the empty snapshot has the same
-- tier, the same effort and the same estimate.
pub preview_agrees :
    (c : Call) (shot : ReservationSnapshot) (e : PolicyEvaluation)
    → evaluate_policy (with_snapshot c shot) ≡ some e
    → e.reserve ≡ true
    → (f : PolicyEvaluation) × (evaluate_policy (with_snapshot c empty_snapshot) ≡ some f)
      × IsSame e f
unfolding evaluate_policy Agrees
preview_agrees c shot e h r = evaluate-Agrees c shot e h r
