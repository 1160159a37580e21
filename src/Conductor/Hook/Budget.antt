-- ===== src/Conductor/Hook/Budget.antt =====
-- The hook's transaction and the money of its run.
use agent_tooling.Prelude.{◌+◌, ◌≤◌, ◌≡◌, String, true, ◌&&◌, Option, none, some, arith, inl, inr}
use agent_tooling.Conductor.Schemas.{TierConfig, ReservationSnapshot, Time}
use agent_tooling.Conductor.Policy.Outcome.{DecisionSpec, PolicyEvaluation}
use agent_tooling.Conductor.Policy.Authority.{IsLadder}
use agent_tooling.Conductor.Policy.{tolerance, evaluate_policy}
use agent_tooling.Conductor.Policy.Safety.{reserve_within_budget, evaluate_policy_total}
use agent_tooling.Conductor.Policy.Approval.{evaluate_policy-reserve}
use agent_tooling.Conductor.Policy.Snapshot.{with_snapshot, empty_snapshot, preview_agrees}
use agent_tooling.Conductor.Store.Result.{ok}
use agent_tooling.Conductor.Store.Tables.{RunRow, DecisionRow, Tables}
use agent_tooling.Conductor.Store.Reservations.{FreshIds, specify}
use agent_tooling.Conductor.Store.Snapshots.{expire_reservations, snapshot}
use agent_tooling.Conductor.Store.Reservations.Caps.{
  committed, committed_fits, approved_dollars, reserved_expire, specify-approved,
}
use agent_tooling.Conductor.Store.Reservations.Inversion.{
  Decided, with_reservation, without_reservation, decide_and_reserve-eq-ok,
}
use agent_tooling.Conductor.Hook.{HookCall, request_of, evaluator, persist}
use agent_tooling.Conductor.Hook.Persist.{denies, persist-eq-ok}

expire-committed :
    (run_id : String) (now : Time) (s : Tables)
    → committed run_id (expire_reservations now s) ≤ committed run_id s
unfolding expire_reservations
expire-committed run_id now s = omega (arith, reserved_expire run_id now s.reservations)

module _ (h : HookCall) (valid : IsLadder h.call.config)
    (enforced : h.call.config.budget.enforce ≡ true) where
  -- The estimate of the request fits where the evaluator reserves.
  evaluated-cost :
      (preview : PolicyEvaluation) (shot : ReservationSnapshot) (forced : Option DecisionSpec)
      → evaluate_policy (with_snapshot h.call empty_snapshot) ≡ some preview
      → denies forced ≡ true
      → ((evaluator h.call forced shot).allowed && (evaluator h.call forced shot).reserve) ≡ true
      → shot.spent_usd + shot.reserved_usd + preview.estimate_usd
        ≤ h.call.config.budget.run_usd_cap + tolerance
  unfolding evaluator
  evaluated-cost preview shot (some forced) previewed denied go = absurd (ground arith)
  evaluated-cost preview shot none previewed denied go =
      let (e, evaluated) = evaluate_policy_total (with_snapshot h.call shot) valid in
      let same = evaluate_policy-reserve (with_snapshot h.call shot) e valid evaluated in
      let going = rw evaluated at go in
      let reserves : e.reserve ≡ true = ground (arith, same, going) in
      let (f, at_f, twin) = preview_agrees h.call shot e evaluated reserves in
      let fits =
        reserve_within_budget (with_snapshot h.call shot) e valid evaluated reserves enforced in
      let own : f ≡ preview = ground (arith, at_f, previewed) in
      let cost : preview.estimate_usd ≡ e.estimate_usd = rw (← own) twin.estimate in
      omega (arith, fits, cost)

  written-committed :
      (preview : PolicyEvaluation) (tier : TierConfig) (forced : Option DecisionSpec) (now : Time)
      (ids : FreshIds) (run : RunRow) (s : Tables) {t : Tables} (run_id : String)
      → evaluate_policy (with_snapshot h.call empty_snapshot) ≡ some preview
      → denies forced ≡ true
      → Decided now ids
          (request_of h preview tier)
          (specify now (request_of h preview tier) (evaluator h.call forced) run s)
          s
          t
      → committed run_id s ≤ h.call.config.budget.run_usd_cap + tolerance
      → committed run_id t ≤ h.call.config.budget.run_usd_cap + tolerance
  written-committed preview tier forced now ids run s run_id previewed denied
        (with_reservation t go free e) below =
      let q = request_of h preview tier in
      let asked = specify-approved now q (evaluator h.call forced) run s go in
      let fits =
        evaluated-cost preview (snapshot q.run_id s) forced previewed denied
          (ground (arith, asked, go)) in
      rw e (
        approved_dollars (λ x. h.call.config.budget.run_usd_cap) now ids q s run_id
          (committed_fits q s fits) below)
  written-committed preview tier forced now ids run s run_id previewed denied
        (without_reservation t stop e) below =
      rw e below

-- While the budget is enforced, a transaction of the hook that commits keeps what a run has spent and
-- reserved within the cap of the configuration, up to the tolerance of one picodollar, on a ladder
-- with canonical efforts, if the hook lets the policy decide or forces a denial and the run was within
-- that bound.
pub persist_within_budget :
    (h : HookCall) (now : Time) (ids : FreshIds) (forced : Option DecisionSpec) (s : Tables)
    (d : DecisionRow) (t : Tables) (run_id : String)
    → IsLadder h.call.config
    → h.call.config.budget.enforce ≡ true
    → denies forced ≡ true
    → persist now ids h forced s ≡ ok (d, t)
    → committed run_id s ≤ h.call.config.budget.run_usd_cap + tolerance
    → committed run_id t ≤ h.call.config.budget.run_usd_cap + tolerance
persist_within_budget h now ids forced s d t run_id valid enforced denied run below =
    let (preview, tier, previewed, at_tier, decision) = persist-eq-ok now ids h forced s d t run in
    let lower : committed run_id (expire_reservations now s)
        ≤ h.call.config.budget.run_usd_cap + tolerance =
      omega (arith, expire-committed run_id now s, below) in
    elim (decide_and_reserve-eq-ok now ids (request_of h preview tier) (evaluator h.call forced) s
      decision) [
        | inl (found, e) ↦ rw e lower
        | inr (row, fresh, known, e, w) ↦
            written-committed h valid enforced preview tier forced now ids row
              (expire_reservations now s) run_id previewed denied w lower
      ]
