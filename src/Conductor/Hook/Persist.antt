-- ===== src/Conductor/Hook/Persist.antt =====
-- The hook's transaction: the request that the preview sizes is the one that the decision admits.
use agent_tooling.Prelude.{
  ℕ, ◌≤◌, ◌<◌, ◌≡◌, ◌∙◌, String, Bool, true, not, Option, none, some, arith, get_elem?, every,
  every-get_elem?, eqb, inl, inr, Bool-cases,
}
use agent_tooling.Conductor.Schemas.{ConductorConfig, TierConfig, ReservationSnapshot, Time}
use agent_tooling.Conductor.Policy.Outcome.{DecisionSpec, PolicyEvaluation}
use agent_tooling.Conductor.Policy.Authority.{IsLadder}
use agent_tooling.Conductor.Policy.{evaluate_policy}
use agent_tooling.Conductor.Policy.Safety.{reserve_on_ladder, evaluate_policy_total}
use agent_tooling.Conductor.Policy.Approval.{evaluate_policy-reserve}
use agent_tooling.Conductor.Policy.Snapshot.{with_snapshot, empty_snapshot, preview_agrees}
use agent_tooling.Conductor.Store.Result.{
  Result, ok, value_error, ◌>>=◌, ◌>>◌, raise_if, or_raise, >>=-eq-ok, raise_if-eq-ok,
  or_raise-eq-ok,
}
use agent_tooling.Conductor.Store.Tables.{DecisionRow, Tables}
use agent_tooling.Conductor.Store.Reservations.{FreshIds, is_request, decide_and_reserve}
use agent_tooling.Conductor.Store.Reservations.Caps.{active}
use agent_tooling.Conductor.Store.Steps.{Respects, Step, decided, done, then, slots_within_caps}
use agent_tooling.Conductor.Hook.{HookCall, request_tier, request_of, evaluator, persist}

-- The caps are those of the tiers of the configuration.
pub record AreCaps (caps : String → ℕ) (c : ConductorConfig) : Type 0 where
  pub at_tier : every (λ (t : TierConfig). eqb (caps t.name) t.max_concurrent) c.tiers ≡ true

-- A decision that the hook forces on the store is a denial.
abbrev pub denies : Option DecisionSpec → Bool
denies none = true
denies (some forced) = not forced.allowed

cap_at :
    {caps : String → ℕ} {c : ConductorConfig}
    → AreCaps caps c
    → (i : ℕ) (t : TierConfig) → get_elem? c.tiers i ≡ some t
    → caps t.name ≡ t.max_concurrent
cap_at {caps} {c} fits i t found =
    let equal =
      every-get_elem? (λ (t : TierConfig). eqb (caps t.name) t.max_concurrent) c.tiers i t
        fits.at_tier found in
    ground arith

-- A call that returned, with the preview and the tier of its request.
pub persist-eq-ok :
    (now : Time) (ids : FreshIds) (h : HookCall) (forced : Option DecisionSpec) (s : Tables)
    (d : DecisionRow) (t : Tables)
    → persist now ids h forced s ≡ ok (d, t)
    → (preview : PolicyEvaluation) × (tier : TierConfig) × (evaluate_policy
          (with_snapshot h.call empty_snapshot)
        ≡ some preview)
      × (request_tier h.call preview ≡ some tier)
      × (decide_and_reserve now ids (request_of h preview tier) (evaluator h.call forced) s
          ≡ ok (d, t))
unfolding persist
persist-eq-ok now ids h forced s d t run =
    let decide : PolicyEvaluation → TierConfig → Result (DecisionRow × Tables) = λ preview tier.
      decide_and_reserve now ids (request_of h preview tier) (evaluator h.call forced) s in
    let build : PolicyEvaluation → TierConfig → Result (DecisionRow × Tables) = λ preview tier.
      raise_if (not (is_request (request_of h preview tier))) value_error >> decide preview tier in
    let size : PolicyEvaluation → Result (DecisionRow × Tables) =
      λ preview. or_raise (request_tier h.call preview) value_error >>= build preview in
    let (preview, previewed, h1) =
      >>=-eq-ok (or_raise (evaluate_policy (with_snapshot h.call empty_snapshot)) value_error) size
        {v = (d, t)} run in
    let (tier, at_tier, h2) =
      >>=-eq-ok (or_raise (request_tier h.call preview) value_error) (build preview) {v = (d, t)}
        h1 in
    let (_, h3) =
      raise_if-eq-ok (not (is_request (request_of h preview tier))) value_error
        (decide preview tier) {v = (d, t)} h2 in
    (
      preview,
      tier,
      or_raise-eq-ok _ value_error previewed,
      or_raise-eq-ok _ value_error at_tier,
      h3,
    )

module _ (caps : String → ℕ) (h : HookCall) (valid : IsLadder h.call.config)
    (fits : AreCaps caps h.call.config) where
  evaluated-room :
      (preview : PolicyEvaluation) (tier : TierConfig) (shot : ReservationSnapshot)
      (e : PolicyEvaluation)
      → evaluate_policy (with_snapshot h.call empty_snapshot) ≡ some preview
      → request_tier h.call preview ≡ some tier
      → evaluate_policy (with_snapshot h.call shot) ≡ some e
      → e.reserve ≡ true
      → shot.active_by_tier tier.name < caps tier.name
  evaluated-room preview tier shot e previewed at_tier evaluated reserves =
      let (f, at_f, same) = preview_agrees h.call shot e evaluated reserves in
      let (i, target, here, of_e, room) =
        reserve_on_ladder (with_snapshot h.call shot) e valid evaluated reserves in
      let of_preview : preview.tier ≡ some target =
        (let twin : f ≡ preview = ground arith in rw (← twin) (same.tier ∙ of_e)) in
      let chosen : target ≡ tier = ground arith in rw (← chosen, cap_at fits i target here) room

  hook-Respects :
      (preview : PolicyEvaluation) (tier : TierConfig) (forced : Option DecisionSpec)
      → denies forced ≡ true
      → evaluate_policy (with_snapshot h.call empty_snapshot) ≡ some preview
      → request_tier h.call preview ≡ some tier
      → Respects caps (request_of h preview tier) (evaluator h.call forced)
  unfolding evaluator
  hook-Respects preview tier (some forced) denied previewed at_tier = record {
    leaves_slot = λ shot. inl (ground arith);
  }
  hook-Respects preview tier none denied previewed at_tier = record {
    leaves_slot = λ shot.
        let (e, evaluated) = evaluate_policy_total (with_snapshot h.call shot) valid in
        let same = evaluate_policy-reserve (with_snapshot h.call shot) e valid evaluated in
        rw evaluated (elim (Bool-cases e.reserve) [
          | inl reserves ↦
              inr (evaluated-room preview tier shot e previewed at_tier evaluated reserves)
          | inr leaves ↦ inl (ground (arith, same, leaves))
        ]);
  }

  -- The hook's transaction is a step of the store.
  persist-Step :
      (now : Time) (ids : FreshIds) (forced : Option DecisionSpec) (s : Tables) (d : DecisionRow)
      (t : Tables)
      → denies forced ≡ true
      → persist now ids h forced s ≡ ok (d, t)
      → Step caps s t
  persist-Step now ids forced s d t denied run =
      let (preview, tier, previewed, at_tier, decision) =
        persist-eq-ok now ids h forced s d t run in
      decided now ids (request_of h preview tier) (evaluator h.call forced) d
        (hook-Respects preview tier forced denied previewed at_tier) decision

-- A transaction of the hook that commits keeps the subagents of a tier within the concurrency cap
-- that the configuration gives the tier, whatever the hook is called with, on a ladder with canonical
-- efforts, if the hook lets the policy decide or forces a denial and the tier was within its cap.
pub persist_within_caps :
    (caps : String → ℕ) (h : HookCall) (now : Time) (ids : FreshIds) (forced : Option DecisionSpec)
    (s : Tables) (d : DecisionRow) (t : Tables) (run_id tier : String)
    → IsLadder h.call.config
    → AreCaps caps h.call.config
    → denies forced ≡ true
    → persist now ids h forced s ≡ ok (d, t)
    → active run_id tier s ≤ caps tier
    → active run_id tier t ≤ caps tier
persist_within_caps caps h now ids forced s d t run_id tier valid fits denied run below =
    slots_within_caps caps run_id tier
      (then (persist-Step caps h valid fits now ids forced s d t denied run) done) below
