-- ===== src/Conductor/Policy/Approval.antt =====
-- Everything that an approval of the policy rests on, gathered from the parts of `evaluate_policy`.
use agent_tooling.Prelude.{
  ℕ, ◌≡◌, refl, sym, ◌∙◌, subst, ◌⊎◌, inl, inr, Bool, true, false, some, arith, if◌then◌else◌,
}
use agent_tooling.Conductor.Schemas.{routing, admission, TierConfig, TaskEnvelope}
use agent_tooling.Conductor.Policy.Outcome.{PolicyEvaluation, Verdict, returned}
use agent_tooling.Conductor.Policy.Inputs.{Call, is_routing, forced_frontier}
use agent_tooling.Conductor.Policy.Routing.{Placement, routed}
use agent_tooling.Conductor.Policy.Ensures.{
  Ensures, proceeds, decides, Ensures-bind, Ensures-weaken,
}
use agent_tooling.Conductor.Policy.Authority.{IsLadder, IsRouted, routed-Ensures}
use agent_tooling.Conductor.Policy.{placed, evaluate, evaluate_policy}
use agent_tooling.Conductor.Policy.Admission.{
  IsScreened, screen-Ensures, IsAdmitted, admit_caller-Ensures,
}
use agent_tooling.Conductor.Policy.Placing.{
  IsPlaced, placed-Ensures, IsReserved, reserve_for-Ensures,
}

-- Everything that an approval rests on.
pub record IsApproved (c : Call) (e : PolicyEvaluation) : Type 0 where
  pub envelope : TaskEnvelope
  pub screened : IsScreened c envelope
  pub caller_index : ℕ
  pub caller : TierConfig
  pub admitted : IsAdmitted c caller_index caller
  pub placement : Placement
  pub in_routing :
      c.run.mode ≡ routing → IsRouted c (forced_frontier envelope) caller_index caller placement
  pub in_admission :
      c.run.mode ≡ admission → IsPlaced c (forced_frontier envelope) caller_index caller placement
  pub reserved : IsReserved c placement e

abbrev PlacedAs : Call → Bool → ℕ → TierConfig → Placement → Type 0
PlacedAs c forced k caller p =
    (c.run.mode ≡ routing → IsRouted c forced k caller p)
    × (c.run.mode ≡ admission → IsPlaced c forced k caller p)

-- On a ladder that loads, the policy does not raise, and an evaluation that is not an early return
-- is an approval.
pub evaluate-Ensures : (c : Call) → IsLadder c.config → Ensures (IsApproved c) (evaluate c)
unfolding evaluate
evaluate-Ensures c valid = Ensures-bind (screen-Ensures c) λ envelope screened.
    Ensures-bind (admit_caller-Ensures c) λ a admitted.
      Ensures-bind (place envelope a.0 a.1 screened.enforced admitted) λ p at_p.
        Ensures-weaken (reserve_for-Ensures c a.1 p) λ e reserved. record {
          envelope = envelope;
          screened = screened;
          caller_index = a.0;
          caller = a.1;
          admitted = admitted;
          placement = p;
          in_routing = at_p.0;
          in_admission = at_p.1;
          reserved = reserved;
        }
  where
    place :
        (envelope : TaskEnvelope) (k : ℕ) (caller : TierConfig)
        → (c.run.mode ≡ routing) ⊎ (c.run.mode ≡ admission)
        → IsAdmitted c k caller
        → Ensures (PlacedAs c (forced_frontier envelope) k caller) (
            if is_routing c.run.mode
            then routed c (forced_frontier envelope) k caller
            else placed c envelope k)
    place envelope k caller (inl mode) admitted =
        let e : is_routing c.run.mode ≡ true = ground arith in
        rw e (
          Ensures-weaken (routed-Ensures c (forced_frontier envelope) k caller valid)
            λ p h. ((λ _. h), (λ m. absurd (ground arith))))
    place envelope k caller (inr mode) admitted =
        let e : is_routing c.run.mode ≡ false = ground arith in
        rw e (
          Ensures-weaken (placed-Ensures c envelope k caller mode admitted.at_index)
            λ p h. ((λ m. absurd (ground arith)), (λ _. h)))

Ensures-returned :
    (c : Call) {v : Verdict PolicyEvaluation} {e : PolicyEvaluation}
    → Ensures (IsApproved c) v
    → returned v ≡ some e
    → e.reserve ≡ true
    → IsApproved c e
Ensures-returned c {e = e} (proceeds a p) h r = let q : a ≡ e = cc in subst (IsApproved c) q p
Ensures-returned c (decides a no_reserve q) h r = absurd (ground arith)

pub approved :
    (c : Call) (e : PolicyEvaluation)
    → IsLadder c.config
    → evaluate_policy c ≡ some e
    → e.reserve ≡ true
    → IsApproved c e
unfolding evaluate_policy
approved c e valid h r = Ensures-returned c (evaluate-Ensures c valid) h r

pub Ensures-total :
    {c : Call} {v : Verdict PolicyEvaluation}
    → Ensures (IsApproved c) v
    → (e : PolicyEvaluation) × (returned v ≡ some e)
Ensures-total (proceeds a p) = (a, refl)
Ensures-total (decides a r q) = (a, refl)

Ensures-reserve :
    {c : Call} {v : Verdict PolicyEvaluation} {e : PolicyEvaluation}
    → Ensures (IsApproved c) v
    → returned v ≡ some e
    → e.spec.reserve ≡ e.reserve
Ensures-reserve {e = e} (proceeds a p) h =
    let same : a ≡ e = cc in
    let spec : a.spec.reserve ≡ true = p.reserved.reserves in
    let own : a.reserve ≡ true = p.reserved.reserving in rw (← same) (spec ∙ sym own)
Ensures-reserve {e = e} (decides a r q) h = let same : a ≡ e = cc in rw (← same) q

-- What the store is told to reserve is what the evaluation says.
pub evaluate_policy-reserve :
    (c : Call) (e : PolicyEvaluation)
    → IsLadder c.config
    → evaluate_policy c ≡ some e
    → e.spec.reserve ≡ e.reserve
unfolding evaluate_policy
evaluate_policy-reserve c e valid h = Ensures-reserve (evaluate-Ensures c valid) h
