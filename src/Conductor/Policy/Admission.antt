-- ===== src/Conductor/Policy/Admission.antt =====
-- What `screen` and `admit_caller` let through.
use agent_tooling.Prelude.{ℕ, ◌≡◌, refl, ◌<◌, ◌⊎◌, inl, inr, true, ◌&&◌, some, arith, get_elem?}
use agent_tooling.Conductor.Schemas.{
  tier_index_for_model, OperatingMode, routing, admission, observe, unsupported, TierConfig,
  TaskEnvelope,
}
use agent_tooling.Conductor.Policy.Inputs.{Call, Depth, depth, negative, is_governed, same_provider}
use agent_tooling.Conductor.Policy.Ensures.{
  Ensures, proceeds, Ensures-bind, Ensures-return, Ensures-if, Ensures-deny_if, Ensures-deny_last,
  Ensures-deny_with, Ensures-or_deny, Ensures-or_raise_then,
}
use agent_tooling.Conductor.Policy.Ladder.{tier_index_for_model-found}
use agent_tooling.Conductor.Policy.{mode_gate, screen, check_depth, admit_caller}

-- Governed new work whose envelope and provider fit the run, in a mode that enforces.
pub record IsScreened (c : Call) (e : TaskEnvelope) : Type 0 where
  pub governed : is_governed c.operation.operation ≡ true
  pub is_new : c.operation.is_new_work ≡ true
  pub enforced : (c.run.mode ≡ routing) ⊎ (c.run.mode ≡ admission)
  pub enveloped : c.operation.envelope ≡ some e
  pub new_task : e.new_task ≡ true
  pub provider : same_provider c.operation.provider c.run.provider ≡ true

pub mode_gate-Ensures :
    (m : OperatingMode) → Ensures (λ _. (m ≡ routing) ⊎ (m ≡ admission)) (mode_gate m)
unfolding mode_gate
mode_gate-Ensures routing = proceeds tt (inl refl)
mode_gate-Ensures admission = proceeds tt (inr refl)
mode_gate-Ensures observe = Ensures-return _ _
mode_gate-Ensures unsupported = Ensures-deny_with _ _

pub screen-Ensures : (c : Call) → Ensures (IsScreened c) (screen c)
unfolding screen
screen-Ensures c =
    Ensures-if (is_governed c.operation.operation && c.operation.is_new_work)
      (λ work. Ensures-bind (mode_gate-Ensures c.run.mode) λ _ enforced.
        Ensures-or_deny _ _ λ e enveloped. Ensures-deny_if _ _ _ λ fresh.
          Ensures-deny_if _ _ _ λ same. proceeds e (record {
            governed = ground arith;
            is_new = ground arith;
            enforced = enforced;
            enveloped = enveloped;
            new_task = ground arith;
            provider = ground arith;
          }))
      (λ other_work. Ensures-return _ _)

-- The caller is a tier of the ladder that may delegate, below the depth limit.
pub record IsAdmitted (c : Call) (index : ℕ) (caller : TierConfig) : Type 0 where
  pub caller_depth : ℕ
  pub at_depth : c.caller_depth ≡ depth caller_depth
  pub below_limit : caller_depth < c.config.policy.max_depth
  pub looked_up : tier_index_for_model c.config c.caller_model ≡ some index
  pub at_index : get_elem? c.config.tiers index ≡ some caller
  pub of_model : caller.model ≡ c.caller_model
  pub may_spawn : caller.may_spawn ≡ true

check_depth-Ensures :
    (d : Depth) (n : ℕ) → Ensures (λ _. (k : ℕ) × (d ≡ depth k) × (k < n)) (check_depth d n)
unfolding check_depth
check_depth-Ensures (negative k) n = Ensures-deny_with _ _
check_depth-Ensures (depth k) n = Ensures-deny_last _ _ _ λ h. (k, refl, ground arith)

pub admit_caller-Ensures : (c : Call) → Ensures (λ a. IsAdmitted c a.0 a.1) (admit_caller c)
unfolding admit_caller
admit_caller-Ensures c =
    Ensures-bind (check_depth-Ensures c.caller_depth c.config.policy.max_depth) λ _ d.
      Ensures-or_deny _ _ λ i at_i.
        let (t, found, named) = tier_index_for_model-found c.config c.caller_model i at_i in
        Ensures-or_raise_then _ _ t found (
          Ensures-deny_if _ _ _ λ spawns.
            proceeds (i, t)
              (record {
                caller_depth = d.0;
                at_depth = d.1;
                below_limit = d.2;
                looked_up = at_i;
                at_index = found;
                of_model = named;
                may_spawn = ground arith;
              }))
