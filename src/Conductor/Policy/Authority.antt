-- ===== src/Conductor/Policy/Authority.antt =====
-- What the routing branch of the policy guarantees of the placement that it lets through: the
-- worker has no more authority than its caller.
use Prim.Native.Nat.{min}
use agent_tooling.Prelude.{
  ℕ, ◌≡◌, refl, ◌∙◌, ◌≤◌, ◌<◌, ◌⊎◌, inl, inr, String, Bool, true, false, not, ◌&&◌, ◌||◌, Option,
  none, some, arith, if◌then◌else◌, ◌==◌, eq_iff, is_some, contains_ℕ, get_elem?, get_elem?-found,
  every, every-get_elem?, index_of-lt-length, Bool-cases, Option-cases,
}
use agent_tooling.Conductor.Schemas.{
  TierConfig, ConductorConfig, effort_index, reasoning_efforts, supports_effort,
  effective_capability_rank,
}
use agent_tooling.Conductor.Policy.Outcome.{proceed}
use agent_tooling.Conductor.Policy.Inputs.{
  Call, is_codex, forks_all, requested_model, requested_effort,
}
use agent_tooling.Conductor.Policy.Routing.{
  Placement, requested_worker, keep_on_frontier, route_target, default_effort, model_ceilings,
  lower_effort, compare_efforts, option_index, is_newer, effort_ceilings, cheaper, routed,
}
use agent_tooling.Conductor.Policy.Ensures.{
  Ensures, proceeds, Ensures-bind, Ensures-weaken, Ensures-if, Ensures-deny_if, Ensures-deny_last,
  Ensures-deny_with, Ensures-or_deny, Ensures-or_raise, Ensures-or_raise_then,
}
use agent_tooling.Conductor.Policy.Ladder.{tier_index_for_model-found, frontier_index-found}

-- `TierConfig` admits only a canonical effort, so this holds of every configuration that loads.
pub record IsLadder (c : ConductorConfig) : Type 0 where
  pub efforts : every (λ t. is_some (effort_index t.reasoning_effort)) c.tiers ≡ true

pub canonical :
    {c : ConductorConfig}
    → IsLadder c
    → (i : ℕ) (t : TierConfig) → get_elem? c.tiers i ≡ some t
    → is_some (effort_index t.reasoning_effort) ≡ true
canonical {c} valid i t found =
    every-get_elem? (λ t. is_some (effort_index t.reasoning_effort)) c.tiers i t valid.efforts found

-- The enabled tier of an index; high-risk work stays on the caller's own tier, the frontier.
pub record IsTarget (c : Call) (forced : Bool) (caller_index : ℕ) (t : TierConfig) : Type 0 where
  pub index : ℕ
  pub at_index : get_elem? c.config.tiers index ≡ some t
  pub is_enabled : contains_ℕ index c.enabled_tiers ≡ true
  pub on_frontier : forced ≡ true → (index ≡ caller_index) × (t.name ≡ "frontier")

-- The worker's model is the caller's own, or both are of known generations; where they are known the
-- worker's is no newer than the caller's; its capability is no greater.
pub record IsWithinModel (target caller : TierConfig) : Type 0 where
  pub generation :
      (target.model ≡ caller.model)
      ⊎ ((g : ℕ) × (k : ℕ) × (target.generation_rank ≡ some g)
          × (caller.generation_rank ≡ some k)
          × (g ≤ k))
  pub no_newer :
      (g k : ℕ) → target.generation_rank ≡ some g → caller.generation_rank ≡ some k → g ≤ k
  pub no_stronger : effective_capability_rank target ≤ effective_capability_rank caller

-- The worker's effort is canonical, at most the caller's, and one that its model supports.
pub record IsWithinEffort (c : Call) (p : Placement) : Type 0 where
  pub effort : String
  pub rank : ℕ
  pub caller_rank : ℕ
  pub chosen : p.effort ≡ some effort
  pub ranked : effort_index effort ≡ some rank
  pub caller_ranked : effort_index c.caller_effort ≡ some caller_rank
  pub at_most : rank ≤ caller_rank
  pub supported : supports_effort p.target effort ≡ true

keep_on_frontier-Ensures :
    (c : Call) (k j : ℕ) (t : TierConfig)
    → get_elem? c.config.tiers j ≡ some t
    → Ensures (λ _. (j ≡ k) × (t.name ≡ "frontier")) (keep_on_frontier c k j)
unfolding keep_on_frontier
keep_on_frontier-Ensures c k j t found = Ensures-or_deny _ _ λ f at_f. Ensures-deny_if _ _ _ λ same.
    Ensures-deny_last _ _ _ λ target_same.
      let (u, u_found, named, _) = frontier_index-found c.config c.enabled_tiers f at_f in
      let e : j ≡ f = ground arith in let here : t ≡ u = cc in (ground arith, rw here named)

route_target-Ensures :
    (c : Call) (forced : Bool) (k : ℕ) (m : String)
    → Ensures (λ t. IsTarget c forced k t) (route_target c forced k m)
unfolding route_target
route_target-Ensures c forced k m = Ensures-or_deny _ _ λ j at_j. Ensures-deny_if _ _ _ λ on.
    let (t, found, _) = tier_index_for_model-found c.config m j at_j in
    Ensures-bind (gate forced j t found) λ _ front.
      Ensures-or_raise _ t found
        (record { index = j; at_index = found; is_enabled = ground arith; on_frontier = front })
  where
    gate :
        (b : Bool) (j : ℕ) (t : TierConfig)
        → get_elem? c.config.tiers j ≡ some t
        → Ensures
            (λ _. b ≡ true → (j ≡ k) × (t.name ≡ "frontier"))
            (if b then keep_on_frontier c k j else proceed tt)
    gate true j t found = Ensures-weaken (keep_on_frontier-Ensures c k j t found) (λ u h _. h)
    gate false j t found = proceeds tt (λ h. absurd (ground arith))

requested_worker-Ensures :
    (c : Call) → Ensures (λ w. is_codex c.run.provider ≡ false → w.1 ≡ none) (requested_worker c)
unfolding requested_worker
requested_worker-Ensures c =
    Ensures-if (is_codex c.run.provider)
      (λ codex_run.
        Ensures-if
          (forks_all c.operation
            && not (is_some (requested_model c.operation))
            && not (is_some (requested_effort c.operation)))
          (λ all. proceeds _ (λ h. absurd (ground arith)))
          (λ own. Ensures-or_deny _ _ (λ m e. proceeds _ (λ h. absurd (ground arith)))))
      (λ is_claude_run. proceeds _ (λ _. refl))

is_some-found : (o : Option ℕ) → is_some o ≡ true → (i : ℕ) × (o ≡ some i)
is_some-found none h = absurd (ground arith)
is_some-found (some i) h = (i, refl)

min_effort :
    (a b : String) (i j : ℕ)
    → effort_index a ≡ some i
    → effort_index b ≡ some j
    → (e : String) × (get_elem? reasoning_efforts (min i j) ≡ some e)
unfolding effort_index
min_effort a b i j p q =
    get_elem?-found reasoning_efforts (min i j)
      (omega (arith, index_of-lt-length a reasoning_efforts i p))

default_effort-Ensures :
    (c : Call) (p : Placement)
    → is_some (effort_index p.target.reasoning_effort) ≡ true
    → Ensures (λ e. is_codex c.run.provider ≡ false → e ≡ p.effort) (default_effort c p)
unfolding default_effort
default_effort-Ensures c p canonical =
    Ensures-if (is_codex c.run.provider && not (is_some p.effort))
      (λ open_effort. lowered (effort_index c.caller_effort) refl (ground arith))
      (λ given. proceeds p.effort (λ _. refl))
  where
    lowered :
        (o : Option ℕ)
        → effort_index c.caller_effort ≡ o
        → is_codex c.run.provider ≡ true
        → Ensures (λ e. is_codex c.run.provider ≡ false → e ≡ p.effort) (lower_effort p o)
    lowered none q codex_run = unfold lower_effort in Ensures-deny_with _ _
    lowered (some ci) q codex_run =
        let (ti, at_ti) = is_some-found (effort_index p.target.reasoning_effort) canonical in
        let (e, at_e) = min_effort c.caller_effort p.target.reasoning_effort ci ti q at_ti in
        unfold lower_effort in
        Ensures-or_raise_then _ _ ti at_ti
          (Ensures-or_raise_then _ _ e at_e (proceeds (some e) (λ h. absurd (ground arith))))

generation_within :
    (target caller : TierConfig)
    → (not (target.model == caller.model)
        && (not (is_some target.generation_rank) || not (is_some caller.generation_rank)))
      ≡ false
    → is_newer target.generation_rank caller.generation_rank ≡ false
    → (target.model ≡ caller.model)
      ⊎ ((g : ℕ) × (k : ℕ) × (target.generation_rank ≡ some g)
          × (caller.generation_rank ≡ some k)
          × (g ≤ k))
generation_within target caller known old = elim (Bool-cases (target.model == caller.model)) [
  | inl e ↦ inl ((eq_iff target.model caller.model).0 e)
  | inr e ↦ inr (elim (Option-cases target.generation_rank) [
    | inl n ↦ absurd (ground arith)
    | inr (g, eg) ↦ elim (Option-cases caller.generation_rank) [
      | inl n ↦ absurd (ground arith)
      | inr (k, ek) ↦ (g, k, eg, ek, ground arith)
    ]
  ])
]

not_newer : (t k : Option ℕ) → is_newer t k ≡ false → (g h : ℕ) → t ≡ some g → k ≡ some h → g ≤ h
not_newer t k old g h e f = ground arith

model_ceilings-Ensures :
    (p : Placement) (caller : TierConfig)
    → Ensures (λ _. IsWithinModel p.target caller) (model_ceilings p caller)
unfolding model_ceilings
model_ceilings-Ensures p caller = Ensures-deny_if _ _ _ λ known. Ensures-deny_if _ _ _ λ old.
    Ensures-deny_last _ _ _ λ weak. record {
      generation = generation_within p.target caller known old;
      no_newer = not_newer p.target.generation_rank caller.generation_rank old;
      no_stronger = ground arith;
    }

compare_efforts-Ensures :
    (c : Call) (p : Placement) (o r : Option ℕ)
    → effort_index c.caller_effort ≡ o
    → option_index p.effort ≡ r
    → Ensures (λ _. IsWithinEffort c p) (compare_efforts p o r)
unfolding compare_efforts
compare_efforts-Ensures c p none r eo er = Ensures-deny_with _ _
compare_efforts-Ensures c p (some ci) none eo er = Ensures-deny_with _ _
compare_efforts-Ensures c p (some ci) (some ri) eo er = Ensures-deny_if _ _ _ λ low.
    Ensures-deny_last _ _ _ λ fits. elim (Option-cases p.effort) [
      | inl n ↦ absurd (ground arith)
      | inr (x, e) ↦ record {
        effort = x;
        rank = ri;
        caller_rank = ci;
        chosen = e;
        ranked = ground arith;
        caller_ranked = eo;
        at_most = ground arith;
        supported = ground arith;
      }
    ]

effort_ceilings-Ensures :
    (c : Call) (p : Placement)
    → Ensures (λ _. is_codex c.run.provider ≡ true → IsWithinEffort c p) (effort_ceilings c p)
unfolding effort_ceilings
effort_ceilings-Ensures c p =
    Ensures-if (is_codex c.run.provider)
      (λ _. Ensures-weaken (compare_efforts-Ensures c p _ _ refl refl) (λ _ h _. h))
      (λ claude_run. proceeds tt (λ h. absurd (ground arith)))

cheaper-Ensures :
    (c : Call) (p : Placement) (caller : TierConfig)
    → Ensures
        (λ _.
          c.config.policy.require_strictly_cheaper ≡ true
          → (p.target.relative_cost_weight < caller.relative_cost_weight)
            ⊎ (p.target.model ≡ caller.model))
        (cheaper c p caller)
unfolding cheaper
cheaper-Ensures c p caller =
    Ensures-deny_last _ _ _ λ ok required. ground (arith, eq_iff p.target.model caller.model)

-- A placement that the routing branch lets through.
pub record IsRouted (c : Call) (forced : Bool) (caller_index : ℕ) (caller : TierConfig)
    (p : Placement) : Type 0 where
  pub target : IsTarget c forced caller_index p.target
  pub named : p.selected_model ≡ some p.target.model
  pub priced : p.estimate ≡ p.target.est_task_usd
  pub within_model : IsWithinModel p.target caller
  pub within_effort : is_codex c.run.provider ≡ true → IsWithinEffort c p
  pub no_effort : is_codex c.run.provider ≡ false → p.effort ≡ none
  pub cheap :
      c.config.policy.require_strictly_cheaper ≡ true
      → (p.target.relative_cost_weight < caller.relative_cost_weight)
        ⊎ (p.target.model ≡ caller.model)

-- On a ladder that loads, the routing branch does not raise, and what it lets through gives the
-- worker no more authority than its caller has.
pub routed-Ensures :
    (c : Call) (forced : Bool) (k : ℕ) (caller : TierConfig)
    → IsLadder c.config
    → Ensures (IsRouted c forced k caller) (routed c forced k caller)
unfolding routed
routed-Ensures c forced k caller valid =
    Ensures-bind (requested_worker-Ensures c) λ w none_for_claude.
      Ensures-bind (route_target-Ensures c forced k w.0) λ t is_target.
        let open_effort : Placement = record {
          target = t;
          selected_model = some t.model;
          effort = w.1;
          estimate = t.est_task_usd;
        } in
        Ensures-bind
          (default_effort-Ensures c open_effort
            (canonical valid is_target.index t is_target.at_index))
          λ e kept.
            let p : Placement = record open_effort { effort = e } in
            Ensures-bind (model_ceilings-Ensures p caller) λ _ within_model.
              Ensures-bind (effort_ceilings-Ensures c p) λ _ within_effort.
                Ensures-bind (cheaper-Ensures c p caller) λ _ cheap. proceeds p (record {
                  target = is_target;
                  named = refl;
                  priced = refl;
                  within_model = within_model;
                  within_effort = within_effort;
                  no_effort = λ h. kept h ∙ none_for_claude h;
                  cheap = cheap;
                })
