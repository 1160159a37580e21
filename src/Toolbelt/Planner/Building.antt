-- ===== src/Toolbelt/Planner/Building.antt =====
-- What `build_plan_v2` of toolbelt/src/toolbelt/planner.py builds, and when it builds a plan at all.
use agent_tooling.Prelude.{
  ℕ, ◌+◌, ◌≡◌, refl, subst, ◌<◌, String, false, not, ◌||◌, eqb, ltb, none, List, every, true, arith,
}
use agent_tooling.Toolbelt.Errors.{
  value_error, raise_when, returned, with_value-returned, after-returned,
}
use agent_tooling.Toolbelt.Schemas.{CapabilitySnapshot, Action, RepositoryBinding, Plan}
use agent_tooling.Toolbelt.Policy.{Recommendation, Request, recommend}
use agent_tooling.Toolbelt.Planner.{Catalog, Host, validate_action_contracts}
use agent_tooling.Toolbelt.Planner.Plans.{
  seven_days, sort_evidence, actions_from, is_plan, calculate_plan_id, catalog_digest, draft,
  finish, build_explicit_plan, build_plan, validate_plan_binding,
}
use agent_tooling.Toolbelt.Planner.Contracts.{validate_exact}
use agent_tooling.Toolbelt.Planner.Making.{
  actions_from-AllContracts, has_reason, recommended_actions,
}
use agent_tooling.Toolbelt.Planner.Binding.{unchanged_checkout, IsCurrent, IsCurrent-validate}

pub finish-returned :
    (host : Host) (d p : Plan)
    → finish host d ≡ returned p
    → record d { plan_id = calculate_plan_id host d } ≡ p
finish-returned host d p h =
    let (exact, built) =
      after-returned (raise_when (not (is_plan d)) value_error none)
        (returned (record d { plan_id = calculate_plan_id host d })) h in
    ground (arith, built)

module _ (host : Host) (c : Catalog) (capabilities : CapabilitySnapshot) (now ttl : ℕ) where
  signed_IsCurrent :
      (actions : List Action) (digest : String) (b : RepositoryBinding) (later : ℕ)
      → catalog_digest host c ≡ returned digest
      → validate_action_contracts actions c.tools ≡ none
      → host.binding ≡ returned b
      → later < now + ttl
      → IsCurrent host
          (let d = draft host c capabilities actions now ttl digest b in
            record d { plan_id = calculate_plan_id host d })
          c
          capabilities
          later
  unfolding calculate_plan_id
  signed_IsCurrent actions digest b later same_bytes contracts read before = record {
    binding = b;
    signed = refl;
    unexpired = before;
    same_catalog = same_bytes;
    same_versions = refl;
    contracts = contracts;
    same_capabilities = refl;
    read = read;
    same_checkout = unchanged_checkout b;
  }

  -- A plan that was built is current until it expires.
  pub build_explicit_plan-IsCurrent :
      (actions : List Action) (p : Plan) (later : ℕ)
      → build_explicit_plan host c capabilities actions now ttl ≡ returned p
      → later < now + ttl
      → IsCurrent host p c capabilities later
  unfolding build_explicit_plan
  build_explicit_plan-IsCurrent actions p later built before =
      let (lived, h1) = after-returned _ _ built in
      let (digest, same_bytes, h2) = with_value-returned (catalog_digest host c) _ h1 in
      let (contracts, h3) = after-returned _ _ h2 in
      let (b, read, h4) = with_value-returned host.binding _ h3 in
      subst (λ r. IsCurrent host r c capabilities later)
        (finish-returned host (draft host c capabilities actions now ttl digest b) p h4)
        (signed_IsCurrent actions digest b later same_bytes contracts read before)

-- The recommendations for a request, as `build_plan` asks for them.
abbrev pub recommended : Request → Catalog → List Recommendation
recommended q c = recommend (record q { evidence = sort_evidence q.evidence }) c.tools

module _ (host : Host) (q : Request) (c : Catalog) (now ttl : ℕ) where
  -- What `build_plan` builds, `validate_plan_binding` accepts at every time before now + ttl, with
  -- the same catalog, capabilities and repository.
  pub validate-build_plan :
      (p : Plan) (later : ℕ)
      → build_plan host q c now ttl ≡ returned p
      → later < now + ttl
      → validate_plan_binding host p c q.capabilities later ≡ none
  unfolding build_plan
  validate-build_plan p later built before =
      let (lived, h) = after-returned _ _ built in
      let (actions, made, h1) =
        with_value-returned (actions_from c.tools 1 (recommended q c)) _ h in
      IsCurrent-validate host p c q.capabilities later
        (build_explicit_plan-IsCurrent host c q.capabilities now ttl actions p later h1 before)

  -- With a time to live that is positive and at most seven days, a catalog whose digest is that of
  -- its bytes, a repository that was read, and reasons of the offered recommendations that have from 1
  -- to 2048 characters, `build_plan` makes actions of the recommendations and comes to the checks of the
  -- plan's model: every tool that is looked up is there, and the catalog's contracts refuse no action.
  pub build_plan_reaches_model :
      (b : RepositoryBinding)
      → (eqb ttl 0 || ltb seven_days ttl) ≡ false
      → catalog_digest host c ≡ returned c.digest
      → host.binding ≡ returned b
      → every has_reason (recommended q c) ≡ true
      → (actions : List Action) × (actions_from c.tools 1 (recommended q c) ≡ returned actions)
        × (build_plan host q c now ttl
            ≡ finish host (draft host c q.capabilities actions now ttl c.digest b))
  unfolding build_plan build_explicit_plan
  build_plan_reaches_model b lived same_bytes read reasoned =
      let (actions, made) =
        recommended_actions (record q { evidence = sort_evidence q.evidence }) c.tools reasoned in
      let contracts =
        (validate_exact c.tools actions).1
          (actions_from-AllContracts c.tools 1 (recommended q c) actions made) in
      (actions, made, rw (lived, made, same_bytes, contracts, read) refl)
