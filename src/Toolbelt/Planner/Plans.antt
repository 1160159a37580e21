-- ===== src/Toolbelt/Planner/Plans.antt =====
-- `build_plan_v2`, `build_explicit_plan_v2` and `validate_plan_binding` of
-- toolbelt/src/toolbelt/planner.py, and the checks of `PlanV2` in toolbelt/src/toolbelt/schemas.py.
use Prim.Native.String.{◌++◌}
use agent_tooling.Prelude.{
  ℕ, zero, suc, ◌+◌, ◌-◌, ◌*◌, String, Bool, true, not, ◌&&◌, ◌||◌, Option, none, some, List, [],
  ◌∷◌, ltb, leb, eqb, length, codes, decimal, find_last, every, opt_is, if◌then◌else◌, ◌==◌,
}
use agent_tooling.Toolbelt.Errors.{
  validation, stale_plan, value_error, key_error, Check, raise_when, and_then, Attempt, returned,
  raised, with_value, after, check_value,
}
use agent_tooling.Toolbelt.Schemas.{
  install, EvidenceStrength, weak, strong, required, Evidence, CapabilitySnapshot, CatalogTool,
  Action, RepositoryBinding, Plan,
}
use agent_tooling.Toolbelt.Schemas.Equality.{same_option}
use agent_tooling.Toolbelt.Policy.Matching.{identity, identity_leb}
use agent_tooling.Toolbelt.Policy.{Recommendation, Request, recommend}
use agent_tooling.Toolbelt.Policy.Safety.{offers_install}
use agent_tooling.Toolbelt.Planner.{
  Catalog, Host, tool_at, versions, same_items, validate_action_contracts,
}

abbrev strength_text : EvidenceStrength → String
strength_text weak = "weak"
strength_text strong = "strong"
strength_text required = "required"

abbrev with_last : List String → String → List String
with_last [] x = x ∷ []
with_last (y ∷ ys) x = y ∷ with_last ys x

abbrev sort_key : Evidence → List String
sort_key item = with_last (identity item) (strength_text item.strength)

unfoldable pub insert_evidence : Evidence → List Evidence → List Evidence
insert_evidence item [] = item ∷ []
insert_evidence item (other ∷ others) =
    let later = insert_evidence item others in
    if identity_leb (sort_key item) (sort_key other) then item ∷ other ∷ others else other ∷ later

-- `ordered_evidence`
unfoldable pub sort_evidence : List Evidence → List Evidence
sort_evidence [] = []
sort_evidence (item ∷ items) = insert_evidence item (sort_evidence items)

abbrev zeros : ℕ → String
zeros zero = ""
zeros (suc n) = "0" ++ zeros n

-- `f"a{n:04d}"`
unfoldable pub action_id : ℕ → String
action_id n = let digits = decimal (suc n) n in "a" ++ (zeros (4 - length (codes digits)) ++ digits)

abbrev pub install_action : ℕ → Recommendation → CatalogTool → Action
install_action n item t = record {
  id = action_id n;
  operation = install;
  tool_id = t.id;
  tool_version = t.version;
  install_scope = t.install_scope;
  permissions = t.permissions;
  evidence = item.evidence;
  confidence = item.confidence;
  why = item.why;
  steps = t.installing ∷ [];
  verify_steps = t.verifying_step ∷ [];
  rollback_steps = t.rollback_step ∷ [];
  required_env = t.required_env;
}

-- The constraint on `why` of `ActionV2`, whose other fields come from a tool or an evidence that has
-- passed the same ones. A reason of `recommend` has no white space at its ends to strip.
abbrev pub is_reason : String → Bool
is_reason why = let n = length (codes why) in ltb 0 n && leb n 2048

-- `ActionV2(...)`: pydantic's ValidationError is a ValueError.
unfoldable pub make_action : ℕ → Recommendation → Option CatalogTool → Attempt Action
make_action n item none = raised key_error
make_action n item (some t) =
    after (raise_when (not (is_reason item.why)) value_error none)
      (returned (install_action n item t))

-- `actions.append(...)`, before the rest of the loop.
abbrev pub cons_action : Attempt Action → Attempt (List Action) → Attempt (List Action)
cons_action made rest = with_value made (λ a. with_value rest (λ actions. returned (a ∷ actions)))

-- The loop over the recommendations, with the number of the next action.
unfoldable pub actions_from : List CatalogTool → ℕ → List Recommendation → Attempt (List Action)
actions_from tools n [] = returned []
actions_from tools n (item ∷ items) =
    let skipped = actions_from tools n items in
    let added = actions_from tools (n + 1) items in
    if offers_install item
    then cons_action (make_action n item (tool_at item.tool_id tools)) added
    else skipped

abbrev pub is_action_id : String → Action → Bool
is_action_id id a = a.id == id

-- `len(action_ids) == len(set(action_ids))`
abbrev unique_ids : List Action → Bool
unique_ids [] = true
unique_ids (a ∷ actions) = every (λ b. not (is_action_id a.id b)) actions && unique_ids actions

abbrev version_of : Option (String × String) → Option String
version_of none = none
version_of (some (k, v)) = some v

abbrev is_exact : List (String × String) → Action → Bool
is_exact items a =
    opt_is (version_of (find_last (λ item. item.0 == a.tool_id) items)) a.tool_version

-- `PlanV2._plan_references_are_exact`, and that `catalog_tools` is not empty.
unfoldable pub is_plan : Plan → Bool
is_plan p =
    not (eqb (length p.catalog_tools) 0)
    && unique_ids p.actions
    && every (is_exact p.catalog_tools) p.actions
    && ltb p.created_at p.expires_at

-- Times are in microseconds.
abbrev pub seven_days : ℕ
seven_days = 604800 * 1000000

module _ (host : Host) where
  -- `calculate_plan_id`
  unfoldable pub calculate_plan_id : Plan → String
  calculate_plan_id p = host.sha256 (host.plan_json (record p { plan_id = "" }))

  -- `_catalog_digest`
  unfoldable pub catalog_digest : Catalog → Attempt String
  catalog_digest c =
      if host.sha256 c.raw_bytes == c.digest
      then returned (host.sha256 c.raw_bytes)
      else raised validation

  -- `_capability_digest`
  abbrev pub capability_digest : CapabilitySnapshot → String
  capability_digest c = host.sha256 (host.capability_json c)

  abbrev pub draft :
      Catalog → CapabilitySnapshot → List Action → ℕ → ℕ → String → RepositoryBinding → Plan
  draft c capabilities actions now ttl digest binding = record {
    plan_id = "0000000000000000000000000000000000000000000000000000000000000000";
    repository = binding;
    catalog_digest = digest;
    capability_digest = capability_digest capabilities;
    catalog_tools = versions [] c.tools;
    actions = actions;
    created_at = now;
    expires_at = now + ttl;
  }

  abbrev pub finish : Plan → Attempt Plan
  finish p =
      after (raise_when (not (is_plan p)) value_error none)
        (returned (record p { plan_id = calculate_plan_id p }))

  -- `build_explicit_plan_v2`; `finish` has the checks of `PlanV2`, whose pydantic error is a ValueError.
  unfoldable pub build_explicit_plan :
      Catalog → CapabilitySnapshot → List Action → ℕ → ℕ → Attempt Plan
  build_explicit_plan c capabilities actions now ttl =
      after (raise_when (eqb ttl 0 || ltb seven_days ttl) validation none) (
        with_value (catalog_digest c) λ digest. after (validate_action_contracts actions c.tools) (
          with_value host.binding
            λ binding. finish (draft c capabilities actions now ttl digest binding)))

  -- `build_plan_v2`
  unfoldable pub build_plan : Request → Catalog → ℕ → ℕ → Attempt Plan
  build_plan q c now ttl = after (raise_when (eqb ttl 0 || ltb seven_days ttl) validation none) (
      with_value
        (actions_from c.tools 1
          (recommend (record q { evidence = sort_evidence q.evidence }) c.tools))
        λ actions. build_explicit_plan c q.capabilities actions now ttl)

  abbrev pub check_repository : Plan → RepositoryBinding → Check
  check_repository p current =
      raise_when (not (current.identity == p.repository.identity)) stale_plan (
        raise_when (not (current.content_digest == p.repository.content_digest)) stale_plan (
          raise_when (not (same_option (λ a b. a == b) current.git_head p.repository.git_head))
            stale_plan
            (raise_when
              (not (same_option (λ a b. a == b) current.dirty_digest p.repository.dirty_digest))
              stale_plan none)))

  -- `except ValidationError as exc: raise StalePlanError`
  abbrev pub as_stale : Check → Check
  as_stale none = none
  as_stale (some fault) = some stale_plan

  -- `validate_plan_binding`
  unfoldable pub validate_plan_binding : Plan → Catalog → CapabilitySnapshot → ℕ → Check
  validate_plan_binding p c capabilities now =
      raise_when (not (calculate_plan_id p == p.plan_id)) stale_plan (
        raise_when (leb p.expires_at now) stale_plan (
          check_value (catalog_digest c) λ digest.
            raise_when (not (digest == p.catalog_digest)) stale_plan (
              raise_when (not (same_items (versions [] c.tools) p.catalog_tools)) stale_plan (
                and_then (as_stale (validate_action_contracts p.actions c.tools)) (
                  raise_when (not (capability_digest capabilities == p.capability_digest))
                    stale_plan (check_value host.binding (check_repository p)))))))
