-- ===== src/Toolbelt/Planner.antt =====
-- The plans of toolbelt/src/toolbelt/planner.py: how they are built, and when one may still be
-- carried out. What reads the repository, the JSON encoding and SHA-256 are parameters, in `Host`.
pub mod Plans
pub mod Contracts
pub mod Making
pub mod Binding
pub mod Building
pub mod Unchanged
use Prim.Native.String.{◌++◌}
use agent_tooling.Prelude.{
  ℕ, ◌+◌, ◌*◌, String, Bool, true, false, not, ◌&&◌, ◌||◌, Option, none, some, List, [], ◌∷◌, ltb,
  leb, eqb, length, find_last, contains, if◌then◌else◌, ◌==◌, text_leb,
}
use agent_tooling.Toolbelt.Errors.{
  validation, stale_plan, Check, raise_when, and_then, Attempt, returned, raised, with_value, after,
  check_value,
}
use agent_tooling.Toolbelt.Schemas.{
  Permission, InstallScope, ActionOperation, install, update, verify, remove, adopt,
  leave_unmanaged, replace, EvidenceStrength, weak, strong, required, Evidence, CapabilitySnapshot,
  ActionStep, CatalogTool, Action, RepositoryBinding, Plan,
}
use agent_tooling.Toolbelt.Schemas.Equality.{
  same_list, same_option, same_scope, same_permissions, same_texts, same_steps,
}
use agent_tooling.Toolbelt.Policy.Matching.{identity, identity_leb}
use agent_tooling.Toolbelt.Policy.{Recommendation, Request, recommend}
use agent_tooling.Toolbelt.Policy.Safety.{offers_install}

-- `CatalogV2`, with its source bytes as a text.
pub record Catalog : Type 0 where
  pub tools : List CatalogTool
  pub digest : String
  pub raw_bytes : String

-- What the planner calls: `sha256(...).hexdigest()`, `_canonical_json` of a plan and of the
-- capabilities, and `_repository_binding` of the validated root.
pub record Host : Type 0 where
  pub sha256 : String → String
  pub plan_json : Plan → String
  pub capability_json : CapabilitySnapshot → String
  pub binding : Attempt RepositoryBinding

-- `{tool.id: tool for tool in catalog}.get(id)`
unfoldable pub tool_at : String → List CatalogTool → Option CatalogTool
tool_at id = find_last (λ t. t.id == id)

-- An assignment to a dictionary, as its items in the order of their keys.
unfoldable pub put_item : String → String → List (String × String) → List (String × String)
put_item k v [] = (k, v) ∷ []
put_item k v ((j, w) ∷ items) =
    let later = put_item k v items in
    if k == j
    then (k, v) ∷ items
    else if text_leb k j
    then (k, v) ∷ (j, w) ∷ items
    else (j, w) ∷ later

-- `{tool.id: tool.version for tool in catalog}`
unfoldable pub versions : List (String × String) → List CatalogTool → List (String × String)
versions items [] = items
versions items (t ∷ ts) = versions (put_item t.id t.version items) ts

abbrev pub same_item : String × String → String × String → Bool
same_item (k, v) (j, w) = k == j && v == w

abbrev pub same_items : List (String × String) → List (String × String) → Bool
same_items = same_list same_item

-- `steps`, `verify` and `rollback` of an action, as `_validate_action_contracts` expects them.
pub record Commands : Type 0 where
  pub steps : List ActionStep
  pub verify_steps : List ActionStep
  pub rollback_steps : List ActionStep

abbrev pub expected : ActionOperation → CatalogTool → Option Commands
expected install t = some (record {
  steps = t.installing ∷ [];
  verify_steps = t.verifying_step ∷ [];
  rollback_steps = t.rollback_step ∷ [];
})
expected adopt t =
    some (record { steps = []; verify_steps = t.verifying_step ∷ []; rollback_steps = [] })
expected verify t =
    some (record { steps = []; verify_steps = t.verifying_step ∷ []; rollback_steps = [] })
expected remove t =
    some (record {
      steps = t.rollback_step ∷ [];
      verify_steps = [];
      rollback_steps = t.installing ∷ [];
    })
expected _ t = none

abbrev pub same_commands : Action → Commands → Bool
same_commands a c =
    same_steps a.steps c.steps
    && same_steps a.verify_steps c.verify_steps
    && same_steps a.rollback_steps c.rollback_steps

abbrev check_commands : Action → Option Commands → Check
check_commands a none = some validation
check_commands a (some c) = raise_when (not (same_commands a c)) validation none

abbrev check_tool : Action → Option CatalogTool → Check
check_tool a none = some validation
check_tool a (some t) = raise_when (not (a.tool_version == t.version)) validation (
    raise_when
      (not (same_scope a.install_scope t.install_scope)
        || not (same_permissions a.permissions t.permissions)
        || not (same_texts a.required_env t.required_env))
      validation (check_commands a (expected a.operation t)))

-- The body of the loop of `_validate_action_contracts`.
unfoldable pub check_contract : List CatalogTool → Action → Check
check_contract tools a = check_tool a (tool_at a.tool_id tools)

-- `_validate_action_contracts`
unfoldable pub validate_action_contracts : List Action → List CatalogTool → Check
validate_action_contracts [] tools = none
validate_action_contracts (a ∷ actions) tools =
    and_then (check_contract tools a) (validate_action_contracts actions tools)
