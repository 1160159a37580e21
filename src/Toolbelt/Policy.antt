-- ===== src/Toolbelt/Policy.antt =====
-- `recommend` of toolbelt/src/toolbelt/policy.py.
pub mod Matching
pub mod Safety
use Prim.Native.String.{◌++◌}
use agent_tooling.Prelude.{
  ℕ, String, Bool, true, false, not, ◌&&◌, ◌||◌, Option, none, some, List, [], ◌∷◌, any, contains,
  if◌then◌else◌, sort_by,
}
use agent_tooling.Toolbelt.Schemas.{
  ActionOperation, install, verify, remove, adopt, leave_unmanaged, replace, InstallScope, user,
  Evidence, CapabilityStatus, unknown, CapabilitySnapshot, CatalogTool,
}
use agent_tooling.Toolbelt.Policy.Matching.{
  match_key, matched, is_weak, is_strong, is_any, in_key_order, is_nil,
}

-- A confidence is in hundredths.
pub record Recommendation : Type 0 where
  pub tool_id : String
  pub actionable : Bool
  pub why : String
  pub evidence : List Evidence
  pub missing_requirements : List String
  pub allowed_operations : List ActionOperation
  pub confidence : ℕ

-- The arguments of `recommend`, but for the catalog.
pub record Request : Type 0 where
  pub evidence : List Evidence
  pub capabilities : CapabilitySnapshot
  pub allow_user_scope : Bool
  pub allow_network : Bool

abbrev pub strong_matches : Request → CatalogTool → List Evidence
strong_matches q t = matched t.strong_evidence q.evidence is_strong

abbrev chain : List Evidence → List Evidence → List Evidence
chain [] ys = ys
chain (x ∷ xs) ys = x ∷ chain xs ys

-- `dict.fromkeys` only drops items that stand twice, which neither use of `weak` sees.
abbrev pub weak_matches : Request → CatalogTool → List Evidence
weak_matches q t =
    chain (matched t.weak_evidence q.evidence is_any) (matched t.strong_evidence q.evidence is_weak)

abbrev is_live_name : List String → Option String → Bool
is_live_name names none = false
is_live_name names (some name) = contains name names

-- `names.intersection(live_names)`
abbrev pub is_live : List String → CatalogTool → Bool
is_live names t = contains t.id names || is_live_name names t.live_name

abbrev pub is_suppressed : Request → CatalogTool → Bool
is_suppressed q t = any (λ c. contains c q.capabilities.native) t.suppressed_by_capabilities

abbrev pub is_user_scope : InstallScope → Bool
is_user_scope user = true
is_user_scope _ = false

abbrev pub is_unknown : CapabilityStatus → Bool
is_unknown unknown = true
is_unknown _ = false

abbrev pub is_available : Request → String → Bool
is_available q c = contains c q.capabilities.native || contains c q.capabilities.installed

abbrev note_if : Bool → String → List String → List String
note_if true what rest = what ∷ rest
note_if false what rest = rest

unfoldable pub missing_capabilities : Request → List String → List String
missing_capabilities q [] = []
missing_capabilities q (c ∷ cs) =
    note_if (not (is_available q c)) ("capability:" ++ c) (missing_capabilities q cs)

abbrev pub missing : Request → CatalogTool → List String
missing q t = note_if (is_unknown q.capabilities.status) "capability_inventory_unknown" (
    note_if (t.installing.requires_network && not q.allow_network) "network_approval" (
      note_if (is_user_scope t.install_scope && not q.allow_user_scope) "user_scope_approval"
        (missing_capabilities q t.required_capabilities)))

-- `", ".join(...)`
abbrev listed : List Evidence → String
listed [] = ""
listed (item ∷ []) = match_key item
listed (item ∷ other ∷ items) = match_key item ++ ", " ++ listed (other ∷ items)

-- The recommendation for a tool that is there and that Toolbelt does not manage.
abbrev unmanaged : CatalogTool → Bool → List Evidence → Recommendation
unmanaged t is_backed evidence = record {
  tool_id = t.id;
  actionable = is_backed;
  why = "Detected existing unmanaged " ++ t.name ++ "; choose how Toolbelt should treat it.";
  evidence = evidence;
  missing_requirements = [];
  allowed_operations = adopt ∷ leave_unmanaged ∷ replace ∷ [];
  confidence = if is_backed then 90 else 25;
}

abbrev managed : CatalogTool → Bool → List Evidence → Recommendation
managed t is_backed evidence = record {
  tool_id = t.id;
  actionable = is_backed;
  why = t.name ++ " is already managed by Toolbelt.";
  evidence = evidence;
  missing_requirements = [];
  allowed_operations = verify ∷ remove ∷ [];
  confidence = 100;
}

-- The recommendation for a tool that is not there.
abbrev candidate : CatalogTool → List Evidence → List Evidence → List String → Recommendation
candidate t strong_items evidence gaps = record {
  tool_id = t.id;
  actionable = not (is_nil strong_items) && is_nil gaps;
  why =
      if is_nil strong_items
      then "Only weak evidence matched; no installation is authorized."
      else "Matched strong evidence: " ++ listed strong_items;
  evidence = evidence;
  missing_requirements = gaps;
  allowed_operations = if not (is_nil strong_items) && is_nil gaps then install ∷ [] else [];
  confidence = if is_nil strong_items then 25 else 90;
}

-- The body of the loop of `recommend`: `none` where it continues without a recommendation.
unfoldable pub recommend_tool : Request → CatalogTool → Option Recommendation
recommend_tool q t =
    let strong_items = strong_matches q t in
    let weak_items = weak_matches q t in
    let evidence = in_key_order [] (chain strong_items weak_items) in
    let is_installed = is_live q.capabilities.installed t in
    let is_managed = is_live q.capabilities.managed t in
    if not t.enabled || is_suppressed q t
    then none
    else if is_installed && not is_managed
    then some (unmanaged t (not (is_nil strong_items)) evidence)
    else if is_managed
    then some (managed t (not (is_nil strong_items)) evidence)
    else if is_nil strong_items && is_nil weak_items
    then none
    else some (candidate t strong_items evidence (missing q t))

abbrev keep_some {ℓ} : {A : Type ℓ} → Option A → List A → List A
keep_some none rest = rest
keep_some (some x) rest = x ∷ rest

unfoldable pub recommend_each : Request → List CatalogTool → List Recommendation
recommend_each q [] = []
recommend_each q (t ∷ ts) = keep_some (recommend_tool q t) (recommend_each q ts)

-- `recommend`
abbrev pub recommend : Request → List CatalogTool → List Recommendation
recommend q catalog = sort_by Recommendation.tool_id (recommend_each q catalog)
