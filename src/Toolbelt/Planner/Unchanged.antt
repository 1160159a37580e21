-- ===== src/Toolbelt/Planner/Unchanged.antt =====
-- A plan that `validate_plan_binding` of toolbelt/src/toolbelt/planner.py accepts under the id of a plan
-- that was built is that plan, and what it was built from is unchanged.
use agent_tooling.Prelude.{ℕ, ◌+◌, ◌≡◌, refl, sym, ap, ◌∙◌, subst, ◌<◌, String, none, List, arith}
use agent_tooling.Toolbelt.Errors.{Attempt, returned, with_value-returned, after-returned}
use agent_tooling.Toolbelt.Schemas.{CapabilitySnapshot, Action, RepositoryBinding, Plan}
use agent_tooling.Toolbelt.Planner.{Catalog, Host}
use agent_tooling.Toolbelt.Planner.Plans.{
  calculate_plan_id, catalog_digest, draft, build_explicit_plan, validate_plan_binding,
}
use agent_tooling.Toolbelt.Planner.Contracts.{AllContracts, validate_exact}
use agent_tooling.Toolbelt.Planner.Binding.{IsSameCheckout, validate-IsCurrent}
use agent_tooling.Toolbelt.Planner.Building.{finish-returned}

-- A digest has no collision between two values.
abbrev pub Separates : {A : Type 0} → (A → String) → A → A → Type 0
Separates digest x y = digest x ≡ digest y → x ≡ y

-- What the id of a plan is computed from.
abbrev pub without_id : Plan → Plan
without_id p = record p { plan_id = "" }

with_id : (p r : Plan) → without_id p ≡ without_id r → p.plan_id ≡ r.plan_id → p ≡ r
with_id p r h i =
    let x : record (without_id p) { plan_id = p.plan_id }
        ≡ record (without_id r) { plan_id = p.plan_id } =
      ap (λ (d : Plan). record d { plan_id = p.plan_id }) h in
    x ∙ ap (λ i. record r { plan_id = i }) i

catalog_digest-bytes :
    (host : Host) (c : Catalog) (digest : String)
    → catalog_digest host c ≡ returned digest
    → host.sha256 c.raw_bytes ≡ digest
unfolding catalog_digest
catalog_digest-bytes host c digest h = ground arith

-- A built plan, and what it was built from.
record IsBuilt (host : Host) (c : Catalog) (capabilities : CapabilitySnapshot)
    (actions : List Action) (now ttl : ℕ) (p : Plan) : Type 0 where
  binding : RepositoryBinding
  read : host.binding ≡ returned binding
  repository : p.repository ≡ binding
  id : p.plan_id ≡ host.sha256 (host.plan_json (without_id p))
  catalog : p.catalog_digest ≡ host.sha256 c.raw_bytes
  capability : p.capability_digest ≡ host.sha256 (host.capability_json capabilities)
  planned : p.actions ≡ actions
  expiry : p.expires_at ≡ now + ttl

build_explicit_plan-IsBuilt :
    (host : Host) (c : Catalog) (capabilities : CapabilitySnapshot) (actions : List Action)
    (now ttl : ℕ) (p : Plan)
    → build_explicit_plan host c capabilities actions now ttl ≡ returned p
    → IsBuilt host c capabilities actions now ttl p
unfolding build_explicit_plan calculate_plan_id
build_explicit_plan-IsBuilt host c capabilities actions now ttl p built =
    let (lived, h1) = after-returned _ _ built in
    let (digest, same_bytes, h2) = with_value-returned (catalog_digest host c) _ h1 in
    let (contracts, h3) = after-returned _ _ h2 in
    let (b, read, h4) = with_value-returned host.binding _ h3 in
    subst (IsBuilt host c capabilities actions now ttl)
      (finish-returned host (draft host c capabilities actions now ttl digest b) p h4)
      (record {
        binding = b;
        read = read;
        repository = refl;
        id = refl;
        catalog = sym (catalog_digest-bytes host c digest same_bytes);
        capability = refl;
        planned = refl;
        expiry = refl;
      })

-- A plan is built of actions, a catalog, the capabilities and the repository as it is read. Later a
-- plan, a catalog, the capabilities and the repository as it is read then are validated, and the plan
-- has the id of the one that was built. If they are accepted, and the digests of the two plans without
-- their ids, of the bytes of the two catalogs and of the capabilities have no collision, then the
-- accepted plan is the one that was built, field by field and so with those actions, it has not expired,
-- the bytes of the catalog, the capabilities and the repository are as they were, and every action keeps
-- the contracts of the catalog.
pub accepted_plan_unchanged :
    (host : Host) (c d : Catalog) (capabilities current : CapabilitySnapshot)
    (actions : List Action) (now ttl later : ℕ) (read_later : Attempt RepositoryBinding)
    (p r : Plan)
    → build_explicit_plan host c capabilities actions now ttl ≡ returned p
    → validate_plan_binding (record host { binding = read_later }) r d current later ≡ none
    → r.plan_id ≡ p.plan_id
    → Separates (λ x. host.sha256 (host.plan_json x)) (without_id r) (without_id p)
    → Separates host.sha256 d.raw_bytes c.raw_bytes
    → Separates (λ x. host.sha256 (host.capability_json x)) current capabilities
    → (r ≡ p)
      × (r.actions ≡ actions)
      × (later < now + ttl)
      × (d.raw_bytes ≡ c.raw_bytes)
      × (current ≡ capabilities)
      × ((a : RepositoryBinding) × (b : RepositoryBinding) × (host.binding ≡ returned a)
          × (read_later ≡ returned b)
          × IsSameCheckout b a)
      × AllContracts d.tools actions
unfolding calculate_plan_id
accepted_plan_unchanged host c d capabilities current actions now ttl later read_later p r built
      accepted same_id plans bytes snapshots =
    let host2 : Host = record host { binding = read_later } in
    let k = build_explicit_plan-IsBuilt host c capabilities actions now ttl p built in
    let v = validate-IsCurrent host2 r d current later accepted in
    let same : r ≡ p = with_id r p (plans (v.signed ∙ same_id ∙ k.id)) same_id in
    let planned : r.actions ≡ actions = ap (λ (x : Plan). x.actions) same ∙ k.planned in
    let expiry : r.expires_at ≡ now + ttl = ap (λ (x : Plan). x.expires_at) same ∙ k.expiry in
    let at : r.repository ≡ k.binding = ap (λ (x : Plan). x.repository) same ∙ k.repository in
    (
      same,
      planned,
      subst (λ n. later < n) expiry v.unexpired,
      bytes (
          catalog_digest-bytes host2 d r.catalog_digest v.same_catalog
          ∙ ap (λ (x : Plan). x.catalog_digest) same
          ∙ k.catalog),
      snapshots (v.same_capabilities ∙ ap (λ (x : Plan). x.capability_digest) same ∙ k.capability),
      (k.binding, v.binding, k.read, v.read, subst (IsSameCheckout v.binding) at v.same_checkout),
      subst (AllContracts d.tools) planned ((validate_exact d.tools r.actions).0 v.contracts),
    )
