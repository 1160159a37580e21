-- ===== src/Toolbelt/Planner/Binding.antt =====
-- What the checks of `validate_plan_binding` of toolbelt/src/toolbelt/planner.py amount to.
use agent_tooling.Prelude.{
  ℕ, ◌≡◌, refl, ap, ◌∙◌, ◌<◌, String, Bool, true, false, not, none, some, [], arith, leb, ◌==◌,
  eq_iff, eq_refl,
}
use agent_tooling.Toolbelt.Errors.{
  Check, raise_when-none, and_then-none, returned, check_value-none,
}
use agent_tooling.Toolbelt.Schemas.{CapabilitySnapshot, RepositoryBinding, Plan}
use agent_tooling.Toolbelt.Schemas.Equality.{
  same_list_eq, same_list_refl, same_option_eq, same_option_refl,
}
use agent_tooling.Toolbelt.Planner.{Catalog, Host, versions, same_item, validate_action_contracts}
use agent_tooling.Toolbelt.Planner.Plans.{
  calculate_plan_id, catalog_digest, capability_digest, check_repository, as_stale,
  validate_plan_binding,
}

-- The same repository with the same content; `root` is the name of its directory.
pub record IsSameCheckout (b a : RepositoryBinding) : Type 0 where
  pub identity : b.identity ≡ a.identity
  pub content_digest : b.content_digest ≡ a.content_digest
  pub git_head : b.git_head ≡ a.git_head
  pub dirty_digest : b.dirty_digest ≡ a.dirty_digest

pub unchanged_checkout : (b : RepositoryBinding) → IsSameCheckout b b
unchanged_checkout b = record {
  identity = refl;
  content_digest = refl;
  git_head = refl;
  dirty_digest = refl;
}

module _ (host : Host) where
  -- What the checks of `validate_plan_binding` find: the digests of the plan, of the catalog and of the
  -- capabilities, the time, the versions and the contracts of the catalog, and the repository.
  pub record IsCurrent (p : Plan) (c : Catalog) (capabilities : CapabilitySnapshot) (now : ℕ)
      : Type 0 where
    pub binding : RepositoryBinding
    pub signed : calculate_plan_id host p ≡ p.plan_id
    pub unexpired : now < p.expires_at
    pub same_catalog : catalog_digest host c ≡ returned p.catalog_digest
    pub same_versions : versions [] c.tools ≡ p.catalog_tools
    pub contracts : validate_action_contracts p.actions c.tools ≡ none
    pub same_capabilities : capability_digest host capabilities ≡ p.capability_digest
    pub read : host.binding ≡ returned binding
    pub same_checkout : IsSameCheckout binding p.repository

same_item_eq : (x y : String × String) → same_item x y ≡ true → x ≡ y
same_item_eq (k, v) (j, w) h =
    ground (arith, (eq_iff k j).0 (ground arith), (eq_iff v w).0 (ground arith))

same_item_refl : (x : String × String) → same_item x x ≡ true
same_item_refl (k, v) = rw (eq_refl k, eq_refl v) refl

accepted_checkout :
    (host : Host) (p : Plan) (b : RepositoryBinding)
    → check_repository host p b ≡ none
    → IsSameCheckout b p.repository
accepted_checkout host p b h = record {
  identity = (eq_iff b.identity p.repository.identity).0 (ground arith);
  content_digest = (eq_iff b.content_digest p.repository.content_digest).0 (ground arith);
  git_head =
      same_option_eq (λ x y. x == y) (λ x y. (eq_iff x y).0) b.git_head p.repository.git_head
        (ground arith);
  dirty_digest =
      same_option_eq (λ x y. x == y) (λ x y. (eq_iff x y).0) b.dirty_digest
        p.repository.dirty_digest (ground arith);
}

checkout_accepted :
    (host : Host) (p : Plan) (b : RepositoryBinding)
    → IsSameCheckout b p.repository
    → check_repository host p b ≡ none
checkout_accepted host p b k =
    rw
      (
        k.identity,
        k.content_digest,
        k.git_head,
        k.dirty_digest,
        eq_refl p.repository.identity,
        eq_refl p.repository.content_digest,
        same_option_refl (λ x y. x == y) eq_refl p.repository.git_head,
        same_option_refl (λ x y. x == y) eq_refl p.repository.dirty_digest,
      )
      refl

passes_when : (b : Bool) → not b ≡ false → b ≡ true
passes_when b h = ground arith

as_stale-none : (host : Host) (check : Check) → as_stale host check ≡ none → check ≡ none
as_stale-none host none h = refl
as_stale-none host (some fault) h = absurd (ground arith)

module _ (host : Host) (p : Plan) (c : Catalog) (capabilities : CapabilitySnapshot) (now : ℕ) where
  pub validate-IsCurrent :
      validate_plan_binding host p c capabilities now ≡ none → IsCurrent host p c capabilities now
  unfolding validate_plan_binding
  validate-IsCurrent h =
      let (signed, h1) = raise_when-none _ _ _ h in
      let (unexpired, h2) = raise_when-none _ _ _ h1 in
      let (digest, same_bytes, h3) = check_value-none (catalog_digest host c) _ h2 in
      let (same_catalog, h4) = raise_when-none _ _ _ h3 in
      let (same_versions, h5) = raise_when-none _ _ _ h4 in
      let (contracts, h6) = and_then-none _ _ h5 in
      let (same_capabilities, h7) = raise_when-none _ _ _ h6 in
      let (b, read, h8) = check_value-none host.binding _ h7 in
      record {
        binding = b;
        signed = (eq_iff (calculate_plan_id host p) p.plan_id).0 (passes_when _ signed);
        unexpired = ground arith;
        same_catalog =
            same_bytes
            ∙ ap returned ((eq_iff digest p.catalog_digest).0 (passes_when _ same_catalog));
        same_versions =
            same_list_eq same_item same_item_eq (versions [] c.tools) p.catalog_tools
              (passes_when _ same_versions);
        contracts = as_stale-none host _ contracts;
        same_capabilities =
            (eq_iff (capability_digest host capabilities) p.capability_digest).0
              (passes_when _ same_capabilities);
        read = read;
        same_checkout = accepted_checkout host p b h8;
      }

  pub IsCurrent-validate :
      IsCurrent host p c capabilities now → validate_plan_binding host p c capabilities now ≡ none
  unfolding validate_plan_binding
  IsCurrent-validate k =
      rw
        (
          k.signed,
          eq_refl p.plan_id,
          k.same_catalog,
          eq_refl p.catalog_digest,
          k.same_versions,
          same_list_refl same_item same_item_refl p.catalog_tools,
          k.contracts,
          k.same_capabilities,
          eq_refl p.capability_digest,
          k.read,
          checkout_accepted host p k.binding k.same_checkout,
          not_leb p.expires_at k.unexpired,
        )
        refl
    where
      not_leb : (n : ℕ) → now < n → leb n now ≡ false
      not_leb n h = ground arith
