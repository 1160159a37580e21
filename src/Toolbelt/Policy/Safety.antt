-- ===== src/Toolbelt/Policy/Safety.antt =====
-- What `recommend` of toolbelt/src/toolbelt/policy.py authorizes, against a description of it.
use agent_tooling.Prelude.{
  ◌≡◌, refl, String, Bool, true, false, not, ◌&&◌, ◌||◌, Option, none, some, List, [], ◌∷◌, arith,
  any, every, every_mono, every-sort_by, any-sort_by, ◌==◌, eq_refl, sort_by, in_order,
  in_order-sort_by, Option-cases, inl, inr,
}
use agent_tooling.Toolbelt.Schemas.{ActionOperation, install, CatalogTool}
use agent_tooling.Toolbelt.Policy.Matching.{
  evidence_at, is_strong, is_nil, has_strength, matched_nonempty,
}
use agent_tooling.Toolbelt.Policy.{
  Recommendation, Request, is_live, is_suppressed, is_user_scope, is_unknown, is_available,
  missing_capabilities, recommend_tool, recommend_each, recommend,
}

-- The installation of a tool is authorized: the tool is enabled, no native capability suppresses it,
-- it is neither installed nor managed, the inventory has strong or required evidence for one of the
-- keys that the tool names as strong, the capabilities are known, the network and the user scope are
-- approved where the tool wants them, and every required capability is native or installed.
unfoldable pub is_authorized : Request → CatalogTool → Bool
is_authorized q t =
    t.enabled
    && not (is_suppressed q t)
    && not (is_live q.capabilities.installed t)
    && not (is_live q.capabilities.managed t)
    && any (λ key. has_strength is_strong (evidence_at key q.evidence)) t.strong_evidence
    && not (is_unknown q.capabilities.status)
    && (not t.installing.requires_network || q.allow_network)
    && (not (is_user_scope t.install_scope) || q.allow_user_scope)
    && every (is_available q) t.required_capabilities

abbrev is_install : ActionOperation → Bool
is_install install = true
is_install _ = false

-- `item.actionable and "install" in item.allowed_operations`
abbrev pub offers_install : Recommendation → Bool
offers_install r = r.actionable && any is_install r.allowed_operations

abbrev offers : Option Recommendation → Bool
offers none = false
offers (some r) = offers_install r

missing_capabilities-nil :
    (q : Request) (cs : List String)
    → is_nil (missing_capabilities q cs) ≡ every (is_available q) cs
unfolding missing_capabilities
missing_capabilities-nil q [] = refl
missing_capabilities-nil q (c ∷ cs) = ground (arith, missing_capabilities-nil q cs)

-- One tool is offered for installation just where it is authorized.
offers-recommend_tool :
    (q : Request) (t : CatalogTool) → offers (recommend_tool q t) ≡ is_authorized q t
unfolding recommend_tool is_authorized
offers-recommend_tool q t = ground (
  arith,
  matched_nonempty t.strong_evidence q.evidence is_strong,
  missing_capabilities-nil q t.required_capabilities,
)

-- A recommendation is for the tool that it was made from.
abbrev names_tool : CatalogTool → Option Recommendation → Bool
names_tool t none = true
names_tool t (some r) = r.tool_id == t.id

names_tool-recommend_tool :
    (q : Request) (t : CatalogTool) → names_tool t (recommend_tool q t) ≡ true
unfolding recommend_tool
names_tool-recommend_tool q t = ground (arith, eq_refl t.id)

-- A recommendation that offers an installation names an authorized tool of the list.
unfoldable pub is_backed : Request → List CatalogTool → Recommendation → Bool
is_backed q ts r = not (offers_install r) || any (λ t. r.tool_id == t.id && is_authorized q t) ts

is_backed-cons :
    (q : Request) (t : CatalogTool) (ts : List CatalogTool) (r : Recommendation)
    → is_backed q ts r ≡ true
    → is_backed q (t ∷ ts) r ≡ true
unfolding is_backed
is_backed-cons q t ts r h = ground arith

is_backed-recommend_tool :
    (q : Request) (t : CatalogTool) (ts : List CatalogTool) (r : Recommendation)
    → recommend_tool q t ≡ some r
    → is_backed q (t ∷ ts) r ≡ true
unfolding is_backed
is_backed-recommend_tool q t ts r e =
    ground (arith, rw e at (offers-recommend_tool q t), rw e at (names_tool-recommend_tool q t))

recommend_each-is_backed :
    (q : Request) (ts : List CatalogTool) → every (is_backed q ts) (recommend_each q ts) ≡ true
unfolding recommend_each
recommend_each-is_backed q [] = refl
recommend_each-is_backed q (t ∷ ts) =
    let rest =
      every_mono (is_backed q ts) (is_backed q (t ∷ ts)) (recommend_each q ts)
        (is_backed-cons q t ts) (recommend_each-is_backed q ts) in
    elim (Option-cases (recommend_tool q t)) [
      | inl e ↦ rw e rest
      | inr (r, e) ↦ rw (e, is_backed-recommend_tool q t ts r e) rest
    ]

-- An authorized tool has a recommendation under its id that offers its installation.
unfoldable pub is_offered : Request → List Recommendation → CatalogTool → Bool
is_offered q rs t = not (is_authorized q t) || any (λ r. r.tool_id == t.id && offers_install r) rs

is_offered-recommend_tool :
    (q : Request) (t : CatalogTool) (ts : List CatalogTool)
    → is_offered q (recommend_each q (t ∷ ts)) t ≡ true
unfolding is_offered recommend_each
is_offered-recommend_tool q t ts = elim (Option-cases (recommend_tool q t)) [
  | inl e ↦ ground (arith, rw e at (offers-recommend_tool q t))
  | inr (r, e) ↦
      rw e (
        ground
          (arith, rw e at (offers-recommend_tool q t), rw e at (names_tool-recommend_tool q t)))
]

is_offered-keep :
    (q : Request) (t other : CatalogTool) (ts : List CatalogTool)
    → is_offered q (recommend_each q ts) other ≡ true
    → is_offered q (recommend_each q (t ∷ ts)) other ≡ true
unfolding is_offered recommend_each
is_offered-keep q t other ts h = elim (Option-cases (recommend_tool q t)) [
  | inl e ↦ rw e h
  | inr (r, e) ↦ rw e (ground arith)
]

recommend_each-is_offered :
    (q : Request) (ts : List CatalogTool) → every (is_offered q (recommend_each q ts)) ts ≡ true
recommend_each-is_offered q [] = refl
recommend_each-is_offered q (t ∷ ts) = ground (
  arith,
  is_offered-recommend_tool q t ts,
  every_mono (is_offered q (recommend_each q ts)) (is_offered q (recommend_each q (t ∷ ts))) ts
      (λ other. is_offered-keep q t other ts) (recommend_each-is_offered q ts),
)

is_offered-sort_by :
    (q : Request) (rs : List Recommendation) (t : CatalogTool)
    → is_offered q rs t ≡ true
    → is_offered q (sort_by Recommendation.tool_id rs) t ≡ true
unfolding is_offered
is_offered-sort_by q rs t h =
    rw (any-sort_by Recommendation.tool_id (λ r. r.tool_id == t.id && offers_install r) rs) h

-- Every recommendation that offers an installation names a tool of the catalog whose installation is
-- authorized. Every tool of the catalog whose installation is authorized has a recommendation under
-- its id that offers it. The recommendations are in the order of their ids.
pub recommend_authorized :
    (q : Request) (catalog : List CatalogTool)
    → (every (is_backed q catalog) (recommend q catalog) ≡ true)
      × (every (is_offered q (recommend q catalog)) catalog ≡ true)
      × (in_order Recommendation.tool_id (recommend q catalog) ≡ true)
recommend_authorized q catalog = (
  rw (every-sort_by Recommendation.tool_id (is_backed q catalog) (recommend_each q catalog))
      (recommend_each-is_backed q catalog),
  every_mono (is_offered q (recommend_each q catalog)) (is_offered q (recommend q catalog)) catalog
      (is_offered-sort_by q (recommend_each q catalog)) (recommend_each-is_offered q catalog),
  in_order-sort_by Recommendation.tool_id (recommend_each q catalog),
)
