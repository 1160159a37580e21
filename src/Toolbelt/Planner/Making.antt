-- ===== src/Toolbelt/Planner/Making.antt =====
-- The actions that `build_plan_v2` of toolbelt/src/toolbelt/planner.py makes from recommendations: that
-- they keep the contracts of the catalog, and that the loop returns.
use agent_tooling.Prelude.{
  ℕ, ◌+◌, ◌≡◌, refl, sym, subst, String, Bool, true, not, ◌&&◌, ◌||◌, some, List, [], ◌∷◌, any,
  every, every_mono, arith, ◌==◌, eq_iff, Bool-cases, Option-cases, inl, inr,
}
use agent_tooling.Toolbelt.Errors.{Attempt, returned, raised}
use agent_tooling.Toolbelt.Schemas.{CatalogTool, Action}
use agent_tooling.Toolbelt.Policy.{Recommendation, Request, recommend}
use agent_tooling.Toolbelt.Policy.Safety.{
  offers_install, is_authorized, is_backed, recommend_authorized,
}
use agent_tooling.Toolbelt.Planner.{tool_at}
use agent_tooling.Toolbelt.Planner.Plans.{
  is_reason, install_action, make_action, cons_action, actions_from,
}
use agent_tooling.Toolbelt.Planner.Contracts.{
  IsLast, tool_at-IsLast, installs, IsContract, AllContracts, none_left, one_more,
}

install_action-IsContract :
    (tools : List CatalogTool) (n : ℕ) (item : Recommendation) (t : CatalogTool)
    → tool_at item.tool_id tools ≡ some t
    → IsContract tools (install_action n item t)
install_action-IsContract tools n item t e =
    let k = tool_at-IsLast item.tool_id tools t e in
    record {
      tool = t;
      listed = subst (λ id. IsLast id t tools) (sym k.under_id) k;
      same_version = refl;
      same_scope = refl;
      same_permissions = refl;
      same_env = refl;
      does_operation = installs refl refl refl;
    }

cons_action-returned :
    (made : Attempt Action) (rest : Attempt (List Action)) (actions : List Action)
    → cons_action made rest ≡ returned actions
    → (a : Action) × (others : List Action) × (made ≡ returned a)
      × (rest ≡ returned others)
      × (a ∷ others ≡ actions)
cons_action-returned (returned a) (returned others) actions h =
    (a, others, refl, refl, ground arith)
cons_action-returned (returned a) (raised fault) actions h = absurd (ground arith)
cons_action-returned (raised fault) rest actions h = absurd (ground arith)

make_action-IsContract :
    (tools : List CatalogTool) (n : ℕ) (item : Recommendation) (a : Action)
    → make_action n item (tool_at item.tool_id tools) ≡ returned a
    → IsContract tools a
unfolding make_action
make_action-IsContract tools n item a h = elim (Option-cases (tool_at item.tool_id tools)) [
  | inl e ↦ absurd (ground (arith, rw e at h))
  | inr (t, e) ↦
      let h' = rw e at h in
      let same : install_action n item t ≡ a = ground arith in
      subst (IsContract tools) same (install_action-IsContract tools n item t e)
]

-- The actions that are made from recommendations keep the contracts of the catalog that their tools
-- are looked up in.
pub actions_from-AllContracts :
    (tools : List CatalogTool) (n : ℕ) (items : List Recommendation) (actions : List Action)
    → actions_from tools n items ≡ returned actions
    → AllContracts tools actions
unfolding actions_from
actions_from-AllContracts tools n [] actions h =
    let same : [] ≡ actions = ground arith in subst (AllContracts tools) same none_left
actions_from-AllContracts tools n (item ∷ items) actions h =
    elim (Bool-cases (offers_install item)) [
      | inl offered ↦
          let (a, others, made, rest, same) =
            cons_action-returned (make_action n item (tool_at item.tool_id tools))
              (actions_from tools (n + 1) items) actions (rw offered at h) in
          subst (AllContracts tools) same (
            one_more (make_action-IsContract tools n item a made)
              (actions_from-AllContracts tools (n + 1) items others rest))
      | inr passed ↦ actions_from-AllContracts tools n items actions (rw passed at h)
    ]

-- An offered recommendation names a tool of the catalog.
abbrev names_listed : List CatalogTool → Recommendation → Bool
names_listed tools r = not (offers_install r) || any (λ t. t.id == r.tool_id) tools

-- The reason of an offered recommendation is one that an action may have.
abbrev pub has_reason : Recommendation → Bool
has_reason r = not (offers_install r) || is_reason r.why

listed_tool :
    (id : String) (tools : List CatalogTool)
    → any (λ t. t.id == id) tools ≡ true
    → (t : CatalogTool) × (tool_at id tools ≡ some t)
unfolding tool_at
listed_tool id [] h = absurd (ground arith)
listed_tool id (t ∷ ts) h = elim (Option-cases (tool_at id ts)) [
  | inl e ↦ elim (Bool-cases (t.id == id)) [
    | inl here ↦ (t, ground arith)
    | inr other ↦ let (u, found) = listed_tool id ts (ground arith) in absurd (ground arith)
  ]
  | inr (u, e) ↦ (u, ground arith)
]

made_action :
    (tools : List CatalogTool) (n : ℕ) (item : Recommendation)
    → any (λ t. t.id == item.tool_id) tools ≡ true
    → is_reason item.why ≡ true
    → (a : Action) × (make_action n item (tool_at item.tool_id tools) ≡ returned a)
unfolding make_action
made_action tools n item listed reasoned =
    let (t, e) = listed_tool item.tool_id tools listed in
    (install_action n item t, rw (e, reasoned) refl)

actions_are_made :
    (tools : List CatalogTool) (n : ℕ) (items : List Recommendation)
    → every (names_listed tools) items ≡ true
    → every has_reason items ≡ true
    → (actions : List Action) × (actions_from tools n items ≡ returned actions)
unfolding actions_from
actions_are_made tools n [] listed reasoned = ([], refl)
actions_are_made tools n (item ∷ items) listed reasoned = elim (Bool-cases (offers_install item)) [
  | inl offered ↦
      let (a, made) = made_action tools n item (ground arith) (ground arith) in
      let (others, rest) = actions_are_made tools (n + 1) items (ground arith) (ground arith) in
      (a ∷ others, rw (offered, made, rest) refl)
  | inr passed ↦
      let (others, rest) = actions_are_made tools n items (ground arith) (ground arith) in
      (others, rw (passed, rest) refl)
]

flip_eq : (a b : String) → (a == b) ≡ true → (b == a) ≡ true
flip_eq a b h = (eq_iff b a).1 (sym ((eq_iff a b).0 h))

authorized_any :
    (q : Request) (tools : List CatalogTool) (id : String)
    → any (λ t. id == t.id && is_authorized q t) tools ≡ true
    → any (λ t. t.id == id) tools ≡ true
authorized_any q [] id h = absurd (ground arith)
authorized_any q (t ∷ ts) id h = ground (arith, flip_eq id t.id, authorized_any q ts id)

backed_any :
    (q : Request) (tools : List CatalogTool) (r : Recommendation)
    → is_backed q tools r ≡ true
    → names_listed tools r ≡ true
unfolding is_backed
backed_any q tools r h = ground (arith, authorized_any q tools r.tool_id)

-- The recommendations for a catalog are made into actions, if the reasons of those that are offered are
-- neither empty nor too long.
pub recommended_actions :
    (q : Request) (tools : List CatalogTool)
    → every has_reason (recommend q tools) ≡ true
    → (actions : List Action) × (actions_from tools 1 (recommend q tools) ≡ returned actions)
recommended_actions q tools reasoned =
    actions_are_made tools 1 (recommend q tools)
      (every_mono (is_backed q tools) (names_listed tools) (recommend q tools) (backed_any q tools)
        (recommend_authorized q tools).0)
      reasoned
