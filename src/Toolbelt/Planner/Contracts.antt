-- ===== src/Toolbelt/Planner/Contracts.antt =====
-- What `_validate_action_contracts` of toolbelt/src/toolbelt/planner.py accepts, and that the actions
-- of a built plan are of that kind.
use agent_tooling.Prelude.{
  ◌≡◌, refl, ap, ◌↔◌, none, some, String, List, [], ◌∷◌, ◌++◌, every, not, true, arith, ◌==◌,
  eq_iff, eq_refl, Option-cases, inl, inr,
}
use agent_tooling.Toolbelt.Schemas.{
  CatalogTool, Action, ActionOperation, install, update, verify, remove, adopt, leave_unmanaged,
  replace,
}
use agent_tooling.Toolbelt.Schemas.Equality.{
  same_scope_eq, same_scope_refl, same_permissions_eq, same_permissions_refl, same_texts_eq,
  same_texts_refl, same_steps_eq, same_steps_refl,
}
use agent_tooling.Toolbelt.Planner.{
  tool_at, expected, Commands, check_contract, validate_action_contracts,
}

-- The tool is the last one of a catalog under an id.
pub record IsLast (id : String) (t : CatalogTool) (tools : List CatalogTool) : Type 0 where
  pub before : List CatalogTool
  pub later : List CatalogTool
  pub at_place : tools ≡ before ++ (t ∷ later)
  pub under_id : t.id ≡ id
  pub last : every (λ u. not (u.id == id)) later ≡ true

find_last-nowhere :
    (id : String) (tools : List CatalogTool)
    → every (λ u. not (u.id == id)) tools ≡ true
    → tool_at id tools ≡ none
unfolding tool_at
find_last-nowhere id [] h = refl
find_last-nowhere id (t ∷ ts) h = ground (arith, find_last-nowhere id ts)

nowhere-find_last :
    (id : String) (tools : List CatalogTool)
    → tool_at id tools ≡ none
    → every (λ u. not (u.id == id)) tools ≡ true
unfolding tool_at
nowhere-find_last id [] h = refl
nowhere-find_last id (t ∷ ts) h = ground (arith, nowhere-find_last id ts)

pub tool_at-IsLast :
    (id : String) (tools : List CatalogTool) (t : CatalogTool)
    → tool_at id tools ≡ some t
    → IsLast id t tools
unfolding tool_at
tool_at-IsLast id [] t h = absurd (ground arith)
tool_at-IsLast id (u ∷ us) t h = elim (Option-cases (tool_at id us)) [
  | inl e ↦
      let here : u ≡ t = ground arith in
      record {
        before = [];
        later = us;
        at_place = ap (λ x. x ∷ us) here;
        under_id = (eq_iff t.id id).0 (ground arith);
        last = nowhere-find_last id us e;
      }
  | inr (v, e) ↦
      let k = tool_at-IsLast id us t (ground arith) in
      record {
        before = u ∷ k.before;
        later = k.later;
        at_place = ap (λ xs. u ∷ xs) k.at_place;
        under_id = k.under_id;
        last = k.last;
      }
]

placed-tool_at :
    (id : String) (t : CatalogTool) (before later : List CatalogTool)
    → (t.id == id) ≡ true
    → every (λ u. not (u.id == id)) later ≡ true
    → tool_at id (before ++ (t ∷ later)) ≡ some t
unfolding tool_at
placed-tool_at id t [] later h k = ground (arith, find_last-nowhere id later k)
placed-tool_at id t (u ∷ us) later h k = ground (arith, placed-tool_at id t us later h k)

IsLast-tool_at :
    (id : String) (t : CatalogTool) (tools : List CatalogTool)
    → IsLast id t tools
    → tool_at id tools ≡ some t
IsLast-tool_at id t tools k =
    rw k.at_place (placed-tool_at id t k.before k.later ((eq_iff t.id id).1 k.under_id) k.last)

-- The commands of an action an operation to a tool: an installation installs, verifies and
-- can be undone; an adoption and a verification only verify; a removal undoes the installation and, when
-- it is undone itself, installs again. Other operations have no commands.
pub data DoesOperation (t : CatalogTool) (a : Action) : ActionOperation → Type 0 where
  installs :
      a.steps ≡ t.installing ∷ []
      → a.verify_steps ≡ t.verifying_step ∷ []
      → a.rollback_steps ≡ t.rollback_step ∷ []
      → DoesOperation t a install
  adopts :
      a.steps ≡ []
      → a.verify_steps ≡ t.verifying_step ∷ []
      → a.rollback_steps ≡ []
      → DoesOperation t a adopt
  verifies :
      a.steps ≡ []
      → a.verify_steps ≡ t.verifying_step ∷ []
      → a.rollback_steps ≡ []
      → DoesOperation t a verify
  removes :
      a.steps ≡ t.rollback_step ∷ []
      → a.verify_steps ≡ []
      → a.rollback_steps ≡ t.installing ∷ []
      → DoesOperation t a remove

-- The action is for a tool of the catalog, the last one under its id, and does an operation to it with
-- the tool's version, scope, permissions and environment.
pub record IsContract (tools : List CatalogTool) (a : Action) : Type 0 where
  pub tool : CatalogTool
  pub listed : IsLast a.tool_id tool tools
  pub same_version : a.tool_version ≡ tool.version
  pub same_scope : a.install_scope ≡ tool.install_scope
  pub same_permissions : a.permissions ≡ tool.permissions
  pub same_env : a.required_env ≡ tool.required_env
  pub does_operation : DoesOperation tool a a.operation

pub data AllContracts (tools : List CatalogTool) : List Action → Type 0 where
  none_left : AllContracts tools []
  one_more :
      {a : Action} {actions : List Action}
      → IsContract tools a
      → AllContracts tools actions
      → AllContracts tools (a ∷ actions)

-- An action runs some commands.
record RunsCommands (a : Action) (c : Commands) : Type 0 where
  same_steps : a.steps ≡ c.steps
  same_verify : a.verify_steps ≡ c.verify_steps
  same_rollback : a.rollback_steps ≡ c.rollback_steps

expected-DoesOperation :
    (t : CatalogTool) (a : Action) (operation : ActionOperation) (c : Commands)
    → expected operation t ≡ some c
    → RunsCommands a c
    → DoesOperation t a operation
expected-DoesOperation t a install c e k =
    installs (ground (arith, k.same_steps)) (ground (arith, k.same_verify))
      (ground (arith, k.same_rollback))
expected-DoesOperation t a adopt c e k =
    adopts (ground (arith, k.same_steps)) (ground (arith, k.same_verify))
      (ground (arith, k.same_rollback))
expected-DoesOperation t a verify c e k =
    verifies (ground (arith, k.same_steps)) (ground (arith, k.same_verify))
      (ground (arith, k.same_rollback))
expected-DoesOperation t a remove c e k =
    removes (ground (arith, k.same_steps)) (ground (arith, k.same_verify))
      (ground (arith, k.same_rollback))
expected-DoesOperation t a update c e k = absurd (ground arith)
expected-DoesOperation t a leave_unmanaged c e k = absurd (ground arith)
expected-DoesOperation t a replace c e k = absurd (ground arith)

DoesOperation-expected :
    (t : CatalogTool) (a : Action) (operation : ActionOperation)
    → DoesOperation t a operation
    → (c : Commands) × (expected operation t ≡ some c) × RunsCommands a c
DoesOperation-expected t a install (installs s v r) =
    (_, refl, record { same_steps = s; same_verify = v; same_rollback = r })
DoesOperation-expected t a adopt (adopts s v r) =
    (_, refl, record { same_steps = s; same_verify = v; same_rollback = r })
DoesOperation-expected t a verify (verifies s v r) =
    (_, refl, record { same_steps = s; same_verify = v; same_rollback = r })
DoesOperation-expected t a remove (removes s v r) =
    (_, refl, record { same_steps = s; same_verify = v; same_rollback = r })
DoesOperation-expected t a update d = elim d [ ]
DoesOperation-expected t a leave_unmanaged d = elim d [ ]
DoesOperation-expected t a replace d = elim d [ ]

accepted-IsContract :
    (tools : List CatalogTool) (a : Action) → check_contract tools a ≡ none → IsContract tools a
unfolding check_contract
accepted-IsContract tools a h = elim (Option-cases (tool_at a.tool_id tools)) [
  | inl e ↦ absurd (ground (arith, rw e at h))
  | inr (t, e) ↦
      let h' = rw e at h in
      elim (Option-cases (expected a.operation t)) [
        | inl f ↦ absurd (ground (arith, rw f at h'))
        | inr (c, f) ↦
            let h'' = rw f at h' in
            record {
              tool = t;
              listed = tool_at-IsLast a.tool_id tools t e;
              same_version = (eq_iff a.tool_version t.version).0 (ground arith);
              same_scope = same_scope_eq a.install_scope t.install_scope (ground arith);
              same_permissions = same_permissions_eq a.permissions t.permissions (ground arith);
              same_env = same_texts_eq a.required_env t.required_env (ground arith);
              does_operation = expected-DoesOperation t a a.operation c f (record {
                same_steps = same_steps_eq a.steps c.steps (ground arith);
                same_verify = same_steps_eq a.verify_steps c.verify_steps (ground arith);
                same_rollback = same_steps_eq a.rollback_steps c.rollback_steps (ground arith);
              });
            }
      ]
]

IsContract-accepted :
    (tools : List CatalogTool) (a : Action) → IsContract tools a → check_contract tools a ≡ none
unfolding check_contract
IsContract-accepted tools a k =
    let (c, of_operation, runs) = DoesOperation-expected k.tool a a.operation k.does_operation in
    rw
      (
        IsLast-tool_at a.tool_id k.tool tools k.listed,
        k.same_version,
        k.same_scope,
        k.same_permissions,
        k.same_env,
        of_operation,
        runs.same_steps,
        runs.same_verify,
        runs.same_rollback,
        eq_refl k.tool.version,
        same_scope_refl k.tool.install_scope,
        same_permissions_refl k.tool.permissions,
        same_texts_refl k.tool.required_env,
        same_steps_refl c.steps,
        same_steps_refl c.verify_steps,
        same_steps_refl c.rollback_steps,
      )
      refl

validate-AllContracts :
    (tools : List CatalogTool) (actions : List Action)
    → validate_action_contracts actions tools ≡ none
    → AllContracts tools actions
unfolding validate_action_contracts
validate-AllContracts tools [] h = none_left
validate-AllContracts tools (a ∷ actions) h = elim (Option-cases (check_contract tools a)) [
  | inl e ↦
      one_more (accepted-IsContract tools a e) (validate-AllContracts tools actions (rw e at h))
  | inr (fault, e) ↦ absurd (ground (arith, rw e at h))
]

AllContracts-validate :
    (tools : List CatalogTool) (actions : List Action)
    → AllContracts tools actions
    → validate_action_contracts actions tools ≡ none
unfolding validate_action_contracts
AllContracts-validate tools [] none_left = refl
AllContracts-validate tools (a ∷ actions) (one_more k ks) =
    rw (IsContract-accepted tools a k) (AllContracts-validate tools actions ks)

-- The contracts of a list of actions are accepted just where each action is for a tool of the catalog,
-- the last one under its id, has that tool's version, scope, permissions and environment, and has the
-- commands of its operation: an installation installs, verifies and is undone by the tool's rollback, an
-- adoption or a verification only verifies, a removal runs the rollback and is undone by installing, and
-- no other operation is accepted.
pub validate_exact :
    (tools : List CatalogTool) (actions : List Action)
    → (validate_action_contracts actions tools ≡ none) ↔ AllContracts tools actions
validate_exact tools actions =
    (validate-AllContracts tools actions, AllContracts-validate tools actions)
