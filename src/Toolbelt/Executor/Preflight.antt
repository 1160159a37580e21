-- ===== src/Toolbelt/Executor/Preflight.antt =====
-- `_preflight` of toolbelt/src/toolbelt/executor.py: the checks before anything is run.
use agent_tooling.Prelude.{
  String, Bool, true, false, not, ◌&&◌, ◌||◌, Option, none, some, List, [], ◌∷◌, ◌++◌, any, every,
  if◌then◌else◌, ◌==◌,
}
use agent_tooling.Toolbelt.Errors.{
  apply_failed, drift, Check, raise_when, and_then, Attempt, returned, with_value, after,
}
use agent_tooling.Toolbelt.Schemas.{
  ActionOperation, install, verify, remove, adopt, ActionStep, CatalogTool, Action, Plan,
  DeclaredTool, Declaration,
}
use agent_tooling.Toolbelt.Policy.{is_user_scope}
use agent_tooling.Toolbelt.Planner.{tool_at, Catalog}
use agent_tooling.Toolbelt.Declaration.{load_declaration}
use agent_tooling.Toolbelt.Executor.{Host}

-- The keyword arguments of `apply`.
pub record Approvals : Type 0 where
  pub allow_network : Bool
  pub allow_user_scope : Bool
  pub allow_elevation : Bool
  pub dry_run : Bool

-- A loop whose body checks.
abbrev pub check_each {ℓ} : {A : Type ℓ} → (A → Check) → List A → Check
check_each f [] = none
check_each f (x ∷ xs) = and_then (f x) (check_each f xs)

abbrev first_argument : List String → String
first_argument [] = ""
first_argument (word ∷ words) = word

abbrev is_install_or_adopt : ActionOperation → Bool
is_install_or_adopt install = true
is_install_or_adopt adopt = true
is_install_or_adopt _ = false

abbrev is_verify_or_remove : ActionOperation → Bool
is_verify_or_remove verify = true
is_verify_or_remove remove = true
is_verify_or_remove _ = false

abbrev is_verify : ActionOperation → Bool
is_verify verify = true
is_verify _ = false

abbrev lacks_version : DeclaredTool → Option CatalogTool → Bool
lacks_version d none = true
lacks_version d (some t) = not (t.version == d.version)

abbrev is_declared : List DeclaredTool → String → Bool
is_declared tools id = any (λ d. d.tool_id == id) tools

module _ (host : Host) (approved : Approvals) where
  abbrev check_step : ActionStep → Check
  check_step s = raise_when (s.requires_network && not approved.allow_network) apply_failed (
      raise_when (s.requires_elevation && not approved.allow_elevation) apply_failed
        (check_cwd s.cwd))
    where
      check_cwd : Option String → Check
      check_cwd none = none
      check_cwd (some path) = host.owned path

  abbrev check_executable : ActionStep → Check
  check_executable s = raise_when (not (host.executable (first_argument s.argv))) apply_failed none

  abbrev check_variable : String → Check
  check_variable name = raise_when (not (host.has_variable name)) apply_failed none

  abbrev check_known : Action → Option CatalogTool → Check
  check_known a none = some drift
  check_known a (some t) = raise_when (not (t.version == a.tool_version)) drift (
      raise_when (is_user_scope a.install_scope && not approved.allow_user_scope) apply_failed (
        and_then (check_each check_variable a.required_env) (
          and_then (check_each host.owned t.artifacts) (
            and_then (check_each check_step (a.steps ++ a.verify_steps ++ a.rollback_steps))
              (check_each check_executable (a.steps ++ a.rollback_steps))))))

  -- The body of the first loop.
  unfoldable pub check_action : List CatalogTool → Action → Check
  check_action catalog a = check_known a (tool_at a.tool_id catalog)

abbrev check_declared : List DeclaredTool → Action → Check
check_declared tools a =
    if is_install_or_adopt a.operation
    then raise_when (is_declared tools a.tool_id) drift none
    else if is_verify_or_remove a.operation
    then raise_when (not (is_declared tools a.tool_id)) drift none
    else none

abbrev verifies : String → Action → Bool
verifies id a = is_verify a.operation && a.tool_id == id

-- `verified == declared`, as sets.
abbrev verifies_all : List Action → List DeclaredTool → Bool
verifies_all actions tools =
    every (λ d. any (verifies d.tool_id) actions) tools
    && every (λ a. not (is_verify a.operation) || is_declared tools a.tool_id) actions

-- The checks of an existing declaration.
unfoldable pub check_existing : Plan → Catalog → Option Declaration → Check
check_existing p c none = none
check_existing p c (some d) =
    raise_when (not (d.repository_identity == p.repository.identity)) drift (
      raise_when (any (λ t. lacks_version t (tool_at t.tool_id c.tools)) d.tools) drift (
        raise_when (not (d.catalog_digest == c.digest) && not (verifies_all p.actions d.tools))
          drift (check_each (check_declared d.tools) p.actions)))

-- `_preflight`, which returns the declaration that it read.
unfoldable pub preflight :
    Host → Approvals → Plan → Catalog → Option String → Attempt (Option Declaration)
preflight host approved p c content =
    after (check_each (check_action host approved c.tools) p.actions) (
      with_value (load_declaration host.parse content)
        λ existing. after (check_existing p c existing) (returned existing))
