-- ===== src/Toolbelt/Schemas.antt =====
-- The types of toolbelt/src/toolbelt/schemas.py that policy, planner, store and executor read. The
-- texts were validated when the models were built. A confidence is in hundredths, a timeout in
-- milliseconds, a time in seconds.
pub mod Equality
use agent_tooling.Prelude.{ℕ, String, Bool, Option, List}

pub data Permission : Type 0 where
  network filesystem_read filesystem_write process_spawn : Permission
  browser_control shell_exec credentials_read no_permission : Permission

pub data InstallScope : Type 0 where
  project user repo_committed : InstallScope

pub data ActionOperation : Type 0 where
  install update verify remove adopt leave_unmanaged replace : ActionOperation

pub data TransactionState : Type 0 where
  planned preflight applying verifying succeeded : TransactionState
  rolling_back rolled_back rollback_failed interrupted : TransactionState

pub data EvidenceStrength : Type 0 where
  weak strong required : EvidenceStrength

pub data CapabilityStatus : Type 0 where
  known unknown : CapabilityStatus

pub record Evidence : Type 0 where
  pub kind : String
  pub key : String
  pub detail : String
  pub source : String
  pub strength : EvidenceStrength

pub record CapabilitySnapshot : Type 0 where
  pub status : CapabilityStatus
  pub native : List String
  pub installed : List String
  pub managed : List String

pub record ActionStep : Type 0 where
  pub argv : List String
  pub cwd : Option String
  pub timeout : ℕ
  pub requires_network : Bool
  pub requires_elevation : Bool

pub record CatalogTool : Type 0 where
  pub id : String
  pub name : String
  pub provenance : String
  pub version : String
  pub permissions : List Permission
  pub install_scope : InstallScope
  pub artifacts : List String
  pub required_env : List String
  pub strong_evidence : List String
  pub weak_evidence : List String
  pub required_capabilities : List String
  pub suppressed_by_capabilities : List String
  pub live_name : Option String
  pub installing : ActionStep
  pub verifying_step : ActionStep
  pub rollback_step : ActionStep
  pub enabled : Bool

pub record Action : Type 0 where
  pub id : String
  pub operation : ActionOperation
  pub tool_id : String
  pub tool_version : String
  pub install_scope : InstallScope
  pub permissions : List Permission
  pub evidence : List Evidence
  pub confidence : ℕ
  pub why : String
  pub steps : List ActionStep
  pub verify_steps : List ActionStep
  pub rollback_steps : List ActionStep
  pub required_env : List String

pub record RepositoryBinding : Type 0 where
  pub root : String
  pub identity : String
  pub content_digest : String
  pub git_head : Option String
  pub dirty_digest : Option String

pub record Plan : Type 0 where
  pub plan_id : String
  pub repository : RepositoryBinding
  pub catalog_digest : String
  pub capability_digest : String
  pub catalog_tools : List (String × String)
  pub actions : List Action
  pub created_at : ℕ
  pub expires_at : ℕ

pub record DeclaredTool : Type 0 where
  pub tool_id : String
  pub version : String
  pub provenance : String
  pub install_scope : InstallScope
  pub permissions : List Permission
  pub required_env : List String
  pub artifacts : List String

pub record Declaration : Type 0 where
  pub repository_identity : String
  pub catalog_digest : String
  pub tools : List DeclaredTool

-- What a command printed is left out: nothing reads it again. A negative code is any number but 0.
pub record CommandResult : Type 0 where
  pub argv : List String
  pub returncode : Option ℕ
  pub timed_out : Bool
