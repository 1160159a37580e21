-- ===== src/Toolbelt/Declaration.antt =====
-- The declaration `.toolbelt/lock.toml`: `render_declaration` and `load_declaration` of
-- toolbelt/src/toolbelt/state.py, and `_updated_declaration` of toolbelt/src/toolbelt/executor.py.
-- JSON strings and the TOML parser are parameters.
use Prim.Native.String.{◌++◌}
use agent_tooling.Prelude.{
  ℕ, ◌+◌, String, Bool, true, false, not, Option, none, some, List, [], ◌∷◌, ltb, codes, map,
  select, if◌then◌else◌, ◌==◌, text_leb, sort_by,
}
use agent_tooling.Toolbelt.Errors.{
  validation, key_error, Attempt, returned, raised, with_value, raise_when, after,
}
use agent_tooling.Toolbelt.Schemas.{
  Permission, network, filesystem_read, filesystem_write, process_spawn, browser_control,
  shell_exec, credentials_read, no_permission, InstallScope, project, user, repo_committed,
  ActionOperation, remove, CatalogTool, Action, Plan, DeclaredTool, Declaration,
}
use agent_tooling.Toolbelt.Planner.{tool_at}

abbrev permission_text : Permission → String
permission_text network = "network"
permission_text filesystem_read = "filesystem-read"
permission_text filesystem_write = "filesystem-write"
permission_text process_spawn = "process-spawn"
permission_text browser_control = "browser-control"
permission_text shell_exec = "shell-exec"
permission_text credentials_read = "credentials-read"
permission_text no_permission = "none"

abbrev scope_text : InstallScope → String
scope_text project = "project"
scope_text user = "user"
scope_text repo_committed = "repo-committed"

-- `", ".join(...)` of the quoted values.
abbrev joined : (String → String) → List String → String
joined quote [] = ""
joined quote (v ∷ []) = quote v
joined quote (v ∷ w ∷ vs) = quote v ++ ", " ++ joined quote (w ∷ vs)

-- `_toml_array(sorted(values))`
abbrev toml_array : (String → String) → List String → String
toml_array quote values = "[" ++ joined quote (sort_by (λ v. v) values) ++ "]"

-- The lines of a tool, each with the newline that `"\n".join` and the last line put after it.
abbrev tool_lines : (String → String) → DeclaredTool → String
tool_lines quote t =
    "\n[[tool]]\n"
    ++ "tool_id = "
    ++ quote t.tool_id
    ++ "\nversion = "
    ++ quote t.version
    ++ "\nprovenance = "
    ++ quote t.provenance
    ++ "\ninstall_scope = "
    ++ quote (scope_text t.install_scope)
    ++ "\npermissions = "
    ++ toml_array quote (map permission_text t.permissions)
    ++ "\nrequired_env = "
    ++ toml_array quote t.required_env
    ++ "\nartifacts = "
    ++ toml_array quote t.artifacts
    ++ "\n"

unfoldable pub all_lines : (String → String) → List DeclaredTool → String
all_lines quote [] = ""
all_lines quote (t ∷ ts) = tool_lines quote t ++ all_lines quote ts

-- `render_declaration`; `quote` is `json.dumps` of a text.
unfoldable pub render_declaration : (String → String) → Declaration → String
render_declaration quote d =
    "schema_version = 2\n"
    ++ "repository_identity = "
    ++ quote d.repository_identity
    ++ "\ncatalog_digest = "
    ++ quote d.catalog_digest
    ++ "\n"
    ++ all_lines quote (sort_by DeclaredTool.tool_id d.tools)

-- The largest declaration that is read.
abbrev pub one_mib : ℕ
one_mib = 1048576

-- The bytes of a text in UTF-8, the size of its file.
abbrev code_bytes : ℕ → ℕ
code_bytes c = if ltb c 128 then 1 else if ltb c 2048 then 2 else if ltb c 65536 then 3 else 4

abbrev pub byte_length : List ℕ → ℕ
byte_length [] = 0
byte_length (c ∷ cs) = code_bytes c + byte_length cs

-- `load_declaration` of the text of the file, if there is one.
unfoldable pub load_declaration :
    (String → Attempt Declaration) → Option String → Attempt (Option Declaration)
load_declaration parse none = returned none
load_declaration parse (some content) =
    after (raise_when (ltb one_mib (byte_length (codes content))) validation none)
      (with_value (parse content) λ d. returned (some d))

-- An assignment to the dictionary of tools, whose items are kept in the order of their ids.
unfoldable pub put_tool : DeclaredTool → List DeclaredTool → List DeclaredTool
put_tool t [] = t ∷ []
put_tool t (u ∷ us) =
    let later = put_tool t us in
    if t.tool_id == u.tool_id
    then t ∷ us
    else if text_leb t.tool_id u.tool_id
    then t ∷ u ∷ us
    else u ∷ later

abbrev differs : String → DeclaredTool → Bool
differs id u = not (u.tool_id == id)

abbrev is_remove : ActionOperation → Bool
is_remove remove = true
is_remove _ = false

abbrev pub declared : CatalogTool → DeclaredTool
declared t = record {
  tool_id = t.id;
  version = t.version;
  provenance = t.provenance;
  install_scope = t.install_scope;
  permissions = t.permissions;
  required_env = t.required_env;
  artifacts = t.artifacts;
}

abbrev declare : Option CatalogTool → List DeclaredTool → Attempt (List DeclaredTool)
declare none tools = raised key_error
declare (some t) tools = returned (put_tool (declared t) tools)

-- The body of the loop over the actions.
abbrev pub declare_action :
    List CatalogTool → Action → List DeclaredTool → Attempt (List DeclaredTool)
declare_action catalog a tools =
    if is_remove a.operation
    then returned (select (differs a.tool_id) tools)
    else declare (tool_at a.tool_id catalog) tools

unfoldable pub declare_actions :
    List CatalogTool → List Action → List DeclaredTool → Attempt (List DeclaredTool)
declare_actions catalog [] tools = returned tools
declare_actions catalog (a ∷ actions) tools =
    with_value (declare_action catalog a tools) (declare_actions catalog actions)

unfoldable pub in_id_order : List DeclaredTool → List DeclaredTool → List DeclaredTool
in_id_order sorted [] = sorted
in_id_order sorted (t ∷ ts) = in_id_order (put_tool t sorted) ts

abbrev pub tools_of : Option Declaration → List DeclaredTool
tools_of none = []
tools_of (some d) = d.tools

-- `_updated_declaration`
unfoldable pub updated_declaration :
    Plan → List CatalogTool → Option Declaration → Attempt Declaration
updated_declaration p catalog existing =
    with_value (declare_actions catalog p.actions (in_id_order [] (tools_of existing))) λ tools.
      returned (record {
        repository_identity = p.repository.identity;
        catalog_digest = p.catalog_digest;
        tools = tools;
      })
