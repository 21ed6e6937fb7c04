-- ===== src/Gateway/Policy/Calls.antt =====
-- policy.py: `check_call`, with the tables of data.py.
use remote_devbox_mcp.Base.{
  Bool, true, false, not, ◌&&◌, List, [], ◌∷◌, Option, none, some, if◌then◌else◌, Text, codes,
  text_eq, is_in, is_empty, Dict, lookup,
}
use remote_devbox_mcp.Gateway.Policy.Paths.{resolves_inside}

abbrev pub default_deny_servers : List Text
default_deny_servers = codes "stitch-manager" ∷ codes "lgm" ∷ codes "ssh" ∷ codes "playwright" ∷ []

abbrev pub meta_tool_deny : List Text
meta_tool_deny =
    codes "execute_any"
    ∷ codes "list_mcp_commands"
    ∷ codes "import_accounts_payload"
    ∷ codes "bulk_export_accounts"
    ∷ codes "import_secrets"
    ∷ []

abbrev pub arg_constraints : Dict (Dict Text)
arg_constraints = (codes "codegraph", (codes "projectPath", codes "project_dir") ∷ []) ∷ []

-- An argument's value: a string, or something else.
pub data Argument : Type 0 where
  str : Text → Argument
  other : Argument

abbrev pub Arguments : Type 0
Arguments = Dict Argument

-- `ARG_CONSTRAINTS.get(server, {})`
unfoldable pub constraints_of : Text → Dict Text
unfolding lookup
constraints_of server = elim (lookup server arg_constraints) [ none ↦ [] | some bounds ↦ bounds ]

-- the body of the loop over the constraints, on a value that is there
unfoldable pub value_fits : Argument → Option Text → Bool
value_fits (str value) project_dir = resolves_inside value project_dir
value_fits other project_dir = false

-- whether the loop passes this constraint
unfoldable pub bound_fits : Text → Text → Option Arguments → Option Text → Bool
unfolding value_fits
bound_fits arg bound none project_dir = true
bound_fits arg bound (some args) project_dir =
    if not (text_eq bound (codes "project_dir"))
    then true
    else elim (lookup arg args) [ none ↦ true | some value ↦ value_fits value project_dir ]

unfoldable pub bounds_fit : Dict Text → Option Arguments → Option Text → Bool
unfolding bound_fits
bounds_fit [] args project_dir = true
bounds_fit ((arg, bound) ∷ bounds) args project_dir =
    bound_fits arg bound args project_dir && bounds_fit bounds args project_dir

-- `frozenset(tool_allow or ())`
abbrev pub allowed_tools : Option (List Text) → List Text
allowed_tools none = []
allowed_tools (some tools) = tools

unfoldable pub check_call :
    Text → Text → Option (List Text) → Option Arguments → Option Text → Bool × Text
unfolding bounds_fit
check_call server tool tool_allow args project_dir =
    let allowed = allowed_tools tool_allow in
    if is_in server default_deny_servers
    then (false, codes "default-deny")
    else if is_in tool meta_tool_deny
    then (false, codes "meta-tool-deny")
    else if is_empty allowed
    then (false, codes "empty-allowlist")
    else if not (is_in tool allowed)
    then (false, codes "tool-not-allowed")
    else if not (bounds_fit (constraints_of server) args project_dir)
    then (false, codes "arg-outside-project")
    else (true, codes "ok")
