-- ===== src/Gateway/Policy/CallLaws.antt =====
-- The decision on calls, `check_call` of home/rdm/gateway/policy.py.
use remote_devbox_mcp.Base.{
  ◌≡◌, Bool, true, not, ◌&&◌, List, Option, none, some, arith, if◌then◌else◌, Text, codes, text_eq,
  is_in, any, lookup,
}
use remote_devbox_mcp.Gateway.Policy.PathLaws.{IsInside, resolves_inside-IsInside}
use remote_devbox_mcp.Gateway.Policy.Calls.{
  default_deny_servers, meta_tool_deny, str, Arguments, constraints_of, value_fits, bounds_fit,
  allowed_tools, check_call,
}

-- What a call that is let through satisfies; the only constrained argument is `projectPath` of
-- the server `codegraph`.
abbrev pub arg_fits : Text → Option Arguments → Option Text → Bool
arg_fits server none project_dir = true
arg_fits server (some args) project_dir =
    if text_eq (codes "codegraph") server
    then (elim (lookup (codes "projectPath") args) [
      | none ↦ true
      | some value ↦ value_fits value project_dir
    ])
    else true

bounds_fit-arg_fits :
    (server : Text) (args : Option Arguments) (project_dir : Option Text)
    → bounds_fit (constraints_of server) args project_dir ≡ arg_fits server args project_dir
unfolding bounds_fit constraints_of text_eq
bounds_fit-arg_fits server none project_dir = ground arith
bounds_fit-arg_fits server (some args) project_dir = ground arith

-- A call is allowed exactly if its server is not denied, its tool is no meta tool, the tool is on
-- the allowlist, and its path argument, if it is constrained, lies inside the project.
pub check_call-allowed :
    (server tool : Text) (tool_allow : Option (List Text)) (args : Option Arguments)
    (project_dir : Option Text)
    → (check_call server tool tool_allow args project_dir).0 ≡ (
        not (is_in server default_deny_servers)
        && not (is_in tool meta_tool_deny)
        && is_in tool (allowed_tools tool_allow)
        && arg_fits server args project_dir)
unfolding check_call is_in any
check_call-allowed server tool tool_allow args project_dir =
    ground (arith, bounds_fit-arg_fits server args project_dir)

-- A `codegraph` call that is let through has a `projectPath`, if it is given as a string, that lies
-- inside the project.
pub check_call-IsInside :
    (tool value project_dir : Text) (tool_allow : Option (List Text)) (args : Arguments)
    → (check_call (codes "codegraph") tool tool_allow (some args) (some project_dir)).0 ≡ true
    → lookup (codes "projectPath") args ≡ some (str value)
    → IsInside value project_dir
unfolding value_fits text_eq
check_call-IsInside tool value project_dir tool_allow args h found =
    resolves_inside-IsInside value project_dir (
      ground (
        arith,
        check_call-allowed (codes "codegraph") tool tool_allow (some args) (some project_dir),
      ))
