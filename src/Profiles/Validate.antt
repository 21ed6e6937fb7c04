-- ===== src/Profiles/Validate.antt =====
-- `validate` and `write_raw` of profiles.py.
pub mod Fields
pub mod PortRules
use remote_devbox_mcp.Base.{ℕ, Bool, true, false, not, List, [], ◌++◌, select, is_empty, map}
use remote_devbox_mcp.Profiles.Data.{HostService, Profile}
use remote_devbox_mcp.Profiles.Validate.Fields.{
  Problem, error, warning, Host, when, each, has_duplicate_ports, identity_problems,
  service_problems, runner_problems, exposed_problems, setup_problems,
}
use remote_devbox_mcp.Profiles.Validate.PortRules.{
  ports_of, runner_problem, allowed_problems, ranges_problems, cockpit_problems, gateway_problems,
  preview_problems, runner_port_problems,
}

-- `validate` up to the rules on ports
unfoldable pub field_problems : Host → Profile → List Problem
unfolding each
field_problems host p =
    identity_problems host p
    ++ each (service_problems host) p.host_services
    ++ when (has_duplicate_ports (ports_of p.host_services)) (error 7)
    ++ runner_problems p
    ++ exposed_problems p

-- the rules on ports
unfoldable pub port_problems : Profile → List Problem
port_problems p =
    runner_problem p
    ++ allowed_problems p
    ++ ranges_problems p
    ++ cockpit_problems p
    ++ gateway_problems p
    ++ preview_problems p
    ++ runner_port_problems p

-- `profiles.validate`: the problems in the order of the source
unfoldable pub validate : Host → Profile → List Problem
unfolding field_problems port_problems
validate host p = field_problems host p ++ (port_problems p ++ setup_problems host p)

-- `not problem.startswith("WARN")`
abbrev pub is_error : Problem → Bool
is_error (error _) = true
is_error (warning _) = false

-- `write_raw`, after `_build`: the file is replaced only when no problem is an error
unfoldable pub accepts : Host → Profile → Bool
unfolding validate
accepts host p = is_empty (select is_error (validate host p))
