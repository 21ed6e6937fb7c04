-- ===== src/Profiles/Tests.antt =====
-- A profile that validate accepts, and the theorems on it.
use remote_devbox_mcp.Base.{
  ℕ, ◌≤◌, ◌≡◌, ◌⊎◌, refl, true, false, not, [], ◌∷◌, some, codes, any, all, mem, sorted_set,
  insert_sorted, select, has_byte, is_in, text_eq, strip_prefix?, find_sep, strip, is_empty, lookup,
  insert, strip_left,
}
use remote_devbox_mcp.Profiles.Data.{
  HostService, RunnerCommand, ExposedMcp, Profile, no_profile, runner_tool_name,
}
use remote_devbox_mcp.Profiles.Validate.Fields.{
  warning, Host, each, has_duplicates, has_duplicate_ports, is_mount, is_toolchain,
  identity_problems, has_split_path, service_problems, arg_problems, command_problems, tool_sources,
  owner_problems, runner_problems, mcp_problems, exposed_problems, mount_problems, setup_problems,
}
use remote_devbox_mcp.Profiles.Validate.PortRules.{
  bearer_pairs, pairs, protected_ports, guard_problem, range_problems, insert_range, sort_ranges,
  overlap_problems, allowed_problems, ranges_problems, cockpit_problems, gateway_port_problems,
  gateway_problems, preview_problems, naked_problems, runner_port_problems, runner_problem,
}
use remote_devbox_mcp.Profiles.Validate.{field_problems, port_problems, validate, accepts}
use remote_devbox_mcp.Gateway.Policy.Names.{valid_server_name}
use remote_devbox_mcp.Profiles.Laws.{is_port_allowed-accepts}
use remote_devbox_mcp.Profiles.Opened.{is_port_allowed-bounds}
use remote_devbox_mcp.Profiles.GatewayPort.{is_port_allowed-gateway}
use remote_devbox_mcp.Profiles.Ranges.{count_in, overlap_problems-sort_ranges}
use remote_devbox_mcp.Ports.Laws.{opened_by_command}
use remote_devbox_mcp.Profiles.Clean.{clean}
use remote_devbox_mcp.Profiles.Validate.PortRules.{is_kept}
use remote_devbox_mcp.Base.{◌↔◌, insert_sorted}
use remote_devbox_mcp.Ports.{
  with_backends, service_ports, command_ports, is_port_allowed, compute_port_policy,
}

abbrev host : Host
host = record {
  exists = λ path. not (is_empty path);
  join_path = λ folder name. name;
  split_words = λ words. words ∷ [];
}

abbrev web : HostService
web = record { port = 5173; auth = codes "bearer"; cwd = []; cmd = codes "npm" }

abbrev build : RunnerCommand
build = record {
  name = codes "build";
  cmd = codes "make" ∷ [];
  description = [];
  args = [];
  background = false;
  port = some 8795;
  timeout = some 60;
}

abbrev files : ExposedMcp
files = record { name = codes "files"; mode = codes "readonly"; tool_allow = codes "read" ∷ [] }

abbrev shop : Profile
shop = record no_profile {
  project_dir = codes "C";
  git_name = codes "dev";
  git_email = codes "d@e";
  host_services = web ∷ [];
  runner_commands = build ∷ [];
  runner_port = some 8796;
  port_ranges = (4000, 4100) ∷ (3000, 3010) ∷ [];
  port_deny = 3005 ∷ [];
  allowed_ports = 8080 ∷ [];
  exposed_mcps = files ∷ [];
}

validate-shop : validate host shop ≡ warning 19 ∷ []
unfolding validate identity_problems service_problems find_sep has_duplicate_ports select mem
    runner_problems is_in lookup exposed_problems valid_server_name text_eq runner_problem
    allowed_problems ranges_problems sorted_set cockpit_problems insert all any insert_sorted
    has_byte strip strip_left strip_prefix? runner_tool_name arg_problems command_problems each
    has_duplicates has_split_path is_mount is_toolchain mcp_problems mount_problems owner_problems
    setup_problems tool_sources bearer_pairs gateway_port_problems gateway_problems guard_problem
    insert_range naked_problems overlap_problems pairs preview_problems protected_ports
    range_problems runner_port_problems sort_ranges field_problems port_problems
validate-shop = refl

shop-accepts : accepts host shop ≡ true
unfolding accepts select
shop-accepts = rw validate-shop refl

is_port_allowed-accepts_example :
    is_port_allowed (compute_port_policy shop) 4050 ≡ not (mem 4050 shop.port_deny)
unfolding any
is_port_allowed-accepts_example = is_port_allowed-accepts host shop 4050 shop-accepts refl

is_port_allowed-bounds_example :
    ((1 ≤ 4050) × (4050 ≤ 65535)) ⊎ (opened_by_command shop.runner_commands 4050 ≡ true)
unfolding any mem
is_port_allowed-bounds_example =
    is_port_allowed-bounds host shop 4050 shop-accepts (is_port_allowed-accepts_example)

is_port_allowed-gateway_example : opened_by_command shop.runner_commands 8795 ≡ true
unfolding is_port_allowed compute_port_policy any mem sorted_set insert_sorted with_backends
    service_ports command_ports text_eq
is_port_allowed-gateway_example = is_port_allowed-gateway host shop 8795 shop-accepts refl refl refl

overlap_problems-sort_ranges_example :
    (clean (overlap_problems (sort_ranges (select is_kept shop.port_ranges))) ≡ true)
    ↔ ((port : ℕ) → count_in port (select is_kept shop.port_ranges) ≤ 1)
overlap_problems-sort_ranges_example = overlap_problems-sort_ranges shop.port_ranges
