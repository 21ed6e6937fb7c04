-- ===== src/Ports.antt =====
-- The port policy of the ingress, home/rdm/ports.py.
pub mod Laws
mod Tests
use remote_devbox_mcp.Base.{
  ℕ, ◌+◌, Bool, true, false, not, ◌&&◌, ◌||◌, List, [], ◌∷◌, ◌++◌, map, Option, none, some,
  if◌then◌else◌, ◌==◌, leb, Text, codes, text_eq, any, mem, sorted_set, is_empty,
}
use remote_devbox_mcp.Profiles.Data.{bridge_port, HostService, RunnerCommand, Profile}

abbrev pub default_runner_port : ℕ
default_runner_port = 8796

abbrev pub default_gateway_port : ℕ
default_gateway_port = 8794

abbrev pub cockpit_port : ℕ
cockpit_port = 8793

pub record PortPolicy : Type 0 where
  pub self_authed : List ℕ
  pub allowed : List ℕ
  pub runner_port : Option ℕ
  pub ranges : List (ℕ × ℕ)
  pub denied : List ℕ

-- `lo <= port <= hi`
abbrev pub in_range : ℕ → ℕ × ℕ → Bool
in_range port (lo, hi) = leb lo port && leb port hi

-- `{p for service_port in self_authed for p in (service_port, service_port + 1)}`
unfoldable pub with_backends : List ℕ → List ℕ
with_backends [] = []
with_backends (p ∷ ps) = p ∷ (p + 1) ∷ with_backends ps

unfoldable pub is_port_allowed : PortPolicy → ℕ → Bool
unfolding with_backends any
is_port_allowed policy port =
    let protected_ports = cockpit_port ∷ with_backends policy.self_authed in
    if mem port policy.denied || mem port protected_ports
    then false
    else mem port policy.allowed || any (in_range port) policy.ranges

-- `port or default`: a port of 0 counts as none.
abbrev pub port_or : Option ℕ → ℕ → ℕ
port_or none default = default
port_or (some n) default = if n == 0 then default else n

abbrev pub bearer : Text
bearer = codes "bearer"

-- The command line of the service that is added; the executable and the folder come from outside.
pub record Install : Type 0 where
  pub frozen : Bool
  pub executable : Text
  pub app_dir : Text

unfoldable pub with_runner_service : Install → Profile → Profile
with_runner_service install profile =
    if is_empty profile.runner_commands
    then profile
    else let service : HostService = record {
      port = port_or profile.runner_port default_runner_port;
      auth = bearer;
      cwd = install.app_dir;
      cmd =
          if install.frozen
          then codes "\"" ++ (install.executable ++ codes "\" runner")
          else codes "python host/runner-mcp.py";
    } in
      record profile { host_services = profile.host_services ++ service ∷ [] }

unfoldable pub with_gateway_service : Install → Profile → Profile
with_gateway_service install profile =
    if is_empty profile.exposed_mcps
    then profile
    else let service : HostService = record {
      port = port_or profile.gateway_port default_gateway_port;
      auth = bearer;
      cwd = install.app_dir;
      cmd =
          if install.frozen
          then codes "\"" ++ (install.executable ++ codes "\" gateway")
          else codes "python -m rdm.gateway";
    } in
      record profile { host_services = profile.host_services ++ service ∷ [] }

-- `service.port for service in host_services if service.auth == "bearer"`, or `!= "bearer"`
unfoldable pub service_ports : Bool → List HostService → List ℕ
service_ports authed [] = []
service_ports authed (s ∷ ss) =
    let rest = service_ports authed ss in
    if text_eq s.auth bearer
    then (if authed then s.port ∷ rest else rest)
    else (if authed then rest else s.port ∷ rest)

-- `command.port for command in runner_commands if command.port`
unfoldable pub command_ports : List RunnerCommand → List ℕ
command_ports [] = []
command_ports (c ∷ cs) =
    let rest = command_ports cs in
    elim c.port [ none ↦ rest | some n ↦ if n == 0 then rest else n ∷ rest ]

unfoldable pub compute_port_policy : Profile → PortPolicy
compute_port_policy profile =
    let runner_port =
      if is_empty profile.runner_commands
      then none
      else some (port_or profile.runner_port default_runner_port) in
    let runner : List ℕ = elim runner_port [ none ↦ [] | some p ↦ p ∷ [] ] in
    record {
      self_authed = sorted_set ((bridge_port ∷ service_ports true profile.host_services) ++ runner);
      allowed = sorted_set (
          profile.allowed_ports
          ++ (service_ports false profile.host_services ++ command_ports profile.runner_commands));
      runner_port = runner_port;
      ranges = profile.port_ranges;
      denied = profile.port_deny;
    }
