-- ===== src/Ports/Tests.antt =====
-- The port policy of a small profile.
use remote_devbox_mcp.Base.{
  ℕ, ◌≡◌, refl, Bool, true, false, not, ◌&&◌, ◌||◌, [], ◌∷◌, none, some, codes, text_eq, any, map,
  mem, sorted_set, insert_sorted,
}
use remote_devbox_mcp.Profiles.Data.{Profile, no_profile}
use remote_devbox_mcp.Ports.{
  Install, bearer, is_port_allowed, compute_port_policy, with_backends, service_ports,
  command_ports,
}
use remote_devbox_mcp.Ports.Laws.{is_guarded, is_declared, is_port_allowed-compute}

abbrev profile : Profile
profile = record no_profile {
  host_services =
      (record { port = 9000; auth = bearer; cwd = []; cmd = [] })
      ∷ (record { port = 9100; auth = codes "none"; cwd = []; cmd = [] })
      ∷ [];
  runner_commands =
      (record {
        name = codes "build";
        cmd = codes "make" ∷ [];
        description = [];
        args = [];
        background = false;
        port = some 9200;
        timeout = none;
      })
      ∷ [];
  gateway_port = some 9300;
  exposed_mcps =
      (record { name = codes "codegraph"; mode = codes "readonly"; tool_allow = [] }) ∷ [];
  allowed_ports = 3000 ∷ 8793 ∷ [];
  port_ranges = (9000, 9400) ∷ [];
  port_deny = 9350 ∷ [];
}

abbrev install : Install
install = record { frozen = true; executable = codes "rdm"; app_dir = codes "home" }

-- the policy's answer
allows : ℕ → Bool
unfolding is_port_allowed with_backends any mem compute_port_policy sorted_set insert_sorted
    service_ports command_ports text_eq
allows port = is_port_allowed (compute_port_policy profile) port

-- A service that is open, one that authorizes by itself, the port behind it, the cockpit and a
-- denied port.
run-allows :
    map allows (9100 ∷ 9000 ∷ 9001 ∷ 8793 ∷ 9350 ∷ []) ≡ true ∷ false ∷ false ∷ false ∷ false ∷ []
unfolding allows
run-allows = refl

is_port_allowed-compute_example :
    is_port_allowed (compute_port_policy profile) 9100
    ≡ (not (mem 9100 (9350 ∷ []) || is_guarded profile 9100) && is_declared profile 9100)
is_port_allowed-compute_example = is_port_allowed-compute profile 9100
