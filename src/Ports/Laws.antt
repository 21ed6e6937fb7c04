-- ===== src/Ports/Laws.antt =====
-- Which ports ports.py opens, in terms of the profile.
use remote_devbox_mcp.Base.{
  ℕ, ◌+◌, ◌≡◌, refl, Bool, true, false, not, ◌&&◌, ◌||◌, List, [], ◌∷◌, ◌++◌, none, some, arith,
  ◌==◌, text_eq, any, mem, mem-append, sorted_set, mem-sorted_set, insert_sorted, is_empty,
  text_eq_refl, Bool-cases, inl, inr, ◌∙◌,
}
use remote_devbox_mcp.Profiles.Data.{bridge_port, HostService, RunnerCommand, Profile}
use remote_devbox_mcp.Ports.{
  Install, cockpit_port, default_runner_port, default_gateway_port, bearer, port_or, in_range,
  with_backends, is_port_allowed, service_ports, command_ports, compute_port_policy,
  with_runner_service, with_gateway_service,
}

-- A service with its own authorization guards its port and the backend behind it.
abbrev pub guards : ℕ → ℕ → Bool
guards service_port port = port == service_port || port == service_port + 1

abbrev pub guarded_by_service : List HostService → ℕ → Bool
guarded_by_service [] port = false
guarded_by_service (s ∷ ss) port =
    text_eq s.auth bearer && guards s.port port || guarded_by_service ss port

abbrev pub guarded_by_runner : Profile → ℕ → Bool
guarded_by_runner profile port =
    not (is_empty profile.runner_commands)
    && guards (port_or profile.runner_port default_runner_port) port

abbrev pub is_guarded : Profile → ℕ → Bool
is_guarded profile port =
    port == cockpit_port
    || guards bridge_port port
    || guarded_by_service profile.host_services port
    || guarded_by_runner profile port

-- The ports that the profile names or covers.
abbrev pub opened_by_service : List HostService → ℕ → Bool
opened_by_service [] port = false
opened_by_service (s ∷ ss) port =
    not (text_eq s.auth bearer) && port == s.port || opened_by_service ss port

abbrev pub opened_by_command : List RunnerCommand → ℕ → Bool
opened_by_command [] port = false
opened_by_command (c ∷ cs) port =
    (elim c.port [ none ↦ false | some n ↦ not (n == 0) && port == n ]) || opened_by_command cs port

abbrev pub is_declared : Profile → ℕ → Bool
is_declared profile port =
    mem port profile.allowed_ports
    || opened_by_service profile.host_services port
    || opened_by_command profile.runner_commands port
    || any (in_range port) profile.port_ranges

mem-with_backends-insert :
    (p n : ℕ) (ms : List ℕ)
    → mem p (with_backends (insert_sorted n ms)) ≡ (guards n p || mem p (with_backends ms))
unfolding mem with_backends insert_sorted
mem-with_backends-insert p n [] = ground arith
mem-with_backends-insert p n (m ∷ ms) = ground (arith, mem-with_backends-insert p n ms)

abbrev any_guards : List ℕ → ℕ → Bool
any_guards [] p = false
any_guards (n ∷ ns) p = guards n p || any_guards ns p

mem-with_backends-sorted_set :
    (p : ℕ) (ns : List ℕ) → mem p (with_backends (sorted_set ns)) ≡ any_guards ns p
unfolding sorted_set mem with_backends
mem-with_backends-sorted_set p [] = refl
mem-with_backends-sorted_set p (n ∷ ns) =
    ground (arith, mem-with_backends-insert p n (sorted_set ns), mem-with_backends-sorted_set p ns)

any_guards-append :
    (p : ℕ) (ns ms : List ℕ) → any_guards (ns ++ ms) p ≡ (any_guards ns p || any_guards ms p)
any_guards-append p [] ms = refl
any_guards-append p (n ∷ ns) ms = ground (arith, any_guards-append p ns ms)

any_guards-service_ports :
    (p : ℕ) (ss : List HostService) → any_guards (service_ports true ss) p ≡ guarded_by_service ss p
unfolding service_ports
any_guards-service_ports p [] = refl
any_guards-service_ports p (s ∷ ss) = ground (arith, any_guards-service_ports p ss)

mem-service_ports :
    (p : ℕ) (ss : List HostService) → mem p (service_ports false ss) ≡ opened_by_service ss p
unfolding service_ports mem
mem-service_ports p [] = refl
mem-service_ports p (s ∷ ss) = ground (arith, mem-service_ports p ss)

mem-command_ports :
    (p : ℕ) (cs : List RunnerCommand) → mem p (command_ports cs) ≡ opened_by_command cs p
unfolding command_ports mem
mem-command_ports p [] = refl
mem-command_ports p (c ∷ cs) = ground (arith, mem-command_ports p cs)

guards_of :
    (ss : List HostService) (rs : List ℕ) (p : ℕ)
    → mem p (with_backends (sorted_set (bridge_port ∷ (service_ports true ss ++ rs))))
      ≡ (guards bridge_port p || guarded_by_service ss p || any_guards rs p)
guards_of ss rs p = ground (
  arith,
  mem-with_backends-sorted_set p (bridge_port ∷ (service_ports true ss ++ rs)),
  any_guards-append p (service_ports true ss) rs,
  any_guards-service_ports p ss,
)

self_authed-guards :
    (profile : Profile) (p : ℕ)
    → mem p (with_backends (compute_port_policy profile).self_authed) ≡ (
        guards bridge_port p
        || guarded_by_service profile.host_services p
        || guarded_by_runner profile p)
unfolding compute_port_policy
self_authed-guards profile p = rw guards_of (ground arith)

allowed-declares :
    (profile : Profile) (p : ℕ)
    → (mem p (compute_port_policy profile).allowed || any (in_range p) profile.port_ranges)
      ≡ is_declared profile p
unfolding compute_port_policy
allowed-declares profile p =
    rw (mem-sorted_set, mem-append, mem-append, mem-service_ports, mem-command_ports) (ground arith)

kept_fields :
    (profile : Profile)
    → ((compute_port_policy profile).ranges ≡ profile.port_ranges)
      × ((compute_port_policy profile).denied ≡ profile.port_deny)
unfolding compute_port_policy
kept_fields profile = (refl, refl)

-- The ingress opens a port exactly if the profile declares it, does not deny it, and it is not
-- guarded: the cockpit, the bridge, a bearer service, the runner, or a port directly behind one.
pub is_port_allowed-compute :
    (profile : Profile) (port : ℕ)
    → is_port_allowed (compute_port_policy profile) port
      ≡ (not (mem port profile.port_deny || is_guarded profile port) && is_declared profile port)
unfolding is_port_allowed mem
is_port_allowed-compute profile port =
    rw ((kept_fields profile).0, (kept_fields profile).1)
      (ground (arith, self_authed-guards profile port, allowed-declares profile port))

guarded_by_service-append :
    (ss ts : List HostService) (p : ℕ)
    → guarded_by_service (ss ++ ts) p ≡ (guarded_by_service ss p || guarded_by_service ts p)
guarded_by_service-append [] ts p = refl
guarded_by_service-append (s ∷ ss) ts p = ground (arith, guarded_by_service-append ss ts p)

opened_by_service-append :
    (ss ts : List HostService) (p : ℕ)
    → opened_by_service (ss ++ ts) p ≡ (opened_by_service ss p || opened_by_service ts p)
opened_by_service-append [] ts p = refl
opened_by_service-append (s ∷ ss) ts p = ground (arith, opened_by_service-append ss ts p)

-- One more bearer service at the end of the list.
abbrev add_service : HostService → Profile → Profile
add_service s profile = record profile { host_services = profile.host_services ++ s ∷ [] }

is_port_allowed-add_service :
    (s : HostService) (profile : Profile) (port : ℕ)
    → text_eq s.auth bearer ≡ true
    → is_port_allowed (compute_port_policy (add_service s profile)) port
      ≡ (is_port_allowed (compute_port_policy profile) port && not (guards s.port port))
is_port_allowed-add_service s profile port h =
    rw (is_port_allowed-compute, is_port_allowed-compute)
      (ground (
        arith,
        guarded_by_service-append profile.host_services (s ∷ []) port,
        opened_by_service-append profile.host_services (s ∷ []) port,
      ))

-- Adding the service of the runner changes no decision of the ingress: its port was guarded
-- already, because the profile has commands.
pub is_port_allowed-with_runner_service :
    (install : Install) (profile : Profile) (port : ℕ)
    → is_port_allowed (compute_port_policy (with_runner_service install profile)) port
      ≡ is_port_allowed (compute_port_policy profile) port
unfolding with_runner_service
is_port_allowed-with_runner_service install profile port =
    elim (Bool-cases (is_empty profile.runner_commands)) [
      | inl e ↦ rw e
      | inr e ↦ rw e (
          is_port_allowed-add_service _ profile port (text_eq_refl bearer)
          ∙ (ground (arith, is_port_allowed-compute profile port)))
    ]

-- Adding the service of the gateway closes its port and the backend behind it, and changes no
-- other decision; a profile that exposes no MCP server is left alone.
pub is_port_allowed-with_gateway_service :
    (install : Install) (profile : Profile) (port : ℕ)
    → is_port_allowed (compute_port_policy (with_gateway_service install profile)) port ≡ (
        is_port_allowed (compute_port_policy profile) port
        && (is_empty profile.exposed_mcps
            || not (guards (port_or profile.gateway_port default_gateway_port) port)))
unfolding with_gateway_service
is_port_allowed-with_gateway_service install profile port =
    elim (Bool-cases (is_empty profile.exposed_mcps)) [
      | inl e ↦ rw e (ground arith)
      | inr e ↦ rw e (is_port_allowed-add_service _ profile port (text_eq_refl bearer))
    ]
