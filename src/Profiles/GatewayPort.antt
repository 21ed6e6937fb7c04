-- ===== src/Profiles/GatewayPort.antt =====
-- The rule on the port of the gateway, profiles.py, and the port policy.
use remote_devbox_mcp.Base.{
  ℕ, ◌+◌, ◌≡◌, refl, true, false, not, ◌&&◌, List, [], ◌∷◌, arith, ◌==◌, leb, any, all, select, mem,
  is_empty, Bool-cases, inl, inr,
}
use remote_devbox_mcp.Profiles.Data.{bridge_port, HostService, Profile}
use remote_devbox_mcp.Profiles.Validate.Fields.{error, Host, when}
use remote_devbox_mcp.Profiles.Validate.PortRules.{
  is_port, ports_of, allowed_of, truthy, pairs, is_kept, gateway_port_problems, gateway_problems,
  protected_ports,
}
use remote_devbox_mcp.Profiles.Validate.{accepts}
use remote_devbox_mcp.Profiles.Clean.{clean, clean-append, clean-when, clean-each}
use remote_devbox_mcp.Profiles.Rules.{all-sort_ranges, covered_by}
use remote_devbox_mcp.Profiles.Laws.{all_rules, range_rules}
use remote_devbox_mcp.Ports.{
  cockpit_port, default_gateway_port, port_or, in_range, is_port_allowed, compute_port_policy,
}
use remote_devbox_mcp.Ports.Laws.{
  is_port_allowed-compute, guards, opened_by_service, opened_by_command,
}

clean-gateway_port_problems :
    (p : Profile) (port : ℕ)
    → clean (gateway_port_problems p port) ≡ (
        not (mem port (bridge_port ∷ (bridge_port + 1) ∷ []))
        && not (mem port (pairs (truthy p.runner_port)))
        && not (port == cockpit_port)
        && not (mem port (ports_of p.host_services))
        && not (mem port (allowed_of p))
        && all (λ r. clean (when (in_range port r) (error 42))) (select is_kept p.port_ranges))
unfolding gateway_port_problems
clean-gateway_port_problems p port =
    rw
      (
        clean-append, clean-append, clean-append, clean-append, clean-append, clean-when,
        clean-when, clean-when, clean-when, clean-when, clean-each, all-sort_ranges,
      )
      refl

clean-gateway_problems :
    (p : Profile) (g : ℕ)
    → port_or p.gateway_port default_gateway_port ≡ g
    → is_empty p.exposed_mcps ≡ false
    → clean (gateway_problems p) ≡ (
        leb 1 g
        && leb g 65534
        && all (λ port. clean (gateway_port_problems p port)) (g ∷ (g + 1) ∷ []))
unfolding gateway_problems clean
clean-gateway_problems p g q e = elim (Bool-cases (leb 1 g && leb g 65534)) [
  | inl f ↦ rw (e, q, f, clean-each)
  | inr f ↦ rw (e, q, f) refl
]

gateway_rules :
    (p : Profile) (g port : ℕ)
    → port_or p.gateway_port default_gateway_port ≡ g
    → clean (gateway_problems p) ≡ true
    → is_empty p.exposed_mcps ≡ false
    → guards g port ≡ true
    → (is_port port ≡ true) × (clean (gateway_port_problems p port) ≡ true)
unfolding all
gateway_rules p g port q h e m = grind (arith, clean-gateway_problems p g q e)

no_range :
    (rs : List (ℕ × ℕ)) (port : ℕ)
    → all (λ r. clean (when (in_range port r) (error 42))) rs ≡ true
    → any (in_range port) rs ≡ false
unfolding all any
no_range [] port h = refl
no_range (r ∷ rs) port h = ground (arith, no_range rs port, clean-when (in_range port r) 42)

mem-select :
    (ns : List ℕ) (port : ℕ) → is_port port ≡ true → mem port (select is_port ns) ≡ mem port ns
unfolding mem select
mem-select [] port h = refl
mem-select (n ∷ ns) port h = ground (arith, mem-select ns port h)

opened-ports_of :
    (ss : List HostService) (port : ℕ)
    → is_port port ≡ true
    → opened_by_service ss port ≡ true
    → mem port (ports_of ss) ≡ true
unfolding mem select
opened-ports_of [] port h o = absurd (cc o)
opened-ports_of (s ∷ ss) port h o = ground (arith, opened-ports_of ss port h)

-- The gateway's port and the one behind it: in an accepted profile only a runner command opens them.
pub is_port_allowed-gateway :
    (host : Host) (p : Profile) (port : ℕ)
    → accepts host p ≡ true
    → is_empty p.exposed_mcps ≡ false
    → guards (port_or p.gateway_port default_gateway_port) port ≡ true
    → is_port_allowed (compute_port_policy p) port ≡ true
    → opened_by_command p.runner_commands port ≡ true
is_port_allowed-gateway host p port h e g o =
    let k = gateway_rules p _ port refl (all_rules host p h).1.1.1.1 e g in
    ground (
      arith,
      clean-gateway_port_problems p port,
      is_port_allowed-compute p port,
      mem-select p.allowed_ports port k.0,
      opened-ports_of p.host_services port k.0,
      no_range (select is_kept p.port_ranges) port,
      covered_by (protected_ports p) p.port_ranges port (range_rules host p h),
    )
