-- ===== src/Profiles/Opened.antt =====
-- Which ports an accepted profile can open at all: profiles.py and ports.py together.
use remote_devbox_mcp.Base.{ℕ, ◌≡◌, true, not, arith, all, mem}
use remote_devbox_mcp.Profiles.Data.{Profile, HostService}
use remote_devbox_mcp.Profiles.Validate.Fields.{error, Host, when}
use remote_devbox_mcp.Profiles.Validate.PortRules.{protected_ports, allowed_problems}
use remote_devbox_mcp.Profiles.Validate.{accepts}
use remote_devbox_mcp.Profiles.Clean.{clean}
use remote_devbox_mcp.Ports.{is_port_allowed, compute_port_policy}
use remote_devbox_mcp.Ports.Laws.{is_port_allowed-compute}
use remote_devbox_mcp.Profiles.Rules.{covered_by}
use remote_devbox_mcp.Base.{List, [], ◌∷◌, sym, ◌∙◌, ◌≤◌}
use remote_devbox_mcp.Profiles.Validate.{validate, field_problems}
use remote_devbox_mcp.Profiles.Validate.Fields.{service_problems}
use remote_devbox_mcp.Profiles.Clean.{
  is_empty-select, split_clean, clean-each, clean-when_off, clean-when,
}
use remote_devbox_mcp.Profiles.Laws.{all_rules, range_rules}
use remote_devbox_mcp.Ports.Laws.{opened_by_service, opened_by_command}
use remote_devbox_mcp.Base.{◌⊎◌}
use remote_devbox_mcp.Profiles.Validate.PortRules.{is_port}

-- R6 for every service
clean-service_problems :
    (host : Host) (s : HostService) → clean (service_problems host s) ≡ true → is_port s.port ≡ true
unfolding service_problems
clean-service_problems host s h =
    ground
      (arith, clean-when_off (not (is_port s.port)) 6 (split_clean _ _ (split_clean _ _ h).0).0)

opened_by_service-is_port :
    (host : Host) (ss : List HostService) (port : ℕ)
    → all (λ s. clean (service_problems host s)) ss ≡ true
    → opened_by_service ss port ≡ true
    → is_port port ≡ true
unfolding all
opened_by_service-is_port host [] port h o = absurd (cc o)
opened_by_service-is_port host (s ∷ ss) port h o =
    ground (arith, clean-service_problems host s, opened_by_service-is_port host ss port)

accepts-services :
    (host : Host) (p : Profile)
    → accepts host p ≡ true
    → all (λ s. clean (service_problems host s)) p.host_services ≡ true
unfolding accepts validate field_problems
accepts-services host p h =
    let all_clean = sym (is_empty-select (validate host p)) ∙ h in
    let fields = (split_clean (field_problems host p) _ all_clean).0 in
    let services =
      (split_clean _ _ (split_clean _ _ (split_clean _ _ (split_clean _ _ fields).0).0).0).1 in
    sym (clean-each (service_problems host) p.host_services) ∙ services

mem-allowed :
    (ns : List ℕ) (port : ℕ)
    → all (λ n. clean (when (not (is_port n)) (error 12))) ns ≡ true
    → mem port ns ≡ true
    → is_port port ≡ true
unfolding all mem
mem-allowed [] port h m = absurd (cc m)
mem-allowed (n ∷ ns) port h m = ground (arith, mem-allowed ns port, clean-when (not (is_port n)) 12)

module _ (host : Host) (p : Profile) (h : accepts host p ≡ true) where
  allowed_rules : all (λ n. clean (when (not (is_port n)) (error 12))) p.allowed_ports ≡ true
  unfolding allowed_problems
  allowed_rules =
      sym (clean-each (λ n. when (not (is_port n)) (error 12)) p.allowed_ports)
      ∙ (split_clean _ _ (split_clean _ _ (all_rules host p h).1.0).0).0

-- A port that an accepted profile opens lies from 1 to 65535, or a runner command names it.
pub is_port_allowed-bounds :
    (host : Host) (p : Profile) (port : ℕ)
    → accepts host p ≡ true
    → is_port_allowed (compute_port_policy p) port ≡ true
    → ((1 ≤ port) × (port ≤ 65535)) ⊎ (opened_by_command p.runner_commands port ≡ true)
is_port_allowed-bounds host p port h o =
    let c = covered_by (protected_ports p) p.port_ranges port (range_rules host p h) in
    ground (
      arith,
      is_port_allowed-compute p port,
      opened_by_service-is_port host p.host_services port (accepts-services host p h),
      mem-allowed p.allowed_ports port (allowed_rules host p h),
    )
