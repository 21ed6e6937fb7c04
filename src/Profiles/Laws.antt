-- ===== src/Profiles/Laws.antt =====
-- What an accepted profile means for the port policy: profiles.py and ports.py together.
use remote_devbox_mcp.Base.{ℕ, ◌≡◌, true, false, not, arith, any, all, select, mem}
use remote_devbox_mcp.Profiles.Data.{Profile}
use remote_devbox_mcp.Profiles.Validate.Fields.{error, Host, when}
use remote_devbox_mcp.Profiles.Validate.PortRules.{
  protected_ports, is_kept, range_problems, ranges_problems, cockpit_problems, gateway_problems,
  runner_problem, allowed_problems,
}
use remote_devbox_mcp.Profiles.Validate.{accepts}
use remote_devbox_mcp.Profiles.Clean.{clean}
use remote_devbox_mcp.Ports.{cockpit_port, is_port_allowed, compute_port_policy, in_range}
use remote_devbox_mcp.Ports.Laws.{is_port_allowed-compute, is_guarded}
use remote_devbox_mcp.Profiles.Rules.{
  covered_by, avoids, clean-cockpit_problems, clean-ranges_problems, clean-port_problems,
  accepts-clean, protected-guards,
}

module _ (host : Host) (p : Profile) (h : accepts host p ≡ true) where
  pub all_rules :
      (clean (runner_problem p) ≡ true)
      × ((clean (allowed_problems p) ≡ true)
          × ((clean (ranges_problems p) ≡ true)
              × ((clean (cockpit_problems p) ≡ true) × (clean (gateway_problems p) ≡ true))))
  all_rules = ground (arith, clean-port_problems p, accepts-clean host p h)

  pub range_rules : all (λ r. clean (range_problems (protected_ports p) r)) p.port_ranges ≡ true
  range_rules = ground (arith, clean-ranges_problems p, all_rules.1.1.0)

  cockpit_rules :
      all (λ r. clean (when (in_range cockpit_port r) (error 35))) (select is_kept p.port_ranges)
      ≡ true
  cockpit_rules = ground (arith, clean-cockpit_problems p, all_rules.1.1.1.0)

  covered_is_free :
      (port : ℕ) → any (in_range port) p.port_ranges ≡ true → is_guarded p port ≡ false
  covered_is_free port i =
      let c = covered_by (protected_ports p) p.port_ranges port range_rules i in
      let g = protected-guards p port all_rules.0 c.1.1.0 in
      let k = avoids cockpit_port (select is_kept p.port_ranges) port cockpit_rules c.1.1.1 in
      ground arith

-- In a profile that validate accepts, every port of a declared range is open exactly if it is
-- not denied: the rules keep the ranges away from the cockpit, the bridge, the bearer services,
-- the runner and the ports behind them.
pub is_port_allowed-accepts :
    (host : Host) (p : Profile) (port : ℕ)
    → accepts host p ≡ true
    → any (in_range port) p.port_ranges ≡ true
    → is_port_allowed (compute_port_policy p) port ≡ not (mem port p.port_deny)
is_port_allowed-accepts host p port h i =
    ground (arith, is_port_allowed-compute p port, covered_is_free host p h port i)
