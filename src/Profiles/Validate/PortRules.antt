-- ===== src/Profiles/Validate/PortRules.antt =====
-- `validate` of profiles.py: the rules on ports and port ranges.
use remote_devbox_mcp.Base.{
  ℕ, ◌+◌, Bool, false, not, ◌&&◌, ◌||◌, List, [], ◌∷◌, ◌++◌, Option, none, some, if◌then◌else◌,
  ◌==◌, ltb, leb, text_eq, any, select, map, mem, sorted_set, length, is_empty,
}
use remote_devbox_mcp.Profiles.Data.{
  bridge_port, max_port_ranges, HostService, RunnerCommand, Profile,
}
use remote_devbox_mcp.Profiles.Validate.Fields.{Problem, error, when, each, has_duplicate_ports}
use remote_devbox_mcp.Ports.{cockpit_port, default_gateway_port, bearer, port_or, in_range}

-- `1 <= port <= 65535`
abbrev pub is_port : ℕ → Bool
is_port p = leb 1 p && leb p 65535

-- `ports` and `allowed`
abbrev pub ports_of : List HostService → List ℕ
ports_of ss = select is_port (map (λ (s : HostService). s.port) ss)

abbrev pub allowed_of : Profile → List ℕ
allowed_of p = select is_port p.allowed_ports

-- `if runner_port`: the port, when there is one and it is not 0
abbrev pub truthy : Option ℕ → List ℕ
truthy none = []
truthy (some n) = if n == 0 then [] else n ∷ []

unfoldable pub bearer_pairs : List HostService → List ℕ
bearer_pairs [] = []
bearer_pairs (s ∷ ss) =
    let rest = bearer_pairs ss in
    if text_eq s.auth bearer then s.port ∷ (s.port + 1) ∷ rest else rest

unfoldable pub pairs : List ℕ → List ℕ
pairs [] = []
pairs (n ∷ ns) = n ∷ (n + 1) ∷ pairs ns

-- `protected`
unfoldable pub protected_ports : Profile → List ℕ
unfolding bearer_pairs pairs
protected_ports p =
    bridge_port ∷ (bridge_port + 1) ∷ (bearer_pairs p.host_services ++ pairs (truthy p.runner_port))

-- the loop over `ranges`: the range is kept when both ends are ports in order
abbrev pub is_kept : ℕ × ℕ → Bool
is_kept r = is_port r.0 && is_port r.1 && leb r.0 r.1

unfoldable pub guard_problem : ℕ × ℕ → ℕ → List Problem
guard_problem r guard = when (not (guard == bridge_port) && in_range guard r) (error 34)

unfoldable pub range_problems : List ℕ → ℕ × ℕ → List Problem
unfolding each guard_problem
range_problems protected (lo, hi) =
    if not (is_port lo && is_port hi)
    then error 27 ∷ []
    else if not (leb lo hi)
    then error 28 ∷ []
    else when (in_range bridge_port (lo, hi)) (error 31)
      ++ each (guard_problem (lo, hi)) (sorted_set protected)

-- `ordered.sort()`
abbrev pub pair_leb : ℕ × ℕ → ℕ × ℕ → Bool
pair_leb r s = ltb r.0 s.0 || r.0 == s.0 && leb r.1 s.1

unfoldable pub insert_range : ℕ × ℕ → List (ℕ × ℕ) → List (ℕ × ℕ)
insert_range r [] = r ∷ []
insert_range r (s ∷ ss) =
    let rest = insert_range r ss in if pair_leb r s then r ∷ s ∷ ss else s ∷ rest

unfoldable pub sort_ranges : List (ℕ × ℕ) → List (ℕ × ℕ)
unfolding insert_range
sort_ranges [] = []
sort_ranges (r ∷ rs) = insert_range r (sort_ranges rs)

abbrev pub ordered_of : Profile → List (ℕ × ℕ)
ordered_of p = sort_ranges (select is_kept p.port_ranges)

-- the loop over neighbours
unfoldable pub overlap_problems : List (ℕ × ℕ) → List Problem
overlap_problems [] = []
overlap_problems (r ∷ []) = []
overlap_problems (r ∷ s ∷ rs) = when (leb s.0 r.1) (error 30) ++ overlap_problems (s ∷ rs)

-- R12 and R13
unfoldable pub allowed_problems : Profile → List Problem
unfolding each has_duplicate_ports
allowed_problems p =
    each (λ port. when (not (is_port port)) (error 12)) p.allowed_ports
    ++ when (has_duplicate_ports (allowed_of p)) (error 12)
    ++ each (λ port. when (mem port (allowed_of p)) (error 13)) (ports_of p.host_services)

-- R29, R27, R28, R31, R34, R30 and R32
unfoldable pub ranges_problems : Profile → List Problem
unfolding each range_problems overlap_problems protected_ports sort_ranges
ranges_problems p =
    when (not (leb (length p.port_ranges) max_port_ranges)) (error 29)
    ++ each (range_problems (protected_ports p)) p.port_ranges
    ++ overlap_problems (ordered_of p)
    ++ each (λ port. when (not (is_port port)) (error 32)) p.port_deny

abbrev pub is_cockpit : Option ℕ → Bool
is_cockpit none = false
is_cockpit (some n) = n == cockpit_port

-- R35
unfoldable pub cockpit_problems : Profile → List Problem
unfolding each any
cockpit_problems p =
    when (mem cockpit_port p.allowed_ports) (error 35)
    ++ each (λ r. when (in_range cockpit_port r) (error 35)) (ordered_of p)
    ++ when (any (λ (s : HostService). s.port == cockpit_port) p.host_services) (error 35)
    ++ when (is_cockpit p.runner_port) (error 35)
    ++ each (λ (c : RunnerCommand). when (is_cockpit c.port) (error 35)) p.runner_commands

-- the body of the loop over `(gateway_port, gateway_port + 1)`
unfoldable pub gateway_port_problems : Profile → ℕ → List Problem
unfolding each mem
gateway_port_problems p port =
    when (mem port (bridge_port ∷ (bridge_port + 1) ∷ [])) (error 42)
    ++ when (mem port (pairs (truthy p.runner_port))) (error 42)
    ++ when (port == cockpit_port) (error 42)
    ++ when (mem port (ports_of p.host_services)) (error 42)
    ++ when (mem port (allowed_of p)) (error 42)
    ++ each (λ r. when (in_range port r) (error 42)) (ordered_of p)

-- R42
unfoldable pub gateway_problems : Profile → List Problem
gateway_problems p =
    if is_empty p.exposed_mcps
    then []
    else let port = port_or p.gateway_port default_gateway_port in
      if not (leb 1 port && leb port 65534)
      then error 42 ∷ []
      else each (gateway_port_problems p) (port ∷ (port + 1) ∷ [])

-- R33
abbrev pub is_preview_port : Profile → ℕ → Bool
is_preview_port p port = mem port p.allowed_ports || any (in_range port) p.port_ranges

unfoldable pub preview_problems : Profile → List Problem
unfolding any
preview_problems p = elim p.ui_port [
  | none ↦ []
  | some port ↦ when (not (is_preview_port p port) || mem port p.port_deny) (error 33)
]

-- `command.port == naked`
abbrev pub is_command_port : ℕ → RunnerCommand → Bool
is_command_port port c = elim c.port [ none ↦ false | some n ↦ n == port ]

-- R14, R15 and R20
unfoldable pub naked_problems : Profile → ℕ → List Problem
unfolding each
naked_problems p port =
    when (mem port (allowed_of p)) (error 14)
    ++ when (mem port (ports_of p.host_services)) (error 15)
    ++ when (port == bridge_port || port + 1 == bridge_port) (error 20)
    ++ when (mem (port + 1) (allowed_of p)) (error 20)
    ++ when (mem (port + 1) (ports_of p.host_services)) (error 20)
    ++ each (λ (c : RunnerCommand). when (is_command_port (port + 1) c) (error 20))
        p.runner_commands

unfoldable pub runner_port_problems : Profile → List Problem
unfolding each naked_problems
runner_port_problems p = each (naked_problems p) (truthy p.runner_port)

-- R11
unfoldable pub runner_problem : Profile → List Problem
runner_problem p =
    when (not (is_empty p.runner_commands) && not (any is_port (truthy p.runner_port))) (error 11)
