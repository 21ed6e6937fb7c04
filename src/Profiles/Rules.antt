-- ===== src/Profiles/Rules.antt =====
-- What the rules on ports of validate, profiles.py, say when they report nothing.
use remote_devbox_mcp.Base.{
  ℕ, ◌≡◌, refl, sym, ◌∙◌, Bool, true, false, not, ◌&&◌, List, [], ◌∷◌, Option, none, some, arith,
  ◌==◌, leb, any, all, select, mem, mem-sorted_set, mem-append, length, sorted_set, is_empty,
  Bool-cases, inl, inr,
}
use remote_devbox_mcp.Profiles.Data.{
  bridge_port, max_port_ranges, HostService, RunnerCommand, Profile,
}
use remote_devbox_mcp.Profiles.Validate.Fields.{error, Host, when, setup_problems}
use remote_devbox_mcp.Profiles.Validate.PortRules.{
  is_port, truthy, bearer_pairs, pairs, protected_ports, is_kept, insert_range, overlap_problems,
  guard_problem, range_problems, sort_ranges, ordered_of, is_cockpit, ranges_problems,
  cockpit_problems, gateway_problems, runner_problem, allowed_problems, preview_problems,
  runner_port_problems,
}
use remote_devbox_mcp.Profiles.Validate.{field_problems, port_problems, validate, accepts}
use remote_devbox_mcp.Profiles.Clean.{
  clean, is_empty-select, clean-append, clean-when, clean-each, clean-when_off, split_clean,
}
use remote_devbox_mcp.Ports.{cockpit_port, port_or, in_range, default_runner_port}
use remote_devbox_mcp.Ports.Laws.{guards, guarded_by_service, guarded_by_runner}

-- `truthy` and the defaults of ports.py
guards-pairs : (n port : ℕ) → guards n port ≡ mem port (pairs (n ∷ []))
unfolding mem pairs
guards-pairs n port = ground arith

pub guarded_by_service-bearer_pairs :
    (ss : List HostService) (port : ℕ) → guarded_by_service ss port ≡ mem port (bearer_pairs ss)
unfolding mem bearer_pairs
guarded_by_service-bearer_pairs [] port = refl
guarded_by_service-bearer_pairs (s ∷ ss) port =
    ground (arith, guarded_by_service-bearer_pairs ss port)

pub truthy-guards :
    (o : Option ℕ) (default port : ℕ)
    → any is_port (truthy o) ≡ true
    → guards (port_or o default) port ≡ mem port (pairs (truthy o))
unfolding any mem pairs
truthy-guards none default port h = absurd (cc h)
truthy-guards (some n) default port h = ground arith

pub guarded_by_runner-truthy :
    (p : Profile) (port : ℕ)
    → clean (runner_problem p) ≡ true
    → mem port (pairs (truthy p.runner_port)) ≡ false
    → guarded_by_runner p port ≡ false
unfolding runner_problem
guarded_by_runner-truthy p port h m =
    let b =
      clean-when_off (not (is_empty p.runner_commands) && not (any is_port (truthy p.runner_port)))
        11 h in
    ground (arith, truthy-guards p.runner_port default_runner_port port)

-- A range that no rule complains about covers none of the protected ports.
pub clean-guard_problems :
    (r : ℕ × ℕ) (ns : List ℕ) (port : ℕ)
    → all (λ g. clean (guard_problem r g)) ns ≡ true
    → in_range port r ≡ true
    → (port == bridge_port) ≡ false
    → mem port ns ≡ false
unfolding all mem guard_problem clean
clean-guard_problems r [] port h i b = refl
clean-guard_problems r (n ∷ ns) port h i b = ground (arith, clean-guard_problems r ns port)

pub clean-range_problems :
    (ns : List ℕ) (r : ℕ × ℕ)
    → clean (range_problems ns r) ≡ (
        is_kept r
        && (not (in_range bridge_port r) && all (λ g. clean (guard_problem r g)) (sorted_set ns)))
unfolding range_problems clean
clean-range_problems ns (lo, hi) = elim (Bool-cases (is_port lo && is_port hi)) [
  | inl e ↦ elim (Bool-cases (leb lo hi)) [
    | inl f ↦ rw (e, f, clean-append, clean-when, clean-each)
    | inr f ↦ rw (e, f) refl
  ]
  | inr e ↦ rw e refl
]

pub covers_none :
    (ns : List ℕ) (r : ℕ × ℕ) (port : ℕ)
    → clean (range_problems ns r) ≡ true
    → in_range port r ≡ true
    → ((port == bridge_port) ≡ false) × (mem port ns ≡ false)
covers_none ns r port h i = ground (
  arith,
  clean-range_problems ns r,
  clean-guard_problems r (sorted_set ns) port,
  mem-sorted_set port ns,
)

-- A profile without an error keeps every rule on ports.
pub clean-port_problems :
    (p : Profile)
    → clean (port_problems p) ≡ (
        clean (runner_problem p)
        && clean (allowed_problems p)
        && clean (ranges_problems p)
        && clean (cockpit_problems p)
        && clean (gateway_problems p)
        && clean (preview_problems p)
        && clean (runner_port_problems p))
unfolding port_problems
clean-port_problems p =
    rw
      (
        port_problems, clean-append, clean-append, clean-append, clean-append, clean-append,
        clean-append,
      )
      refl

pub accepts-clean :
    (host : Host) (p : Profile) → accepts host p ≡ true → clean (port_problems p) ≡ true
unfolding accepts validate
accepts-clean host p h =
    let all_clean = sym (is_empty-select (validate host p)) ∙ h in
    (split_clean (port_problems p) (setup_problems host p)
      (split_clean (field_problems host p) _ all_clean).1).0

-- What the rules on ranges say of each range.
pub clean-ranges_problems :
    (p : Profile)
    → clean (ranges_problems p) ≡ (
        leb (length p.port_ranges) max_port_ranges
        && all (λ r. clean (range_problems (protected_ports p) r)) p.port_ranges
        && clean (overlap_problems (ordered_of p))
        && all (λ port. clean (when (not (is_port port)) (error 32))) p.port_deny)
unfolding ranges_problems
clean-ranges_problems p =
    rw
      (
        ranges_problems, clean-append, clean-append, clean-append, clean-when, clean-each,
        clean-each,
      )
      (ground arith)

-- The cockpit rule is read off the ranges in any order.
pub all-insert_range :
    (f : ℕ × ℕ → Bool) (r : ℕ × ℕ) (rs : List (ℕ × ℕ))
    → all f (insert_range r rs) ≡ (f r && all f rs)
unfolding all insert_range
all-insert_range f r [] = refl
all-insert_range f r (s ∷ ss) = ground (arith, all-insert_range f r ss)

pub all-sort_ranges : (f : ℕ × ℕ → Bool) (rs : List (ℕ × ℕ)) → all f (sort_ranges rs) ≡ all f rs
unfolding all sort_ranges
all-sort_ranges f [] = refl
all-sort_ranges f (r ∷ rs) = rw (all-insert_range, all-sort_ranges f rs) refl

-- Some range covers the port; each range avoids it otherwise.
pub covered_by :
    (ns : List ℕ) (rs : List (ℕ × ℕ)) (port : ℕ)
    → all (λ r. clean (range_problems ns r)) rs ≡ true
    → any (in_range port) rs ≡ true
    → (is_port port ≡ true)
      × (((port == bridge_port) ≡ false)
          × ((mem port ns ≡ false) × (any (in_range port) (select is_kept rs) ≡ true)))
unfolding all any select
covered_by ns [] port h i = absurd (cc i)
covered_by ns (r ∷ rs) port h i =
    ground (arith, clean-range_problems ns r, covers_none ns r port, covered_by ns rs port)

pub avoids :
    (guard : ℕ) (rs : List (ℕ × ℕ)) (port : ℕ)
    → all (λ r. clean (when (in_range guard r) (error 35))) rs ≡ true
    → any (in_range port) rs ≡ true
    → (port == guard) ≡ false
unfolding all any
avoids guard [] port h i = absurd (cc i)
avoids guard (r ∷ rs) port h i =
    ground (arith, avoids guard rs port, clean-when (in_range guard r) 35)

-- What the cockpit rule says.
pub clean-cockpit_problems :
    (p : Profile)
    → clean (cockpit_problems p) ≡ (
        not (mem cockpit_port p.allowed_ports)
        && all
            (λ r. clean (when (in_range cockpit_port r) (error 35)))
            (select is_kept p.port_ranges)
        && not (any (λ (s : HostService). s.port == cockpit_port) p.host_services)
        && not (is_cockpit p.runner_port)
        && all
            (λ (c : RunnerCommand). clean (when (is_cockpit c.port) (error 35)))
            p.runner_commands)
unfolding cockpit_problems
clean-cockpit_problems p =
    rw
      (
        clean-append, clean-append, clean-append, clean-append, clean-when, clean-each, clean-when,
        clean-when, clean-each, all-sort_ranges,
      )
      refl

pub protected-guards :
    (p : Profile) (port : ℕ)
    → clean (runner_problem p) ≡ true
    → mem port (protected_ports p) ≡ false
    → (guards bridge_port port ≡ false)
      × ((guarded_by_service p.host_services port ≡ false) × (guarded_by_runner p port ≡ false))
unfolding protected_ports mem
protected-guards p port r h = ground (
  arith,
  guarded_by_service-bearer_pairs p.host_services port,
  guarded_by_runner-truthy p port r,
  mem-append port (bearer_pairs p.host_services) (pairs (truthy p.runner_port)),
)
