-- ===== src/Gateway/Upstream/Laws.antt =====
-- The pending requests of a child, `UpstreamChild` of home/rdm/gateway/upstream.py.
use remote_devbox_mcp.Base.{ℕ, ◌<◌, ◌≡◌, ◌⊎◌, List, [], ◌∷◌, Option, none, some}
use remote_devbox_mcp.Gateway.Upstream.{Response, UpstreamChild, Cycle}

-- The ids are below a bound, and none stands twice.
abbrev pub AreFresh : ℕ → List (ℕ × Response) → Type 0
AreFresh bound [] = Unit
AreFresh bound ((id, r) ∷ rest) = (id < bound) × AreFresh id rest

-- What is pending: nothing, or the request of the holder, which comes after all that were answered.
abbrev pub Waits : UpstreamChild → Option ℕ → Type 0
Waits child none = child.pending ≡ []
Waits child (some id) =
    (id < child.next_id)
    × ((child.pending ≡ []) ⊎ ((child.pending ≡ id ∷ []) × AreFresh id child.answered))

pub record IsInCycle (c : Cycle) : Type 0 where
  pub waits : Waits c.child c.holder
  pub fresh : AreFresh c.child.next_id c.child.answered
