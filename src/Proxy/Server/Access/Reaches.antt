-- ===== src/Proxy/Server/Access/Reaches.antt =====
-- Who gets through the ingress.
use remote_devbox_mcp.Base.{
  ◌≡◌, ◌≢◌, refl, ◌⊎◌, inr, true, Option, none, some, arith, Text, codes, mem,
}
use remote_devbox_mcp.Ports.{cockpit_port, is_port_allowed}
use remote_devbox_mcp.Proxy.Framing.Head.{Headers}
use remote_devbox_mcp.Proxy.Router.{Route, parse_route}
use remote_devbox_mcp.Proxy.Auth.{check_token}
use remote_devbox_mcp.Proxy.Server.Access.{
  ingress_mode, Config, policy, Upstream, authorize_route, authorize,
}

-- The upstream is on the loopback, is not the cockpit, and either authorizes by itself or was
-- reached with the token and is open by the port policy.
abbrev pub MayReach : (Text → Text) → Config → Headers → Text → Upstream → Type 0
MayReach digest config pairs target_bytes up =
    (route : Route) × (parse_route target_bytes ≡ some route)
    × (up ≡ record { host = codes "127.0.0.1"; port = route.port; path = route.rest })
    × (route.port ≢ cockpit_port)
    × ((mem route.port config.self_authed ≡ true)
        ⊎ ((check_token digest pairs config.token ≡ true)
            × (is_port_allowed (policy config) route.port ≡ true)))

authorize_route-MayReach :
    (digest : Text → Text) (config : Config) (pairs : Headers) (target_bytes : Text) (up : Upstream)
    (o : Option Route)
    → parse_route target_bytes ≡ o
    → authorize_route digest config pairs o ≡ inr up
    → MayReach digest config pairs target_bytes up
unfolding authorize_route
authorize_route-MayReach digest config pairs target_bytes up none e h = cc
authorize_route-MayReach digest config pairs target_bytes up (some route) e h =
    (route, e, ground arith, ground arith, ground arith)

-- In ingress mode a request is authorized only for an upstream that it may reach.
pub authorize-MayReach :
    (digest : Text → Text) (config : Config) (pairs : Headers) (target_bytes : Text) (up : Upstream)
    → config.mode ≡ ingress_mode
    → authorize digest config pairs target_bytes ≡ inr up
    → MayReach digest config pairs target_bytes up
unfolding authorize
authorize-MayReach digest config pairs target_bytes up m h =
    authorize_route-MayReach digest config pairs target_bytes up _ refl (rw (m, authorize) at h)
