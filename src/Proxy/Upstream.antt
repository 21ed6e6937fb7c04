-- ===== src/Proxy/Upstream.antt =====
-- The header lists sent to the host service, home/rdm/proxy/upstream.py. Opening and writing the
-- connection is left to `http.client`.
pub mod Laws
use remote_devbox_mcp.Base.{
  ℕ, ◌≡◌, refl, Bool, true, false, not, ◌||◌, List, [], ◌∷◌, ◌++◌, map, Option, none, some,
  if◌then◌else◌, Text, codes, text_eq, select, is_in, is_empty,
}
use remote_devbox_mcp.Proxy.Framing.Head.{Header, Headers}
use remote_devbox_mcp.Proxy.Framing.Hop.{hop_by_hop}

abbrev pub drop_names : List Text
drop_names = codes "host" ∷ codes "x-forwarded-host" ∷ codes "expect" ∷ []

abbrev pub names : Headers → List Text
names [] = []
names (h ∷ hs) = h.0 ∷ names hs

-- `if client_ip: out.append(...)`
abbrev pub client_headers : Option Text → Headers
client_headers none = []
client_headers (some ip) = if is_empty ip then [] else (codes "x-forwarded-for", ip) ∷ []

unfoldable pub filter_forward_headers : Headers → Text → Option Text → Text → Headers
unfolding select is_in
filter_forward_headers pairs host_header client_ip proto =
    let named = names (hop_by_hop pairs) ++ drop_names in
    select (λ h. not (is_in h.0 named)) pairs
    ++ ((codes "host", host_header)
        ∷ (codes "connection", codes "close")
        ∷ (client_headers client_ip ++ (codes "x-forwarded-proto", proto) ∷ []))

unfoldable pub filter_upgrade_headers : Headers → Text → Option Text → Text → Headers
unfolding select is_in
filter_upgrade_headers pairs host_header client_ip proto =
    select (λ h. not (is_in h.0 (codes "host" ∷ codes "x-forwarded-host" ∷ []))) pairs
    ++ ((codes "host", host_header)
        ∷ (client_headers client_ip ++ (codes "x-forwarded-proto", proto) ∷ []))
