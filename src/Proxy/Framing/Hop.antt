-- ===== src/Proxy/Framing/Hop.antt =====
-- framing.py: the hop-by-hop headers of a message.
use remote_devbox_mcp.Base.{
  Bool, ◌||◌, List, [], ◌∷◌, ◌++◌, map, not, if◌then◌else◌, Text, codes, text_eq, select, is_empty,
  is_in, split, strip, lower,
}
use remote_devbox_mcp.Proxy.Framing.Head.{Headers}
use remote_devbox_mcp.Proxy.Framing.Fields.{ows}

abbrev pub hop_by_hop_names : List Text
hop_by_hop_names =
    codes "connection"
    ∷ codes "keep-alive"
    ∷ codes "proxy-authenticate"
    ∷ codes "proxy-authorization"
    ∷ codes "te"
    ∷ codes "trailer"
    ∷ codes "transfer-encoding"
    ∷ codes "upgrade"
    ∷ []

-- The set of tokens is a list here: only membership is read.
unfoldable pub connection_tokens : Headers → List Text
unfolding select
connection_tokens [] = []
connection_tokens ((name, value) ∷ headers) =
    let tokens =
      select (λ t. not (is_empty t)) (map (λ t. lower (strip ows t)) (split (codes ",") value)) in
    if text_eq name (codes "connection")
    then tokens ++ connection_tokens headers
    else connection_tokens headers

unfoldable pub is_hop_name : Headers → Text → Bool
unfolding connection_tokens is_in
is_hop_name headers name = is_in name hop_by_hop_names || is_in name (connection_tokens headers)

unfoldable pub hop_by_hop : Headers → Headers
unfolding is_hop_name select
hop_by_hop headers = select (λ h. is_hop_name headers h.0) headers
