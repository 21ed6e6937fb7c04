-- ===== src/Proxy/Framing/HopLaws.antt =====
-- The hop-by-hop selection of framing.py as a set of names.
use mathlib.Core.Path.{fun_ext}
use remote_devbox_mcp.Base.{
  ◌≡◌, refl, ap, ◌∙◌, Bool, true, ◌||◌, [], ◌∷◌, arith, Text, codes, text_eq, is_in, select, any,
  select_idem,
}
use remote_devbox_mcp.Proxy.Framing.Head.{Header, Headers}
use remote_devbox_mcp.Proxy.Framing.Hop.{
  hop_by_hop_names, connection_tokens, is_hop_name, hop_by_hop,
}

-- A selection that keeps every Connection header keeps the tokens.
connection_tokens-select :
    (p : Header → Bool) (headers : Headers)
    → ((h : Header) → text_eq h.0 (codes "connection") ≡ true → p h ≡ true)
    → connection_tokens (select p headers) ≡ connection_tokens headers
unfolding select connection_tokens
connection_tokens-select p [] keeps = refl
connection_tokens-select p ((name, value) ∷ headers) keeps =
    ground (arith, keeps (name, value), connection_tokens-select p headers keeps)

is_hop_name-connection :
    (headers : Headers) (name : Text)
    → text_eq name (codes "connection") ≡ true
    → is_hop_name headers name ≡ true
unfolding is_hop_name is_in any
is_hop_name-connection headers name h = ground arith

-- The names that hop_by_hop selects by are the same after the selection.
pub is_hop_name-hop_by_hop :
    (headers : Headers) (name : Text)
    → is_hop_name (hop_by_hop headers) name ≡ is_hop_name headers name
unfolding is_hop_name hop_by_hop
is_hop_name-hop_by_hop headers name =
    ap (λ tokens. is_in name hop_by_hop_names || is_in name tokens)
      (connection_tokens-select (λ h. is_hop_name headers h.0) headers
        (λ h e. is_hop_name-connection headers h.0 e))

-- Selecting the hop-by-hop headers twice is selecting them once: the headers that a Connection
-- header names are still named after the selection.
pub hop_by_hop_idem : (headers : Headers) → hop_by_hop (hop_by_hop headers) ≡ hop_by_hop headers
unfolding hop_by_hop
hop_by_hop_idem headers =
    ap (λ p. select p (hop_by_hop headers))
      (fun_ext (λ (h : Header). is_hop_name-hop_by_hop headers h.0))
    ∙ select_idem (λ h. is_hop_name headers h.0) headers
