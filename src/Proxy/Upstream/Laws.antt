-- ===== src/Proxy/Upstream/Laws.antt =====
-- Which headers upstream.py sends on.
use remote_devbox_mcp.Base.{
  ◌≡◌, refl, ap, ◌∙◌, Bool, true, false, not, ◌&&◌, ◌||◌, List, [], ◌∷◌, ◌++◌, append-nil, Option,
  none, some, arith, if◌then◌else◌, Text, codes, text_eq, text_eq_iff, any, is_in, select,
}
use remote_devbox_mcp.Proxy.Framing.Head.{Headers}
use remote_devbox_mcp.Proxy.Framing.Hop.{
  hop_by_hop_names, connection_tokens, is_hop_name, hop_by_hop,
}
use remote_devbox_mcp.Proxy.Framing.Validate.{values_of}
use remote_devbox_mcp.Proxy.Upstream.{drop_names, names, client_headers, filter_forward_headers}

values_of-append :
    (name : Text) (hs ks : Headers)
    → values_of name (hs ++ ks) ≡ values_of name hs ++ values_of name ks
unfolding values_of
values_of-append name [] ks = refl
values_of-append name (h ∷ hs) ks = ground (arith, values_of-append name hs ks)

is_in-append : (t : Text) (xs ys : List Text) → is_in t (xs ++ ys) ≡ (is_in t xs || is_in t ys)
unfolding is_in any
is_in-append t [] ys = refl
is_in-append t (x ∷ xs) ys = ground (arith, is_in-append t xs ys)

module _ (keep : Text → Bool) where
  -- A selection by name keeps all headers of a name or none.
  values_of-select :
      (name : Text) (hs : Headers)
      → values_of name (select (λ h. keep h.0) hs) ≡ (if keep name then values_of name hs else [])
  unfolding values_of select
  values_of-select name [] = ground arith
  values_of-select name ((n, v) ∷ hs) = ground (arith, text_eq_iff n name, values_of-select name hs)

  -- The names of a selection are those that stand in the list and are kept.
  is_in-names-select :
      (name : Text) (hs : Headers)
      → is_in name (names (select (λ h. keep h.0) hs)) ≡ (keep name && is_in name (names hs))
  unfolding is_in any select
  is_in-names-select name [] = ground arith
  is_in-names-select name ((n, v) ∷ hs) =
      ground (arith, text_eq_iff name n, is_in-names-select name hs)

values_of-absent :
    (name : Text) (hs : Headers) → is_in name (names hs) ≡ false → values_of name hs ≡ []
unfolding is_in any values_of
values_of-absent name [] h = refl
values_of-absent name ((n, v) ∷ hs) h =
    ground (arith, text_eq_iff name n, text_eq_iff n name, values_of-absent name hs)

added : Text → Option Text → Text → Headers
added host_header client_ip proto =
    (codes "host", host_header)
    ∷ (codes "connection", codes "close")
    ∷ (client_headers client_ip ++ (codes "x-forwarded-proto", proto) ∷ [])

values_of-kept :
    (name : Text) (pairs : Headers)
    → values_of name (select (λ h. not (is_in h.0 (names (hop_by_hop pairs) ++ drop_names))) pairs)
      ≡ (if is_hop_name pairs name || is_in name drop_names then [] else values_of name pairs)
unfolding hop_by_hop
values_of-kept name pairs = ground (
  arith,
  values_of-select (λ n. not (is_in n (names (hop_by_hop pairs) ++ drop_names))) name pairs,
  is_in-append name (names (hop_by_hop pairs)) drop_names,
  is_in-names-select (is_hop_name pairs) name pairs,
  values_of-absent name pairs,
)

values_of-filter_forward_headers :
    (name : Text) (pairs : Headers) (host_header : Text) (client_ip : Option Text) (proto : Text)
    → values_of name (filter_forward_headers pairs host_header client_ip proto)
      ≡ (if is_hop_name pairs name || is_in name drop_names then [] else values_of name pairs)
        ++ values_of name (added host_header client_ip proto)
unfolding filter_forward_headers added
values_of-filter_forward_headers name pairs host_header client_ip proto =
    values_of-append name _ _
    ∙ ap (λ z. z ++ values_of name (added host_header client_ip proto)) (values_of-kept name pairs)

-- The names that are always dropped: the fixed hop-by-hop names and `_DROP`.
is_dropped :
    (pairs : Headers) (name : Text)
    → is_in name (hop_by_hop_names ++ drop_names) ≡ true
    → (is_hop_name pairs name || is_in name drop_names) ≡ true
unfolding is_hop_name
is_dropped pairs name h = ground (arith, is_in-append name hop_by_hop_names drop_names)

values_of-added :
    (name host_header : Text) (client_ip : Option Text) (proto : Text)
    → text_eq (codes "x-forwarded-for") name ≡ false
    → text_eq (codes "x-forwarded-proto") name ≡ false
    → values_of name (added host_header client_ip proto)
      ≡ values_of name ((codes "host", host_header) ∷ (codes "connection", codes "close") ∷ [])
unfolding added values_of
values_of-added name host_header none proto f p = ground arith
values_of-added name host_header (some []) proto f p = ground arith
values_of-added name host_header (some (c ∷ ip)) proto f p = ground arith

-- A name that is neither `x-forwarded-for` nor `x-forwarded-proto`.
values_of-forwarded :
    (name : Text) (pairs : Headers) (host_header : Text) (client_ip : Option Text) (proto : Text)
    → text_eq (codes "x-forwarded-for") name ≡ false
    → text_eq (codes "x-forwarded-proto") name ≡ false
    → values_of name (filter_forward_headers pairs host_header client_ip proto)
      ≡ (if is_hop_name pairs name || is_in name drop_names then [] else values_of name pairs)
        ++ values_of name ((codes "host", host_header) ∷ (codes "connection", codes "close") ∷ [])
values_of-forwarded name pairs host_header client_ip proto f p =
    values_of-filter_forward_headers name pairs host_header client_ip proto
    ∙ ap
        (λ z.
          (if is_hop_name pairs name || is_in name drop_names then [] else values_of name pairs)
          ++ z)
        (values_of-added name host_header client_ip proto f p)

values_of-dropped :
    (name : Text) (pairs : Headers) (host_header : Text) (client_ip : Option Text) (proto : Text)
    → text_eq (codes "x-forwarded-for") name ≡ false
    → text_eq (codes "x-forwarded-proto") name ≡ false
    → is_in name (hop_by_hop_names ++ drop_names) ≡ true
    → values_of name (filter_forward_headers pairs host_header client_ip proto)
      ≡ values_of name ((codes "host", host_header) ∷ (codes "connection", codes "close") ∷ [])
values_of-dropped name pairs host_header client_ip proto f p d =
    values_of-forwarded name pairs host_header client_ip proto f p ∙ rw (is_dropped pairs name d)

-- The headers that `filter_forward_headers` makes of the client's, for a request that is no
-- websocket upgrade, hold one Host header, the proxy's, one Connection header, "close", and no
-- Transfer-Encoding, Upgrade or Expect header, whatever the client sent.
pub filter_forward_headers-fixed :
    (pairs : Headers) (host_header : Text) (client_ip : Option Text) (proto : Text)
    → let out = filter_forward_headers pairs host_header client_ip proto in
      (values_of (codes "host") out ≡ host_header ∷ [])
      × (values_of (codes "connection") out ≡ codes "close" ∷ [])
      × (values_of (codes "transfer-encoding") out ≡ [])
      × (values_of (codes "upgrade") out ≡ [])
      × (values_of (codes "expect") out ≡ [])
unfolding is_in any text_eq values_of
filter_forward_headers-fixed pairs host_header client_ip proto = (
  values_of-dropped (codes "host") pairs host_header client_ip proto refl refl refl,
  values_of-dropped (codes "connection") pairs host_header client_ip proto refl refl refl,
  values_of-dropped (codes "transfer-encoding") pairs host_header client_ip proto refl refl refl,
  values_of-dropped (codes "upgrade") pairs host_header client_ip proto refl refl refl,
  values_of-dropped (codes "expect") pairs host_header client_ip proto refl refl refl,
)

-- The Content-Length headers are sent on as they came, unless a Connection header names them:
-- then none is sent.
pub content-length_forwarded :
    (pairs : Headers) (host_header : Text) (client_ip : Option Text) (proto : Text)
    → values_of (codes "content-length") (filter_forward_headers pairs host_header client_ip proto)
      ≡ (if is_in (codes "content-length") (connection_tokens pairs)
          then []
          else values_of (codes "content-length") pairs)
unfolding text_eq is_hop_name values_of is_in any
content-length_forwarded pairs host_header client_ip proto =
    values_of-forwarded (codes "content-length") pairs host_header client_ip proto refl refl
    ∙ (append-nil _ ∙ ground arith)
