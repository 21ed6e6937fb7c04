-- ===== src/Proxy/Tests.antt =====
-- Runs of the ingress, and its laws at one request.
use mathlib.Core.List.{flat_map}
use remote_devbox_mcp.Base.{
  ◌≡◌, ◌↔◌, inr, refl, true, false, [], ◌∷◌, ◌++◌, none, Text, codes, text_eq, has_byte, split,
  starts_with, strip_prefix?, strip, strip_left, lower, any, is_in, is_empty, decimal, partition,
  find_sep, mem,
}
use remote_devbox_mcp.Ports.{is_port_allowed, with_backends}
use remote_devbox_mcp.Proxy.Framing.Head.{
  with_length, accepted, ok, RequestLine, Headers, crlf, reject_bare_line_endings,
  parse_request_line, parse_head,
}
use remote_devbox_mcp.Proxy.Framing.Fields.{parse_content_length}
use remote_devbox_mcp.Proxy.Framing.Validate.{validate_request, values_of}
use remote_devbox_mcp.Proxy.Framing.Hop.{connection_tokens}
use remote_devbox_mcp.Proxy.Framing.Safety.{IsSafe, validate_request-IsSafe}
use remote_devbox_mcp.Proxy.Router.{parse_route, is_manifest, span_digits, route_rest}
use remote_devbox_mcp.Proxy.Auth.{check_token, check_values, split_once}
use remote_devbox_mcp.Proxy.Auth.Laws.{Carries, check_token_iff}
use remote_devbox_mcp.Proxy.Upstream.{filter_forward_headers}
use remote_devbox_mcp.Proxy.Upstream.Laws.{filter_forward_headers-fixed, content-length_forwarded}
use remote_devbox_mcp.Proxy.Server.Stream.{Socket, bytes, read_body, read_head}
use remote_devbox_mcp.Proxy.Server.Stream.Laws.{
  ReadsBody, ReadsHead, read_body-ReadsBody, read_head-ReadsHead,
}
use remote_devbox_mcp.Proxy.Server.Access.{
  Config, ingress_mode, Upstream, forward, Surroundings, answer, authorize, dispatch, consume_body,
  turn, is_websocket, wants_close,
}
use remote_devbox_mcp.Proxy.Server.Access.Reaches.{MayReach, authorize-MayReach}
use remote_devbox_mcp.Proxy.Server.Access.Turns.{Forwards, turn-Forwards}

abbrev head : Text
head =
    codes "POST /p/8794/mcp HTTP/1.1"
    ++ (crlf ++ (codes "Content-Length: 2" ++ (crlf ++ codes "Authorization: Bearer key")))

abbrev pairs : Headers
pairs = (codes "content-length", codes "2") ∷ (codes "authorization", codes "Bearer key") ∷ []

abbrev config : Config
config = record {
  mode = ingress_mode;
  token = codes "key";
  self_authed = 8787 ∷ [];
  allowed = 8794 ∷ [];
  target_host = [];
  target_port = 0;
  ranges = [];
  denied = [];
}

abbrev around : Surroundings
around = record { sent = true; manifest_file = none }

abbrev up : Upstream
up = record { host = codes "127.0.0.1"; port = 8794; path = codes "/mcp" }

-- SHA-256 stands as a function that has no collisions.
abbrev digest : Text → Text
digest t = t

-- Two requests in one delivery that ends inside the second.
abbrev sock : Socket
sock = bytes (head ++ (crlf ++ (crlf ++ codes "{}GET"))) ∷ []

authorizes : authorize digest config pairs (codes "/p/8794/mcp") ≡ inr up
unfolding authorize parse_route strip_prefix? span_digits decimal route_rest mem check_token
    check_values values_of split_once strip_left has_byte strip lower text_eq is_port_allowed
    with_backends any
authorizes = refl

authorize-MayReach_example : MayReach digest config pairs (codes "/p/8794/mcp") up
authorize-MayReach_example =
    authorize-MayReach digest config pairs (codes "/p/8794/mcp") up refl authorizes

validates : validate_request head ≡ accepted with_length 2 false
unfolding validate_request reject_bare_line_endings has_byte parse_request_line split partition
    starts_with parse_head lower strip text_eq flat_map parse_content_length decimal
validates = refl

validate_request-IsSafe_example :
    (reject_bare_line_endings head ≡ ok tt)
    × (request : RequestLine) × (parse_request_line (partition crlf head).0 ≡ ok request)
    × (headers : Headers) × (parse_head (partition crlf head).2 ≡ ok headers)
    × IsSafe headers with_length 2
validate_request-IsSafe_example = validate_request-IsSafe head with_length 2 false validates

turns : turn digest config around sock [] ≡ answer false (forward up (codes "{}") (codes "GET")) []
unfolding turn read_head find_sep strip_prefix? partition validate_request reject_bare_line_endings
    has_byte parse_request_line split starts_with parse_head lower strip text_eq flat_map
    parse_content_length decimal dispatch is_manifest authorize parse_route span_digits route_rest
    mem check_token check_values values_of split_once strip_left is_port_allowed with_backends any
    is_websocket connection_tokens consume_body read_body is_in wants_close
turns = refl

turn-Forwards_example :
    Forwards digest config
      (codes "" ++ (head ++ (crlf ++ (crlf ++ codes "{}GET"))) ++ [])
      up
      (codes "{}")
      (codes "GET")
      []
turn-Forwards_example =
    turn-Forwards digest config around sock [] false up (codes "{}") (codes "GET") [] turns

read_body-ReadsBody_example :
    ReadsBody 3 (codes "abcd") (read_body (bytes (codes "bcd") ∷ []) (codes "a") 3)
read_body-ReadsBody_example = read_body-ReadsBody (bytes (codes "bcd") ∷ []) (codes "a") 3

read_head-ReadsHead_example :
    ReadsHead (codes "GET") (read_head (bytes (codes "ET") ∷ []) (codes "G"))
read_head-ReadsHead_example = read_head-ReadsHead (bytes (codes "ET") ∷ []) (codes "G")

check_token_iff_example : (check_token digest pairs (codes "key") ≡ true) ↔ (
    (is_empty (codes "key") ≡ false)
    × Carries (codes "key") (values_of (codes "authorization") pairs))
check_token_iff_example = check_token_iff digest pairs (codes "key") (λ t e. e)

abbrev forwarded : Headers
forwarded = filter_forward_headers pairs (codes "a") none (codes "https")

filter_forward_headers-fixed_example :
    (values_of (codes "host") forwarded ≡ codes "a" ∷ [])
    × (values_of (codes "connection") forwarded ≡ codes "close" ∷ [])
    × (values_of (codes "transfer-encoding") forwarded ≡ [])
    × (values_of (codes "upgrade") forwarded ≡ [])
    × (values_of (codes "expect") forwarded ≡ [])
filter_forward_headers-fixed_example =
    filter_forward_headers-fixed pairs (codes "a") none (codes "https")

-- The client names Content-Length in its Connection header.
abbrev named : Headers
named = (codes "connection", codes "content-length") ∷ pairs

content-length_forwarded_example :
    values_of
      (codes "content-length")
      (filter_forward_headers named (codes "a") none (codes "https"))
    ≡ []
unfolding is_in any text_eq connection_tokens split strip_prefix? lower strip has_byte starts_with
content-length_forwarded_example = content-length_forwarded named (codes "a") none (codes "https")
