-- ===== src/Proxy/Framing/Tests.antt =====
-- Runs of the framing functions on small requests.
use mathlib.Core.List.{flat_map}
use remote_devbox_mcp.Base.{
  ◌≡◌, refl, true, false, ◌++◌, Text, codes, has_byte, split, partition, starts_with, lower, strip,
  text_eq, decimal,
}
use remote_devbox_mcp.Proxy.Framing.Head.{
  FramingDecision, no_body, with_length, accepted, refused, crlf, reject_bare_line_endings,
  parse_request_line, parse_head,
}
use remote_devbox_mcp.Proxy.Framing.Fields.{parse_content_length}
use remote_devbox_mcp.Proxy.Framing.Validate.{validate_request}

validate : Text → FramingDecision
unfolding validate_request reject_bare_line_endings has_byte parse_request_line split partition
    starts_with parse_head lower strip text_eq flat_map parse_content_length decimal
validate = validate_request

abbrev post : Text
post =
    codes "POST /p/8787/mcp HTTP/1.1"
    ++ (crlf
        ++ (codes "Host: a"
            ++ (crlf ++ (codes "Content-Length: 12" ++ (crlf ++ codes "EXPECT: 100-Continue")))))

run-post : validate post ≡ accepted with_length 12 true
unfolding validate
run-post = refl

run-get : validate (codes "get / HTTP/1.0") ≡ accepted no_body 0 false
unfolding validate
run-get = refl

abbrev smuggle : Text
smuggle =
    codes "POST / HTTP/1.1"
    ++ (crlf ++ (codes "Content-Length: 1" ++ (crlf ++ codes "Transfer-Encoding: chunked")))

run-smuggle :
    validate smuggle
    ≡ refused (record { status = 400; reason = "transfer-encoding with content-length" })
unfolding validate
run-smuggle = refl
