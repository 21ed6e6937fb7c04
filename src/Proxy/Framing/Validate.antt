-- ===== src/Proxy/Framing/Validate.antt =====
-- framing.py: `validate_head` and `validate_request`.
use mathlib.Core.List.{flat_map}
use remote_devbox_mcp.Base.{
  ℕ, String, ◌+◌, ◌-◌, ◌*◌, Bool, true, false, not, ◌&&◌, ◌||◌, List, [], ◌∷◌, Option, none, some,
  if◌then◌else◌, ◌==◌, leb, ltb, Text, codes, text_eq, any, length, is_empty, is_in, has_byte,
  partition, strip, lower,
}
use remote_devbox_mcp.Proxy.Framing.Head.{
  Rejected, no_body, with_length, FramingDecision, accepted, refused, Parsed, ok, raise, reject,
  ◌>>=◌, Header, Headers, crlf, reject_bare_line_endings, parse_request_line, parse_head,
}
use remote_devbox_mcp.Proxy.Framing.Fields.{ows, parse_content_length, validate_transfer_encoding}

abbrev pub max_body : ℕ
max_body = 50 * 1024 * 1024

abbrev pub max_header_bytes : ℕ
max_header_bytes = 64 * 1024

abbrev pub max_header_line : ℕ
max_header_line = 8 * 1024

abbrev pub max_header_count : ℕ
max_header_count = 100

abbrev pub bodyless : List Text
bodyless = codes "GET" ∷ codes "HEAD" ∷ codes "DELETE" ∷ codes "OPTIONS" ∷ []

abbrev pub body_required : List Text
body_required = codes "POST" ∷ codes "PUT" ∷ codes "PATCH" ∷ []

abbrev pub dup_forbidden : List Text
dup_forbidden =
    codes "transfer-encoding"
    ∷ codes "host"
    ∷ codes "authorization"
    ∷ codes "upgrade"
    ∷ codes "connection"
    ∷ codes "expect"
    ∷ []

-- `str.upper` on latin-1: 'ß' becomes "SS", 'ÿ' and 'µ' leave latin-1.
upper_char : ℕ → Text
upper_char c =
    if leb 97 c && leb c 122 || leb 224 c && leb c 254 && not (c == 247)
    then (c - 32) ∷ []
    else if c == 223
    then 83 ∷ 83 ∷ []
    else if c == 255
    then 376 ∷ []
    else if c == 181
    then 924 ∷ []
    else c ∷ []

unfoldable pub upper : Text → Text
unfolding upper_char
upper = flat_map upper_char

-- the first loop
unfoldable pub is_malformed : Header → Bool
is_malformed (name, value) =
    is_empty name || has_byte 13 name || has_byte 10 name || has_byte 13 value || has_byte 10 value

-- the second loop: `none` where a line is too long, else the total
unfoldable pub header_total : ℕ → Headers → Option ℕ
header_total total [] = some total
header_total total ((name, value) ∷ headers) =
    let line = length name + length value + 2 in
    let rest = header_total (total + line) headers in
    if ltb max_header_line line then none else rest

-- `[value for name, value in headers if name == wanted]`
unfoldable pub values_of : Text → Headers → List Text
values_of wanted [] = []
values_of wanted ((name, value) ∷ headers) =
    let rest = values_of wanted headers in if text_eq name wanted then value ∷ rest else rest

-- `counts[name]`
unfoldable pub count_of : Text → Headers → ℕ
unfolding values_of
count_of name headers = length (values_of name headers)

abbrev fault : ℕ → String → Option Rejected
fault status reason = some (record { status = status; reason = reason })

-- The bounds that are checked before a field is looked at; `none` where all hold.
unfoldable pub head_fault : Text → Headers → Option Rejected
unfolding is_malformed header_total count_of any is_in
head_fault version headers =
    if any is_malformed headers
    then fault 400 "malformed header"
    else elim (header_total 0 headers) [
      | none ↦ fault 431 "header line too long"
      | some total ↦
          if ltb max_header_count (length headers) || ltb max_header_bytes total
          then fault 431 "header block too large"
          else if not (is_in version (codes "HTTP/1.0" ∷ codes "HTTP/1.1" ∷ []))
          then fault 505 "HTTP version not supported"
          else if any (λ name. ltb 1 (count_of name headers)) dup_forbidden
          then fault 400 "duplicate singleton header"
          else none
    ]

-- the values of the two body fields, from the rejection of both together to the end of the `try`
unfoldable pub body_of : List Text → List Text → Parsed (Option ℕ)
body_of encodings lengths =
    let parse_lengths : Parsed (Option ℕ) =
      if is_empty lengths then ok none else (do n ← parse_content_length lengths; ok (some n)) in
    if not (is_empty encodings) && not (is_empty lengths)
    then reject 400 "transfer-encoding with content-length"
    else if is_empty encodings
    then parse_lengths
    else (do _ ← validate_transfer_encoding encodings; parse_lengths)

unfoldable pub body_length : Headers → Parsed (Option ℕ)
body_length headers =
    body_of (values_of (codes "transfer-encoding") headers)
      (values_of (codes "content-length") headers)

unfoldable pub expectation : Headers → Parsed Bool
unfolding values_of
expectation headers = elim (values_of (codes "expect") headers) [
  | [] ↦ ok false
  | value ∷ _ ↦
      if text_eq (lower (strip ows value)) (codes "100-continue")
      then ok true
      else reject 417 "unsupported expectation"
]

-- the end of `validate_head`, by method
unfoldable pub frame : Text → Option ℕ → Bool → FramingDecision
unfolding is_in
frame verb none expect_continue =
    if is_in verb bodyless
    then accepted no_body 0 expect_continue
    else if is_in verb body_required
    then refused (record { status = 411; reason = "length required" })
    else accepted no_body 0 expect_continue
frame verb (some n) expect_continue =
    if ltb max_body n
    then refused (record { status = 413; reason = "payload too large" })
    else if text_eq verb (codes "HEAD") && not (n == 0)
    then refused (record { status = 400; reason = "HEAD with body" })
    else accepted with_length n expect_continue

abbrev pub decision : Parsed FramingDecision → FramingDecision
decision (ok d) = d
decision (raise e) = refused e

unfoldable pub validate_head : Text → Text → Text → Headers → FramingDecision
unfolding head_fault body_length body_of expectation frame upper
validate_head method target version headers = elim (head_fault version headers) [
  | some rejected ↦ refused rejected
  | none ↦ decision (do
    content_length ← body_length headers
    expect_continue ← expectation headers
    ok (frame (upper method) content_length expect_continue))
]

unfoldable pub validate_request : Text → FramingDecision
unfolding validate_head
validate_request head = decision (do
  _ ← reject_bare_line_endings head
  let (line, _, block) = partition crlf head
  (method, target, version) ← parse_request_line line
  headers ← parse_head block
  ok (validate_head method target version headers))
