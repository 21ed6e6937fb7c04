-- ===== src/Proxy/Server/Access.antt =====
-- server.py: `_dispatch`, `_consume_body`, `_is_websocket`, and one turn of `_run`. What is sent to
-- the upstream service afterwards is the decision `forward` or `tunnel` here.
pub mod Reaches
pub mod Consumed
pub mod Turns
use remote_devbox_mcp.Base.{
  ℕ, ◌⊎◌, inl, inr, Bool, true, false, not, ◌&&◌, ◌||◌, List, [], ◌∷◌, ◌++◌, Option, none, some,
  if◌then◌else◌, ◌==◌, Text, codes, text_eq, any, is_in, is_some, mem, partition, find_sep, lower,
}
use remote_devbox_mcp.Ports.{PortPolicy, cockpit_port, is_port_allowed}
use remote_devbox_mcp.Proxy.Framing.Head.{
  BodyFraming, no_body, with_length, FramingDecision, accepted, refused, Parsed, ok, raise, Header,
  Headers, RequestLine, crlf, parse_request_line, parse_head,
}
use remote_devbox_mcp.Proxy.Framing.Validate.{validate_request}
use remote_devbox_mcp.Proxy.Framing.Hop.{connection_tokens}
use remote_devbox_mcp.Proxy.Router.{Route, parse_route, is_manifest}
use remote_devbox_mcp.Proxy.Auth.{check_token}
use remote_devbox_mcp.Proxy.Server.Stream.{
  Socket, BodyRead, read_body, HeadRead, closed, too_big, head_of, read_head,
}

pub data Mode : Type 0 where
  ingress_mode target_mode : Mode

pub record Config : Type 0 where
  pub mode : Mode
  pub token : Text
  pub self_authed : List ℕ
  pub allowed : List ℕ
  pub target_host : Text
  pub target_port : ℕ
  pub ranges : List (ℕ × ℕ)
  pub denied : List ℕ

-- `Config.policy`
abbrev pub policy : Config → PortPolicy
policy config = record {
  self_authed = config.self_authed;
  allowed = config.allowed;
  runner_port = none;
  ranges = config.ranges;
  denied = config.denied;
}

-- Where a request goes.
pub record Upstream : Type 0 where
  pub host : Text
  pub port : ℕ
  pub path : Text

pub data Outcome : Type 0 where
  -- `_simple(status)`, after which the connection is closed
  reply : ℕ → Outcome
  -- the manifest's bytes, the new carry
  manifest : Text → Text → Outcome
  -- the body, the new carry
  forward : Upstream → Text → Text → Outcome
  tunnel : Upstream → Text → Outcome
  -- the connection failed while "100 Continue" was sent
  gone : Outcome

abbrev loopback : Text
loopback = codes "127.0.0.1"

-- The `ingress` branch behind the manifest: a refusal, or where the request goes.
unfoldable pub authorize_route : (Text → Text) → Config → Headers → Option Route → ℕ ⊎ Upstream
authorize_route digest config pairs none = inl 404
authorize_route digest config pairs (some route) =
    let permitted : ℕ ⊎ Upstream =
      inr (record { host = loopback; port = route.port; path = route.rest }) in
    if route.port == cockpit_port
    then inl 403
    else if mem route.port config.self_authed
    then permitted
    else if not (check_token digest pairs config.token)
    then inl 401
    else if not (is_port_allowed (policy config) route.port)
    then inl 403
    else permitted

unfoldable pub authorize : (Text → Text) → Config → Headers → Text → ℕ ⊎ Upstream
unfolding authorize_route
authorize digest config pairs target_bytes = elim config.mode [
  | ingress_mode ↦ authorize_route digest config pairs (parse_route target_bytes)
  | target_mode ↦
      if check_token digest pairs config.token
      then inr
          (record { host = config.target_host; port = config.target_port; path = target_bytes })
      else inl 401
]

unfoldable pub is_websocket : Headers → Bool
unfolding any is_in
is_websocket pairs =
    is_in (codes "upgrade") (connection_tokens pairs)
    && any
        (λ h. text_eq h.0 (codes "upgrade") && is_some (find_sep (codes "websocket") (lower h.1)))
        pairs

-- Why there is no body: "100 Continue" could not be sent, or the body is short.
pub data Ended : Type 0 where
  unsent short : Ended

-- The result of `_consume_body`.
abbrev pub Consumed : Type 0
Consumed = Ended ⊎ (Text × Text × Socket)

unfoldable pub body_result : BodyRead → Consumed
body_result none = inl short
body_result (some ((body, rest, true), left)) = inr (body, rest, left)
body_result (some ((body, rest, false), left)) = inl short

-- `_consume_body`: `sent` says whether "100 Continue" could be sent.
unfoldable pub consume_body : Bool → BodyFraming → ℕ → Bool → Socket → Text → Consumed
unfolding body_result
consume_body sent no_body n expect_continue sock carry = inr ([], carry, sock)
consume_body sent with_length n expect_continue sock carry =
    if expect_continue && not sent then inl unsent else body_result (read_body sock carry n)

-- A short body is answered by a 400.
abbrev pub ended : Ended → Outcome
ended unsent = gone
ended short = reply 400

-- What the handler meets outside: whether "100 Continue" could be sent, and the manifest file.
pub record Surroundings : Type 0 where
  pub sent : Bool
  pub manifest_file : Option Text

-- The body is read and the request goes on with it.
unfoldable pub with_body : Consumed → Socket → (Text → Text → Outcome) → Outcome × Socket
with_body (inl x) sock go_on = (ended x, sock)
with_body (inr (body, carry, left)) sock go_on = (go_on body carry, left)

-- the manifest's branch of `_dispatch`
unfoldable pub serve_manifest : Bool → Option Text → Consumed → Socket → Outcome × Socket
unfolding with_body
serve_manifest false file consumed sock = (reply 401, sock)
serve_manifest true none consumed sock = (reply 404, sock)
serve_manifest true (some content) consumed sock =
    with_body consumed sock (λ _ rest. manifest content rest)

-- the rest of `_dispatch`, from the authorization on
unfoldable pub forward_on : ℕ ⊎ Upstream → Bool → Consumed → Socket → Outcome × Socket
unfolding with_body
forward_on (inl status) websocket consumed sock = (reply status, sock)
forward_on (inr upstream) websocket consumed sock =
    with_body consumed sock
      (λ body rest. if websocket then tunnel upstream rest else forward upstream body rest)

-- `_dispatch`
unfoldable pub dispatch :
    (Text → Text)
    → Config
    → Surroundings
    → Text
    → Headers
    → BodyFraming
    → ℕ
    → Bool
    → Socket
    → Text
    → Outcome × Socket
unfolding serve_manifest forward_on
dispatch digest config around target pairs framing n expect_continue sock carry =
    let consumed = consume_body around.sent framing n expect_continue sock carry in
    let otherwise =
      forward_on (authorize digest config pairs target) (is_websocket pairs) consumed sock in
    elim config.mode [
      | ingress_mode ↦
          if is_manifest target
          then serve_manifest (check_token digest pairs config.token) around.manifest_file consumed
              sock
          else otherwise
      | target_mode ↦ otherwise
    ]

-- `request_close` of `_run`
unfoldable pub wants_close : Text → Headers → Bool
unfolding is_in
wants_close version pairs =
    let tokens = connection_tokens pairs in
    is_in (codes "close") tokens
    || text_eq version (codes "HTTP/1.0") && not (is_in (codes "keep-alive") tokens)

-- One turn of the loop of `_run`.
pub data Turn : Type 0 where
  stop : Turn
  answer : Bool → Outcome → Socket → Turn

unfoldable pub after_parse :
    (Text → Text)
    → Config
    → Surroundings
    → Parsed RequestLine
    → Parsed Headers
    → BodyFraming
    → ℕ
    → Bool
    → Socket
    → Text
    → Turn
after_parse digest config around (ok (method, target, version)) (ok pairs) framing n e sock carry =
    let (outcome, left) = dispatch digest config around target pairs framing n e sock carry in
    answer (wants_close version pairs) outcome left
after_parse digest config around (ok line) (raise x) framing n e sock carry =
    answer true (reply x.status) sock
after_parse digest config around (raise x) pairs framing n e sock carry =
    answer true (reply x.status) sock

-- `_TOO_BIG`: a head that equals it is taken for one that is too big.
abbrev pub too_big_mark : Text
too_big_mark = 0 ∷ codes "too-big"

-- A head that was read, up to its answer.
unfoldable pub judge :
    (Text → Text) → Config → Surroundings → Text → Text → Socket → FramingDecision → Turn
unfolding after_parse
judge digest config around head rest left (refused x) = answer true (reply x.status) left
judge digest config around head rest left (accepted framing n e) =
    let (line, _, block) = partition crlf head in
    after_parse digest config around (parse_request_line line) (parse_head block) framing n e left
      rest

unfoldable pub turn : (Text → Text) → Config → Surroundings → Socket → Text → Turn
unfolding judge
turn digest config around sock carry = elim (read_head sock carry) [
  | none ↦ stop
  | some (closed, left) ↦ stop
  | some (too_big, left) ↦ answer true (reply 431) left
  | some (head_of head rest, left) ↦
      if text_eq head too_big_mark
      then answer true (reply 431) left
      else judge digest config around head rest left (validate_request head)
]
