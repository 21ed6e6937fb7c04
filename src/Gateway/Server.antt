-- ===== src/Gateway/Server.antt =====
-- The HTTP server of the gateway, `GatewayServer` and `_Handler` of home/rdm/gateway/server.py: its
-- state, and what its handlers ask of it. A request is what the handlers read of it, with the body already decoded as JSON; the text of an
-- error is left out beside its code.
pub mod Handlers
pub mod Laws
pub mod Calls
mod Tests
use remote_devbox_mcp.Base.{
  ℕ, ◌⊎◌, inl, inr, Bool, true, false, not, ◌&&◌, ◌||◌, List, [], ◌∷◌, ◌++◌, Option, none, some,
  if◌then◌else◌, Text, codes, text_eq, is_in, is_empty, any, partition, lower, Dict, lookup,
}
use remote_devbox_mcp.Proxy.Auth.{constant_time_equal}
use remote_devbox_mcp.Gateway.Manager.{Manager, reserve, commit, abort, get, session_id}
use remote_devbox_mcp.Gateway.Content.{Item, CallResult, cap_content}
use remote_devbox_mcp.Gateway.Policy.Calls.{Arguments}
use remote_devbox_mcp.Gateway.Session
use remote_devbox_mcp.Gateway.Session.{RpcId, ToolDef, cancel, list_tools}

abbrev pub supported_versions : List Text
supported_versions = codes "2025-03-26" ∷ codes "2025-06-18" ∷ []

abbrev pub default_version : Text
default_version = codes "2025-03-26"

pub data ErrorCode : Type 0 where
  parse_error invalid_request method_not_found invalid_params internal_error session_required
        session_not_found :
      ErrorCode

-- What "arguments" holds: nothing or null, an object, or something else.
pub data Given : Type 0 where
  absent : Given
  object : Arguments → Given
  malformed : Given

-- The fields of an object "params" that are read: a string "name", "arguments", "requestId".
pub record Params : Type 0 where
  pub name : Option Text
  pub arguments : Given
  pub request_id : Option RpcId

pub record Message : Type 0 where
  -- where it is a string
  pub method : Option Text
  pub has_outcome : Bool
  pub id : Option RpcId
  -- where it is an object
  pub params : Option Params

pub data Body : Type 0 where
  undecodable batch scalar : Body
  message : Message → Body

pub data Verb : Type 0 where
  get_verb post_verb delete_verb : Verb

-- A header that is missing is the empty text, as in the code.
pub record Request : Type 0 where
  pub verb : Verb
  pub path : Text
  pub authorization : Text
  pub wanted_session : Text
  pub version : Text
  pub body : Body

-- What `_call_tool` brings: the timeout, an exception, or a result.
pub data Called : Type 0 where
  timed_out failed : Called
  returned : CallResult → Called

pub data Reply : Type 0 where
  -- `_respond`
  plain : ℕ → Reply
  rpc_error : ℕ → ErrorCode → Option RpcId → Reply
  -- 202, and the cancellation that was sent to a child
  accepted : Option (Text × ℕ) → Reply
  initialized : Text → Text → Option RpcId → Reply
  pong : RpcId → Reply
  listed : List (Text × ToolDef) → RpcId → Reply
  -- the tool, the capped content, "isError" and whether the result is marked as truncated
  called : Text → List Item → Bool → Bool → RpcId → Reply
  -- the event stream of a session is open from here on
  streaming : Text → Reply

pub record Server : Type 0 where
  pub manager : Option (Manager Session.Session)
  pub registered : List Text
  pub streams : List Text
  pub stopped : Bool

-- What the handlers meet outside: SHA-256, the token of the environment, the manager that the
-- factory makes, whether making it and `_ensure_defaults` raise nothing, the session whose children were spawned (`none` where that failed), the outcome
-- of a tool call, and the length of encoded items.
pub record Outside : Type 0 where
  pub digest : Text → Text
  pub token : Text
  pub factory : Manager Session.Session
  pub has_factory : Bool
  pub has_defaults : Bool
  pub spawned : Option Session.Session
  pub outcome : Called
  pub size : List Item → ℕ

-- `discard` and `pop`
unfoldable pub discard : Text → List Text → List Text
discard id [] = []
discard id (x ∷ xs) = if text_eq id x then discard id xs else x ∷ discard id xs

unfoldable pub auth_ok : Outside → Request → Bool
auth_ok around request =
    let (scheme, _, value) = partition (codes " ") request.authorization in
    if is_empty around.token
    then true
    else text_eq (lower scheme) (codes "bearer")
      && constant_time_equal around.digest value around.token

-- `_session`; `none` is `StaleSessionError`.
unfoldable pub find_session : Text → Server → Option Session.Session
find_session id server = elim server.manager [
  | none ↦ none
  | some manager ↦ if is_in id server.registered then get id manager else none
]

-- `acquire_stream`
unfoldable pub acquire_stream : Text → Server → Option Server
acquire_stream id server =
    if is_in id server.streams then none else some (record server { streams = id ∷ server.streams })

unfoldable pub release_stream : Text → Server → Server
unfolding discard
release_stream id server = record server { streams = discard id server.streams }

-- The session of a request, or the refusal of it.
unfoldable pub session_of : Request → Option RpcId → Server → Reply ⊎ Session.Session
unfolding find_session
session_of request id server =
    if is_empty request.wanted_session
    then inl (rpc_error 400 session_required id)
    else elim (find_session request.wanted_session server) [
      | none ↦ inl (rpc_error 404 session_not_found id)
      | some session ↦ inr session
    ]

-- What every handler asks first.
unfoldable pub guard : Outside → Request → Option Reply
unfolding auth_ok
guard around request =
    if not (text_eq request.path (codes "/mcp"))
    then some (plain 404)
    else if not (auth_ok around request)
    then some (rpc_error 401 session_required none)
    else none

-- The stream of a session that was found is opened, unless one is open.
unfoldable pub open_stream : Request → Server → Reply ⊎ Session.Session → Reply × Server
unfolding acquire_stream
open_stream request server (inl refusal) = (refusal, server)
open_stream request server (inr session) = elim (acquire_stream request.wanted_session server) [
  | none ↦ (rpc_error 409 session_required none, server)
  | some after ↦ (streaming request.wanted_session, after)
]

-- `do_GET`, up to the stream
unfoldable pub do_get : Outside → Request → Server → Reply × Server
unfolding guard session_of open_stream
do_get around request server =
    if text_eq request.path (codes "/healthz")
    then (plain 200, server)
    else elim (guard around request) [
      | some refusal ↦ (refusal, server)
      | none ↦ open_stream request server (session_of request none server)
    ]
