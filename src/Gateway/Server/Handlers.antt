-- ===== src/Gateway/Server/Handlers.antt =====
-- The handlers of home/rdm/gateway/server.py for POST and DELETE, and `stop`.
use remote_devbox_mcp.Base.{
  ℕ, ◌⊎◌, inl, inr, Bool, true, not, ◌&&◌, ◌||◌, List, [], ◌∷◌, Option, none, some, if◌then◌else◌,
  Text, codes, text_eq, is_in, is_empty, any, insert, is_some,
}
use remote_devbox_mcp.Gateway.Manager.{Manager, reserve, commit, abort, drop_session, session_id}
use remote_devbox_mcp.Gateway.Content.{cap_content}
use remote_devbox_mcp.Gateway.Session
use remote_devbox_mcp.Gateway.Session.{
  RpcId, ToolDef, refused, waiting, dispatch_begin, finish_call, cancel, list_tools,
}
use remote_devbox_mcp.Gateway.Policy.Calls.{Arguments}
use remote_devbox_mcp.Gateway.Server.{
  supported_versions, default_version, parse_error, invalid_request, method_not_found,
  invalid_params, internal_error, session_required, Given, absent, object, malformed, Params,
  Message, Body, undecodable, batch, scalar, message, get_verb, post_verb, delete_verb, Request,
  Called, timed_out, failed, returned, Reply, plain, rpc_error, accepted, initialized, pong, listed,
  called, Server, Outside, discard, session_of, guard, do_get,
}

-- `self.server.manager()`: made at the first use
abbrev pub manager_of : Outside → Server → Manager Session.Session
manager_of around server = elim server.manager [ none ↦ around.factory | some manager ↦ manager ]

-- The reply to what `create_session` did: the id of the session and the manager when a place was
-- reserved, and the session whose children were spawned.
unfoldable pub initialize_reply :
    Outside
    → Text
    → Option RpcId
    → Server
    → Option (ℕ × Manager Session.Session)
    → Option Session.Session
    → Reply × Server
initialize_reply around version id server none spawned =
    (rpc_error 429 session_required id, record server { manager = some (manager_of around server) })
initialize_reply around version id server (some (n, reserved)) none =
    (rpc_error 200 internal_error id, record server { manager = some (abort reserved) })
initialize_reply around version id server (some (n, reserved)) (some session) = (
  initialized (if is_in version supported_versions then version else default_version) (session_id n)
      id,
  record server {
    manager = some (commit (session_id n) session reserved);
    registered = session_id n ∷ server.registered;
  },
)

-- `_handle_initialize`
unfoldable pub handle_initialize : Outside → Text → Option RpcId → Server → Reply × Server
unfolding initialize_reply
handle_initialize around version id server =
    let unavailable = rpc_error 200 internal_error id in
    let manager = manager_of around server in
    if not (is_some server.manager) && not around.has_factory
    then (unavailable, server)
    else if not around.has_defaults
    then (unavailable, record server { manager = some manager })
    else initialize_reply around version id server (reserve manager) around.spawned

-- The reply for the outcome of `_call_tool`. Capping always returns, so its `none` does not occur.
unfoldable pub call_reply : Outside → Text → RpcId → Called → Reply
call_reply around tool id timed_out = rpc_error 200 internal_error (some id)
call_reply around tool id failed = rpc_error 200 internal_error (some id)
call_reply around tool id (returned result) =
    if result.is_error && is_empty result.content
    then rpc_error 200 internal_error (some id)
    else elim (cap_content around.size result.content) [
      | none ↦ rpc_error 200 internal_error (some id)
      | some (content, truncated) ↦
          called tool content result.is_error (truncated || result.truncated) id
    ]

-- `any(entry[0] == name for entry in session.list_tools())`
abbrev pub is_listed : Text → Session.Session → Bool
is_listed name session = any (λ entry. text_eq entry.0 name) (list_tools session)

-- `_tools_call` on a name and arguments of the right types
unfoldable pub call_named : Outside → Session.Session → Text → Given → RpcId → Reply
unfolding call_reply any
call_named around session name malformed id = rpc_error 200 invalid_params (some id)
call_named around session name absent id =
    if is_listed name session
    then call_reply around name id around.outcome
    else rpc_error 200 invalid_params (some id)
call_named around session name (object _) id =
    if is_listed name session
    then call_reply around name id around.outcome
    else rpc_error 200 invalid_params (some id)

unfoldable pub tools_call : Outside → Session.Session → Option Params → RpcId → Reply
unfolding call_named
tools_call around session none id = rpc_error 200 invalid_params (some id)
tools_call around session (some params) id = elim params.name [
  | none ↦ rpc_error 200 invalid_params (some id)
  | some name ↦ call_named around session name params.arguments id
]

-- `_dispatch` without an id: the cancellation, if there is one, and 202
unfoldable pub notice : Session.Session → Text → Option Params → Reply
notice session method none = accepted none
notice session method (some params) =
    if text_eq method (codes "notifications/cancelled")
    then elim params.request_id [ none ↦ accepted none | some id ↦ accepted (cancel id session) ]
    else accepted none

-- `_dispatch`
unfoldable pub dispatch : Outside → Session.Session → Text → Option Params → Option RpcId → Reply
unfolding notice tools_call
dispatch around session method params none = notice session method params
dispatch around session method params (some id) =
    if text_eq method (codes "ping")
    then pong id
    else if text_eq method (codes "tools/list")
    then listed (list_tools session) id
    else if text_eq method (codes "tools/call")
    then tools_call around session params id
    else rpc_error 200 method_not_found (some id)

-- `{} if arguments is None else arguments`, where they have the right type
abbrev pub given_args : Given → Option Arguments
given_args absent = some []
given_args (object args) = some args
given_args malformed = none

-- The session after `_call_tool`. The call is pending no more when its worker has ended; after a
-- timeout the worker goes on, and the call stays pending.
unfoldable pub after_call : Called → Text → Arguments → RpcId → Session.Session → Session.Session
after_call outcome name args rpc_id session = elim (dispatch_begin name args rpc_id session) [
  | refused _ ↦ session
  | waiting id _ _ begun ↦ elim outcome [
    | timed_out ↦ begun
    | failed ↦ finish_call id begun
    | returned _ ↦ finish_call id begun
  ]
]

-- The call that `_dispatch` makes in the session: the tool, the arguments and the id.
unfoldable pub wanted_call : Text → Option Params → Option RpcId → Option (Text × Given × RpcId)
wanted_call method (some params) (some id) =
    if text_eq method (codes "tools/call")
    then elim params.name [ none ↦ none | some name ↦ some (name, params.arguments, id) ]
    else none
wanted_call method _ _ = none

-- The session after `_dispatch`, `none` where no call was made.
unfoldable pub after_dispatch :
    Called → Session.Session → Option (Text × Given × RpcId) → Option Session.Session
unfolding after_call any
after_dispatch outcome session none = none
after_dispatch outcome session (some (name, given, id)) = elim (given_args given) [
  | none ↦ none
  | some args ↦
      if is_listed name session then some (after_call outcome name args id session) else none
]

-- The session of an id is changed where the manager holds it.
unfoldable pub put_session : Text → Option Session.Session → Server → Server
put_session id none server = server
put_session id (some session) server = elim server.manager [
  | none ↦ server
  | some manager ↦ record server {
    manager = some (record manager { sessions = insert id session manager.sessions });
  }
]

-- A request is dispatched in the session that was found for it.
unfoldable pub post_session :
    Outside → Message → Text → Text → Server → Reply ⊎ Session.Session → Reply × Server
unfolding dispatch after_dispatch put_session wanted_call
post_session around m method wanted server (inl refusal) = (refusal, server)
post_session around m method wanted server (inr session) = (
  dispatch around session method m.params m.id,
  put_session wanted (after_dispatch around.outcome session (wanted_call method m.params m.id))
      server,
)

-- `do_POST` from the method on
unfoldable pub post_method : Outside → Request → Message → Text → Server → Reply × Server
unfolding handle_initialize post_session
post_method around request m method server =
    if text_eq method (codes "initialize")
    then handle_initialize around request.version m.id server
    else post_session around m method request.wanted_session server (session_of request m.id server)

unfoldable pub post_body : Outside → Request → Body → Server → Reply × Server
unfolding post_method
post_body around request undecodable server = (rpc_error 400 parse_error none, server)
post_body around request batch server = (rpc_error 400 invalid_request none, server)
post_body around request scalar server = (rpc_error 400 invalid_request none, server)
post_body around request (message m) server = elim m.method [
  | none ↦
      if m.has_outcome
      then (accepted none, server)
      else (rpc_error 400 invalid_request none, server)
  | some method ↦ post_method around request m method server
]

-- `do_POST`
unfoldable pub do_post : Outside → Request → Server → Reply × Server
unfolding post_body
do_post around request server = elim (guard around request) [
  | some refusal ↦ (refusal, server)
  | none ↦
      if not (is_empty request.version) && not (is_in request.version supported_versions)
      then (rpc_error 400 session_required none, server)
      else post_body around request request.body server
]

-- A session closes, and its table drops it.
unfoldable pub close_session : Text → Server → Server
close_session id server = elim server.manager [
  | none ↦ server
  | some manager ↦ record server {
    manager = some (drop_session id manager);
    registered = discard id server.registered;
  }
]

-- `do_DELETE`
unfoldable pub do_delete : Outside → Request → Server → Reply × Server
unfolding close_session
do_delete around request server = elim (guard around request) [
  | some refusal ↦ (refusal, server)
  | none ↦ elim (session_of request none server) [
    | inl refusal ↦ (refusal, server)
    | inr session ↦ (plain 200, close_session request.wanted_session server)
  ]
]

unfoldable pub handle : Outside → Request → Server → Reply × Server
unfolding do_post do_delete do_get
handle around request server = elim request.verb [
  | get_verb ↦ do_get around request server
  | post_verb ↦ do_post around request server
  | delete_verb ↦ do_delete around request server
]

-- `session.close()` of each registered session
unfoldable pub close_each : List Text → Server → Server
unfolding close_session
close_each [] server = server
close_each (id ∷ ids) server = close_each ids (close_session id server)

-- `stop`, without the shutdown of the listening socket
unfoldable pub stop : Server → Server
unfolding close_each
stop server =
    if server.stopped
    then server
    else record (close_each server.registered server) { stopped = true; registered = [] }
