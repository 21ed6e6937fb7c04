-- ===== src/Gateway/Server/Tests.antt =====
-- The handlers of the gateway's HTTP server on small requests.
use remote_devbox_mcp.Base.{
  ℕ, ◌≡◌, refl, true, false, List, [], ◌∷◌, none, some, Text, codes, text_eq, is_in, any, partition,
  find_sep, strip_prefix?, lower, lookup, length, digits, insert, erase,
}
use remote_devbox_mcp.Proxy.Auth.{constant_time_equal}
use remote_devbox_mcp.Gateway.Manager.{Manager, reserve, commit, get, session_id, drop_session}
use remote_devbox_mcp.Gateway.Content.{cap_content, shrink_until}
use remote_devbox_mcp.Gateway.Session
use remote_devbox_mcp.Gateway.Session.{RpcId, number, list_tools}
use remote_devbox_mcp.Gateway.Server.{
  supported_versions, session_required, absent, message, Verb, get_verb, post_verb, delete_verb,
  Request, returned, rpc_error, initialized, Server, Outside, find_session, session_of, guard,
  auth_ok, do_get, discard, called,
}
use remote_devbox_mcp.Gateway.Policy.Names.{parse_exposed_tool_name}
use remote_devbox_mcp.Gateway.Policy.Calls.{check_call, constraints_of, bounds_fit}
use remote_devbox_mcp.Gateway.Server.Handlers.{
  handle, handle_initialize, after_call, after_dispatch, put_session, wanted_call, do_post,
  do_delete, post_session, call_named,
}
use remote_devbox_mcp.Gateway.Server.Laws.{
  IsRefused, handle-IsRefused, find_session-handle_initialize, do_get-streaming,
  find_session-do_delete,
}
use remote_devbox_mcp.Gateway.Server.Calls.{MayCall, do_post-MayCall}

abbrev session : Session.Session
session = record {
  allowlists = (codes "git", codes "log" ∷ []) ∷ [];
  project_dir = none;
  children = (codes "git", record { live = true; inflight = none; tools = [] }) ∷ [];
  registry = (codes "git__log", codes "git__log") ∷ [];
  tool_defs = (codes "git__log", (codes "git", codes "log", codes "{}")) ∷ [];
  pending = [];
  call_counter = 0;
}

abbrev manager : List (Text × Session.Session) → ℕ → Manager Session.Session
manager sessions next = record {
  sessions = sessions;
  creating = 0;
  next_id = next;
  max_sessions = 4;
}

abbrev empty : Server
empty = record { manager = none; registered = []; streams = []; stopped = false }

abbrev server : Server
server = record {
  manager = some (manager ((codes "sess-1", session) ∷ []) 2);
  registered = codes "sess-1" ∷ [];
  streams = [];
  stopped = false;
}

abbrev around : Outside
around = record {
  digest = λ t. t;
  token = codes "key";
  factory = manager [] 1;
  has_factory = true;
  has_defaults = true;
  spawned = some session;
  outcome = returned (record { content = []; is_error = false; truncated = false });
  size = length;
}

abbrev request : Verb → Text → Request
request verb authorization = record {
  verb = verb;
  path = codes "/mcp";
  authorization = authorization;
  wanted_session = codes "sess-1";
  version = [];
  body = message (record {
    method = some (codes "tools/call");
    has_outcome = false;
    id = some (number 3);
    params =
        some (record { name = some (codes "git__log"); arguments = absent; request_id = none });
  });
}

abbrev key : Text
key = codes "Bearer key"

handle-IsRefused_example :
    IsRefused server (handle around (request delete_verb (codes "Bearer kex")) server)
unfolding auth_ok partition find_sep strip_prefix? lower text_eq constant_time_equal
handle-IsRefused_example =
    handle-IsRefused around (request delete_verb (codes "Bearer kex")) server refl

initializes :
    handle_initialize around (codes "2025-06-18") (some (number 1)) empty
    ≡ (initialized (codes "2025-06-18") (codes "sess-1") (some (number 1)), server)
unfolding handle_initialize reserve is_in any text_eq commit session_id digits insert
initializes = refl

find_session-handle_initialize_example :
    (some session ≡ find_session (codes "sess-1") server)
    × (is_in (codes "2025-06-18") supported_versions ≡ true)
find_session-handle_initialize_example =
    find_session-handle_initialize around (codes "2025-06-18") (some (number 1)) empty server
      (codes "2025-06-18") (codes "sess-1") (some (number 1)) initializes

abbrev busy : Server
busy = record server { streams = codes "sess-1" ∷ [] }

do_get-streaming_example :
    (is_in (codes "sess-1") server.streams ≡ false)
    × (do_get around (request get_verb key) busy ≡ (rpc_error 409 session_required none, busy))
unfolding do_get guard auth_ok partition find_sep strip_prefix? lower text_eq constant_time_equal
    session_of find_session is_in any get lookup
do_get-streaming_example =
    do_get-streaming around (request get_verb key) server busy (codes "sess-1") refl

abbrev deleted : Server
deleted = record server { manager = some (manager [] 2); registered = [] }

find_session-do_delete_example : find_session (codes "sess-1") deleted ≡ none
unfolding do_delete guard auth_ok partition find_sep strip_prefix? lower text_eq constant_time_equal
    session_of find_session is_in any get lookup drop_session discard erase
find_session-do_delete_example =
    find_session-do_delete around (request delete_verb key) server deleted refl

-- The call counts, and is pending no more.
abbrev called_once : Server
called_once = record server {
  manager = some (manager ((codes "sess-1", record session { call_counter = 1 }) ∷ []) 2);
}

do_post-MayCall_example :
    MayCall around
      (request post_verb key)
      server
      (called (codes "git__log") [] false false (number 3))
      called_once
unfolding do_post guard auth_ok partition find_sep strip_prefix? lower text_eq constant_time_equal
    session_of find_session is_in any get lookup list_tools post_session call_named cap_content
    shrink_until insert after_call after_dispatch put_session wanted_call Session.dispatch_begin
    Session.begin_call Session.finish_call Session.call_id Session.pending_set Session.pending_pop
    Session.rpc_eq parse_exposed_tool_name check_call constraints_of bounds_fit
do_post-MayCall_example = do_post-MayCall around (request post_verb key) server
