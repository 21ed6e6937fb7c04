-- ===== src/Gateway/Session.antt =====
-- One client session of the gateway, `Session` of home/rdm/gateway/sessions.py, and the call of it
-- in home/rdm/gateway/dispatch.py. `call_tool` is cut where it waits for the child: `begin_call`
-- up to the request, `finish_call` behind it. A child is what the session reads of it.
pub mod Laws
pub mod Cancels
use remote_devbox_mcp.Base.{
  ℕ, ◌+◌, ◌≡◌, Bool, true, false, not, ◌&&◌, ◌||◌, List, [], ◌∷◌, ◌++◌, Option, none, some,
  if◌then◌else◌, ◌==◌, Text, codes, text_eq, is_in, Dict, lookup, insert, mem,
}
use remote_devbox_mcp.Gateway.Policy.Names.{
  exposed_tool_name, parse_exposed_tool_name, register_tools,
}
use remote_devbox_mcp.Gateway.Policy.Calls.{meta_tool_deny, Arguments, check_call}

-- A JSON-RPC id: an integer or a string.
pub data RpcId : Type 0 where
  number : ℕ → RpcId
  text : Text → RpcId

unfoldable pub rpc_eq : RpcId → RpcId → Bool
rpc_eq (number m) (number n) = m == n
rpc_eq (text s) (text t) = text_eq s t
rpc_eq _ _ = false

-- A tool that a child lists: its name, where that is a string, and its schema.
pub record Tool : Type 0 where
  pub name : Option Text
  pub schema : Text

pub record Child : Type 0 where
  pub live : Bool
  -- `inflight_id`, the first id that the child has not answered
  pub inflight : Option ℕ
  pub tools : List Tool

-- server, tool, schema
abbrev pub ToolDef : Type 0
ToolDef = Text × Text × Text

pub record Session : Type 0 where
  pub allowlists : Dict (List Text)
  pub project_dir : Option Text
  pub children : Dict Child
  pub registry : Dict Text
  pub tool_defs : Dict ToolDef
  -- the server whose child has the call
  pub pending : List (RpcId × Text)
  pub call_counter : ℕ

-- `self._pending.get(id)`, `self._pending[id] = child` and `self._pending.pop(id, None)`
unfoldable pub pending_get : RpcId → List (RpcId × Text) → Option Text
pending_get id [] = none
pending_get id ((i, server) ∷ rest) = if rpc_eq i id then some server else pending_get id rest

unfoldable pub pending_set : RpcId → Text → List (RpcId × Text) → List (RpcId × Text)
pending_set id server [] = (id, server) ∷ []
pending_set id server ((i, other) ∷ rest) =
    if rpc_eq i id then (id, server) ∷ rest else (i, other) ∷ pending_set id server rest

unfoldable pub pending_pop : RpcId → List (RpcId × Text) → List (RpcId × Text)
pending_pop id [] = []
pending_pop id ((i, server) ∷ rest) =
    if rpc_eq i id then rest else (i, server) ∷ pending_pop id rest

abbrev pub or_self : Option Text → Text → Text
or_self none name = name
or_self (some entry) name = entry

-- `call_tool` up to the request: refused with a reason, or waiting for the child of a server.
pub data Begun : Type 0 where
  refused : Text → Begun
  waiting : RpcId → Text → Text → Session → Begun

-- the id under which the call is pending
unfoldable pub call_id : Option RpcId → Session → RpcId × Session
call_id (some id) s = (id, s)
call_id none s = (number (s.call_counter + 1), record s { call_counter = s.call_counter + 1 })

unfoldable pub send_call : Option RpcId → Text → Text → Session → Begun
unfolding call_id
send_call rpc_id server tool s =
    let (id, s') = call_id rpc_id s in
    waiting id server tool (record s' { pending = pending_set id server s'.pending })

unfoldable pub begin_parsed : Option (Text × Text) → Arguments → Option RpcId → Session → Begun
unfolding send_call
begin_parsed none args rpc_id s = refused (codes "unknown tool")
begin_parsed (some (server, tool)) args rpc_id s =
    let (allowed, reason) =
      check_call server tool (lookup server s.allowlists) (some args) s.project_dir in
    let unavailable = refused (codes "server unavailable: " ++ server) in
    if not allowed then refused reason else elim (lookup server s.children) [
      | none ↦ unavailable
      | some child ↦ if child.live then send_call rpc_id server tool s else unavailable
    ]

unfoldable pub begin_call : Text → Arguments → Option RpcId → Session → Begun
unfolding begin_parsed
begin_call exposed_name args rpc_id s =
    begin_parsed (parse_exposed_tool_name (or_self (lookup exposed_name s.registry) exposed_name))
      args rpc_id s

-- the `finally` of `call_tool`
unfoldable pub finish_call : RpcId → Session → Session
finish_call id s = record s { pending = pending_pop id s.pending }

-- The server and the upstream id that `cancel` sends a cancellation for.
unfoldable pub cancel : RpcId → Session → Option (Text × ℕ)
cancel rpc_id s = elim (pending_get rpc_id s.pending) [
  | none ↦ none
  | some server ↦ elim (lookup server s.children) [
    | none ↦ none
    | some child ↦ elim child.inflight [ none ↦ none | some id ↦ some (server, id) ]
  ]
]

-- `session.call_tool(exposed_name, arguments, progress_token)` in dispatch.py: the client's
-- `rpc_id` is an argument of `call`, and is not handed on.
unfoldable pub dispatch_begin : Text → Arguments → RpcId → Session → Begun
dispatch_begin exposed_name args rpc_id s = begin_call exposed_name args none s

unfoldable pub list_tools_of : Dict Text → Session → List (Text × ToolDef)
list_tools_of [] s = []
list_tools_of ((registered, exposed) ∷ rest) s =
    let others = list_tools_of rest s in
    elim (lookup exposed s.tool_defs) [
      | none ↦ others
      | some info ↦ elim (lookup info.0 s.children) [
        | none ↦ others
        | some child ↦ if child.live then (registered, info) ∷ others else others
      ]
    ]

unfoldable pub list_tools : Session → List (Text × ToolDef)
unfolding list_tools_of
list_tools s = list_tools_of s.registry s

-- `self._policy.allowlists.get(server) or frozenset()`
abbrev pub allowed_for : Text → Dict (List Text) → List Text
allowed_for server lists = elim (lookup server lists) [ none ↦ [] | some tools ↦ tools ]

-- The exposed names and definitions of a child's tools, in order.
unfoldable pub expose_tools : Text → List Text → List Tool → List (Text × ToolDef)
expose_tools server allowed [] = []
expose_tools server allowed (tool ∷ tools) =
    let rest = expose_tools server allowed tools in
    elim tool.name [
      | none ↦ rest
      | some name ↦
          if not (is_in name allowed) || is_in name meta_tool_deny
          then rest
          else (exposed_tool_name server name, (server, name, tool.schema)) ∷ rest
    ]

unfoldable pub expose_children : Dict (List Text) → Dict Child → List (Text × ToolDef)
unfolding expose_tools
expose_children lists [] = []
expose_children lists ((server, child) ∷ rest) =
    expose_tools server (allowed_for server lists) child.tools ++ expose_children lists rest

unfoldable pub insert_all : List (Text × ToolDef) → Dict ToolDef → Dict ToolDef
insert_all [] defs = defs
insert_all ((name, info) ∷ rest) defs = insert_all rest (insert name info defs)

abbrev pub exposed_names : List (Text × ToolDef) → List Text
exposed_names [] = []
exposed_names (x ∷ xs) = x.0 ∷ exposed_names xs

-- `_register`; the instructions and capabilities are texts for the client and are left out.
unfoldable pub register : Dict Child → Session → Option Session
unfolding expose_children insert_all
register children s =
    let exposed = expose_children s.allowlists children in
    elim (register_tools (exposed_names exposed)) [
      | none ↦ none
      | some registry ↦ some (record s {
        children = children;
        tool_defs = insert_all exposed s.tool_defs;
        registry = registry;
      })
    ]
