-- ===== src/Gateway/Server/Calls.antt =====
-- What a POST to the gateway's HTTP server does: an answer, a new session, or the call of a tool.
use remote_devbox_mcp.Base.{
  ◌≡◌, refl, ap, subst, sym, ◌∙◌, ◌⊎◌, inl, inr, Bool, true, false, not, ◌&&◌, [], Option, none,
  some, arith, Text, codes, text_eq, text_eq_sound, is_in, is_empty, Bool-cases, Option-cases,
  branch, is_some,
}
use remote_devbox_mcp.Gateway.Policy.Calls.{Arguments}
use remote_devbox_mcp.Gateway.Session
use remote_devbox_mcp.Gateway.Session.{RpcId}
use remote_devbox_mcp.Gateway.Server.{
  supported_versions, Given, absent, object, malformed, Params, Message, Body, undecodable, batch,
  scalar, message, Request, Reply, called, Server, Outside, find_session, session_of, guard,
  auth_ok,
}
use remote_devbox_mcp.Gateway.Server.Handlers.{
  initialize_reply, handle_initialize, call_reply, is_listed, call_named, tools_call, notice,
  dispatch, after_call, wanted_call, after_dispatch, put_session, post_session, post_method,
  post_body, do_post,
}

-- The reply brings no result of a tool.
abbrev has_result : Reply → Bool
has_result (called _ _ _ _ _) = true
has_result _ = false

abbrev pub HasNoResult : Reply → Type 0
HasNoResult reply = has_result reply ≡ false

-- In a session, a request is answered, or a tool that the session lists is called.
data Effect (around : Outside) (session : Session.Session)
    : Reply → Option Session.Session → Type 0 where
  answers : {reply : Reply} → HasNoResult reply → Effect around session reply none
  calls :
      (tool : Text) (args : Arguments) (id : RpcId)
      → is_listed tool session ≡ true
      → Effect around session
          (call_reply around tool id around.outcome)
          (some (after_call around.outcome tool args id session))

call_named-Effect :
    (around : Outside) (session : Session.Session) (name : Text) (given : Given) (id : RpcId)
    → Effect around session
        (call_named around session name given id)
        (after_dispatch around.outcome session (some (name, given, id)))
unfolding call_named after_dispatch
call_named-Effect around session name malformed id = answers refl
call_named-Effect around session name absent id = elim (Bool-cases (is_listed name session)) [
  | inl l ↦ rw l (calls name [] id l)
  | inr n ↦ rw n (answers refl)
]
call_named-Effect around session name (object args) id =
    elim (Bool-cases (is_listed name session)) [
      | inl l ↦ rw l (calls name args id l)
      | inr n ↦ rw n (answers refl)
    ]

abbrev DispatchEffect : Outside → Session.Session → Text → Option Params → Option RpcId → Type 0
DispatchEffect around session method params id =
    Effect around session (dispatch around session method params id)
      (after_dispatch around.outcome session (wanted_call method params id))

dispatch-tools_call :
    (around : Outside) (session : Session.Session) (params : Option Params) (id : RpcId)
    → DispatchEffect around session (codes "tools/call") params (some id)
unfolding dispatch tools_call wanted_call after_dispatch text_eq
dispatch-tools_call around session none id = answers refl
dispatch-tools_call around session (some params) id = elim (Option-cases params.name) [
  | inl e ↦ rw e (answers refl)
  | inr (name, e) ↦ rw e (call_named-Effect around session name params.arguments id)
]

notice-HasNoResult :
    (session : Session.Session) (method : Text) (params : Option Params)
    → HasNoResult (notice session method params)
unfolding notice
notice-HasNoResult session method none = refl
notice-HasNoResult session method (some params) =
    elim (Bool-cases (text_eq method (codes "notifications/cancelled"))) [
      | inl c ↦ elim (Option-cases params.request_id) [
        | inl e ↦ rw (c, e) refl
        | inr (id, e) ↦ rw (c, e) refl
      ]
      | inr n ↦ rw n refl
    ]

wanted_call-none :
    (method : Text) (params : Option Params) (id : Option RpcId)
    → text_eq method (codes "tools/call") ≡ false
    → wanted_call method params id ≡ none
unfolding wanted_call
wanted_call-none method none id h = refl
wanted_call-none method (some params) none h = refl
wanted_call-none method (some params) (some id) h = rw (h, wanted_call) refl

dispatch-other :
    (around : Outside) (session : Session.Session) (method : Text) (params : Option Params)
    (id : RpcId)
    → text_eq method (codes "tools/call") ≡ false
    → HasNoResult (dispatch around session method params (some id))
unfolding dispatch
dispatch-other around session method params id h =
    elim (Bool-cases (text_eq method (codes "ping"))) [
      | inl p ↦ rw p refl
      | inr p ↦ elim (Bool-cases (text_eq method (codes "tools/list"))) [
        | inl l ↦ rw (p, l) refl
        | inr l ↦ rw (p, l, h) refl
      ]
    ]

dispatch-Effect :
    (around : Outside) (session : Session.Session) (method : Text) (params : Option Params)
    (id : Option RpcId)
    → DispatchEffect around session method params id
unfolding dispatch wanted_call after_dispatch
dispatch-Effect around session method none none = answers (notice-HasNoResult session method none)
dispatch-Effect around session method (some params) none =
    answers (notice-HasNoResult session method (some params))
dispatch-Effect around session method params (some id) =
    elim (Bool-cases (text_eq method (codes "tools/call"))) [
      | inl e ↦
          subst (λ m. DispatchEffect around session m params (some id))
            (sym (text_eq_sound method (codes "tools/call") e))
            (dispatch-tools_call around session params id)
      | inr n ↦
          subst
            (λ w.
              Effect around session (dispatch around session method params (some id))
                (after_dispatch around.outcome session w))
            (sym (wanted_call-none method params (some id) n))
            (answers (dispatch-other around session method params id n))
    ]

-- What a POST does. It starts a session only if it asks for one; it changes nothing; or it is
-- authorized, its session is found, the session lists the tool, the reply is the one for the
-- outcome of the call, and no more than this session is changed, as the call changes it.
pub data MayCall (around : Outside) (request : Request) (server : Server)
    : Reply → Server → Type 0 where
  starts :
      (m : Message) {reply : Reply} {after : Server}
      → request.body ≡ message m
      → m.method ≡ some (codes "initialize")
      → HasNoResult reply
      → MayCall around request server reply after
  only_answers : {reply : Reply} → HasNoResult reply → MayCall around request server reply server
  makes_call :
      (session : Session.Session) (tool : Text) (args : Arguments) (id : RpcId)
      → auth_ok around request ≡ true
      → find_session request.wanted_session server ≡ some session
      → is_listed tool session ≡ true
      → MayCall around request server (call_reply around tool id around.outcome) (
          put_session request.wanted_session
            (some (after_call around.outcome tool args id session))
            server)

abbrev May : Outside → Request → Server → Reply × Server → Type 0
May around request server (reply, after) = MayCall around request server reply after

Effect-MayCall :
    (around : Outside) (request : Request) (server : Server) (session : Session.Session)
    (reply : Reply) (changed : Option Session.Session)
    → auth_ok around request ≡ true
    → find_session request.wanted_session server ≡ some session
    → Effect around session reply changed
    → MayCall around request server reply (put_session request.wanted_session changed server)
unfolding put_session
Effect-MayCall around request server session _ _ ok found (answers h) = only_answers h
Effect-MayCall around request server session _ _ ok found (calls tool args id l) =
    makes_call session tool args id ok found l

session_of-HasNoResult :
    (request : Request) (id : Option RpcId) (server : Server) (refusal : Reply)
    → session_of request id server ≡ inl refusal
    → HasNoResult refusal
unfolding session_of
session_of-HasNoResult request id server refusal h = ground arith

session_of-found :
    (request : Request) (id : Option RpcId) (server : Server) (session : Session.Session)
    → session_of request id server ≡ inr session
    → find_session request.wanted_session server ≡ some session
unfolding session_of
session_of-found request id server session h = ground arith

post_session-MayCall :
    (around : Outside) (request : Request) (m : Message) (method : Text) (server : Server)
    (found : Reply ⊎ Session.Session)
    → auth_ok around request ≡ true
    → session_of request m.id server ≡ found
    → May around request server (post_session around m method request.wanted_session server found)
unfolding post_session
post_session-MayCall around request m method server (inl refusal) ok e =
    only_answers (session_of-HasNoResult request m.id server refusal e)
post_session-MayCall around request m method server (inr session) ok e =
    Effect-MayCall around request server session _ _ ok
      (session_of-found request m.id server session e)
      (dispatch-Effect around session method m.params m.id)

initialize_reply-HasNoResult :
    (around : Outside) (version : Text) (id : Option RpcId) (server : Server) (r : _)
    (o : Option Session.Session)
    → HasNoResult (initialize_reply around version id server r o).0
unfolding initialize_reply
initialize_reply-HasNoResult around version id server none o = refl
initialize_reply-HasNoResult around version id server (some x) none = refl
initialize_reply-HasNoResult around version id server (some x) (some s) = refl

handle_initialize-HasNoResult :
    (around : Outside) (version : Text) (id : Option RpcId) (server : Server)
    → HasNoResult (handle_initialize around version id server).0
unfolding handle_initialize
handle_initialize-HasNoResult around version id server =
    branch (λ (x : Reply × Server). HasNoResult x.0)
      (not (is_some server.manager) && not around.has_factory) _ _ refl
      (branch (λ (x : Reply × Server). HasNoResult x.0) (not around.has_defaults) _ _ refl
        (initialize_reply-HasNoResult around version id server _ around.spawned))

post_method-MayCall :
    (around : Outside) (request : Request) (m : Message) (method : Text) (server : Server)
    → auth_ok around request ≡ true
    → request.body ≡ message m
    → m.method ≡ some method
    → May around request server (post_method around request m method server)
unfolding post_method
post_method-MayCall around request m method server ok body named =
    elim (Bool-cases (text_eq method (codes "initialize"))) [
      | inl first ↦ rw first (
          starts m body (named ∙ ap some (text_eq_sound method (codes "initialize") first))
            (handle_initialize-HasNoResult around request.version m.id server))
      | inr other ↦ rw other (
          post_session-MayCall around request m method server (session_of request m.id server) ok
            refl)
    ]

post_body-MayCall :
    (around : Outside) (request : Request) (body : Body) (server : Server)
    → auth_ok around request ≡ true
    → request.body ≡ body
    → May around request server (post_body around request body server)
unfolding post_body
post_body-MayCall around request undecodable server ok e = only_answers refl
post_body-MayCall around request batch server ok e = only_answers refl
post_body-MayCall around request scalar server ok e = only_answers refl
post_body-MayCall around request (message m) server ok e = elim (Option-cases m.method) [
  | inl none_named ↦ elim (Bool-cases m.has_outcome) [
    | inl outcome ↦ rw (none_named, outcome) (only_answers refl)
    | inr bare ↦ rw (none_named, bare) (only_answers refl)
  ]
  | inr (method, named) ↦ rw named (post_method-MayCall around request m method server ok e named)
]

guard-passed :
    (around : Outside) (request : Request)
    → guard around request ≡ none
    → auth_ok around request ≡ true
unfolding guard
guard-passed around request h = ground arith

guard-HasNoResult :
    (around : Outside) (request : Request) (refusal : Reply)
    → guard around request ≡ some refusal
    → HasNoResult refusal
unfolding guard
guard-HasNoResult around request refusal h = ground arith

-- A POST that asks for no session changes nothing and brings no result of a tool, or it is
-- authorized, its session is found and lists a tool, the reply is the one for the outcome of the
-- call of this tool, a timeout and an error included, and the server is as before but for what the
-- call changes in this session.
pub do_post-MayCall :
    (around : Outside) (request : Request) (server : Server)
    → MayCall around request server
        (do_post around request server).0
        (do_post around request server).1
unfolding do_post
do_post-MayCall around request server = elim (Option-cases (guard around request)) [
  | inr (refusal, e) ↦ rw (e, do_post) (only_answers (guard-HasNoResult around request refusal e))
  | inl passed ↦
      elim (Bool-cases
        (not (is_empty request.version) && not (is_in request.version supported_versions))) [
          | inl bad ↦ rw (passed, bad, do_post) (only_answers refl)
          | inr good ↦
              rw (passed, good, do_post)
                (post_body-MayCall around request request.body server
                  (guard-passed around request passed) refl)
        ]
]
