-- ===== src/Gateway/Server/Laws.antt =====
-- The handlers of the HTTP server of home/rdm/gateway/server.py.
use remote_devbox_mcp.Base.{
  ℕ, ◌≡◌, ◌≢◌, refl, ap, ap₂, sym, subst, ◌∙◌, ◌⊎◌, inl, inr, true, false, List, [], ◌∷◌, Option,
  none, some, arith, if◌then◌else◌, Text, codes, text_eq, text_eq_refl, is_in, any, lookup-insert,
  Bool-cases, Option-cases, not, ◌&&◌, is_some,
}
use remote_devbox_mcp.Gateway.Manager.{Manager, reserve, commit, get, session_id}
use remote_devbox_mcp.Gateway.Session
use remote_devbox_mcp.Gateway.Session.{RpcId, cancel, list_tools}
use remote_devbox_mcp.Gateway.Server.{
  supported_versions, default_version, session_required, Verb, get_verb, post_verb, delete_verb,
  Request, Reply, plain, rpc_error, initialized, streaming, Server, Outside, discard, find_session,
  session_of, guard, auth_ok, acquire_stream, open_stream, do_get,
}
use remote_devbox_mcp.Gateway.Server.Handlers.{
  manager_of, initialize_reply, handle_initialize, do_post, do_delete, close_session, handle,
}

-- A refusal that tells nothing: not found, alive, or unauthorized.
abbrev pub IsRefusal : Reply → Type 0
IsRefusal reply =
    (reply ≡ plain 404) ⊎ ((reply ≡ plain 200) ⊎ (reply ≡ rpc_error 401 session_required none))

guard-unauthorized :
    (around : Outside) (request : Request)
    → auth_ok around request ≡ false
    → (reply : Reply) × (guard around request ≡ some reply) × IsRefusal reply
unfolding guard
guard-unauthorized around request h = elim (Bool-cases (text_eq request.path (codes "/mcp"))) [
  | inl mcp ↦ (rpc_error 401 session_required none, rw (mcp, h) refl, inr (inr refl))
  | inr other ↦ (plain 404, rw other refl, inl refl)
]

-- The reply refuses, and the server is as before.
abbrev pub IsRefused : Server → Reply × Server → Type 0
IsRefused server (reply, after) = (after ≡ server) × IsRefusal reply

do_get-IsRefused :
    (around : Outside) (request : Request) (server : Server)
    → auth_ok around request ≡ false
    → IsRefused server (do_get around request server)
unfolding do_get
do_get-IsRefused around request server h =
    let (reply, refused, is_refusal) = guard-unauthorized around request h in
    elim (Bool-cases (text_eq request.path (codes "/healthz"))) [
      | inl health ↦ rw (health, do_get) (refl, inr (inl refl))
      | inr other ↦ rw (other, refused, do_get) (refl, is_refusal)
    ]

do_post-IsRefused :
    (around : Outside) (request : Request) (server : Server)
    → auth_ok around request ≡ false
    → IsRefused server (do_post around request server)
unfolding do_post
do_post-IsRefused around request server h =
    let (reply, refused, is_refusal) = guard-unauthorized around request h in
    rw (refused, do_post) (refl, is_refusal)

do_delete-IsRefused :
    (around : Outside) (request : Request) (server : Server)
    → auth_ok around request ≡ false
    → IsRefused server (do_delete around request server)
unfolding do_delete
do_delete-IsRefused around request server h =
    let (reply, refused, is_refusal) = guard-unauthorized around request h in
    rw (refused, do_delete) (refl, is_refusal)

-- Without authorization no request changes the server, and the reply is a 404, the health check's
-- 200 or a 401.
pub handle-IsRefused :
    (around : Outside) (request : Request) (server : Server)
    → auth_ok around request ≡ false
    → IsRefused server (handle around request server)
unfolding handle
handle-IsRefused around request server h = go request.verb
  where
    go :
        (v : Verb)
        → IsRefused server (elim v [
          | get_verb ↦ do_get around request server
          | post_verb ↦ do_post around request server
          | delete_verb ↦ do_delete around request server
        ])
    go get_verb = do_get-IsRefused around request server h
    go post_verb = do_post-IsRefused around request server h
    go delete_verb = do_delete-IsRefused around request server h

is_in-default_version : is_in default_version supported_versions ≡ true
unfolding is_in any text_eq
is_in-default_version = refl

-- What is entered is found.
find_session-commit :
    (id : Text) (session : Session.Session) (manager : Manager Session.Session) (server : Server)
    → find_session id (record server {
      manager = some (commit id session manager);
      registered = id ∷ server.registered;
    })
      ≡ some session
unfolding find_session get commit is_in any
find_session-commit id session manager server =
    ground (arith, text_eq_refl id, lookup-insert id id session manager.sessions)

-- A session that was initialized is found under the id that the client got, and is the one whose
-- children were spawned; the version that was agreed on is a supported one.
pub find_session-handle_initialize :
    (around : Outside) (version : Text) (id : Option RpcId) (server after : Server)
    (agreed sid : Text) (rpc : Option RpcId)
    → handle_initialize around version id server ≡ (initialized agreed sid rpc, after)
    → (around.spawned ≡ find_session sid after) × (is_in agreed supported_versions ≡ true)
unfolding handle_initialize initialize_reply
find_session-handle_initialize around version id server after agreed sid rpc h =
    elim (Bool-cases (not (is_some server.manager) && not around.has_factory)) [
      | inl unmade ↦ let p = rw (unmade, handle_initialize) at h in absurd (cc p)
      | inr made ↦ elim (Bool-cases (not around.has_defaults)) [
        | inl bare ↦ let p = rw (made, bare, handle_initialize) at h in absurd (cc p)
        | inr ready ↦
            go (reserve (manager_of around server)) around.spawned
              (rw (made, ready, handle_initialize) at h)
      ]
    ]
  where
    supported :
        (v : Text)
        → is_in (if is_in v supported_versions then v else default_version) supported_versions
          ≡ true
    supported v = elim (Bool-cases (is_in v supported_versions)) [
      | inl known ↦ rw known known
      | inr unknown ↦ rw unknown is_in-default_version
    ]

    go :
        (r : Option (ℕ × Manager Session.Session)) (o : Option Session.Session)
        → initialize_reply around version id server r o ≡ (initialized agreed sid rpc, after)
        → (o ≡ find_session sid after) × (is_in agreed supported_versions ≡ true)
    go none o p = absurd (cc p)
    go (some (n, reserved)) none p = absurd (cc p)
    go (some (n, reserved)) (some session) p =
        let same_id : session_id n ≡ sid = cc p in
        let same_version : (if is_in version supported_versions then version else default_version)
            ≡ agreed =
          cc p in
        (
          sym (find_session-commit (session_id n) session reserved server)
              ∙ ap₂ find_session same_id (ap (λ x. x.1) p),
          rw (← same_version) (supported version),
        )

session_of-ne-streaming :
    (request : Request) (server : Server) (sid : Text)
    → session_of request none server ≢ inl (streaming sid)
unfolding session_of
session_of-ne-streaming request server sid h = ground arith

guard-ne-streaming :
    (around : Outside) (request : Request) (sid : Text)
    → guard around request ≢ some (streaming sid)
unfolding guard
guard-ne-streaming around request sid h = ground arith

abbrev opened : Request → Server → Server
opened request server = record server { streams = request.wanted_session ∷ server.streams }

-- A stream changes nothing of what finds a session.
session_of-opened :
    (request : Request) (server : Server)
    → session_of request none (opened request server) ≡ session_of request none server
unfolding session_of find_session
session_of-opened request server = refl

open_stream-opened :
    (request : Request) (server : Server) (session : Session.Session)
    → open_stream request (opened request server) (inr session)
      ≡ (rpc_error 409 session_required none, opened request server)
unfolding open_stream acquire_stream is_in any
open_stream-opened request server session =
    rw (text_eq_refl request.wanted_session, open_stream) refl

open_stream-streaming :
    (request : Request) (server after : Server) (found : Reply ⊎ Session.Session) (sid : Text)
    → session_of request none server ≡ found
    → open_stream request server found ≡ (streaming sid, after)
    → (is_in sid server.streams ≡ false)
      × (open_stream request after (session_of request none after)
          ≡ (rpc_error 409 session_required none, after))
unfolding open_stream acquire_stream
open_stream-streaming request server after (inl refusal) sid e h =
    absurd (session_of-ne-streaming request server sid (e ∙ ap inl (ap (λ x. x.0) h)))
open_stream-streaming request server after (inr session) sid e h =
    elim (Bool-cases (is_in request.wanted_session server.streams)) [
      | inl held ↦ let p = rw (held, open_stream) at h in absurd (cc p)
      | inr free ↦
          let p = rw (free, open_stream) at h in
          let same_id : request.wanted_session ≡ sid = cc p in
          (
            rw (← same_id) free,
            subst
                (λ z.
                  open_stream request z (session_of request none z)
                  ≡ (rpc_error 409 session_required none, z))
                (ap (λ x. x.1) p)
                (ap (open_stream request (opened request server))
                    (session_of-opened request server ∙ e)
                  ∙ open_stream-opened request server session),
          )
    ]

-- While a stream of a session is open, no second one is opened for it.
pub do_get-streaming :
    (around : Outside) (request : Request) (server after : Server) (sid : Text)
    → do_get around request server ≡ (streaming sid, after)
    → (is_in sid server.streams ≡ false)
      × (do_get around request after ≡ (rpc_error 409 session_required none, after))
unfolding do_get
do_get-streaming around request server after sid h =
    elim (Bool-cases (text_eq request.path (codes "/healthz"))) [
      | inl health ↦ let p = rw (health, do_get) at h in absurd (cc p)
      | inr other ↦ elim (Option-cases (guard around request)) [
        | inr (refusal, refused) ↦
            let p = rw (other, refused, do_get) at h in
            absurd (guard-ne-streaming around request sid (refused ∙ ap some (ap (λ x. x.0) p)))
        | inl passed ↦
            let p = rw (other, passed, do_get) at h in
            let (free, taken) =
              open_stream-streaming request server after (session_of request none server) sid refl
                p in
            (free, rw (other, passed, do_get) taken)
      ]
    ]

is_in-discard : (id : Text) (xs : List Text) → is_in id (discard id xs) ≡ false
unfolding is_in any discard
is_in-discard id [] = refl
is_in-discard id (x ∷ xs) = ground (arith, is_in-discard id xs)

-- A session that was deleted is not found any more.
pub find_session-do_delete :
    (around : Outside) (request : Request) (server after : Server)
    → do_delete around request server ≡ (plain 200, after)
    → find_session request.wanted_session after ≡ none
unfolding do_delete find_session close_session guard session_of
find_session-do_delete around request server after h =
    ground (arith, is_in-discard request.wanted_session server.registered)
