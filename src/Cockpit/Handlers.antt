-- ===== src/Cockpit/Handlers.antt =====
-- `_Handler` of home/rdm/ui/server.py: requests to replies and the next state.
use remote_devbox_mcp.Base.{
  ℕ, Bool, true, false, not, ◌&&◌, ◌||◌, [], ◌∷◌, ◌++◌, Option, none, some, if◌then◌else◌, Text,
  codes, text_eq, is_in, is_empty, starts_with, strip_prefix?, Dict, lookup,
}
use remote_devbox_mcp.Cockpit.Auth.{
  consume_bootstrap, header_map_from, host_origin_ok, session_token, header_token_ok, value_or,
}
use remote_devbox_mcp.Cockpit.Server.{
  Plan, Field, Body, Verb, Request, Answer, Reply, Outside, Server, log_sources, find_plan, submit,
  sse_acquire, status_of, get, put, post, error, answer, redirect, index, file, events, status,
  logs, manifest, exposure, diff, jobs, permissions, header_token, handoff, profile, action,
  write_profile, no_body, undecodable_body, null_body, not_object, fields,
}

abbrev pub Handled : Type 0
Handled = Reply × Server

-- the end of `_api_action`
abbrev pub answer_submit : Option (Text × Server) → Server → Handled
answer_submit none s = (error 409, s)
answer_submit (some (id, next)) s = (answer 202 (action id), record next { cached_at = none })

-- `_api_action` from the plan and the decoded body
unfoldable pub submit_plan : Outside → Option Plan → Server → Handled
submit_plan o none s = (error 400, s)
submit_plan o (some plan) s = answer_submit (submit o plan s) s

unfoldable pub act_on : Outside → (Dict Field → Option Plan) → Body → Server → Handled
act_on o plan no_body s = submit_plan o (plan []) s
act_on o plan null_body s = submit_plan o (plan []) s
act_on o plan (fields body) s = submit_plan o (plan body) s
act_on o plan undecodable_body s = (error 400, s)
act_on o plan not_object s = (error 400, s)

unfoldable pub api_action : Outside → Text → Body → Server → Handled
api_action o name body s = elim (find_plan name) [
  | none ↦ (error 404, s)
  | some plan ↦ act_on o plan body s
]

-- `_profile_target`
unfoldable pub has_target : Outside → Text → Bool
has_target o name = o.is_profile_name name && o.has_profile name

unfoldable pub api_profile_get : Outside → Text → Server → Handled
api_profile_get o name s =
    if not (has_target o name)
    then (error 404, s)
    else (if o.is_readable name then (answer 200 (profile name), s) else (error 500, s))

abbrev pub is_decoded : Body → Bool
is_decoded undecodable_body = false
is_decoded _ = true

unfoldable pub api_profile_put : Outside → Text → Body → Server → Handled
api_profile_put o name body s =
    if not (has_target o name)
    then (error 404, s)
    else if not (is_decoded body)
    then (error 400, s)
    else if o.accepts_profile name body
    then (answer 200 (profile name), record s { effects = s.effects ++ write_profile name ∷ [] })
    else (error 400, s)

unfoldable pub api_logs : Text → Server → Handled
api_logs source s =
    if not (is_empty source) && not (is_in source log_sources)
    then (error 404, s)
    else (answer 200 logs, s)

unfoldable pub api_events : Server → Handled
api_events s = elim (sse_acquire s) [ none ↦ (error 503, s) | some next ↦ (events, next) ]

unfoldable pub api_handoff : Request → Server → Handled
api_handoff q s =
    let reveal = text_eq (value_or (lookup (codes "reveal") q.query) []) (codes "1") in
    if reveal && not (header_token_ok q.headers s.sessions)
    then (error 403, s)
    else (answer 200 (handoff reveal), s)

abbrev pub found : Bool → Answer → Server → Handled
found b a s = if b then (answer 200 a, s) else (error 404, s)

abbrev pub serve_index : Outside → Server → Handled
serve_index o s = if o.has_index then (index, s) else (error 404, s)

-- `_serve_api`
unfoldable pub serve_api : Outside → Request → Text → Server → Handled
serve_api o q token s =
    if text_eq q.path (codes "/api/session")
    then (answer 200 (header_token token), s)
    else if text_eq q.path (codes "/api/status")
    then (answer 200 status, status_of o s)
    else if text_eq q.path (codes "/api/logs")
    then api_logs (value_or (lookup (codes "source") q.query) []) s
    else if text_eq q.path (codes "/api/handoff")
    then api_handoff q s
    else if text_eq q.path (codes "/api/manifest")
    then found o.has_manifest manifest s
    else if text_eq q.path (codes "/api/exposure")
    then found o.has_active exposure s
    else if text_eq q.path (codes "/api/diff")
    then (answer 200 diff, s)
    else if text_eq q.path (codes "/api/events")
    then api_events s
    else if text_eq q.path (codes "/api/jobs")
    then (answer 200 jobs, s)
    else if text_eq q.path (codes "/api/permissions")
    then (answer 200 permissions, s)
    else elim (strip_prefix? (codes "/api/profile/") q.path) [
      | none ↦ (error 404, s)
      | some name ↦ api_profile_get o name s
    ]

-- `_serve_root` without a bootstrap token, or after one that is refused with this code
unfoldable pub serve_known : Outside → ℕ → Request → Server → Handled
serve_known o code q s = elim (session_token q.headers s.sessions) [
  | none ↦ (error code, s)
  | some _ ↦ serve_index o s
]

unfoldable pub serve_root : Outside → Request → Server → Handled
serve_root o q s =
    let token = value_or (lookup (codes "t") q.query) [] in
    if is_empty token
    then serve_known o 401 q s
    else let (accepted, kept) = consume_bootstrap token o.now s.bootstrap in
      if accepted
      then (redirect o.fresh, record s { bootstrap = kept; sessions = s.sessions ++ o.fresh ∷ [] })
      else serve_known o 403 q (record s { bootstrap = kept })

abbrev pub is_local : Request → Server → Bool
is_local q s = host_origin_ok (header_map_from [] q.headers) s.port

unfoldable pub do_get : Outside → Request → Server → Handled
do_get o q s =
    if not (is_local q s)
    then (error 403, s)
    else if is_empty q.path || text_eq q.path (codes "/")
    then serve_root o q s
    else elim (session_token q.headers s.sessions) [
      | none ↦ (error 401, s)
      | some token ↦
          if starts_with (codes "/api/") q.path
          then serve_api o q token s
          else (if o.has_file q.path then (file q.path, s) else (error 404, s))
    ]

-- the three guards of `do_PUT` and `do_POST`: the code of the refusal
unfoldable pub guard : Request → Server → Option ℕ
guard q s = if not (is_local q s) then some 403 else elim (session_token q.headers s.sessions) [
  | none ↦ some 401
  | some _ ↦ if header_token_ok q.headers s.sessions then none else some 403
]

abbrev pub behind : Text → (Text → Handled) → Request → Server → Handled
behind prefix handler q s = elim (strip_prefix? prefix q.path) [
  | none ↦ (error 404, s)
  | some name ↦ handler name
]

abbrev pub behind_guard : Option ℕ → Handled → Server → Handled
behind_guard (some code) r s = (error code, s)
behind_guard none r s = r

unfoldable pub do_put : Outside → Request → Server → Handled
do_put o q s =
    behind_guard (guard q s)
      (behind (codes "/api/profile/") (λ name. api_profile_put o name q.body s) q s) s

unfoldable pub do_post : Outside → Request → Server → Handled
do_post o q s =
    behind_guard (guard q s)
      (behind (codes "/api/action/") (λ name. api_action o name q.body s) q s) s

abbrev pub handle_verb : Verb → Outside → Request → Server → Handled
handle_verb get o q s = do_get o q s
handle_verb put o q s = do_put o q s
handle_verb post o q s = do_post o q s

unfoldable pub handle : Outside → Request → Server → Handled
handle o q s = handle_verb q.verb o q s
