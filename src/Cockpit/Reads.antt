-- ===== src/Cockpit/Reads.antt =====
-- What a GET to the cockpit leaves as it was: ui/server.py.
use remote_devbox_mcp.Base.{
  branch, option_branch, ℕ, ◌+◌, ◌≤◌, ◌≡◌, inl, inr, refl, Bool, not, ◌&&◌, ◌||◌, [], is_some,
  arith, ltb, leb, Text, codes, text_eq, is_in, is_empty, starts_with, strip_prefix?, lookup,
  Bool-cases, not-leb→lt,
}
use remote_devbox_mcp.Cockpit.Auth.{consume_bootstrap, session_token, header_token_ok, value_or}
use remote_devbox_mcp.Cockpit.Server.{
  Request, Reply, Outside, Server, log_sources, sse_max, fresh_status, status_of, sse_acquire,
}
use remote_devbox_mcp.Cockpit.Handlers.{
  Handled, has_target, api_profile_get, api_logs, api_events, api_handoff, serve_api, serve_known,
  serve_root, is_local, do_get,
}

-- Neither the host nor the running action changed, and no more streams than allowed were opened.
pub IsQuiet : Server → Server → Type 0
IsQuiet s t =
    (t.effects ≡ s.effects)
    × ((t.running ≡ s.running) × (s.streams ≤ sse_max → t.streams ≤ sse_max))

pub quiet : (s : Server) → IsQuiet s s
unfolding IsQuiet
quiet s = (refl, (refl, λ h. h))

pub Quiet : Server → Handled → Type 0
Quiet s r = IsQuiet s r.1

quietly : (s t : Server) (r : Reply) → IsQuiet s t → Quiet s (r, t)
unfolding Quiet
quietly s t r h = h

hush : (s : Server) (r : Reply) → Quiet s (r, s)
hush s r = quietly s s r (quiet s)

fresh_status-IsQuiet : (o : Outside) (s t : Server) → IsQuiet s t → IsQuiet s (fresh_status o t)
unfolding fresh_status IsQuiet
fresh_status-IsQuiet o s t h =
    option_branch (IsQuiet s) t.cached_at _ _ h
      (λ at. branch (IsQuiet s) (ltb o.now (at + 3)) _ _ h h)

status_of-IsQuiet : (o : Outside) (s : Server) → IsQuiet s (status_of o s)
unfolding status_of IsQuiet
status_of-IsQuiet o s =
    branch (IsQuiet s) (is_some s.running) _ _
      (fresh_status-IsQuiet o s _ (branch (IsQuiet s) s.was_busy _ _ (quiet s) (quiet s)))
      (fresh_status-IsQuiet o s _ (branch (IsQuiet s) s.was_busy _ _ (quiet s) (quiet s)))

api_events-Quiet : (s : Server) → Quiet s (api_events s)
unfolding api_events sse_acquire IsQuiet Quiet
api_events-Quiet s = elim (Bool-cases (leb sse_max s.streams)) [
  | inl e ↦ rw (api_events, sse_acquire, e) (quiet s)
  | inr e ↦
      rw (api_events, sse_acquire, e)
        (refl, (refl, λ h. omega (arith, not-leb→lt sse_max s.streams e)))
]

api_handoff-Quiet : (q : Request) (s : Server) → Quiet s (api_handoff q s)
unfolding api_handoff
api_handoff-Quiet q s =
    branch (Quiet s)
      (text_eq (value_or (lookup (codes "reveal") q.query) []) (codes "1")
        && not (header_token_ok q.headers s.sessions))
      _ _ (hush s _) (hush s _)

api_profile_get-Quiet :
    (o : Outside) (name : Text) (s : Server) → Quiet s (api_profile_get o name s)
unfolding api_profile_get
api_profile_get-Quiet o name s =
    branch (Quiet s) (not (has_target o name)) _ _ (hush s _)
      (branch (Quiet s) (o.is_readable name) _ _ (hush s _) (hush s _))

api_logs-Quiet : (source : Text) (s : Server) → Quiet s (api_logs source s)
unfolding api_logs
api_logs-Quiet source s =
    branch (Quiet s) (not (is_empty source) && not (is_in source log_sources)) _ _ (hush s _)
      (hush s _)

serve_api-Quiet :
    (o : Outside) (q : Request) (token : Text) (s : Server) → Quiet s (serve_api o q token s)
unfolding serve_api
serve_api-Quiet o q token s =
    let P : Handled → Type 0 = Quiet s in
    let at : Text → Bool = text_eq q.path in
    branch P (at (codes "/api/session")) _ _ (hush s _) (
      branch P (at (codes "/api/status")) _ _ (quietly s _ _ (status_of-IsQuiet o s)) (
        branch P (at (codes "/api/logs")) _ _ (api_logs-Quiet _ s) (
          branch P (at (codes "/api/handoff")) _ _ (api_handoff-Quiet q s) (
            branch P (at (codes "/api/manifest")) _ _
              (branch P o.has_manifest _ _ (hush s _) (hush s _))
              (branch P (at (codes "/api/exposure")) _ _
                (branch P o.has_active _ _ (hush s _) (hush s _))
                (branch P (at (codes "/api/diff")) _ _ (hush s _) (
                  branch P (at (codes "/api/events")) _ _ (api_events-Quiet s) (
                    branch P (at (codes "/api/jobs")) _ _ (hush s _) (
                      branch P (at (codes "/api/permissions")) _ _ (hush s _) (
                        option_branch P (strip_prefix? (codes "/api/profile/") q.path) _ _
                          (hush s _) (λ name. api_profile_get-Quiet o name s)))))))))))

serve_known-Quiet :
    (o : Outside) (code : ℕ) (q : Request) (s t : Server)
    → IsQuiet s t
    → Quiet s (serve_known o code q t)
unfolding serve_known
serve_known-Quiet o code q s t h =
    option_branch (Quiet s) (session_token q.headers t.sessions) _ _ (quietly s t _ h)
      (λ _. branch (Quiet s) o.has_index _ _ (quietly s t _ h) (quietly s t _ h))

serve_root-Quiet : (o : Outside) (q : Request) (s : Server) → Quiet s (serve_root o q s)
unfolding serve_root IsQuiet
serve_root-Quiet o q s =
    branch (Quiet s) (is_empty (value_or (lookup (codes "t") q.query) [])) _ _
      (serve_known-Quiet o 401 q s s (quiet s))
      (branch (Quiet s)
        (consume_bootstrap (value_or (lookup (codes "t") q.query) []) o.now s.bootstrap).0 _ _
        (quietly s _ _ (refl, (refl, λ h. h)))
        (serve_known-Quiet o 403 q s _ (refl, (refl, λ h. h))))

pub do_get-Quiet : (o : Outside) (q : Request) (s : Server) → Quiet s (do_get o q s)
unfolding do_get
do_get-Quiet o q s = branch (Quiet s) (not (is_local q s)) _ _ (hush s _) (
    branch (Quiet s) (is_empty q.path || text_eq q.path (codes "/")) _ _ (serve_root-Quiet o q s) (
      option_branch (Quiet s) (session_token q.headers s.sessions) _ _ (hush s _) (λ token.
        branch (Quiet s) (starts_with (codes "/api/") q.path) _ _ (serve_api-Quiet o q token s)
          (branch (Quiet s) (o.has_file q.path) _ _ (hush s _) (hush s _)))))

pub do_get-IsQuiet : (o : Outside) (q : Request) (s : Server) → IsQuiet s (do_get o q s).1
unfolding Quiet
do_get-IsQuiet o q s = do_get-Quiet o q s
