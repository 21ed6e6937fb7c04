-- ===== src/Cockpit/Laws.antt =====
-- What a request to the cockpit can change: ui/server.py with ui/auth.py and ui/control.py.
use remote_devbox_mcp.Base.{
  branch, option_branch, ℕ, ◌≤◌, ◌≡◌, ◌⊎◌, inl, inr, refl, sym, subst, ap, true, not, [], ◌∷◌, ◌++◌,
  Option, none, some, is_some, Text, codes, strip_prefix?, Dict, Bool-cases, Option-cases,
}
use remote_devbox_mcp.Cockpit.Auth.{session_token, header_token_ok}
use remote_devbox_mcp.Cockpit.Server.{
  Plan, Field, Body, Verb, Request, act, Reply, Outside, Server, submit, submit_when, sse_max,
  find_plan, get, put, post, error, answer, action, write_profile, no_body, undecodable_body,
  null_body, not_object, fields,
}
use remote_devbox_mcp.Cockpit.Handlers.{
  Handled, is_decoded, answer_submit, behind_guard, handle_verb, submit_plan, act_on, api_action,
  has_target, api_profile_put, is_local, guard, behind, do_put, do_post, handle,
}
use remote_devbox_mcp.Cockpit.Reads.{IsQuiet, quiet, do_get-IsQuiet}

-- One action was started, when none ran; or one profile was written.
pub HasActed : Outside → Server → Server → Type 0
HasActed o s t =
    (s.streams ≤ sse_max → t.streams ≤ sse_max)
    × (((s.running ≡ none)
          × ((t.running ≡ some o.fresh)
              × ((plan : Plan) × (t.effects ≡ s.effects ++ act plan ∷ []))))
        ⊎ ((t.running ≡ s.running)
            × ((name : Text) × (t.effects ≡ s.effects ++ write_profile name ∷ []))))

Acted : Outside → Server → Handled → Type 0
Acted o s r = IsQuiet s r.1 ⊎ HasActed o s r.1

idle : (o : Outside) (s : Server) (r : Reply) → Acted o s (r, s)
unfolding Acted
idle o s r = inl (quiet s)

acts : (o : Outside) (s t : Server) (r : Reply) → HasActed o s t → Acted o s (r, t)
unfolding Acted
acts o s t r h = inr h

abbrev started : Outside → Plan → Server → Server
started o plan s = record s {
  running = some o.fresh;
  effects = s.effects ++ act plan ∷ [];
  cached_at = none;
}

submit_plan-free :
    (o : Outside) (plan : Plan) (s : Server)
    → s.running ≡ none
    → submit_plan o (some plan) s ≡ (answer 202 (action o.fresh), started o plan s)
unfolding submit_plan submit
submit_plan-free o plan s e = ap (λ r. answer_submit (submit_when r o plan s) s) e

submit_plan-busy :
    (o : Outside) (plan : Plan) (s : Server) {id : Text}
    → s.running ≡ some id
    → submit_plan o (some plan) s ≡ (error 409, s)
unfolding submit_plan submit
submit_plan-busy o plan s e = ap (λ r. answer_submit (submit_when r o plan s) s) e

submit_plan-Acted :
    (o : Outside) (plan : Option Plan) (s : Server) → Acted o s (submit_plan o plan s)
unfolding submit_plan HasActed
submit_plan-Acted o none s = idle o s _
submit_plan-Acted o (some plan) s = elim (Option-cases s.running) [
  | inl e ↦
      subst (Acted o s) (sym (submit_plan-free o plan s e))
        (acts o s _ _ ((λ h. h), inl (e, (refl, (plan, refl)))))
  | inr (id, e) ↦ subst (Acted o s) (sym (submit_plan-busy o plan s e)) (idle o s _)
]

act_on-Acted :
    (o : Outside) (plan : Dict Field → Option Plan) (body : Body) (s : Server)
    → Acted o s (act_on o plan body s)
unfolding act_on
act_on-Acted o plan no_body s = submit_plan-Acted o (plan []) s
act_on-Acted o plan null_body s = submit_plan-Acted o (plan []) s
act_on-Acted o plan (fields body) s = submit_plan-Acted o (plan body) s
act_on-Acted o plan undecodable_body s = idle o s _
act_on-Acted o plan not_object s = idle o s _

api_action-Acted :
    (o : Outside) (name : Text) (body : Body) (s : Server) → Acted o s (api_action o name body s)
unfolding api_action
api_action-Acted o name body s =
    option_branch (Acted o s) (find_plan name) _ _ (idle o s _) (λ plan. act_on-Acted o plan body s)

api_profile_put-Acted :
    (o : Outside) (name : Text) (body : Body) (s : Server)
    → Acted o s (api_profile_put o name body s)
unfolding api_profile_put HasActed
api_profile_put-Acted o name body s =
    branch (Acted o s) (not (has_target o name)) _ _ (idle o s _) (
      branch (Acted o s) (not (is_decoded body)) _ _ (idle o s _) (
        branch (Acted o s) (o.accepts_profile name body) _ _
          (acts o s _ _ (λ h. h, inr (refl, (name, refl)))) (idle o s _)))

behind-Acted :
    (o : Outside) (prefix : Text) (handler : Text → Handled) (q : Request) (s : Server)
    → ((name : Text) → Acted o s (handler name))
    → Acted o s (behind prefix handler q s)
behind-Acted o prefix handler q s h =
    option_branch (Acted o s) (strip_prefix? prefix q.path) _ _ (idle o s _) h

-- The three conditions of a request that may act.
pub IsAuthorized : Request → Server → Type 0
IsAuthorized q s =
    (is_local q s ≡ true)
    × ((is_some (session_token q.headers s.sessions) ≡ true)
        × (header_token_ok q.headers s.sessions ≡ true))

guard-none : (q : Request) (s : Server) → guard q s ≡ none → IsAuthorized q s
unfolding guard IsAuthorized
guard-none q s h = elim (Bool-cases (is_local q s)) [
  | inl e ↦ elim (Option-cases (session_token q.headers s.sessions)) [
    | inl f ↦ absurd (cc (rw (guard, e, f) at h))
    | inr (token, f) ↦ elim (Bool-cases (header_token_ok q.headers s.sessions)) [
      | inl g ↦ (e, (rw f refl, g))
      | inr g ↦ absurd (cc (rw (guard, e, f, g) at h))
    ]
  ]
  | inr e ↦ absurd (cc (rw (guard, e) at h))
]

-- The handlers behind the guards.
Permitted : Outside → Request → Server → Server → Type 0
Permitted o q s t = IsQuiet s t ⊎ (IsAuthorized q s × HasActed o s t)

permitted :
    (o : Outside) (q : Request) (s : Server) (r : Handled)
    → guard q s ≡ none
    → Acted o s r
    → Permitted o q s r.1
unfolding Acted Permitted
permitted o q s r g (inl h) = inl h
permitted o q s r g (inr h) = inr (guard-none q s g, h)

guarded :
    (o : Outside) (q : Request) (s : Server) (g : Option ℕ) (r : Handled)
    → guard q s ≡ g
    → Acted o s r
    → Permitted o q s (behind_guard g r s).1
unfolding Permitted
guarded o q s none r e h = permitted o q s r e h
guarded o q s (some code) r e h = inl (quiet s)

permits :
    (v : Verb) (o : Outside) (q : Request) (s : Server) → Permitted o q s (handle_verb v o q s).1
unfolding do_put do_post Permitted
permits get o q s = inl (do_get-IsQuiet o q s)
permits put o q s =
    guarded o q s (guard q s) _ refl
      (behind-Acted o (codes "/api/profile/") _ q s (λ name. api_profile_put-Acted o name q.body s))
permits post o q s =
    guarded o q s (guard q s) _ refl
      (behind-Acted o (codes "/api/action/") _ q s (λ name. api_action-Acted o name q.body s))

-- A request to the cockpit changes neither the host nor the running action, or it is authorized:
-- its Host and Origin are the loopback ones, it carries the cookie of a session, and its header
-- token is a session. Then it starts one action, and only when none ran, or writes one profile.
-- No request takes the streams above their limit.
pub handle-IsAuthorized :
    (o : Outside) (q : Request) (s : Server)
    → IsQuiet s (handle o q s).1 ⊎ (IsAuthorized q s × HasActed o s (handle o q s).1)
unfolding handle Permitted
handle-IsAuthorized o q s = permits q.verb o q s
