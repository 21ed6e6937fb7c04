-- ===== src/Cockpit/Server.antt =====
-- The state of `CockpitServer`, home/rdm/ui/server.py, with `ActionQueue` of control.py.
use remote_devbox_mcp.Base.{
  ℕ, ◌+◌, ◌-◌, Bool, true, false, List, [], ◌∷◌, ◌++◌, Option, none, some, is_some, if◌then◌else◌,
  leb, ltb, Text, codes, text_eq, is_empty, Dict, lookup,
}
use remote_devbox_mcp.Cockpit.Auth.{Bootstrap, Headers}

-- The actions of `_ACTION_PLANS` with their arguments.
pub data Plan : Type 0 where
  apply_use : Text → Plan
  allow_port : ℕ → Bool → Plan
  start : Option Text → Bool → Plan
  issue_tokens run_doctor down stop_host ingress_start ingress_stop : Plan

-- A field of a decoded body; a number below zero counts as another value.
pub data Field : Type 0 where
  null other : Field
  string : Text → Field
  integer : ℕ → Field
  boolean : Bool → Field

-- The body: without a length, not decodable (or its length no number), null, no object, or an object.
pub data Body : Type 0 where
  no_body undecodable_body null_body not_object : Body
  fields : Dict Field → Body

pub data Verb : Type 0 where
  get put post : Verb

-- The parts of a request; the path and the first value of each query parameter are decoded.
pub record Request : Type 0 where
  pub verb : Verb
  pub path : Text
  pub query : Dict Text
  pub headers : Headers
  pub body : Body

-- What a request changes on the host.
pub data Effect : Type 0 where
  act : Plan → Effect
  write_profile : Text → Effect

pub data Answer : Type 0 where
  session status logs manifest exposure diff jobs permissions : Answer
  header_token : Text → Answer
  handoff : Bool → Answer
  profile : Text → Answer
  action : Text → Answer

pub data Reply : Type 0 where
  error : ℕ → Reply
  answer : ℕ → Answer → Reply
  redirect : Text → Reply
  index : Reply
  file : Text → Reply
  events : Reply

-- What the host answers, and the fresh tokens of the request.
pub record Outside : Type 0 where
  pub now : ℕ
  pub fresh : Text
  pub has_manifest : Bool
  pub has_active : Bool
  pub has_index : Bool
  pub has_file : Text → Bool
  pub is_profile_name : Text → Bool
  pub has_profile : Text → Bool
  pub is_readable : Text → Bool
  pub accepts_profile : Text → Body → Bool

-- The state: sessions, bootstrap file, the running action, the streams, the cached status with
-- its time, and what was done to the host.
pub record Server : Type 0 where
  pub port : ℕ
  pub sessions : List Text
  pub bootstrap : Bootstrap
  pub running : Option Text
  pub streams : ℕ
  pub cached_at : Option ℕ
  pub was_busy : Bool
  pub effects : List Effect

abbrev pub sse_max : ℕ
sse_max = 8

abbrev pub log_sources : List Text
log_sources =
    codes "host" ∷ codes "ingress" ∷ codes "watchdog" ∷ codes "runner" ∷ codes "gateway" ∷ []

-- `body.get(key, False)` as a Boolean
unfoldable pub flag_of : Option Field → Option Bool
flag_of none = some false
flag_of (some (boolean b)) = some b
flag_of (some _) = none

-- `_plan_use`, `_plan_allow` and `_plan_start`; `none` is a ValueError
unfoldable pub plan_use : Dict Field → Option Plan
plan_use body = elim (lookup (codes "name") body) [
  | some (string name) ↦ if is_empty name then none else some (apply_use name)
  | _ ↦ none
]

unfoldable pub plan_allow : Dict Field → Option Plan
plan_allow body = elim (lookup (codes "port") body) [
  | some (integer port) ↦ elim (flag_of (lookup (codes "ui") body)) [
    | none ↦ none
    | some ui ↦ some (allow_port port ui)
  ]
  | _ ↦ none
]

abbrev name_of : Option Field → Option (Option Text)
name_of none = some none
name_of (some null) = some none
name_of (some (string name)) = some (some name)
name_of (some _) = none

unfoldable pub plan_start : Dict Field → Option Plan
plan_start body = elim (name_of (lookup (codes "name") body)) [
  | none ↦ none
  | some name ↦ elim (flag_of (lookup (codes "preview") body)) [
    | none ↦ none
    | some preview ↦ some (start name preview)
  ]
]

abbrev pub fixed_plans : Dict Plan
fixed_plans =
    (codes "issue-tokens", issue_tokens)
    ∷ (codes "doctor", run_doctor)
    ∷ (codes "down", down)
    ∷ (codes "stop-host", stop_host)
    ∷ (codes "ingress-start", ingress_start)
    ∷ (codes "ingress-stop", ingress_stop)
    ∷ []

-- `_ACTION_PLANS.get(name)`
unfoldable pub find_plan : Text → Option (Dict Field → Option Plan)
find_plan name =
    if text_eq name (codes "use")
    then some plan_use
    else if text_eq name (codes "allow")
    then some plan_allow
    else if text_eq name (codes "start")
    then some plan_start
    else elim (lookup name fixed_plans) [ none ↦ none | some plan ↦ some (λ _. some plan) ]

-- `ActionQueue.submit`: `none` when an action runs
abbrev pub submit_when : Option Text → Outside → Plan → Server → Option (Text × Server)
submit_when (some _) o plan s = none
submit_when none o plan s =
    some (o.fresh, record s { running = some o.fresh; effects = s.effects ++ act plan ∷ [] })

unfoldable pub submit : Outside → Plan → Server → Option (Text × Server)
submit o plan s = submit_when s.running o plan s

-- the `finally` of `ActionQueue._run`
abbrev pub finish : Server → Server
finish s = record s { running = none }

-- `sse_acquire` and `sse_release`
unfoldable pub sse_acquire : Server → Option Server
sse_acquire s = if leb sse_max s.streams then none else some (record s { streams = s.streams + 1 })

abbrev pub sse_release : Server → Server
sse_release s = record s { streams = s.streams - 1 }

-- `CockpitServer.status` on the cache
unfoldable pub fresh_status : Outside → Server → Server
fresh_status o s = elim s.cached_at [
  | some at ↦ if ltb o.now (at + 3) then s else record s { cached_at = some o.now }
  | none ↦ record s { cached_at = some o.now }
]

unfoldable pub status_of : Outside → Server → Server
status_of o s =
    if is_some s.running
    then fresh_status o (if s.was_busy then s else record s { was_busy = true; cached_at = none })
    else fresh_status o (if s.was_busy then record s { was_busy = false; cached_at = none } else s)
