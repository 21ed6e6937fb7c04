-- ===== src/Jobs.antt =====
-- The correlation of tool calls with their responses and the stall alarm, home/rdm/events/jobs.py.
-- An event is what these functions read of it; a time is a number, where it is there.
pub mod Laws
pub mod Counts
mod Tests
use remote_devbox_mcp.Base.{
  ℕ, ◌+◌, ◌-◌, Bool, true, false, not, ◌&&◌, ◌||◌, List, [], ◌∷◌, ◌++◌, Option, none, some,
  if◌then◌else◌, ltb, Text, codes, text_eq, is_in, is_some, any, Dict, lookup, insert,
}

abbrev pub mutating_tools : List Text
mutating_tools = codes "write" ∷ codes "edit" ∷ codes "apply_patch" ∷ codes "bash" ∷ []

abbrev pub terminal_statuses : List Text
terminal_statuses = codes "completed" ∷ codes "failed" ∷ codes "cancelled" ∷ []

abbrev pub match_window : ℕ
match_window = 120

abbrev pub default_stall : ℕ
default_stall = 300

-- A request is an `mcp_request` whose method is "tools/call".
pub data Kind : Type 0 where
  request response unrelated : Kind

-- A key that is missing, or one that holds null or a string.
pub data Field : Type 0 where
  missing null : Field
  str : Text → Field

pub record Event : Type 0 where
  pub kind : Kind
  pub job_id : Option Text
  pub tool : Field
  pub session : Field
  pub ts : Option ℕ
  pub status : Option Text
  pub permission : Option Text
  pub exit : Option Text

pub record Job : Type 0 where
  pub tool : Option Text
  pub session : Option Text
  pub request_ts : Option ℕ
  pub last_ts : Option ℕ
  pub status : Option Text
  pub permission : Option Text
  pub exit : Option Text
  pub requests : ℕ
  pub responses : ℕ
  pub terminal : Bool

-- `event.get(key)`
abbrev pub value : Field → Option Text
value missing = none
value null = none
value (str t) = some t

abbrev pub same : Option Text → Option Text → Bool
same none none = true
same (some s) (some t) = text_eq s t
same _ _ = false

-- `key in response and request.get(key) != response[key]`, negated
unfoldable pub agrees : Field → Field → Bool
agrees missing asked = true
agrees null asked = same (value asked) none
agrees (str t) asked = same (value asked) (some t)

unfoldable pub in_window : Option ℕ → Option ℕ → Bool
in_window (some answered) (some asked) = not (ltb match_window (answered - asked))
in_window _ _ = true

-- whether the backward loop of `_match_pending` stops at this request
unfoldable pub fits : Event → Event → Bool
unfolding agrees in_window
fits answer asked =
    agrees answer.session asked.session
    && agrees answer.tool asked.tool
    && in_window answer.ts asked.ts

abbrev pub is_present : Field → Bool
is_present missing = false
is_present _ = true

-- `any(key in response for key in _IDENTITY_KEYS)`
abbrev pub has_identity : Event → Bool
has_identity answer = is_present answer.session || is_present answer.tool || is_some answer.ts

-- The first or the last element that passes, and the others.
unfoldable pub take_first : (Event → Bool) → List Event → Option (Event × List Event)
take_first passes [] = none
take_first passes (e ∷ es) =
    let rest = take_first passes es in
    if passes e
    then some (e, es)
    else elim rest [ none ↦ none | some (found, others) ↦ some (found, e ∷ others) ]

unfoldable pub take_last : (Event → Bool) → List Event → Option (Event × List Event)
take_last passes [] = none
take_last passes (e ∷ es) = elim (take_last passes es) [
  | some (found, others) ↦ some (found, e ∷ others)
  | none ↦ if passes e then some (e, es) else none
]

-- `pending.pop(0) if pending else None`
abbrev pub pop_front : List Event → Option (Event × List Event)
pop_front [] = none
pop_front (e ∷ es) = some (e, es)

-- `_match_pending`: the request and what is left; `none` where no request matches.
unfoldable pub match_pending : List Event → Event → Option (Event × List Event)
unfolding take_first take_last fits
match_pending pending answer =
    let by_identity =
      if has_identity answer then take_last (fits answer) pending else pop_front pending in
    elim answer.job_id [
      | none ↦ by_identity
      | some id ↦ elim (take_first (λ asked. same asked.job_id (some id)) pending) [
        | some found ↦ some found
        | none ↦ by_identity
      ]
    ]

-- `_count_request`
unfoldable pub count_request : Event → Job → Job
count_request asked job = elim job.tool [
  | some _ ↦ record job { requests = job.requests + 1 }
  | none ↦ record job {
    requests = job.requests + 1;
    tool = value asked.tool;
    session = value asked.session;
    request_ts = asked.ts;
  }
]

-- `event[key] if event.get(key) is not None else job[key]`
abbrev pub newer {ℓ} : {A : Type ℓ} → Option A → Option A → Option A
newer none old = old
newer (some a) old = some a

abbrev pub is_terminal : Option Text → Bool
is_terminal none = false
is_terminal (some status) = is_in status terminal_statuses

abbrev pub count_matched : Option Event → Job → Job
count_matched none job = job
count_matched (some asked) job = count_request asked job

-- `_apply_response`
unfoldable pub apply_response : Event → Option Event → Job → Job
unfolding count_request
apply_response answer asked job =
    let counted = count_matched asked job in
    let status = newer answer.status counted.status in
    record counted {
      responses = job.responses + 1;
      status = status;
      permission = newer answer.permission counted.permission;
      exit = newer answer.exit counted.exit;
      last_ts = newer answer.ts counted.last_ts;
      terminal = is_terminal status;
    }

abbrev pub new_job : Job
new_job = record {
  tool = none;
  session = none;
  request_ts = none;
  last_ts = none;
  status = none;
  permission = none;
  exit = none;
  requests = 0;
  responses = 0;
  terminal = false;
}

-- The jobs in the order of their first response, and the open calls.
abbrev pub State : Type 0
State = Dict Job × List Event

abbrev pub job_or_new : Option Job → Job
job_or_new none = new_job
job_or_new (some job) = job

-- A response, with the request that it answers.
unfoldable pub settle : Dict Job → Event → Option Event → Dict Job
unfolding apply_response
settle jobs answer asked = elim answer.job_id [
  | none ↦ jobs
  | some id ↦ insert id (apply_response answer asked (job_or_new (lookup id jobs))) jobs
]

-- A request: counted by its job, or open.
unfoldable pub ask : Event → Option Text → State → State
unfolding count_request
ask event none (jobs, pending) = (jobs, pending ++ event ∷ [])
ask event (some id) (jobs, pending) = elim (lookup id jobs) [
  | none ↦ (jobs, pending ++ event ∷ [])
  | some job ↦ (insert id (count_request event job) jobs, pending)
]

-- one turn of the loop of `correlate`
unfoldable pub observe : Event → State → State
unfolding ask settle match_pending
observe event (jobs, pending) = elim event.kind [
  | unrelated ↦ (jobs, pending)
  | request ↦ ask event event.job_id (jobs, pending)
  | response ↦ elim (match_pending pending event) [
    | none ↦ (settle jobs event none, pending)
    | some (asked, others) ↦ (settle jobs event (some asked), others)
  ]
]

unfoldable pub correlate_from : State → List Event → State
unfolding observe
correlate_from state [] = state
correlate_from state (event ∷ events) = correlate_from (observe event state) events

unfoldable pub correlate : List Event → State
unfolding correlate_from
correlate events = correlate_from ([], []) events

pub record Alarm : Type 0 where
  pub job_id : Option Text
  pub tool : Option Text
  pub session : Option Text
  pub ts : ℕ
  pub age_seconds : ℕ
  pub status : Option Text

abbrev is_mutating : Option Text → Bool
is_mutating none = false
is_mutating (some tool) = is_in tool mutating_tools

-- An alarm for a tool and a time, where the tool changes something and the time is long ago.
unfoldable pub alarm :
    Option Text → Option Text → Option Text → Option ℕ → Option Text → ℕ → ℕ → List Alarm
unfolding is_in any
alarm job_id tool session none status now threshold = []
alarm job_id tool session (some ts) status now threshold =
    if is_mutating tool && ltb threshold (now - ts)
    then record {
      job_id = job_id;
      tool = tool;
      session = session;
      ts = ts;
      age_seconds = now - ts;
      status = status;
    }
      ∷ []
    else []

unfoldable pub job_alarms : Dict Job → ℕ → ℕ → List Alarm
unfolding alarm
job_alarms [] now threshold = []
job_alarms ((id, job) ∷ jobs) now threshold =
    (if job.terminal
      then []
      else alarm (some id) job.tool job.session job.request_ts job.status now threshold)
    ++ job_alarms jobs now threshold

unfoldable pub call_alarms : List Event → ℕ → ℕ → List Alarm
unfolding alarm
call_alarms [] now threshold = []
call_alarms (call ∷ calls) now threshold =
    alarm none (value call.tool) (value call.session) call.ts none now threshold
    ++ call_alarms calls now threshold

unfoldable pub stall_alarm : List Event → ℕ → ℕ → List Alarm
unfolding correlate job_alarms call_alarms
stall_alarm events now threshold =
    let (jobs, open_calls) = correlate events in
    job_alarms jobs now threshold ++ call_alarms open_calls now threshold
