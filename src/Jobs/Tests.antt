-- ===== src/Jobs/Tests.antt =====
-- A small event stream.
use remote_devbox_mcp.Base.{
  ℕ, ◌≡◌, ◌≤◌, refl, Text, List, [], ◌∷◌, Option, none, some, codes, text_eq, is_in, any, lookup,
  insert, map,
}
use remote_devbox_mcp.Jobs.{
  Kind, request, response, missing, str, Event, correlate, stall_alarm, observe, default_stall,
}
use remote_devbox_mcp.Jobs.Laws.{is_answer, is_request, count}
use remote_devbox_mcp.Jobs.Counts.{responses_of, requests_of, correlate-counts}

abbrev event : Kind → Option Text → Option ℕ → Option Text → Event
event kind job ts status = record {
  kind = kind;
  job_id = job;
  tool = str (codes "bash");
  session = missing;
  ts = ts;
  status = status;
  permission = none;
  exit = none;
}

-- A call with its response, a poll of the job, and a call that is not answered.
abbrev events : List Event
events =
    event request none (some 10) none
    ∷ event response (some (codes "j1")) (some 12) (some (codes "running"))
    ∷ event request (some (codes "j1")) (some 20) none
    ∷ event request none (some 30) none
    ∷ []

run-stall_alarm : map (λ a. a.age_seconds) (stall_alarm events 400 default_stall) ≡ 390 ∷ 370 ∷ []
unfolding stall_alarm observe lookup insert text_eq is_in any
run-stall_alarm = refl

correlate-counts_example :
    (responses_of (correlate events) ≡ count is_answer events)
    × (requests_of (correlate events) ≤ count is_request events)
correlate-counts_example = correlate-counts events
