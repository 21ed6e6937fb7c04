-- ===== src/Cockpit/Tests.antt =====
-- Requests to the cockpit, and an event log with an open action.
use remote_devbox_mcp.Base.{
  is_in, text_eq, lookup, insert, lower, digits, split, starts_with, partition, strip, digits_from,
  any, find_sep, has_byte, split_from, strip_left, strip_prefix?, ◌≡◌, ◌⊎◌, refl, true, false, [],
  ◌∷◌, none, some, codes, Text, List, length, arith,
}
use remote_devbox_mcp.Cockpit.Auth.{
  host_origin_ok, header_map_from, session_token, session_in, header_value, header_token_ok,
  write_bootstrap,
}
use remote_devbox_mcp.Cockpit.Server.{
  find_plan, submit, Outside, Server, Request, post, no_body, answer, action, act, run_doctor,
}
use remote_devbox_mcp.Cockpit.Handlers.{handle, do_post, guard, api_action, act_on, submit_plan}
use remote_devbox_mcp.Cockpit.Reads.{IsQuiet}
use remote_devbox_mcp.Cockpit.Laws.{IsAuthorized, HasActed, handle-IsAuthorized}
use remote_devbox_mcp.Cockpit.Events.{
  Event, Line, events_of, read_events, closed_ids, emitted, written, reconcile_open_actions,
  reconcile_open_actions_idem,
}

abbrev host : Outside
host = record {
  now = 100;
  fresh = codes "a1";
  has_manifest = true;
  has_active = true;
  has_index = true;
  has_file = λ _. true;
  is_profile_name = λ _. true;
  has_profile = λ _. true;
  is_readable = λ _. true;
  accepts_profile = λ _ _. true;
}

abbrev cockpit : Server
cockpit = record {
  port = 8793;
  sessions = codes "s1" ∷ [];
  bootstrap = write_bootstrap (codes "b1") 90;
  running = none;
  streams = 0;
  cached_at = none;
  was_busy = false;
  effects = [];
}

abbrev doctor : Request
doctor = record {
  verb = post;
  path = codes "/api/action/doctor";
  query = [];
  headers =
      (codes "host", codes "localhost:8793")
      ∷ (codes "Cookie", codes "x=1; rdm_ui=s1")
      ∷ (codes "x-rdm-token", codes "s1")
      ∷ [];
  body = no_body;
}

doctor_run :
    ((handle host doctor cockpit).0 ≡ answer 202 (action (codes "a1")))
    × ((handle host doctor cockpit).1.effects ≡ act run_doctor ∷ [])
unfolding handle is_in text_eq lookup insert lower digits split starts_with partition strip
    digits_from any find_sep has_byte split_from strip_left strip_prefix? host_origin_ok
    header_map_from session_token session_in header_value header_token_ok find_plan submit do_post
    guard api_action act_on submit_plan
doctor_run = (refl, refl)

handle-IsAuthorized_example :
    IsQuiet cockpit (handle host doctor cockpit).1
    ⊎ (IsAuthorized doctor cockpit × HasActed host cockpit (handle host doctor cockpit).1)
handle-IsAuthorized_example = handle-IsAuthorized host doctor cockpit

abbrev event : Text → Text → Event
event status id = record {
  kind = codes "action";
  status = status;
  job_id = some id;
  tool = some (codes "start");
}

-- An action that was started, behind a line that is no JSON.
abbrev started : List Line
started = none ∷ some (event (codes "started") (codes "1")) ∷ []

abbrev emit_line : Event → List Line
emit_line e = some e ∷ []

started_run : length (reconcile_open_actions emit_line started) ≡ 3
unfolding reconcile_open_actions read_events events_of emitted closed_ids written any text_eq
started_run = refl

reconcile_open_actions_idem_example :
    reconcile_open_actions emit_line (reconcile_open_actions emit_line started)
    ≡ reconcile_open_actions emit_line started
unfolding emitted read_events events_of closed_ids any text_eq
reconcile_open_actions_idem_example =
    reconcile_open_actions_idem emit_line started (refl, tt) (omega (arith, started_run))
