-- ===== src/Gateway/Tests.antt =====
-- Runs of the gateway's functions, and their laws at small data.
use remote_devbox_mcp.Base.{
  ℕ, ◌≡◌, ◌≤◌, ◌⊎◌, refl, Bool, true, false, not, ◌&&◌, List, [], ◌∷◌, none, some, Text, codes,
  text_eq, is_in, any, all, All, starts_with, select, split, strip_prefix?, partition, find_sep,
  arith, Dict, lookup, HasUniqueKeys, length, ◌↔◌,
}
use remote_devbox_mcp.Gateway.Policy.Paths.{resolves_inside, path_parts, resolve_parts, inside_base}
use remote_devbox_mcp.Gateway.Policy.PathLaws.{IsInside, resolves_inside-IsInside}
use remote_devbox_mcp.Gateway.Policy.Names.{
  valid_server_name, exposed_tool_name, parse_exposed_tool_name, is_resolvable, register_tools,
}
use remote_devbox_mcp.Gateway.Policy.NameLaws.{
  parse_exposed_tool_name-exposed_tool_name, values, register_tools-Registers,
}
use remote_devbox_mcp.Gateway.Policy.Calls.{
  default_deny_servers, meta_tool_deny, str, Arguments, constraints_of, bounds_fit, check_call,
}
use remote_devbox_mcp.Gateway.Policy.CallLaws.{arg_fits, check_call-allowed, check_call-IsInside}
use remote_devbox_mcp.Gateway.Manager.{reserve, World, Reach, here, next, reserves}
use remote_devbox_mcp.Gateway.Manager.Laws.{IsSound, Reach-IsSound}
use remote_devbox_mcp.Gateway.Content.{Item, max_result_chars, max_text_chars, cap_content}
use remote_devbox_mcp.Gateway.Content.Laws.{FitsText, cap_content-IsCapped}
use remote_devbox_mcp.Gateway.Session
use remote_devbox_mcp.Gateway.Session.{
  RpcId, number, text, Child, waiting, begin_call, begin_parsed, send_call, call_id, finish_call,
  cancel, dispatch_begin, pending_get, pending_set, rpc_eq,
}
use remote_devbox_mcp.Gateway.Session.Laws.{MaySend, IsPending, begin_call_iff}
use remote_devbox_mcp.Gateway.Session.Cancels.{Reach-cancel-none}
use remote_devbox_mcp.Gateway.Session.Cancels

abbrev project : Text
project = codes "/home/dev"

-- The arguments of a call of `codegraph` below the project.
abbrev args : Arguments
args = (codes "projectPath", str (codes "src/../lib")) ∷ []

run-resolves_inside :
    (resolves_inside (codes "../etc") (some project) ≡ false)
    × (resolves_inside (codes "/home/dev/x") (some project) ≡ true)
unfolding resolves_inside path_parts split starts_with strip_prefix? resolve_parts inside_base is_in
    any text_eq select
run-resolves_inside = (refl, refl)

resolves_inside-IsInside_example : IsInside (codes "src/../lib") project
unfolding resolves_inside path_parts split starts_with strip_prefix? resolve_parts inside_base is_in
    any text_eq select
resolves_inside-IsInside_example = resolves_inside-IsInside (codes "src/../lib") project refl

check_call-allowed_example :
    (check_call
      (codes "codegraph")
      (codes "search")
      (some (codes "search" ∷ []))
      (some args)
      (some project)).0
    ≡ (not (is_in (codes "codegraph") default_deny_servers)
        && not (is_in (codes "search") meta_tool_deny)
        && is_in (codes "search") (codes "search" ∷ [])
        && arg_fits (codes "codegraph") (some args) (some project))
check_call-allowed_example =
    check_call-allowed (codes "codegraph") (codes "search") (some (codes "search" ∷ [])) (some args)
      (some project)

check_call-IsInside_example : IsInside (codes "src/../lib") project
unfolding check_call lookup constraints_of bounds_fit resolves_inside path_parts split starts_with
    strip_prefix? resolve_parts inside_base is_in any text_eq select
check_call-IsInside_example =
    check_call-IsInside (codes "search") (codes "src/../lib") project (some (codes "search" ∷ []))
      args refl refl

parse_exposed_tool_name-exposed_tool_name_example :
    parse_exposed_tool_name (exposed_tool_name (codes "codegraph") (codes "find__all"))
    ≡ some (codes "codegraph", codes "find__all")
unfolding valid_server_name all
parse_exposed_tool_name-exposed_tool_name_example =
    parse_exposed_tool_name-exposed_tool_name (codes "codegraph") (codes "find__all") refl refl

abbrev entries : List Text
entries = codes "git__log" ∷ codes "git__log" ∷ codes "log" ∷ []

register_tools-Registers_example :
    (result : Dict Text) × (register_tools entries ≡ some result)
    × HasUniqueKeys result
    × (values result ≡ select is_resolvable entries)
register_tools-Registers_example = register_tools-Registers entries

abbrev empty : World ℕ
empty = record {
  manager = record { sessions = []; creating = 0; next_id = 1; max_sessions = 1 };
  threads = [];
}

empty-IsSound : IsSound empty
unfolding lookup
empty-IsSound = record {
  bound = omega arith;
  counted = refl;
  unused = λ n le. refl;
  pending = tt;
  distinct = tt;
}

abbrev creating : World ℕ
creating = record {
  manager = record { sessions = []; creating = 1; next_id = 2; max_sessions = 1 };
  threads = 1 ∷ [];
}

reaches : Reach empty creating
unfolding reserve
reaches = next here (reserves refl)

Reach-IsSound_example : IsSound creating
Reach-IsSound_example = Reach-IsSound empty-IsSound reaches

abbrev items : List Item
items = (record { kind = some (codes "text"); text = some (codes "hello"); others = [] }) ∷ []

cap_content-IsCapped_example :
    (result : List Item × Bool) × (cap_content length items ≡ some result)
    × ((length result.0 ≤ max_result_chars) ⊎ (result.0 ≡ []))
    × All (FitsText max_text_chars) result.0
    × ((result.1 ≡ true) ⊎ (result.0 ≡ items))
cap_content-IsCapped_example = cap_content-IsCapped length items

abbrev child : Child
child = record { live = true; inflight = some 4; tools = [] }

abbrev session : Session.Session
session = record {
  allowlists = (codes "git", codes "log" ∷ []) ∷ [];
  project_dir = none;
  children = (codes "git", child) ∷ [];
  registry = (codes "git__log", codes "git__log") ∷ [];
  tool_defs = [];
  pending = [];
  call_counter = 0;
}

abbrev called : RpcId → ℕ → Session.Session
called id counter = record session { pending = (id, codes "git") ∷ []; call_counter = counter }

sends :
    begin_call (codes "git__log") [] (some (text (codes "r1"))) session
    ≡ waiting (text (codes "r1")) (codes "git") (codes "log") (called (text (codes "r1")) 0)
unfolding begin_call parse_exposed_tool_name partition find_sep strip_prefix? check_call lookup
    constraints_of bounds_fit is_in any text_eq pending_set call_id
sends = refl

begin_call_iff_example :
    (begin_call (codes "git__log") [] (some (text (codes "r1"))) session
      ≡ waiting (text (codes "r1")) (codes "git") (codes "log") (called (text (codes "r1")) 0))
    ↔ (MaySend (codes "git__log") [] session (codes "git") (codes "log")
        × IsPending
            (some (text (codes "r1")))
            session
            (text (codes "r1"))
            (codes "git")
            (called (text (codes "r1")) 0))
begin_call_iff_example =
    begin_call_iff (codes "git__log") [] (some (text (codes "r1"))) session (text (codes "r1"))
      (codes "git") (codes "log") (called (text (codes "r1")) 0)

dispatches : Cancels.Reach session (called (number 1) 1)
unfolding dispatch_begin begin_call parse_exposed_tool_name partition find_sep strip_prefix?
    check_call lookup constraints_of bounds_fit is_in any text_eq pending_set call_id
dispatches = Cancels.next Cancels.here (
    Cancels.begins (codes "git__log") [] (text (codes "r1")) (number 1) (codes "git") (codes "log")
      refl)

Reach-cancel-none_example : cancel (text (codes "r1")) (called (number 1) 1) ≡ none
Reach-cancel-none_example =
    Reach-cancel-none (codes "r1") session (called (number 1) 1) refl dispatches
