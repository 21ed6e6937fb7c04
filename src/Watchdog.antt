-- ===== src/Watchdog.antt =====
-- The loop of the watchdog, home/rdm/watchdog.py: one round from what the calls answer.
pub mod Laws
pub mod Safety
pub mod Healing
mod Tests
use remote_devbox_mcp.Base.{
  ℕ, suc, ◌+◌, Bool, true, false, not, ◌&&◌, ◌||◌, List, [], ◌∷◌, ◌++◌, Option, none, some,
  if◌then◌else◌, ◌==◌, ltb, leb,
}

-- The calls of a round that leave the loop, in the words of the source.
pub data Call : Type 0 where
  can_connect action_lock write_log stop_ingress load_env start_ingress refresh_manifest ingress_url
        probe recreate_tunnel :
      Call
  host_services_stale find_profile load_profile restart_host_services start_gateway stop_gateway
        compose_ps recreate_toolbox up_toolbox :
      Call

pub data Toolbox : Type 0 where
  unhealthy missing ok : Toolbox

-- What the calls of a round answer, and which of them raise an OSError or a ValueError; the lock of
-- an action answers the same in the whole round. Times are whole seconds.
pub record Round : Type 0 where
  pub raises : Call → Bool
  pub connected : Bool
  pub in_flight : Bool
  pub has_url : Bool
  pub code : ℕ
  pub has_active : Bool
  pub is_stale : Bool
  pub has_profile : Bool
  pub has_gateway : Bool
  pub toolbox_now : Toolbox
  pub now : ℕ
  pub recreated_at : ℕ

-- The variables of the loop, and the calls so far.
pub record Watch : Type 0 where
  pub fails : ℕ
  pub toolbox_state : Option Toolbox
  pub unhealthy_runs : ℕ
  pub last_recreate : ℕ
  pub calls : List Call

-- The state where a block ends, or where a call raised.
pub data Ran : Type 0 where
  going raised : Watch → Ran

infixl 10 ◌>>=◌
abbrev pub ◌>>=◌ : Ran → (Watch → Ran) → Ran
going w >>= f = f w
raised w >>= f = raised w

abbrev pub add_call : Call → Watch → Watch
add_call c w = record w { calls = w.calls ++ c ∷ [] }

unfoldable pub perform : Round → Call → Watch → Ran
perform r c w = if r.raises c then raised w else going (add_call c w)

-- the calls of a list, one after the other
unfoldable pub perform_all : Round → List Call → Watch → Ran
perform_all r [] w = going w
perform_all r (c ∷ cs) w = perform r c w >>= λ v. perform_all r cs v

abbrev pub clear_fails : Watch → Ran
clear_fails w = going (record w { fails = 0 })

-- the block on the ingress proxy
unfoldable pub restart_ingress : Round → Watch → Ran
restart_ingress r w =
    if r.in_flight
    then perform r write_log w
    else perform_all r (write_log ∷ stop_ingress ∷ load_env ∷ start_ingress ∷ refresh_manifest ∷ [])
        w
      >>= clear_fails

unfoldable pub check_ingress : Round → Watch → Ran
check_ingress r w = do
  v ← perform r can_connect w
  if r.connected then going v else (perform r action_lock v >>= restart_ingress r)

-- `fails` after the probe
unfoldable pub count_fails : Round → Watch → Watch
count_fails r w =
    let code = if r.has_url then r.code else 0 in
    record w { fails = if code == 200 then 0 else w.fails + 1 }

unfoldable pub heal_tunnel : Round → Watch → Ran
heal_tunnel r w =
    if leb 3 w.fails
    then perform_all r (write_log ∷ recreate_tunnel ∷ refresh_manifest ∷ []) w >>= clear_fails
    else going w

unfoldable pub check_tunnel : Round → Watch → Ran
check_tunnel r w = do
  v ← perform r ingress_url w
  u ← if r.has_url then perform r probe v else going v
  heal_tunnel r (count_fails r u)

-- the calls for a profile that is found
abbrev pub profile_calls : Round → List Call
profile_calls r =
    load_profile
    ∷ restart_host_services
    ∷ load_env
    ∷ (if r.has_gateway then start_gateway else stop_gateway)
    ∷ []

-- the block on the services of the active profile
unfoldable pub restart_services : Round → Watch → Ran
restart_services r w = if r.in_flight then perform r write_log w else (do
  v ← perform_all r (write_log ∷ find_profile ∷ []) w
  if r.has_profile then perform_all r (profile_calls r) v else going v)

unfoldable pub check_services : Round → Watch → Ran
check_services r w =
    if r.has_active
    then (do
      v ← perform r host_services_stale w
      if r.is_stale then (perform r action_lock v >>= restart_services r) else going v)
    else going w

abbrev pub same_toolbox : Toolbox → Option Toolbox → Bool
same_toolbox unhealthy (some unhealthy) = true
same_toolbox missing (some missing) = true
same_toolbox ok (some ok) = true
same_toolbox _ _ = false

unfoldable pub note_toolbox : Round → Watch → Ran
note_toolbox r w =
    if same_toolbox r.toolbox_now w.toolbox_state
    then going w
    else (do v ← perform r write_log w; going (record v { toolbox_state = some r.toolbox_now }))

-- `unhealthy_runs += 1` has run
unfoldable pub heal_toolbox : Round → Watch → Ran
heal_toolbox r w =
    if leb 3 w.unhealthy_runs && ltb (w.last_recreate + 120) r.now
    then (do
      v ← perform_all r (write_log ∷ recreate_toolbox ∷ []) w
      going (record v { unhealthy_runs = 0; last_recreate = r.recreated_at }))
    else going w

unfoldable pub settle_toolbox : Round → Toolbox → Watch → Ran
settle_toolbox r unhealthy w = heal_toolbox r (record w { unhealthy_runs = w.unhealthy_runs + 1 })
settle_toolbox r missing w = perform r up_toolbox w
settle_toolbox r ok w = going (record w { unhealthy_runs = 0 })

unfoldable pub check_toolbox : Round → Watch → Ran
check_toolbox r w = perform r compose_ps w >>= note_toolbox r >>= settle_toolbox r r.toolbox_now

-- the body of `try`
unfoldable pub body : Round → Watch → Ran
body r w = check_ingress r w >>= check_tunnel r >>= check_services r >>= check_toolbox r

abbrev pub ended : Ran → Watch
ended (going w) = w
ended (raised w) = add_call write_log w

-- one round of the loop, with its `except`
unfoldable pub step_round : Round → Watch → Watch
step_round r w = ended (body r w)

unfoldable pub run : List Round → Watch → Watch
run [] w = w
run (r ∷ rs) w = run rs (step_round r w)

-- the variables before the loop
abbrev pub start : Watch
start = record {
  fails = 0;
  toolbox_state = none;
  unhealthy_runs = 0;
  last_recreate = 0;
  calls = [];
}
