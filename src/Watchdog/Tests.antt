-- ===== src/Watchdog/Tests.antt =====
-- Runs of the watchdog's loop.
use remote_devbox_mcp.Base.{◌≡◌, refl, Bool, true, false, [], ◌∷◌, any}
use remote_devbox_mcp.Watchdog.{
  Call, can_connect, action_lock, write_log, ingress_url, probe, compose_ps, host_services_stale,
  ok, Round, perform, perform_all, check_ingress, count_fails, heal_tunnel, check_tunnel,
  restart_services, check_services, check_toolbox, body, step_round, run, start,
}
use remote_devbox_mcp.Watchdog.Laws.{is_restart}
use remote_devbox_mcp.Watchdog.Safety.{run-action_lock}
use remote_devbox_mcp.Watchdog.Healing.{is_recreate, run-recreate_tunnel}

-- `docker compose ps` raises each time.
abbrev broken_ps : Call → Bool
broken_ps compose_ps = true
broken_ps _ = false

abbrev silent : Round
silent = record {
  raises = broken_ps;
  connected = true;
  in_flight = true;
  has_url = true;
  code = 502;
  has_active = true;
  is_stale = true;
  has_profile = true;
  has_gateway = true;
  toolbox_now = ok;
  now = 0;
  recreated_at = 0;
}

step_run :
    (step_round silent start).calls
    ≡ can_connect ∷ ingress_url ∷ probe ∷ host_services_stale ∷ action_lock ∷ write_log ∷ write_log
      ∷ []
unfolding step_round body check_ingress check_tunnel check_services check_toolbox perform
    perform_all count_fails heal_tunnel restart_services
step_run = refl

run-recreate_tunnel_example :
    any is_recreate (run (silent ∷ silent ∷ silent ∷ []) (record start { calls = [] })).calls ≡ true
run-recreate_tunnel_example =
    run-recreate_tunnel silent silent silent start
      (refl, (refl, (refl, (refl, (refl, (refl, refl))))))
      (refl, (refl, (refl, (refl, (refl, (refl, refl))))))
      (refl, (refl, (refl, (refl, (refl, (refl, refl))))))

run-action_lock_example :
    any is_restart (run (silent ∷ record silent { connected = false } ∷ []) start).calls ≡ false
unfolding any
run-action_lock_example =
    run-action_lock (silent ∷ record silent { connected = false } ∷ []) start (refl, (refl, tt))
      refl
