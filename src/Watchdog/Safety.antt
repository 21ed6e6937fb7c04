-- ===== src/Watchdog/Safety.antt =====
-- The watchdog of watchdog.py beside an action of the command line.
use remote_devbox_mcp.Base.{
  ℕ, ◌≡◌, refl, true, false, List, [], ◌∷◌, arith, if◌then◌else◌, any, All,
}
use remote_devbox_mcp.Watchdog.{
  Call, can_connect, action_lock, write_log, refresh_manifest, ingress_url, probe, recreate_tunnel,
  Round, Watch, going, ◌>>=◌, perform, perform_all, clear_fails, restart_ingress, check_ingress,
  count_fails, heal_tunnel, check_tunnel, check_services, check_toolbox, body, step_round, run,
}
use remote_devbox_mcp.Watchdog.Laws.{
  OnBoth, then-OnBoth, still, if-OnBoth, is_restart, Holds, Keeps, perform-Holds, perform_all-Holds,
  check_services-Holds, check_toolbox-Holds, ended-OnBoth, any-append_one,
}

-- No call so far restarts anything of the host.
abbrev IsCalm : ℕ → List Call → Type 0
IsCalm n cs = any is_restart cs ≡ false

call_kept : (c : Call) → is_restart c ≡ false → Keeps IsCalm c
call_kept c h n cs k = ground (arith, any-append_one is_restart cs c)

module _ (r : Round) (busy : r.in_flight ≡ true) where
  perform-IsCalm :
      (c : Call) (w : Watch)
      → is_restart c ≡ false
      → Holds IsCalm w
      → OnBoth (Holds IsCalm) (perform r c w)
  perform-IsCalm c w h k = perform-Holds IsCalm r c w (call_kept c h) k

  restart_ingress-IsCalm :
      (w : Watch) → Holds IsCalm w → OnBoth (Holds IsCalm) (restart_ingress r w)
  unfolding restart_ingress
  restart_ingress-IsCalm w h =
      if-OnBoth (Holds IsCalm) r.in_flight _ _ (λ _. perform-IsCalm write_log w refl h)
        (λ f. absurd (cc (f, busy)))

  check_ingress-IsCalm : (w : Watch) → Holds IsCalm w → OnBoth (Holds IsCalm) (check_ingress r w)
  unfolding check_ingress
  check_ingress-IsCalm w h =
      then-OnBoth (Holds IsCalm) (perform r can_connect w) _ (perform-IsCalm can_connect w refl h)
        (λ v k.
          if-OnBoth (Holds IsCalm) r.connected _ _ (λ _. still (Holds IsCalm) v k)
            (λ _.
              then-OnBoth (Holds IsCalm) (perform r action_lock v) (restart_ingress r)
                (perform-IsCalm action_lock v refl k) restart_ingress-IsCalm))

  heal_tunnel-IsCalm : (w : Watch) → Holds IsCalm w → OnBoth (Holds IsCalm) (heal_tunnel r w)
  unfolding heal_tunnel
  heal_tunnel-IsCalm w h =
      if-OnBoth (Holds IsCalm) _ _ _
        (λ _.
          then-OnBoth (Holds IsCalm)
            (perform_all r (write_log ∷ recreate_tunnel ∷ refresh_manifest ∷ []) w) clear_fails
            (perform_all-Holds IsCalm r (write_log ∷ recreate_tunnel ∷ refresh_manifest ∷ []) w
              (
                call_kept write_log refl,
                (call_kept recreate_tunnel refl, (call_kept refresh_manifest refl, tt)),
              )
              h)
            (λ v k. still (Holds IsCalm) (record v { fails = 0 }) k))
        (λ _. still (Holds IsCalm) w h)

  check_tunnel-IsCalm : (w : Watch) → Holds IsCalm w → OnBoth (Holds IsCalm) (check_tunnel r w)
  unfolding check_tunnel count_fails
  check_tunnel-IsCalm w h =
      then-OnBoth (Holds IsCalm) (perform r ingress_url w) _ (perform-IsCalm ingress_url w refl h)
        (λ v k.
          then-OnBoth (Holds IsCalm) (if r.has_url then perform r probe v else going v) _
            (if-OnBoth (Holds IsCalm) r.has_url _ _ (λ _. perform-IsCalm probe v refl k)
              (λ _. still (Holds IsCalm) v k))
            (λ u m. heal_tunnel-IsCalm (count_fails r u) m))

  body-IsCalm : (w : Watch) → Holds IsCalm w → OnBoth (Holds IsCalm) (body r w)
  unfolding body
  body-IsCalm w h =
      let free : r.in_flight ≡ false → (c : Call) → Keeps IsCalm c = λ f. absurd (cc (f, busy)) in
      then-OnBoth (Holds IsCalm) (check_ingress r w >>= check_tunnel r >>= check_services r)
        (check_toolbox r)
        (then-OnBoth (Holds IsCalm) (check_ingress r w >>= check_tunnel r) (check_services r)
          (then-OnBoth (Holds IsCalm) (check_ingress r w) (check_tunnel r)
            (check_ingress-IsCalm w h) check_tunnel-IsCalm)
          (check_services-Holds IsCalm r call_kept free))
        (check_toolbox-Holds IsCalm r call_kept free)

  step_round-IsCalm : (w : Watch) → Holds IsCalm w → Holds IsCalm (step_round r w)
  unfolding step_round
  step_round-IsCalm w h =
      ended-OnBoth IsCalm (body r w) (body-IsCalm w h) (call_kept write_log refl)

-- While an action of the command line is in flight, the rounds of the watchdog stop and start
-- neither the ingress proxy nor the host services nor the gateway, whatever the calls answer and
-- whichever raise.
pub run-action_lock :
    (rs : List Round) (w : Watch)
    → All (λ (r : Round). r.in_flight ≡ true) rs
    → any is_restart w.calls ≡ false
    → any is_restart (run rs w).calls ≡ false
unfolding run
run-action_lock [] w busy h = h
run-action_lock (r ∷ rs) w busy h =
    run-action_lock rs (step_round r w) busy.1 (step_round-IsCalm r busy.0 w h)
