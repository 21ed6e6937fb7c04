-- ===== src/Watchdog/Healing.antt =====
-- The watchdog of watchdog.py on a tunnel that does not answer.
use remote_devbox_mcp.Base.{
  ℕ, suc, ◌+◌, ◌≤◌, ◌≡◌, ◌⊎◌, inl, inr, refl, sym, subst, Bool, true, false, List, [], ◌∷◌, ◌++◌,
  arith, if◌then◌else◌, ◌==◌, leb, any,
}
use remote_devbox_mcp.Watchdog.{
  Call, can_connect, write_log, refresh_manifest, ingress_url, probe, recreate_tunnel, Round, Watch,
  Ran, going, ◌>>=◌, add_call, perform, perform_all, clear_fails, check_ingress, count_fails,
  heal_tunnel, check_tunnel, check_services, check_toolbox, body, step_round, run,
}
use remote_devbox_mcp.Watchdog.Laws.{
  OnBoth, if-goes, map-OnBoth, then-OnBoth, still, if-OnBoth, Holds, Keeps, perform_all-Holds,
  check_services-Holds, check_toolbox-Holds, ended-OnBoth, any-append_one,
}

abbrev pub is_recreate : Call → Bool
is_recreate recreate_tunnel = true
is_recreate _ = false

-- The ingress proxy is up, the bridge does not answer 200 through the tunnel, and none of the
-- calls on the way to its recreation raises.
abbrev pub IsDown : Round → Type 0
IsDown r =
    (r.connected ≡ true)
    × ((((if r.has_url then r.code else 0) == 200) ≡ false)
        × ((r.raises can_connect ≡ false)
            × ((r.raises ingress_url ≡ false)
                × ((r.raises probe ≡ false)
                    × ((r.raises write_log ≡ false) × (r.raises recreate_tunnel ≡ false))))))

-- The tunnel was recreated, or at least so many rounds failed in a row, and not yet three.
abbrev Healing : ℕ → ℕ → List Call → Type 0
Healing k n cs = (any is_recreate cs ≡ true) ⊎ ((k ≤ n) × (n ≤ 2))

-- The same, before the counter of the round.
abbrev Reached : ℕ → Watch → Type 0
Reached k w = (any is_recreate w.calls ≡ true) ⊎ (k ≤ w.fails)

more : (k : ℕ) (c : Call) (w : Watch) → Reached k w → Reached k (add_call c w)
more k c w h = ground (arith, any-append_one is_recreate w.calls c)

any_call : (k : ℕ) (c : Call) → Keeps (Healing k) c
any_call k c n cs h = ground (arith, any-append_one is_recreate cs c)

perform-going :
    (r : Round) (c : Call) (w : Watch) → r.raises c ≡ false → perform r c w ≡ going (add_call c w)
unfolding perform
perform-going r c w h = rw h refl

goes :
    (P : Watch → Type 0) (r : Round) (c : Call) (w : Watch) (f : Watch → Ran)
    → r.raises c ≡ false
    → OnBoth P (f (add_call c w))
    → OnBoth P (perform r c w >>= f)
goes P r c w f e h = subst (λ b. OnBoth P (b >>= f)) (sym (perform-going r c w e)) h

-- A call that raises nothing makes the recreation part of the calls.
recreated : (k n : ℕ) (cs : List Call) → Healing k n (cs ++ recreate_tunnel ∷ [])
recreated k n cs = ground (arith, any-append_one is_recreate cs recreate_tunnel)

-- `fails` is set to 0 behind the recreation.
abbrev Healed : ℕ → List Call → Type 0
Healed n cs = any is_recreate cs ≡ true

recreate_kept : (c : Call) → Keeps Healed c
recreate_kept c n cs h = ground (arith, any-append_one is_recreate cs c)

recreate-Healed :
    (r : Round) (w : Watch)
    → IsDown r
    → OnBoth
        (Holds Healed)
        (perform_all r (write_log ∷ recreate_tunnel ∷ refresh_manifest ∷ []) w >>= clear_fails)
unfolding perform_all
recreate-Healed r w d =
    then-OnBoth (Holds Healed)
      (perform_all r (write_log ∷ recreate_tunnel ∷ refresh_manifest ∷ []) w) clear_fails
      (goes (Holds Healed) r write_log w _ d.1.1.1.1.1.0 (
        goes (Holds Healed) r recreate_tunnel (add_call write_log w) _ d.1.1.1.1.1.1 (
          perform_all-Holds Healed r (refresh_manifest ∷ [])
            (add_call recreate_tunnel (add_call write_log w)) (recreate_kept refresh_manifest, tt)
            (ground
              (arith, any-append_one is_recreate (w.calls ++ write_log ∷ []) recreate_tunnel)))))
      (λ v h. still (Holds Healed) (record v { fails = 0 }) h)

-- The block that recreates the tunnel.
heal_tunnel-Healing :
    (r : Round) (k : ℕ) (w : Watch)
    → IsDown r
    → Reached k w
    → OnBoth (Holds (Healing k)) (heal_tunnel r w)
unfolding heal_tunnel
heal_tunnel-Healing r k w d h =
    if-OnBoth (Holds (Healing k)) (leb 3 w.fails) _ _
      (λ e. map-OnBoth (Holds Healed) (Holds (Healing k)) _ (λ v g. inl g) (recreate-Healed r w d))
      (λ e. still (Holds (Healing k)) w (ground arith))

count_fails-fails : (r : Round) (w : Watch) → IsDown r → (count_fails r w).fails ≡ w.fails + 1
unfolding count_fails
count_fails-fails r w d = rw d.1.0 refl

count_fails-Healing :
    (r : Round) (k : ℕ) (w : Watch)
    → IsDown r
    → Reached k w
    → OnBoth (Holds (Healing (suc k))) (heal_tunnel r (count_fails r w))
unfolding count_fails
count_fails-Healing r k w d h =
    heal_tunnel-Healing r (suc k) (count_fails r w) d
      (elim h [ inl g ↦ inl g | inr g ↦ inr (omega (arith, count_fails-fails r w d)) ])

check_tunnel-Healing :
    (r : Round) (k : ℕ) (w : Watch)
    → IsDown r
    → Reached k w
    → OnBoth (Holds (Healing (suc k))) (check_tunnel r w)
unfolding check_tunnel
check_tunnel-Healing r k w d h =
    let P : Watch → Type 0 = Holds (Healing (suc k)) in
    goes P r ingress_url w _ d.1.1.1.0 (
      if-goes P r.has_url _ _ (λ v. heal_tunnel r (count_fails r v))
        (λ e. goes P r probe (add_call ingress_url w) _ d.1.1.1.1.0 (
          count_fails-Healing r k (add_call probe (add_call ingress_url w)) d
            (more k probe (add_call ingress_url w) (more k ingress_url w h))))
        (λ e. count_fails-Healing r k (add_call ingress_url w) d (more k ingress_url w h)))

check_ingress-connected :
    (r : Round) (w : Watch) → IsDown r → check_ingress r w ≡ going (add_call can_connect w)
unfolding check_ingress
check_ingress-connected r w d = rw (perform-going r can_connect w d.1.1.0, d.0) refl

-- One round: the tunnel was recreated, or one more round failed.
step_round-Healing :
    (r : Round) (k : ℕ) (w : Watch)
    → IsDown r
    → Reached k w
    → Holds (Healing (suc k)) (step_round r w)
unfolding step_round body
step_round-Healing r k w d h =
    let P : Watch → Type 0 = Holds (Healing (suc k)) in
    let tunnel : OnBoth P (check_ingress r w >>= check_tunnel r) =
      subst (λ b. OnBoth P (b >>= check_tunnel r)) (sym (check_ingress-connected r w d))
        (check_tunnel-Healing r k (add_call can_connect w) d (more k can_connect w h)) in
    ended-OnBoth (Healing (suc k)) (body r w)
      (then-OnBoth P (check_ingress r w >>= check_tunnel r >>= check_services r) (check_toolbox r)
        (then-OnBoth P (check_ingress r w >>= check_tunnel r) (check_services r) tunnel (
          check_services-Holds (Healing (suc k)) r (λ c _. any_call (suc k) c)
            (λ _. any_call (suc k))))
        (check_toolbox-Holds (Healing (suc k)) r (λ c _. any_call (suc k) c)
          (λ _. any_call (suc k))))
      (any_call (suc k) write_log)

reached : (k : ℕ) (w : Watch) → Holds (Healing k) w → Reached k w
reached k w h = ground arith

run-Healing :
    (a b c : Round) (w : Watch)
    → IsDown a
    → IsDown b
    → IsDown c
    → any is_recreate (run (a ∷ b ∷ c ∷ []) w).calls ≡ true
unfolding run
run-Healing a b c w da db dc =
    let one = step_round-Healing a 0 w da (inr (omega arith)) in
    let two = step_round-Healing b 1 (step_round a w) db (reached 1 (step_round a w) one) in
    let three =
      step_round-Healing c 2 (step_round b (step_round a w)) dc
        (reached 2 (step_round b (step_round a w)) two) in
    elim three [ inl h ↦ h | inr h ↦ absurd (omega (arith, h.0, h.1)) ]

-- In three rounds in which the bridge does not answer 200 through the tunnel, the watchdog
-- recreates the tunnel, whatever the counters are before them, and whatever the calls on the
-- services and the toolbox answer or raise. The ingress proxy is up in these rounds, and no call
-- on the way to the recreation raises.
pub run-recreate_tunnel :
    (a b c : Round) (w : Watch)
    → IsDown a
    → IsDown b
    → IsDown c
    → any is_recreate (run (a ∷ b ∷ c ∷ []) (record w { calls = [] })).calls ≡ true
run-recreate_tunnel a b c w = run-Healing a b c (record w { calls = [] })
