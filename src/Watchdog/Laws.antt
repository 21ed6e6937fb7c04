-- ===== src/Watchdog/Laws.antt =====
-- Which calls a round of watchdog.py makes.
use remote_devbox_mcp.Base.{
  ℕ, ◌+◌, ◌≡◌, refl, Bool, true, false, ◌||◌, List, [], ◌∷◌, ◌++◌, some, arith, if◌then◌else◌, any,
  All,
}
use remote_devbox_mcp.Watchdog.{
  Call, action_lock, write_log, stop_ingress, load_env, start_ingress, host_services_stale,
  find_profile, load_profile, restart_host_services, start_gateway, stop_gateway, compose_ps,
  recreate_toolbox, up_toolbox, Toolbox, unhealthy, missing, ok, Round, Watch, Ran, going, raised,
  ◌>>=◌, add_call, perform, perform_all, restart_services, check_services, note_toolbox,
  heal_toolbox, settle_toolbox, check_toolbox, ended, profile_calls,
}

-- A property of the state where a block ends, raised or not.
pub OnBoth : (Watch → Type 0) → Ran → Type 0
OnBoth P (going w) = P w
OnBoth P (raised w) = P w

pub then-OnBoth :
    (P : Watch → Type 0) (b : Ran) (f : Watch → Ran)
    → OnBoth P b
    → ((w : Watch) → P w → OnBoth P (f w))
    → OnBoth P (b >>= f)
unfolding OnBoth
then-OnBoth P (going w) f h g = g w h
then-OnBoth P (raised w) f h g = h

pub still : (P : Watch → Type 0) (w : Watch) → P w → OnBoth P (going w)
unfolding OnBoth
still P w h = h

pub if-OnBoth :
    (P : Watch → Type 0) (c : Bool) (a b : Ran)
    → (c ≡ true → OnBoth P a)
    → (c ≡ false → OnBoth P b)
    → OnBoth P (if c then a else b)
if-OnBoth P true a b h g = h refl
if-OnBoth P false a b h g = g refl

pub if-goes :
    (P : Watch → Type 0) (c : Bool) (a b : Ran) (f : Watch → Ran)
    → (c ≡ true → OnBoth P (a >>= f))
    → (c ≡ false → OnBoth P (b >>= f))
    → OnBoth P ((if c then a else b) >>= f)
if-goes P true a b f h g = h refl
if-goes P false a b f h g = g refl

pub map-OnBoth :
    (P Q : Watch → Type 0) (b : Ran) → ((w : Watch) → P w → Q w) → OnBoth P b → OnBoth Q b
unfolding OnBoth
map-OnBoth P Q (going w) f h = f w h
map-OnBoth P Q (raised w) f h = f w h

-- The calls that touch the host's services and the ingress.
abbrev pub is_restart : Call → Bool
is_restart stop_ingress = true
is_restart start_ingress = true
is_restart restart_host_services = true
is_restart start_gateway = true
is_restart stop_gateway = true
is_restart _ = false

-- A property of `fails` and the calls, which the calls that a round may make keep.
module _ (Q : ℕ → List Call → Type 0) where
  abbrev pub Holds : Watch → Type 0
  Holds w = Q w.fails w.calls

  abbrev pub Keeps : Call → Type 0
  Keeps c = (n : ℕ) (cs : List Call) → Q n cs → Q n (cs ++ c ∷ [])

module _ (Q : ℕ → List Call → Type 0) (r : Round) where
  pub perform-Holds :
      (c : Call) (w : Watch) → (Keeps Q) c → (Holds Q) w → OnBoth (Holds Q) (perform r c w)
  unfolding OnBoth perform
  perform-Holds c w k h =
      if-OnBoth (Holds Q) (r.raises c) (raised w) (going (add_call c w)) (λ _. h)
        (λ _. k w.fails w.calls h)

  pub perform_all-Holds :
      (cs : List Call) (w : Watch)
      → All (Keeps Q) cs
      → (Holds Q) w
      → OnBoth (Holds Q) (perform_all r cs w)
  unfolding OnBoth perform_all
  perform_all-Holds [] w ks h = h
  perform_all-Holds (c ∷ cs) w ks h =
      then-OnBoth (Holds Q) (perform r c w) (perform_all r cs) (perform-Holds c w ks.0 h)
        (λ v. perform_all-Holds cs v ks.1)

  module _ (calm : (c : Call) → is_restart c ≡ false → (Keeps Q) c)
      (free : r.in_flight ≡ false → (c : Call) → (Keeps Q) c) where
    restart_services-Holds : (w : Watch) → Holds Q w → OnBoth (Holds Q) (restart_services r w)
    unfolding restart_services
    restart_services-Holds w h =
        if-OnBoth (Holds Q) r.in_flight _ _ (λ _. perform-Holds write_log w (calm write_log refl) h)
          (λ f.
            then-OnBoth (Holds Q) (perform_all r (write_log ∷ find_profile ∷ []) w) _
              (perform_all-Holds (write_log ∷ find_profile ∷ []) w
                (free f write_log, (free f find_profile, tt)) h)
              (λ v g.
                if-OnBoth (Holds Q) r.has_profile _ _
                  (λ _.
                    perform_all-Holds (profile_calls r) v
                      (
                        free f load_profile,
                        (free f restart_host_services, (free f load_env, (free f _, tt))),
                      )
                      g)
                  (λ _. still (Holds Q) v g)))

    pub check_services-Holds : (w : Watch) → Holds Q w → OnBoth (Holds Q) (check_services r w)
    unfolding check_services
    check_services-Holds w h =
        if-OnBoth (Holds Q) r.has_active _ _
          (λ _.
            then-OnBoth (Holds Q) (perform r host_services_stale w) _
              (perform-Holds host_services_stale w (calm host_services_stale refl) h)
              (λ v g.
                if-OnBoth (Holds Q) r.is_stale _ _
                  (λ _.
                    then-OnBoth (Holds Q) (perform r action_lock v) (restart_services r)
                      (perform-Holds action_lock v (calm action_lock refl) g)
                      restart_services-Holds)
                  (λ _. still (Holds Q) v g)))
          (λ _. still (Holds Q) w h)

    note_toolbox-Holds : (w : Watch) → Holds Q w → OnBoth (Holds Q) (note_toolbox r w)
    unfolding note_toolbox
    note_toolbox-Holds w h =
        if-OnBoth (Holds Q) _ _ _ (λ _. still (Holds Q) w h)
          (λ _.
            then-OnBoth (Holds Q) (perform r write_log w) _
              (perform-Holds write_log w (calm write_log refl) h)
              (λ v g. still (Holds Q) (record v { toolbox_state = some r.toolbox_now }) g))

    settle_toolbox-Holds :
        (t : Toolbox) (w : Watch) → Holds Q w → OnBoth (Holds Q) (settle_toolbox r t w)
    unfolding settle_toolbox heal_toolbox
    settle_toolbox-Holds unhealthy w h =
        if-OnBoth (Holds Q) _ _ _
          (λ _.
            then-OnBoth (Holds Q)
              (perform_all r (write_log ∷ recreate_toolbox ∷ [])
                (record w { unhealthy_runs = w.unhealthy_runs + 1 }))
              _
              (perform_all-Holds (write_log ∷ recreate_toolbox ∷ [])
                (record w { unhealthy_runs = w.unhealthy_runs + 1 })
                (calm write_log refl, (calm recreate_toolbox refl, tt)) h)
              (λ v g.
                still (Holds Q) (record v { unhealthy_runs = 0; last_recreate = r.recreated_at })
                  g))
          (λ _. still (Holds Q) (record w { unhealthy_runs = w.unhealthy_runs + 1 }) h)
    settle_toolbox-Holds missing w h = perform-Holds up_toolbox w (calm up_toolbox refl) h
    settle_toolbox-Holds ok w h = still (Holds Q) (record w { unhealthy_runs = 0 }) h

    pub check_toolbox-Holds : (w : Watch) → Holds Q w → OnBoth (Holds Q) (check_toolbox r w)
    unfolding check_toolbox
    check_toolbox-Holds w h =
        then-OnBoth (Holds Q) (perform r compose_ps w >>= note_toolbox r)
          (settle_toolbox r r.toolbox_now)
          (then-OnBoth (Holds Q) (perform r compose_ps w) (note_toolbox r)
            (perform-Holds compose_ps w (calm compose_ps refl) h) note_toolbox-Holds)
          (settle_toolbox-Holds r.toolbox_now)

    -- What the blocks after the tunnel keep.
    pub after_tunnel-Holds :
        (w : Watch) → Holds Q w → OnBoth (Holds Q) (check_services r w >>= check_toolbox r)
    after_tunnel-Holds w h =
        then-OnBoth (Holds Q) (check_services r w) (check_toolbox r) (check_services-Holds w h)
          check_toolbox-Holds

-- The state at the end of a round, when the property holds where the body ends.
pub ended-OnBoth :
    (Q : ℕ → List Call → Type 0) (b : Ran)
    → OnBoth (Holds Q) b
    → ((n : ℕ) (cs : List Call) → Q n cs → Q n (cs ++ write_log ∷ []))
    → Holds Q (ended b)
unfolding OnBoth
ended-OnBoth Q (going w) h k = h
ended-OnBoth Q (raised w) h k = k w.fails w.calls h

pub any-append_one {ℓ} :
    {A : Type ℓ} (p : A → Bool) (xs : List A) (x : A) → any p (xs ++ x ∷ []) ≡ (any p xs || p x)
unfolding any
any-append_one p [] x = ground arith
any-append_one p (y ∷ xs) x = ground (arith, any-append_one p xs x)
