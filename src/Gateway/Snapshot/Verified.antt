-- ===== src/Gateway/Snapshot/Verified.antt =====
-- load_verified of snapshot.py against the configuration as it is now.
use remote_devbox_mcp.Base.{
  ◌≡◌, ◌≢◌, ◌⊎◌, refl, sym, ap, subst, ◌∙◌, false, List, [], ◌∷◌, Option, none, some, Text, text_eq,
  is_empty, text_eq_sound, lookup, HasUniqueKeys, All, Bool-cases, inl, inr,
}
use remote_devbox_mcp.Profiles.Validate.Fields.{has_duplicates}
use remote_devbox_mcp.Gateway.Snapshot.Data.{
  Layer, File, not_found, unreadable, not_object, document, ServerSnapshot, Snapshot, sound, fault,
  drift, unlisted, ◌>>=◌, Around,
}
use remote_devbox_mcp.Gateway.Snapshot.Build.{merged_layers, build}
use remote_devbox_mcp.Gateway.Snapshot.Load.{
  dict_from, snapshot_json, load, server_eq, check_server, verify_from, verify, load_verified,
  save_snapshot,
}
use remote_devbox_mcp.Gateway.Snapshot.Dicts.{
  dict_from_unique, finds_all, server_eq_sound, server_eq_refl,
}
use remote_devbox_mcp.Gateway.Snapshot.Laws.{
  IsBuilt, build_from-IsBuilt, IsBuilt-HasUniqueKeys, sound-injective, >>=-sound, then_sound,
  load-snapshot_json, verify_from-found,
}

build-IsBuilt :
    (around : Around) (layers : List Layer) (names : List Text) (s : Snapshot)
    → build around layers names ≡ sound s
    → IsBuilt around names s
unfolding build
build-IsBuilt around layers names s h =
    let merged = >>=-sound (merged_layers layers) _ s h in
    build_from-IsBuilt around merged.0 names s merged.1.1

verify-build :
    (around : Around) (layers : List Layer) (names : List Text) (s : Snapshot)
    → build around layers names ≡ sound s
    → HasUniqueKeys s
    → verify around s layers names ≡ sound tt
unfolding verify
verify-build around layers names s h u =
    then_sound (build around layers names) _ s h
    ∙ rw (dict_from_unique [] s u) (verify_from-found s s (finds_all s u))

load_verified-built :
    (around : Around) (layers : List Layer) (names : List Text) (s : Snapshot)
    → build around layers names ≡ sound s
    → has_duplicates names ≡ false
    → load_verified around (snapshot_json s) layers names ≡ build around layers names
unfolding load_verified snapshot_json
load_verified-built around layers names s h d =
    let b = build-IsBuilt around layers names s h in
    let u = IsBuilt-HasUniqueKeys around names s b d in
    then_sound (load around (snapshot_json s)) _ s (load-snapshot_json around names s b u)
    ∙ (then_sound (verify around s layers names) _ tt (verify-build around layers names s h u)
        ∙ sym h)

-- A saved snapshot is accepted as long as the layers stay as they were, and gives what build
-- gave, when the names of the exposed servers differ.
pub load_verified-save_snapshot :
    (around : Around) (layers : List Layer) (names : List Text) (file : File)
    → has_duplicates names ≡ false
    → save_snapshot around layers names ≡ sound file
    → load_verified around file layers names ≡ build around layers names
unfolding save_snapshot
load_verified-save_snapshot around layers names file d h =
    let built = >>=-sound (build around layers names) _ file h in
    subst (λ f. load_verified around f layers names ≡ build around layers names)
      (sound-injective built.1.1) (load_verified-built around layers names built.0 built.1.0 d)

-- The two ends of the loop of `verify`.
pub IsVerified : Snapshot → Snapshot → Type 0
IsVerified saved servers = All (λ (p : Text × ServerSnapshot). lookup p.0 saved ≡ some p.1) servers

check_server-cases :
    (o : Option ServerSnapshot) (server : ServerSnapshot)
    → (o ≡ some server)
      ⊎ ((check_server o server ≡ fault unlisted) ⊎ (check_server o server ≡ fault drift))
unfolding check_server
check_server-cases none server = inr (inl refl)
check_server-cases (some pinned) server = elim (Bool-cases (server_eq pinned server)) [
  | inl e ↦ inl (ap some (server_eq_sound pinned server e))
  | inr e ↦ inr (inr (rw e refl))
]

verify_from-cases :
    (saved servers : Snapshot)
    → IsVerified saved servers
      ⊎ ((verify_from saved servers ≡ fault unlisted) ⊎ (verify_from saved servers ≡ fault drift))
unfolding verify_from IsVerified
verify_from-cases saved [] = inl tt
verify_from-cases saved ((n, server) ∷ servers) =
    elim (check_server-cases (lookup n saved) server) [
      | inl e ↦
          let passes : check_server (lookup n saved) server ≡ sound tt =
            rw (e, check_server, server_eq_refl server) refl in
          elim (verify_from-cases saved servers) [
            | inl v ↦ inl (e, v)
            | inr (inl f) ↦ inr (
                inl (
                  then_sound (check_server (lookup n saved) server) (λ _. verify_from saved servers)
                    tt passes
                  ∙ f))
            | inr (inr f) ↦ inr (
                inr (
                  then_sound (check_server (lookup n saved) server) (λ _. verify_from saved servers)
                    tt passes
                  ∙ f))
          ]
      | inr (inl f) ↦ inr (inl (rw f refl))
      | inr (inr f) ↦ inr (inr (rw f refl))
    ]

lookup-IsVerified :
    (saved servers : Snapshot) (n : Text) (server : ServerSnapshot)
    → IsVerified saved servers
    → lookup n servers ≡ some server
    → lookup n saved ≡ some server
unfolding IsVerified lookup
lookup-IsVerified saved [] n server v h = absurd (cc h)
lookup-IsVerified saved ((m, s) ∷ servers) n server v h = elim (Bool-cases (text_eq m n)) [
  | inl e ↦
      let found = rw (lookup, e) at h in
      subst (λ k. lookup k saved ≡ some server) (text_eq_sound m n e) (v.0 ∙ found)
  | inr e ↦ lookup-IsVerified saved servers n server v.1 (rw (lookup, e) at h)
]

verify-IsVerified :
    (around : Around) (layers : List Layer) (names : List Text) (saved : Snapshot) {u : Unit {0}}
    → verify around saved layers names ≡ sound u
    → (current : Snapshot) × ((build around layers names ≡ sound current)
        × IsVerified (dict_from [] saved) current)
unfolding verify
verify-IsVerified around layers names saved h =
    let built = >>=-sound (build around layers names) _ _ h in
    (
      built.0,
      (
        built.1.0,
        (elim (verify_from-cases (dict_from [] saved) built.0) [
          | inl v ↦ v
          | inr (inl f) ↦ absurd (cc (f, built.1.1))
          | inr (inr f) ↦ absurd (cc (f, built.1.1))
        ]),
      ),
    )

loads :
    (around : Around) (file : File) (layers : List Layer) (names : List Text) (saved : Snapshot)
    → load around file ≡ sound saved
    → load_verified around file layers names
      ≡ (verify around saved layers names >>= λ _. sound saved)
unfolding load_verified load
loads around not_found layers names saved h = absurd (cc h)
loads around unreadable layers names saved h = absurd (cc h)
loads around not_object layers names saved h = absurd (cc h)
loads around (document fields) layers names saved h =
    then_sound (load around (document fields)) _ saved h

load_verified-load :
    (around : Around) (file : File) (layers : List Layer) (names : List Text) (saved : Snapshot)
    → is_empty names ≡ false
    → load_verified around file layers names ≡ sound saved
    → (loaded : Snapshot) × (load around file ≡ sound loaded)
unfolding load_verified load
load_verified-load around not_found layers names saved e h =
    absurd (cc (rw (load_verified, e) at h))
load_verified-load around unreadable layers names saved e h = absurd (cc h)
load_verified-load around not_object layers names saved e h = absurd (cc h)
load_verified-load around (document fields) layers names saved e h =
    let r = >>=-sound (load around (document fields)) _ saved h in (r.0, r.1.0)

-- When load_verified accepts a file for a profile that exposes servers, every server as the
-- layers describe it now is in the file, with the same command, arguments, environment and pin.
pub load_verified-IsVerified :
    (around : Around) (file : File) (layers : List Layer) (names : List Text) (saved : Snapshot)
    → is_empty names ≡ false
    → load_verified around file layers names ≡ sound saved
    → (current : Snapshot) × ((build around layers names ≡ sound current)
        × IsVerified (dict_from [] saved) current)
load_verified-IsVerified around file layers names saved e h =
    let l = load_verified-load around file layers names saved e h in
    let v =
      >>=-sound (verify around l.0 layers names) _ saved
        (sym (loads around file layers names l.0 l.1) ∙ h) in
    subst
      (λ s.
        (current : Snapshot) × ((build around layers names ≡ sound current)
          × IsVerified (dict_from [] s) current))
      (sound-injective v.1.1) (verify-IsVerified around layers names l.0 v.1.0)

-- A server whose description drifted from the saved one, or is not there, makes load_verified
-- refuse the file.
pub load_verified-drift :
    (around : Around) (file : File) (layers : List Layer) (names : List Text)
    (saved current : Snapshot) (n : Text) (server : ServerSnapshot)
    → load around file ≡ sound saved
    → build around layers names ≡ sound current
    → lookup n current ≡ some server
    → lookup n (dict_from [] saved) ≢ some server
    → (load_verified around file layers names ≡ fault unlisted)
      ⊎ (load_verified around file layers names ≡ fault drift)
unfolding verify
load_verified-drift around file layers names saved current n server l b h d =
    let verified : verify around saved layers names ≡ verify_from (dict_from [] saved) current =
      then_sound (build around layers names) _ current b in
    let whole = loads around file layers names saved l in
    elim (verify_from-cases (dict_from [] saved) current) [
      | inl v ↦ absurd (d (lookup-IsVerified (dict_from [] saved) current n server v h))
      | inr (inl f) ↦ inl (whole ∙ rw (verified ∙ f) refl)
      | inr (inr f) ↦ inr (whole ∙ rw (verified ∙ f) refl)
    ]
