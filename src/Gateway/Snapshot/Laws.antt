-- ===== src/Gateway/Snapshot/Laws.antt =====
-- A snapshot that build of snapshot.py makes is read back as it was saved.
use remote_devbox_mcp.Base.{
  ◌≡◌, refl, sym, ap, subst, ◌∙◌, true, false, List, [], ◌∷◌, map, none, some, arith, Text, text_eq,
  is_in, any, all, contains, codes, text_eq_refl, text_eq_iff, Dict, lookup, HasUniqueKeys, All,
  Bool-cases, ||-eq-false, Option-cases, inl, inr,
}
use remote_devbox_mcp.Profiles.Validate.Fields.{has_duplicates}
use remote_devbox_mcp.Gateway.Snapshot.Data.{
  string, text, array, object, Entry, entry, no_entry, ServerSnapshot, Pin, Snapshot, Checked,
  sound, fault, ◌>>=◌, Around,
}
use remote_devbox_mcp.Gateway.Snapshot.Build.{
  sort_pairs, specifier_of, pin_server, check_type, command_of, environment_of, server_snapshot,
  is_disabled, find_server, build_from,
}
use remote_devbox_mcp.Gateway.Snapshot.Load.{
  field_json, has_fields, pin_json, server_json, entries_json, snapshot_json, parts_of, env_of,
  pin_of, pins_of, checked_server, server_from_json, servers_from_json, load, check_server,
  verify_from,
}
use remote_devbox_mcp.Gateway.Snapshot.Dicts.{
  strings-map, string_fields-map, sort_pairs_idem, dict_from_unique, server_eq_refl,
}

-- The pin of a server holds the digest of its sorted description.
IsPinned : Around → ServerSnapshot → Type 0
IsPinned around s =
    (sort_pairs s.env ≡ s.env)
    × (text_eq (around.digest s.command s.args s.env) s.pins.sha256 ≡ true)

parts_of-strings :
    (command : Text) (args : List Text)
    → parts_of (some (text command)) (some (array (map string args))) ≡ sound (command, args)
unfolding parts_of
parts_of-strings command args = rw (parts_of, strings-map args) refl

env_of-pairs : (env : Dict Text) → env_of (some (object (map field_json env))) ≡ sound env
unfolding env_of
env_of-pairs env = rw (env_of, string_fields-map env) refl

pins_of-pin_json : (pin : Pin) → pins_of (some (object (pin_json pin))) ≡ sound pin
unfolding pins_of pin_of pin_json has_fields text_eq lookup all contains
pins_of-pin_json pin = refl

checked_server-IsPinned :
    (around : Around) (s : ServerSnapshot)
    → IsPinned around s
    → checked_server around s.command s.args (sort_pairs s.env) s.pins ≡ sound s
unfolding checked_server IsPinned
checked_server-IsPinned around s h = rw (h.0, h.1) refl

pub then_sound {ℓ κ} :
    {A : Type ℓ} {B : Type κ} (r : Checked A) (f : A → Checked B) (a : A)
    → r ≡ sound a
    → (r >>= f) ≡ f a
then_sound r f a h = rw h refl

server_from_json-server_json :
    (around : Around) (s : ServerSnapshot)
    → IsPinned around s
    → server_from_json around (server_json s) ≡ sound s
unfolding server_from_json server_json has_fields text_eq lookup all contains
server_from_json-server_json around s h =
    then_sound (parts_of (some (text s.command)) (some (array (map string s.args)))) _ _
      (parts_of-strings s.command s.args)
    ∙ (then_sound (env_of (some (object (map field_json s.env)))) _ _ (env_of-pairs s.env)
        ∙ (then_sound (pins_of (some (object (pin_json s.pins))))
              (checked_server around s.command s.args (sort_pairs s.env)) _
              (pins_of-pin_json s.pins)
            ∙ checked_server-IsPinned around s h))

-- The value behind `sound`, or the one given.
value {ℓ} : {A : Type ℓ} → A → Checked A → A
value a (sound b) = b
value a (fault e) = a

pub sound-injective {ℓ} : {A : Type ℓ} {a b : A} → sound a ≡ sound b → a ≡ b
unfolding value
sound-injective {a = a} h = ap (value a) h

-- A result that is sound comes from a sound first step.
pub >>=-sound {ℓ κ} :
    {A : Type ℓ} {B : Type κ} (r : Checked A) (f : A → Checked B) (b : B)
    → (r >>= f) ≡ sound b
    → (a : A) × ((r ≡ sound a) × (f a ≡ sound b))
>>=-sound (sound a) f b h = (a, (refl, h))
>>=-sound (fault e) f b h = absurd (cc h)

pin_server-IsPinned :
    (around : Around) (command : Text) (args : List Text) (env : Dict Text) (s : ServerSnapshot)
    → pin_server around command args env ≡ sound s
    → IsPinned around s
unfolding pin_server IsPinned
pin_server-IsPinned around command args env s h =
    let r = >>=-sound (specifier_of around command args) _ s h in
    subst (IsPinned around) (sound-injective r.1.1)
      (sort_pairs_idem env, text_eq_refl (around.digest command args (sort_pairs env)))

server_snapshot-IsPinned :
    (around : Around) (e : Entry) (s : ServerSnapshot)
    → server_snapshot around e ≡ sound s
    → IsPinned around s
unfolding server_snapshot
server_snapshot-IsPinned around no_entry s h = absurd (cc h)
server_snapshot-IsPinned around (entry e) s h =
    let local = >>=-sound (check_type (lookup (codes "type") e)) _ s h in
    let parts = >>=-sound (command_of (lookup (codes "command") e)) _ s local.1.1 in
    let env = >>=-sound (environment_of (lookup (codes "environment") e)) _ s parts.1.1 in
    pin_server-IsPinned around parts.0.0 parts.0.1 env.0 s env.1.1

find_server-IsPinned :
    (around : Around) (merged : Dict Entry) (name : Text) (s : ServerSnapshot)
    → find_server around merged name ≡ sound s
    → IsPinned around s
unfolding find_server
find_server-IsPinned around merged name s h = elim (Option-cases (lookup name merged)) [
  | inl e ↦ absurd (cc (rw (find_server, e) at h))
  | inr (found, e) ↦ elim (Bool-cases (is_disabled found)) [
    | inl d ↦ absurd (cc (rw (find_server, e, d) at h))
    | inr d ↦ server_snapshot-IsPinned around found s (rw (find_server, e, d) at h)
  ]
]

-- What the loop of `build` gives: the servers under the names, in their order, each pinned.
pub IsBuilt : Around → List Text → Snapshot → Type 0
IsBuilt around [] [] = Unit
IsBuilt around [] (p ∷ s) = ⊥
IsBuilt around (n ∷ names) [] = ⊥
IsBuilt around (n ∷ names) (p ∷ s) = (p.0 ≡ n) × (IsPinned around p.1 × IsBuilt around names s)

pub build_from-IsBuilt :
    (around : Around) (merged : Dict Entry) (names : List Text) (s : Snapshot)
    → build_from around merged names ≡ sound s
    → IsBuilt around names s
unfolding build_from IsBuilt
build_from-IsBuilt around merged [] s h = subst (IsBuilt around []) (sound-injective h) tt
build_from-IsBuilt around merged (n ∷ names) s h =
    let first = >>=-sound (find_server around merged n) _ s h in
    let rest = >>=-sound (build_from around merged names) _ s first.1.1 in
    subst (IsBuilt around (n ∷ names)) (sound-injective rest.1.1) (
      refl,
      (
        find_server-IsPinned around merged n first.0 first.1.0,
        build_from-IsBuilt around merged names rest.0 rest.1.0,
      ),
    )

servers_from_json-entries_json :
    (around : Around) (names : List Text) (s : Snapshot)
    → IsBuilt around names s
    → servers_from_json around (entries_json s) ≡ sound s
unfolding servers_from_json entries_json IsBuilt
servers_from_json-entries_json around [] [] h = refl
servers_from_json-entries_json around [] (p ∷ s) h = absurd h
servers_from_json-entries_json around (n ∷ names) [] h = absurd h
servers_from_json-entries_json around (n ∷ names) ((m, server) ∷ s) h =
    then_sound (server_from_json around (server_json server)) _ server
      (server_from_json-server_json around server h.1.0)
    ∙ then_sound (servers_from_json around (entries_json s)) _ s
        (servers_from_json-entries_json around names s h.1.1)

-- The names of the profile differ, so the servers' names differ.
lookup-IsBuilt :
    (around : Around) (names : List Text) (s : Snapshot) (n : Text)
    → IsBuilt around names s
    → is_in n names ≡ false
    → lookup n s ≡ none
unfolding IsBuilt is_in any lookup
lookup-IsBuilt around [] [] n h i = refl
lookup-IsBuilt around [] (p ∷ s) n h i = absurd h
lookup-IsBuilt around (m ∷ names) [] n h i = absurd h
lookup-IsBuilt around (m ∷ names) ((k, server) ∷ s) n h i =
    ground (arith, text_eq_iff n m, text_eq_iff k n, h.0, lookup-IsBuilt around names s n h.1.1)

pub IsBuilt-HasUniqueKeys :
    (around : Around) (names : List Text) (s : Snapshot)
    → IsBuilt around names s
    → has_duplicates names ≡ false
    → HasUniqueKeys s
unfolding IsBuilt has_duplicates
IsBuilt-HasUniqueKeys around [] [] h d = tt
IsBuilt-HasUniqueKeys around [] (p ∷ s) h d = absurd h
IsBuilt-HasUniqueKeys around (m ∷ names) [] h d = absurd h
IsBuilt-HasUniqueKeys around (m ∷ names) ((k, server) ∷ s) h d =
    let parts = ||-eq-false d in
    (
      subst (λ j. lookup j s ≡ none) (sym h.0) (lookup-IsBuilt around names s m h.1.1 parts.0),
      IsBuilt-HasUniqueKeys around names s h.1.1 parts.1,
    )

lookup-entries_json :
    (n : Text) (s : Snapshot) → lookup n s ≡ none → lookup n (entries_json s) ≡ none
unfolding lookup entries_json
lookup-entries_json n [] h = refl
lookup-entries_json n ((k, server) ∷ s) h = ground (arith, lookup-entries_json n s)

entries_json-HasUniqueKeys : (s : Snapshot) → HasUniqueKeys s → HasUniqueKeys (entries_json s)
unfolding entries_json
entries_json-HasUniqueKeys [] u = tt
entries_json-HasUniqueKeys ((k, server) ∷ s) u =
    (lookup-entries_json k s u.0, entries_json-HasUniqueKeys s u.1)

pub load-snapshot_json :
    (around : Around) (names : List Text) (s : Snapshot)
    → IsBuilt around names s
    → HasUniqueKeys s
    → load around (snapshot_json s) ≡ sound s
unfolding load snapshot_json lookup text_eq
load-snapshot_json around names s h u =
    rw (dict_from_unique [] (entries_json s) (entries_json-HasUniqueKeys s u))
      (servers_from_json-entries_json around names s h)

-- Verifying servers that are found in the saved snapshot as they are.
pub verify_from-found :
    (saved servers : Snapshot)
    → All (λ (p : Text × ServerSnapshot). lookup p.0 saved ≡ some p.1) servers
    → verify_from saved servers ≡ sound tt
unfolding verify_from check_server
verify_from-found saved [] h = refl
verify_from-found saved ((n, server) ∷ servers) h =
    rw (verify_from, h.0, check_server, server_eq_refl server) (verify_from-found saved servers h.1)
