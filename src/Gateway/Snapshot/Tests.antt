-- ===== src/Gateway/Snapshot/Tests.antt =====
-- A snapshot of one server, saved, read back and compared with changed layers.
use remote_devbox_mcp.Base.{
  ◌∙◌, ap, ℕ, ◌≡◌, ◌≢◌, ◌⊎◌, refl, true, false, [], ◌∷◌, ◌++◌, some, none, codes, List, Text,
  text_eq, lookup, is_in, any, has_byte, starts_with, strip_prefix?, lower, insert, all, contains,
}
use remote_devbox_mcp.Profiles.Validate.Fields.{has_duplicates}
use remote_devbox_mcp.Gateway.Snapshot.Data.{
  string, text, array, object, entry, Layer, described, missing, no_servers, ServerSnapshot,
  Snapshot, sound, fault, unlisted, drift, Around,
}
use remote_devbox_mcp.Gateway.Snapshot.Build.{
  insert_all, merge_from, merged_layers, strip_suffix?, without_suffix, runner_name, package_spec,
  strings, string_fields, sort_pairs, insert_pair, spec_body, pinned_spec, specifier_of, command_of,
  environment_of, check_type, pin_server, server_snapshot, is_disabled, find_server, build_from,
  build,
}
use remote_devbox_mcp.Gateway.Snapshot.Load.{
  dict_from, load, save_snapshot, snapshot_json, entries_json, server_json, pin_json, load_verified,
  has_fields, parts_of, env_of, pin_of, pins_of, checked_server, server_from_json,
  servers_from_json,
}
use remote_devbox_mcp.Gateway.Snapshot.Verified.{
  IsVerified, load_verified-save_snapshot, load_verified-IsVerified, load_verified-drift,
}

abbrev join_all : List Text → Text
join_all [] = []
join_all (t ∷ ts) = t ++ join_all ts

-- The text itself as its digest.
abbrev plain : Around
plain = record { base_name = λ path. path; digest = λ command args env. command ++ join_all args }

abbrev files_layer : Text → Layer
files_layer version = described (
    (
      codes "files",
      entry (
          (codes "type", text (codes "local"))
          ∷ (
            codes "command",
            array (
                string (codes "npx")
                ∷ string (codes "-y")
                ∷ string (codes "files@" ++ version)
                ∷ []),
          )
          ∷ (codes "environment", object ((codes "HOME", string (codes "h")) ∷ []))
          ∷ []),
    )
    ∷ [])

abbrev layers_of : Text → List Layer
layers_of version = missing ∷ files_layer version ∷ no_servers ∷ []

abbrev names : List Text
names = codes "files" ∷ []

abbrev pinned : Text → ServerSnapshot
pinned version = record {
  command = codes "npx";
  args = codes "-y" ∷ (codes "files@" ++ version) ∷ [];
  env = (codes "HOME", codes "h") ∷ [];
  pins = record { specifier = codes "files@" ++ version; sha256 = codes "npx-yfiles@" ++ version };
}

abbrev pinned_snapshot : Text → Snapshot
pinned_snapshot version = (codes "files", pinned version) ∷ []

build_run : (c : ℕ) → build plain (layers_of (c ∷ [])) names ≡ sound (pinned_snapshot (c ∷ []))
unfolding build insert insert_all merge_from merged_layers lookup text_eq is_disabled find_server
    build_from server_snapshot check_type command_of environment_of strings string_fields pin_server
    specifier_of runner_name without_suffix strip_suffix? strip_prefix? lower is_in any package_spec
    starts_with pinned_spec has_byte spec_body sort_pairs insert_pair
build_run c = refl

load_run :
    load plain (snapshot_json (pinned_snapshot (codes "1"))) ≡ sound (pinned_snapshot (codes "1"))
unfolding load lookup text_eq snapshot_json entries_json server_json pin_json dict_from insert
    servers_from_json server_from_json has_fields all contains parts_of env_of pins_of pin_of
    checked_server strings string_fields sort_pairs insert_pair
load_run = refl

saved_run :
    save_snapshot plain (layers_of (codes "1")) names
    ≡ sound (snapshot_json (pinned_snapshot (codes "1")))
unfolding save_snapshot
saved_run = rw (save_snapshot, build_run b'1') refl

load_verified-save_snapshot_example :
    load_verified plain (snapshot_json (pinned_snapshot (codes "1"))) (layers_of (codes "1")) names
    ≡ build plain (layers_of (codes "1")) names
unfolding has_duplicates is_in any
load_verified-save_snapshot_example =
    load_verified-save_snapshot plain (layers_of (codes "1")) names
      (snapshot_json (pinned_snapshot (codes "1"))) refl saved_run

load_verified-IsVerified_example :
    (current : Snapshot) × ((build plain (layers_of (codes "1")) names ≡ sound current)
      × IsVerified (dict_from [] (pinned_snapshot (codes "1"))) current)
load_verified-IsVerified_example =
    load_verified-IsVerified plain (snapshot_json (pinned_snapshot (codes "1")))
      (layers_of (codes "1")) names (pinned_snapshot (codes "1")) refl
      (load_verified-save_snapshot_example ∙ build_run b'1')

changed :
    lookup (codes "files") (dict_from [] (pinned_snapshot (codes "1"))) ≢ some (pinned (codes "2"))
unfolding dict_from insert lookup text_eq
changed e =
    let same : true ≡ false =
      ap (λ o. elim o [ none ↦ false | some s ↦ text_eq s.pins.specifier (codes "files@1") ]) e in
    cc same

load_verified-drift_example :
    (load_verified plain (snapshot_json (pinned_snapshot (codes "1"))) (layers_of (codes "2")) names
      ≡ fault unlisted)
    ⊎ (load_verified plain
          (snapshot_json (pinned_snapshot (codes "1")))
          (layers_of (codes "2"))
          names
        ≡ fault drift)
unfolding lookup text_eq
load_verified-drift_example =
    load_verified-drift plain (snapshot_json (pinned_snapshot (codes "1"))) (layers_of (codes "2"))
      names (pinned_snapshot (codes "1")) (pinned_snapshot (codes "2")) (codes "files")
      (pinned (codes "2")) load_run (build_run b'2') refl changed
