-- ===== src/Gateway/Snapshot/Build.antt =====
-- `build` of snapshot.py: the configuration's layers to a snapshot.
use remote_devbox_mcp.Base.{
  Bool, true, false, not, ◌&&◌, ◌||◌, List, [], ◌∷◌, Option, none, some, if◌then◌else◌, ◌==◌, ltb,
  Text, codes, text_eq, is_in, has_byte, starts_with, strip_prefix?, lower, Dict, lookup, insert,
}
use mathlib.Core.List.{reverse}
use remote_devbox_mcp.Gateway.Snapshot.Data.{
  Leaf, string, other, Value, null, boolean, text, array, object, Entry, entry, no_entry, Layer,
  missing, undecodable, no_object, no_servers, malformed, described, ServerSnapshot, Snapshot,
  bad_layer, not_disclosed, bad_entry, is_remote, bad_kind, bad_command, bad_env, no_package,
  unpinned, Checked, sound, fault, ◌>>=◌, Around,
}

unfoldable pub insert_all : Dict Entry → Dict Entry → Dict Entry
insert_all [] merged = merged
insert_all ((name, e) ∷ es) merged = insert_all es (insert name e merged)

-- `_merged_layers`, from what is merged so far
unfoldable pub merge_from : Dict Entry → List Layer → Checked (Dict Entry)
unfolding insert_all
merge_from merged [] = sound merged
merge_from merged (missing ∷ layers) = merge_from merged layers
merge_from merged (undecodable ∷ layers) = fault bad_layer
merge_from merged (no_object ∷ layers) = fault bad_layer
merge_from merged (no_servers ∷ layers) = merge_from merged layers
merge_from merged (malformed ∷ layers) = fault bad_layer
merge_from merged (described es ∷ layers) = merge_from (insert_all es merged) layers

unfoldable pub merged_layers : List Layer → Checked (Dict Entry)
unfolding merge_from
merged_layers = merge_from []

unfoldable pub strip_suffix? : Text → Text → Option Text
strip_suffix? suffix name = elim (strip_prefix? (reverse suffix) (reverse name)) [
  | none ↦ none
  | some rest ↦ some (reverse rest)
]

unfoldable pub without_suffix : List Text → Text → Text
unfolding strip_suffix?
without_suffix [] name = name
without_suffix (suffix ∷ suffixes) name =
    let rest = without_suffix suffixes name in
    elim (strip_suffix? suffix name) [ none ↦ rest | some stem ↦ stem ]

unfoldable pub runner_name : Around → Text → Text
unfolding without_suffix
runner_name around command =
    without_suffix (codes ".exe" ∷ codes ".cmd" ∷ codes ".bat" ∷ [])
      (lower (around.base_name command))

abbrev pub package_runners : List Text
package_runners = codes "npx" ∷ codes "uvx" ∷ []

unfoldable pub package_spec : List Text → Checked Text
package_spec [] = fault no_package
package_spec (arg ∷ args) =
    let rest = package_spec args in if not (starts_with (codes "-") arg) then sound arg else rest

-- `all(isinstance(part, str) …)`: the strings, when all are
unfoldable pub strings : List Leaf → Option (List Text)
strings [] = some []
strings (string s ∷ xs) = elim (strings xs) [ none ↦ none | some rest ↦ some (s ∷ rest) ]
strings (other ∷ xs) = none

unfoldable pub string_fields : Dict Leaf → Option (Dict Text)
string_fields [] = some []
string_fields ((k, string s) ∷ xs) = elim (string_fields xs) [
  | none ↦ none
  | some rest ↦ some ((k, s) ∷ rest)
]
string_fields ((k, other) ∷ xs) = none

-- `sorted(environment.items())`; the keys differ, so the values never decide
unfoldable pub text_leb : Text → Text → Bool
text_leb [] t = true
text_leb (a ∷ s) [] = false
text_leb (a ∷ s) (b ∷ t) = ltb a b || a == b && text_leb s t

unfoldable pub insert_pair : Text × Text → Dict Text → Dict Text
unfolding text_leb
insert_pair p [] = p ∷ []
insert_pair p (q ∷ qs) =
    let rest = insert_pair p qs in if text_leb p.0 q.0 then p ∷ q ∷ qs else q ∷ rest

unfoldable pub sort_pairs : Dict Text → Dict Text
unfolding insert_pair
sort_pairs [] = []
sort_pairs (p ∷ ps) = insert_pair p (sort_pairs ps)

-- `specifier[1:] if specifier.startswith("@") else specifier`
unfoldable pub spec_body : Text → Text
spec_body [] = []
spec_body (c ∷ s) = if c == b'@' then s else c ∷ s

unfoldable pub pinned_spec : Text → Checked Text
pinned_spec specifier =
    if has_byte b'@' (spec_body specifier) then sound specifier else fault unpinned

unfoldable pub specifier_of : Around → Text → List Text → Checked Text
unfolding package_spec pinned_spec runner_name
specifier_of around command args =
    if is_in (runner_name around command) package_runners
    then (package_spec args >>= pinned_spec)
    else sound command

unfoldable pub command_of : Option Value → Checked (Text × List Text)
unfolding strings
command_of (some (array parts)) = elim (strings parts) [
  | none ↦ fault bad_command
  | some [] ↦ fault bad_command
  | some (command ∷ args) ↦ sound (command, args)
]
command_of _ = fault bad_command

unfoldable pub environment_of : Option Value → Checked (Dict Text)
unfolding string_fields
environment_of none = sound []
environment_of (some null) = sound []
environment_of (some (object fields)) = elim (string_fields fields) [
  | none ↦ fault bad_env
  | some env ↦ sound env
]
environment_of (some _) = fault bad_env

-- the two tests on `type`
unfoldable pub check_type : Option Value → Checked (Unit {0})
check_type (some (text t)) =
    if text_eq t (codes "remote")
    then fault is_remote
    else if text_eq t (codes "local")
    then sound tt
    else fault bad_kind
check_type _ = fault bad_kind

unfoldable pub pin_server : Around → Text → List Text → Dict Text → Checked ServerSnapshot
unfolding specifier_of sort_pairs
pin_server around command args environment = do
  specifier ← specifier_of around command args
  sound (record {
    command = command;
    args = args;
    env = sort_pairs environment;
    pins = record {
      specifier = specifier;
      sha256 = around.digest command args (sort_pairs environment);
    };
  })

unfoldable pub server_snapshot : Around → Entry → Checked ServerSnapshot
unfolding check_type command_of environment_of pin_server
server_snapshot around no_entry = fault bad_entry
server_snapshot around (entry e) = do
  local ← check_type (lookup (codes "type") e)
  (command, args) ← command_of (lookup (codes "command") e)
  environment ← environment_of (lookup (codes "environment") e)
  pin_server around command args environment

-- `entry.get("enabled") is False`
unfoldable pub is_disabled : Entry → Bool
is_disabled no_entry = false
is_disabled (entry e) = elim (lookup (codes "enabled") e) [ some (boolean b) ↦ not b | _ ↦ false ]

unfoldable pub find_server : Around → Dict Entry → Text → Checked ServerSnapshot
unfolding is_disabled server_snapshot
find_server around merged name = elim (lookup name merged) [
  | none ↦ fault not_disclosed
  | some e ↦ if is_disabled e then fault not_disclosed else server_snapshot around e
]

-- the loop over `exposed_mcps`
unfoldable pub build_from : Around → Dict Entry → List Text → Checked Snapshot
unfolding find_server
build_from around merged [] = sound []
build_from around merged (name ∷ names) = do
  server ← find_server around merged name
  rest ← build_from around merged names
  sound ((name, server) ∷ rest)

-- `build`: the names are those of `profile.exposed_mcps`
unfoldable pub build : Around → List Layer → List Text → Checked Snapshot
unfolding merged_layers build_from
build around layers names = merged_layers layers >>= λ merged. build_from around merged names
