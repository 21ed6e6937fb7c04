-- ===== src/Gateway/Snapshot/Load.antt =====
-- `save`, `load`, `verify` and `load_verified` of snapshot.py.
use remote_devbox_mcp.Base.{
  Bool, true, false, ◌&&◌, List, [], ◌∷◌, map, Option, none, some, if◌then◌else◌, ◌==◌, Text, codes,
  text_eq, is_empty, length, all, contains, Dict, lookup, insert,
}
use remote_devbox_mcp.Gateway.Snapshot.Data.{
  Leaf, string, Value, text, array, object, Entry, entry, no_entry, Layer, entries, File, not_found,
  unreadable, not_object, document, Pin, ServerSnapshot, Snapshot, bad_entry, bad_command, bad_env,
  bad_fields, bad_pins, integrity, bad_file, no_file, unlisted, drift, Checked, sound, fault, ◌>>=◌,
  Around,
}
use remote_devbox_mcp.Gateway.Snapshot.Build.{strings, string_fields, sort_pairs, build}

-- `_snapshot_json`
unfoldable pub pin_json : Pin → Dict Leaf
pin_json pin = (codes "specifier", string pin.specifier) ∷ (codes "sha256", string pin.sha256) ∷ []

abbrev pub field_json : Text × Text → Text × Leaf
field_json (k, v) = (k, string v)

unfoldable pub server_json : ServerSnapshot → Entry
unfolding pin_json
server_json server = entry (
    (codes "command", text server.command)
    ∷ (codes "args", array (map string server.args))
    ∷ (codes "env", object (map field_json server.env))
    ∷ (codes "pins", object (pin_json server.pins))
    ∷ [])

unfoldable pub entries_json : Snapshot → Dict Entry
unfolding server_json
entries_json [] = []
entries_json ((name, server) ∷ servers) = (name, server_json server) ∷ entries_json servers

-- `dict(pairs)`: the last value of a key, at the place of the first
unfoldable pub dict_from {ℓ} : {V : Type ℓ} → Dict V → Dict V → Dict V
dict_from d [] = d
dict_from d ((k, v) ∷ pairs) = dict_from (insert k v d) pairs

-- what `save` writes, as `load` reads it
unfoldable pub snapshot_json : Snapshot → File
unfolding entries_json dict_from
snapshot_json snapshot =
    document ((codes "servers", entries (dict_from [] (entries_json snapshot))) ∷ [])

-- `save_snapshot`: the file that is written
unfoldable pub save_snapshot : Around → List Layer → List Text → Checked File
unfolding snapshot_json
save_snapshot around layers names =
    build around layers names >>= λ snapshot. sound (snapshot_json snapshot)

-- `set(entry) == fields`: all of the fields and no more
unfoldable pub has_fields {ℓ} : {V : Type ℓ} → List Text → Dict V → Bool
unfolding all contains
has_fields fields d = all (λ f. contains f d) fields && length d == length fields

abbrev pub server_fields : List Text
server_fields = codes "command" ∷ codes "args" ∷ codes "env" ∷ codes "pins" ∷ []

abbrev pub pin_fields : List Text
pin_fields = codes "specifier" ∷ codes "sha256" ∷ []

unfoldable pub parts_of : Option Value → Option Value → Checked (Text × List Text)
parts_of (some (text command)) (some (array args)) = elim (strings args) [
  | none ↦ fault bad_command
  | some xs ↦ sound (command, xs)
]
parts_of _ _ = fault bad_command

unfoldable pub env_of : Option Value → Checked (Dict Text)
env_of (some (object fields)) = elim (string_fields fields) [
  | none ↦ fault bad_env
  | some env ↦ sound env
]
env_of _ = fault bad_env

unfoldable pub pin_of : Option Leaf → Option Leaf → Checked Pin
pin_of (some (string specifier)) (some (string sha256)) =
    sound (record { specifier = specifier; sha256 = sha256 })
pin_of _ _ = fault bad_pins

unfoldable pub pins_of : Option Value → Checked Pin
unfolding has_fields pin_of
pins_of (some (object fields)) =
    if has_fields pin_fields fields
    then pin_of (lookup (codes "specifier") fields) (lookup (codes "sha256") fields)
    else fault bad_pins
pins_of _ = fault bad_pins

-- the integrity check, and the result
unfoldable pub checked_server : Around → Text → List Text → Dict Text → Pin → Checked ServerSnapshot
checked_server around command args env pins =
    if text_eq (around.digest command args env) pins.sha256
    then sound (record { command = command; args = args; env = env; pins = pins })
    else fault integrity

-- `_server_from_json`
unfoldable pub server_from_json : Around → Entry → Checked ServerSnapshot
unfolding has_fields parts_of env_of pins_of checked_server
server_from_json around no_entry = fault bad_entry
server_from_json around (entry e) =
    if has_fields server_fields e
    then (do
      (command, args) ← parts_of (lookup (codes "command") e) (lookup (codes "args") e)
      env ← env_of (lookup (codes "env") e)
      pins ← pins_of (lookup (codes "pins") e)
      checked_server around command args (sort_pairs env) pins)
    else fault bad_fields

unfoldable pub servers_from_json : Around → Dict Entry → Checked Snapshot
unfolding server_from_json
servers_from_json around [] = sound []
servers_from_json around ((name, e) ∷ es) = do
  server ← server_from_json around e
  rest ← servers_from_json around es
  sound ((name, server) ∷ rest)

unfoldable pub load : Around → File → Checked Snapshot
unfolding servers_from_json has_fields
load around not_found = fault bad_file
load around unreadable = fault bad_file
load around not_object = fault bad_file
load around (document fields) = elim (lookup (codes "servers") fields) [
  | some (entries es) ↦ if length fields == 1 then servers_from_json around es else fault bad_file
  | _ ↦ fault bad_file
]

-- `==` on two descriptions
unfoldable pub texts_eq : List Text → List Text → Bool
texts_eq [] [] = true
texts_eq (a ∷ s) (b ∷ t) = text_eq a b && texts_eq s t
texts_eq _ _ = false

unfoldable pub pairs_eq : Dict Text → Dict Text → Bool
pairs_eq [] [] = true
pairs_eq (p ∷ s) (q ∷ t) = text_eq p.0 q.0 && text_eq p.1 q.1 && pairs_eq s t
pairs_eq _ _ = false

unfoldable pub server_eq : ServerSnapshot → ServerSnapshot → Bool
unfolding texts_eq pairs_eq
server_eq s t =
    text_eq s.command t.command
    && texts_eq s.args t.args
    && pairs_eq s.env t.env
    && (text_eq s.pins.specifier t.pins.specifier && text_eq s.pins.sha256 t.pins.sha256)

unfoldable pub check_server : Option ServerSnapshot → ServerSnapshot → Checked (Unit {0})
unfolding server_eq
check_server none server = fault unlisted
check_server (some pinned) server = if server_eq pinned server then sound tt else fault drift

-- the loop of `verify`
unfoldable pub verify_from : Snapshot → Snapshot → Checked (Unit {0})
unfolding check_server
verify_from saved [] = sound tt
verify_from saved ((name, server) ∷ servers) =
    check_server (lookup name saved) server >>= λ _. verify_from saved servers

unfoldable pub verify : Around → Snapshot → List Layer → List Text → Checked (Unit {0})
unfolding verify_from dict_from
verify around saved layers names =
    build around layers names >>= λ current. verify_from (dict_from [] saved) current

-- `load_verified`; a file that does not exist is `not_found`
unfoldable pub load_verified : Around → File → List Layer → List Text → Checked Snapshot
unfolding load verify
load_verified around not_found layers names = if is_empty names then sound [] else fault no_file
load_verified around file layers names = do
  snapshot ← load around file
  same ← verify around snapshot layers names
  sound snapshot
