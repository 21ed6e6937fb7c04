-- ===== src/EnvFile.antt =====
-- The environment file, home/rdm/envfile.py: its lines, the positions of keys, pending values.
pub mod Laws
mod Tests
use remote_devbox_mcp.Base.{
  ℕ, zero, suc, ◌+◌, Bool, true, false, not, ◌&&◌, ◌||◌, List, [], ◌∷◌, ◌++◌, map, Option, none,
  some, if◌then◌else◌, ◌==◌, leb, Text, codes, is_in, is_empty, is_digit, select, all, partition,
  split, join, strip, strip_left, spaces, Dict, lookup, contains, insert, erase, text_eq,
}
use mathlib.Core.List.{reverse}
use remote_devbox_mcp.Gateway.Snapshot.Build.{sort_pairs}

-- what `strip()` and the `\s` of `_KEY_LINE` take
abbrev pub whitespace : Text
whitespace = spaces

abbrev pub is_key_char : ℕ → Bool
is_key_char c = leb b'A' c && leb c b'Z' || leb b'a' c && leb c b'z' || is_digit c || c == b'_'

-- The key characters in front of a text, and the rest.
unfoldable pub span_key : Text → Text × Text
span_key [] = ([], [])
span_key (c ∷ s) =
    let rest = span_key s in if is_key_char c then (c ∷ rest.0, rest.1) else ([], c ∷ s)

abbrev pub before_equals : Text × Text → Option Text
before_equals ([], s) = none
before_equals (c ∷ k, []) = none
before_equals (c ∷ k, d ∷ s) = if d == b'=' then some (c ∷ k) else none

-- `_KEY_LINE.match(line)`: the key of a line
unfoldable pub key_of : Text → Option Text
key_of line = before_equals (span_key (strip_left whitespace line))

abbrev pub add_key : Option Text → ℕ → Dict ℕ → Dict ℕ
add_key none i d = d
add_key (some k) i d = if contains k d then d else insert k i d

-- `_index_key_lines`, from a position and what is found so far
unfoldable pub index_from : ℕ → Dict ℕ → List Text → Dict ℕ
index_from i d [] = d
index_from i d (line ∷ lines) = index_from (suc i) (add_key (key_of line) i d) lines

abbrev pub index_key_lines : List Text → Dict ℕ
index_key_lines = index_from 0 []

pub record EnvFile : Type 0 where
  pub lines : List Text
  pub key_pos : Dict ℕ
  pub pending : Dict Text

-- `text.replace("\r\n", "\n")`
unfoldable pub unix_lines : Text → Text
unix_lines [] = []
unix_lines (c ∷ []) = c ∷ []
unix_lines (c ∷ d ∷ s) =
    let rest = unix_lines (d ∷ s) in if c == 13 && d == 10 then rest else c ∷ rest

abbrev pub newline : Text
newline = 10 ∷ []

abbrev pub pop_empty : List Text → List Text
pop_empty [] = []
pop_empty ([] ∷ lines) = lines
pop_empty ((c ∷ s) ∷ lines) = (c ∷ s) ∷ lines

-- `load`, from the text that `read_text` gives for a file that is there
unfoldable pub load : Text → EnvFile
load text =
    let normalized = unix_lines text in
    let lines =
      if is_empty normalized
      then []
      else reverse (pop_empty (reverse (split newline normalized))) in
    record { lines = lines; key_pos = index_key_lines lines; pending = [] }

abbrev pub nth : ℕ → List Text → Text
nth i [] = []
nth zero (line ∷ lines) = line
nth (suc i) (line ∷ lines) = nth i lines

abbrev pub replace_at : ℕ → Text → List Text → List Text
replace_at i x [] = []
replace_at zero x (line ∷ lines) = x ∷ lines
replace_at (suc i) x (line ∷ lines) = line ∷ replace_at i x lines

abbrev pub remove_at : ℕ → List Text → List Text
remove_at i [] = []
remove_at zero (line ∷ lines) = lines
remove_at (suc i) (line ∷ lines) = line ∷ remove_at i lines

-- `line.split("=", 1)[1].strip()`
unfoldable pub value_of : Text → Text
value_of line = let (key, sep, value) = partition (codes "=") line in strip whitespace value

abbrev pub get_at : Option ℕ → Text → EnvFile → Option Text
get_at none key f = lookup key f.pending
get_at (some i) key f = some (value_of (nth i f.lines))

-- `get` without a default
unfoldable pub get : Text → EnvFile → Option Text
get key f = get_at (lookup key f.key_pos) key f

abbrev pub key_line : Text → Text → Text
key_line key value = key ++ (codes "=" ++ value)

abbrev pub set_at : Option ℕ → Text → Text → EnvFile → EnvFile
set_at none key value f = record f { pending = insert key value f.pending }
set_at (some i) key value f = record f { lines = replace_at i (key_line key value) f.lines }

unfoldable pub set : Text → Text → EnvFile → EnvFile
set key value f = set_at (lookup key f.key_pos) key value f

abbrev pub remove_line : Option ℕ → EnvFile → EnvFile
remove_line none f = f
remove_line (some i) f =
    let lines = remove_at i f.lines in record f { lines = lines; key_pos = index_key_lines lines }

unfoldable pub remove : Text → EnvFile → EnvFile
remove key f =
    let g = remove_line (lookup key f.key_pos) f in record g { pending = erase key g.pending }

abbrev pub own_value : Option Text → ℕ → Text → Dict ℕ → Dict Text → Dict Text
own_value none i line key_pos d = d
own_value (some key) i line key_pos d = elim (lookup key key_pos) [
  | none ↦ d
  | some j ↦ if j == i then insert key (value_of line) d else d
]

-- the loop of `as_map`
unfoldable pub map_from : ℕ → Dict ℕ → Dict Text → List Text → Dict Text
map_from i key_pos d [] = d
map_from i key_pos d (line ∷ lines) =
    map_from (suc i) key_pos (own_value (key_of line) i line key_pos d) lines

unfoldable pub update : Dict Text → Dict Text → Dict Text
update d [] = d
update d ((key, value) ∷ pairs) = update (insert key value d) pairs

unfoldable pub as_map : EnvFile → Dict Text
as_map f = update (map_from 0 f.key_pos [] f.lines) f.pending

abbrev pub canonical_order : List Text
canonical_order = map codes (
    "PROJECT_DIR" ∷ "TOOLCHAIN" ∷ "GIT_NAME" ∷ "GIT_EMAIL" ∷ "PREVIEW_ORIGIN" ∷ "UI_PORT"
    ∷ "COCKPIT_PORT" ∷ "SELF_AUTHED_PORTS" ∷ "ALLOWED_PORTS" ∷ "ALLOWED_PORT_RANGES"
    ∷ "DENIED_PORTS" ∷ "OPENCODE_MCP_PERMISSIONS" ∷ "SETUP_SCRIPT_B64" ∷ "PUBLIC_URL"
    ∷ "ACTIVE_PROFILE" ∷ "MCP_BEARER_TOKEN" ∷ "MCP_PUBLIC_TOKEN" ∷ "INGRESS_TOKEN" ∷ "VLESS_SUB_URL"
    ∷ "JOB_TIMEOUT_SECONDS" ∷ "TUNNEL_TOKEN" ∷ "TUNNEL_TAIL" ∷ [])

unfoldable pub pending_line : Dict Text → Text → Text
pending_line pending key = elim (lookup key pending) [ none ↦ [] | some value ↦ key_line key value ]

-- `sorted(set(self._pending) - _CANONICAL_KEYS)` with the values
unfoldable pub manual_lines : Dict Text → List Text
manual_lines pending =
    map (λ p. key_line p.0 p.1) (sort_pairs (select (λ p. not (is_in p.0 canonical_order)) pending))

unfoldable pub render : EnvFile → Text
render f =
    let canonical =
      map (pending_line f.pending) (select (λ key. contains key f.pending) canonical_order) in
    let lines = f.lines ++ (canonical ++ manual_lines f.pending) in
    if is_empty lines then [] else join newline lines ++ newline
