-- ===== src/Audit.antt =====
-- The audit log of the runner: home/rdm/runner/audit.py writes it, home/rdm/audit_verify.py checks it.
pub mod Laws
mod Tests
use remote_devbox_mcp.Base.{
  ℕ, zero, suc, ◌+◌, Bool, true, false, not, List, [], ◌∷◌, ◌++◌, Option, none, some, if◌then◌else◌,
  ltb, Text, codes, text_eq, length, any, map, ◌==◌, ◌||◌,
}

-- A line of the log; the event is its JSON text, in which only ASCII control characters are escaped.
pub record Entry : Type 0 where
  pub ts : Text
  pub event : Text
  pub prev : Text
  pub hash : Text

-- The digest of a line's time, event and `prev`.
abbrev pub Digest : Type 0
Digest = Text → Text → Text → Text

unfoldable pub zeros : ℕ → Text
zeros zero = []
zeros (suc n) = b'0' ∷ zeros n

unfoldable pub genesis : Text
genesis = zeros 64

-- The folder of the log: `audit.log`, `audit.log.1` and `audit.chain`.
pub record Folder : Type 0 where
  pub log : List Entry
  pub rotated : List Entry
  pub chain : Option Text

-- What the file system does: how large the log is, and whether renaming it, removing the chain,
-- appending the line and writing the chain succeed.
pub record Disk : Type 0 where
  pub is_large : Bool
  pub renames : Bool
  pub unlinks : Bool
  pub appends : Bool
  pub writes : Bool

unfoldable pub rotate : Disk → Folder → Folder
rotate d f =
    if not d.is_large
    then f
    else if not d.renames
    then f
    else record f { log = []; rotated = f.log; chain = if d.unlinks then none else f.chain }

abbrev pub prev_of : Option Text → Text
prev_of none = genesis
prev_of (some h) = h

unfoldable pub new_entry : Digest → Text → Text → Folder → Entry
new_entry digest ts event f =
    let prev = prev_of f.chain in
    record { ts = ts; event = event; prev = prev; hash = digest ts event prev }

unfoldable pub append_entry : Disk → Entry → Folder → Folder
append_entry d e f =
    if not d.appends
    then f
    else record f { log = f.log ++ e ∷ []; chain = if d.writes then some e.hash else f.chain }

-- `_audit`
unfoldable pub audit : Digest → Disk → Text → Text → Folder → Folder
audit digest d ts event f = let g = rotate d f in append_entry d (new_entry digest ts event g) g

-- A line as it is read: no JSON, no object with a hash, or an entry.
pub data Line : Type 0 where
  undecodable no_hash : Line
  line : Entry → Line

-- `ChainReport`: the number of entries, or that there is no log, or the line and what is wrong with it
pub data Report : Type 0 where
  no_log : Report
  intact : ℕ → Report
  no_json no_field tampered broken : ℕ → Report

-- `_rehash(entry) != entry["hash"]`
abbrev pub is_genuine : Digest → Entry → Bool
is_genuine digest e = text_eq (digest e.ts e.event e.prev) e.hash

-- the loop of `verify_file`, behind so many lines
unfoldable pub verify_from : Digest → ℕ → Text → List Line → Report
verify_from digest n expected [] = intact n
verify_from digest n expected (undecodable ∷ lines) = no_json (suc n)
verify_from digest n expected (no_hash ∷ lines) = no_field (suc n)
verify_from digest n expected (line e ∷ lines) =
    let rest = verify_from digest (suc n) e.hash lines in
    if not (is_genuine digest e)
    then tampered (suc n)
    else if not (text_eq e.prev expected)
    then broken (suc n)
    else rest

unfoldable pub verify_file : Digest → List Line → Report
verify_file digest = verify_from digest 0 genesis

-- What `splitlines()` splits at and `json.dumps(entry, ensure_ascii=False)` does not escape.
abbrev pub is_separator : ℕ → Bool
is_separator c = c == 133 || (c == 8232 || c == 8233)

-- The lines of an entry as `read_text().splitlines()` gives them: one, or the pieces of a JSON text
-- that is cut inside a string.
unfoldable pub pieces : Text → List Line
pieces [] = undecodable ∷ []
pieces (c ∷ s) = let rest = pieces s in if is_separator c then undecodable ∷ rest else rest

unfoldable pub lines_of : Entry → List Line
unfolding pieces
lines_of e = if any is_separator e.event then pieces e.event else line e ∷ []

unfoldable pub read_lines : List Entry → List Line
unfolding lines_of
read_lines [] = []
read_lines (e ∷ es) = lines_of e ++ read_lines es

-- `verify_file` on the path of the log. The log is made with its first line.
unfoldable pub verify_log : Digest → List Entry → Report
unfolding verify_file read_lines
verify_log digest [] = no_log
verify_log digest (e ∷ es) = verify_file digest (read_lines (e ∷ es))
