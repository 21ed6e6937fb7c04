-- ===== src/Cockpit/Auth.antt =====
-- auth.py of home/rdm/ui: bootstrap token, sessions, the check of Host and Origin.
use remote_devbox_mcp.Base.{
  ℕ, ◌+◌, ◌-◌, Bool, true, false, not, ◌&&◌, List, [], ◌∷◌, ◌++◌, Option, none, some, if◌then◌else◌,
  ltb, Text, codes, text_eq, is_in, lower, Dict, lookup, insert, digits, partition, split, strip,
}

-- The bootstrap file: none, one that is no JSON, or its token and expiry, where they are as
-- expected. Times are whole seconds.
pub data Bootstrap : Type 0 where
  absent undecodable : Bootstrap
  stored : Option Text → Option ℕ → Bootstrap

abbrev pub bootstrap_ttl : ℕ
bootstrap_ttl = 30

-- `write_bootstrap`, for a fresh token
abbrev pub write_bootstrap : Text → ℕ → Bootstrap
write_bootstrap token now = stored (some token) (some (now + bootstrap_ttl))

-- `consume_bootstrap`: the answer and the file afterwards
unfoldable pub consume_bootstrap : Text → ℕ → Bootstrap → Bool × Bootstrap
consume_bootstrap token now absent = (false, absent)
consume_bootstrap token now undecodable = (false, undecodable)
consume_bootstrap token now (stored (some t) (some expiry)) =
    (text_eq t token && ltb now expiry, absent)
consume_bootstrap token now (stored _ _) = (false, absent)

-- `SessionStore.verify_session`
abbrev pub verify_session : Text → List Text → Bool
verify_session token sessions = is_in token sessions

-- Header fields in the order of the request.
abbrev pub Headers : Type 0
Headers = List (Text × Text)

abbrev upper_byte : ℕ → ℕ
upper_byte c = if ltb 96 c && ltb c 123 then c - 32 else c

-- `name.capitalize()`
abbrev pub capitalize : Text → Text
capitalize [] = []
capitalize (c ∷ s) = upper_byte c ∷ lower s

-- `_header_map`: a later field replaces an earlier one
unfoldable pub header_map_from : Dict Text → Headers → Dict Text
header_map_from d [] = d
header_map_from d ((name, value) ∷ hs) = header_map_from (insert (capitalize name) value d) hs

abbrev pub value_or : Option Text → Text → Text
value_or none default = default
value_or (some v) default = v

-- `self.headers.get(name, "")`: the first field of the name, whatever its case
unfoldable pub header_value : Text → Headers → Text
header_value name [] = []
header_value name ((n, value) ∷ hs) =
    let rest = header_value name hs in if text_eq (lower n) (lower name) then value else rest

abbrev pub hosts : ℕ → List Text
hosts port = (codes "127.0.0.1:" ++ digits port) ∷ (codes "localhost:" ++ digits port) ∷ []

abbrev pub origins : ℕ → List Text
origins port =
    (codes "http://127.0.0.1:" ++ digits port) ∷ (codes "http://localhost:" ++ digits port) ∷ []

-- `host_origin_ok`
unfoldable pub host_origin_ok : Dict Text → ℕ → Bool
host_origin_ok headers port =
    if not (is_in (value_or (lookup (codes "Host") headers) []) (hosts port))
    then false
    else elim (lookup (codes "Origin") headers) [
      | none ↦ true
      | some origin ↦ is_in origin (origins port)
    ]

abbrev whitespace : Text
whitespace = codes " \t\n\r"

-- `_session_token`: the first cookie of the name that is a session
unfoldable pub session_in : List Text → List Text → Option Text
session_in sessions [] = none
session_in sessions (part ∷ parts) =
    let rest = session_in sessions parts in
    let (name, sep, value) = partition (codes "=") (strip whitespace part) in
    if text_eq name (codes "rdm_ui") && verify_session value sessions then some value else rest

unfoldable pub session_token : Headers → List Text → Option Text
session_token headers sessions =
    session_in sessions (split (codes ";") (header_value (codes "Cookie") headers))

-- `_header_token_ok`
unfoldable pub header_token_ok : Headers → List Text → Bool
header_token_ok headers sessions =
    let token = header_value (codes "X-RDM-Token") headers in
    not (text_eq token []) && verify_session token sessions
