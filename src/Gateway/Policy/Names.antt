-- ===== src/Gateway/Policy/Names.antt =====
-- policy.py: the names of exposed tools and their registry.
use remote_devbox_mcp.Base.{
  ℕ, zero, suc, ◌+◌, Bool, true, false, not, ◌&&◌, ◌||◌, List, [], ◌∷◌, ◌++◌, Option, none, some,
  if◌then◌else◌, ◌==◌, leb, ltb, Text, codes, is_empty, all, partition, length, Dict, contains,
  insert, is_digit, digits,
}

abbrev pub tool_name_max : ℕ
tool_name_max = 64

-- The pattern `[a-z0-9][a-z0-9-]*` on the whole name.
abbrev pub is_name_char : ℕ → Bool
is_name_char c = leb b'a' c && leb c b'z' || is_digit c

unfoldable pub valid_server_name : Text → Bool
unfolding all
valid_server_name [] = false
valid_server_name (c ∷ s) = is_name_char c && all (λ d. is_name_char d || d == b'-') s

abbrev pub separator : Text
separator = codes "__"

unfoldable pub exposed_tool_name : Text → Text → Text
exposed_tool_name name tool = name ++ (separator ++ tool)

unfoldable pub parse_exposed_tool_name : Text → Option (Text × Text)
parse_exposed_tool_name exposed =
    let (server, sep, tool) = partition separator exposed in
    if not sep || is_empty server || is_empty tool then none else some (server, tool)

-- `f"{entry}_{suffix}"`
unfoldable pub suffixed : Text → ℕ → Text
suffixed entry suffix = entry ++ (codes "_" ++ digits suffix)

-- The `while` loop: the first free suffix, `none` where the fuel is out.
unfoldable pub free_suffix : ℕ → Text → ℕ → Dict Text → Option ℕ
free_suffix zero entry suffix registry = none
free_suffix (suc fuel) entry suffix registry =
    let rest = free_suffix fuel entry (suffix + 1) registry in
    if contains (suffixed entry suffix) registry then rest else some suffix

-- The name under which an entry is registered.
unfoldable pub registered_name : Text → Dict Text → Option Text
registered_name entry registry =
    if ltb tool_name_max (length entry) || contains entry registry
    then elim (free_suffix (suc (length registry)) entry 2 registry) [
      | none ↦ none
      | some suffix ↦ some (suffixed entry suffix)
    ]
    else some entry

-- `parsed is None or not valid_server_name(parsed[0])`
unfoldable pub is_resolvable : Text → Bool
is_resolvable entry = elim (parse_exposed_tool_name entry) [
  | none ↦ false
  | some (server, tool) ↦ valid_server_name server
]

-- The loop of `register_tools`.
unfoldable pub register_from : Dict Text → List Text → Option (Dict Text)
register_from registry [] = some registry
register_from registry (entry ∷ entries) = elim (is_resolvable entry) [
  | false ↦ register_from registry entries
  | true ↦ elim (registered_name entry registry) [
    | none ↦ none
    | some name ↦ register_from (insert name entry registry) entries
  ]
]

unfoldable pub register_tools : List Text → Option (Dict Text)
unfolding register_from
register_tools = register_from []
