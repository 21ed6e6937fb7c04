-- ===== src/Gateway/Policy/Paths.antt =====
-- policy.py: `_path_parts`, `_resolve_parts` and `_resolves_inside`.
use mathlib.Core.List.{reverse}
use remote_devbox_mcp.Base.{
  ℕ, Bool, true, false, not, ◌&&◌, ◌||◌, List, [], ◌∷◌, ◌++◌, map, Option, none, some,
  if◌then◌else◌, ◌==◌, leb, Text, codes, text_eq, is_in, select, split, strip_prefix?, is_some,
}

abbrev pub is_letter : ℕ → Bool
is_letter c = leb b'a' c && leb c b'z' || leb b'A' c && leb c b'Z'

-- `len(value) >= 2 and value[1] == ":" and value[0].isascii() and value[0].isalpha()`
unfoldable pub has_drive : Text → Bool
has_drive (c ∷ d ∷ s) = d == b':' && is_letter c
has_drive _ = false

-- `raw[:2] + "/" + raw[2:]` behind a drive
unfoldable pub after_drive : Text → Text
unfolding has_drive
after_drive (c ∷ d ∷ s) = if has_drive (c ∷ d ∷ s) then c ∷ d ∷ b'/' ∷ s else c ∷ d ∷ s
after_drive s = s

abbrev pub slash_byte : ℕ → ℕ
slash_byte c = if c == 92 then b'/' else c

-- `len(parts[0]) == 2 and parts[0][1] == ":"`
unfoldable pub is_drive_part : List Text → Bool
is_drive_part ((c ∷ d ∷ []) ∷ parts) = d == b':'
is_drive_part _ = false

abbrev pub dot : Text
dot = codes "."

abbrev pub dot_dot : Text
dot_dot = codes ".."

-- Whether the path is absolute, and its parts.
unfoldable pub path_parts : Text → Bool × List Text
unfolding after_drive is_drive_part
path_parts value =
    let replaced = map slash_byte (after_drive value) in
    let rooted = is_some (strip_prefix? (codes "/") replaced) in
    let parts = select (λ part. not (is_in part ([] ∷ dot ∷ []))) (split (codes "/") replaced) in
    (rooted || is_drive_part parts, parts)

-- One turn of the loop of `_resolve_parts`; the resolved parts are held last first.
unfoldable pub resolve_part : List Text → Text → Option (List Text)
resolve_part [] part = if text_eq part dot_dot then none else some (part ∷ [])
resolve_part (top ∷ resolved) part =
    if text_eq part dot_dot then some resolved else some (part ∷ top ∷ resolved)

unfoldable pub resolve_from : List Text → List Text → Option (List Text)
unfolding resolve_part
resolve_from resolved [] = some resolved
resolve_from resolved (part ∷ parts) = elim (resolve_part resolved part) [
  | none ↦ none
  | some next ↦ resolve_from next parts
]

unfoldable pub resolve_parts : List Text → Option (List Text)
unfolding resolve_from
resolve_parts parts = elim (resolve_from [] parts) [
  | none ↦ none
  | some resolved ↦ some (reverse resolved)
]

-- `candidate[: len(base)] == base`
unfoldable pub is_prefix : List Text → List Text → Bool
is_prefix [] candidate = true
is_prefix (b ∷ base) [] = false
is_prefix (b ∷ base) (c ∷ candidate) = text_eq c b && is_prefix base candidate

-- `value[2:3] not in ("/", "\\")` of a value with a drive
unfoldable pub is_drive_relative : Text → Bool
unfolding has_drive
is_drive_relative (c ∷ d ∷ []) = has_drive (c ∷ d ∷ [])
is_drive_relative (c ∷ d ∷ x ∷ s) = has_drive (c ∷ d ∷ x ∷ s) && not (x == b'/' || x == 92)
is_drive_relative _ = false

-- `_resolves_inside` from the resolved project folder on
unfoldable pub inside_base : Option (List Text) → Bool × List Text → Bool
unfolding is_prefix
inside_base none value = false
inside_base (some []) value = false
inside_base (some (b ∷ base)) (absolute, parts) =
    elim (resolve_parts (if absolute then parts else (b ∷ base) ++ parts)) [
      | none ↦ false
      | some candidate ↦ is_prefix (b ∷ base) candidate
    ]

unfoldable pub resolves_inside : Text → Option Text → Bool
unfolding inside_base is_drive_relative
resolves_inside value none = false
resolves_inside value (some project_dir) =
    if is_drive_relative value
    then false
    else inside_base (resolve_parts (path_parts project_dir).1) (path_parts value)
