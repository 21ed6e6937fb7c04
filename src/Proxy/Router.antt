-- ===== src/Proxy/Router.antt =====
-- Path routing, home/rdm/proxy/router.py. `load_manifest` reads a file and is left to the caller.
use remote_devbox_mcp.Base.{
  ℕ, Bool, ◌&&◌, [], ◌∷◌, Option, none, some, if◌then◌else◌, ◌==◌, leb, Text, codes, text_eq,
  strip_prefix?, is_digit, decimal, length,
}

pub record Route : Type 0 where
  pub port : ℕ
  pub rest : Text

-- The digits at the front, and what stands behind them.
unfoldable pub span_digits : Text → Text × Text
span_digits [] = ([], [])
span_digits (c ∷ s) =
    let (digits, rest) = span_digits s in if is_digit c then (c ∷ digits, rest) else ([], c ∷ s)

-- The text without the line end that `$` passes over; `none` where a newline stands elsewhere,
-- which `.` does not match.
unfoldable pub until_end : Text → Option Text
until_end [] = some []
until_end (c ∷ []) = if c == 10 then some [] else some (c ∷ [])
until_end (c ∷ d ∷ s) =
    let rest = until_end (d ∷ s) in
    if c == 10 then none else elim rest [ none ↦ none | some t ↦ some (c ∷ t) ]

-- The group `(/.*)?` and the end, with its default "/".
unfoldable pub route_rest : Text → Option Text
unfolding until_end
route_rest [] = some (47 ∷ [])
route_rest (c ∷ s) =
    if c == 47
    then elim (until_end s) [ none ↦ none | some t ↦ some (47 ∷ t) ]
    else if c == 10 && text_eq s []
    then some (47 ∷ [])
    else none

abbrev pub is_port : ℕ → Bool
is_port port = leb 1 port && leb port 65535

-- The pattern `^/p/([0-9]{1,5})(/.*)?$`; its digits are the whole run, since no digit can follow.
unfoldable pub parse_route : Text → Option Route
unfolding strip_prefix? span_digits route_rest
parse_route target = elim (strip_prefix? (codes "/p/") target) [
  | none ↦ none
  | some behind ↦
      let (digits, rest) = span_digits behind in
      let port = decimal digits in
      if leb 1 (length digits) && leb (length digits) 5
      then elim (route_rest rest) [
        | none ↦ none
        | some path ↦ if is_port port then some (record { port = port; rest = path }) else none
      ]
      else none
]

unfoldable pub is_manifest : Text → Bool
is_manifest target = text_eq target (codes "/p/9000/manifest.json")
