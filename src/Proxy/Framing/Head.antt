-- ===== src/Proxy/Framing/Head.antt =====
-- framing.py: the decision types, the request line and the header block.
use remote_devbox_mcp.Base.{
  ℕ, String, Bool, true, false, not, ◌&&◌, ◌||◌, List, [], ◌∷◌, if◌then◌else◌, ◌==◌, Text, codes,
  has_byte, is_empty, partition, split, lower,
}

pub data BodyFraming : Type 0 where
  no_body with_length : BodyFraming

-- `FramingError(status, reason)`
pub record Rejected : Type 0 where
  pub status : ℕ
  pub reason : String

-- `FramingOk | FramingError`
pub data FramingDecision : Type 0 where
  accepted : BodyFraming → ℕ → Bool → FramingDecision
  refused : Rejected → FramingDecision

-- A function that may raise `FramingRejected`.
pub data Parsed {ℓ} (A : Type ℓ) : Type ℓ where
  ok : A → Parsed A
  raise : Rejected → Parsed A

infixl 10 ◌>>=◌
abbrev pub ◌>>=◌ {ℓ κ} : {A : Type ℓ} {B : Type κ} → Parsed A → (A → Parsed B) → Parsed B
ok a >>= f = f a
raise e >>= f = raise e

abbrev pub reject {ℓ} : {A : Type ℓ} → ℕ → String → Parsed A
reject status reason = raise (record { status = status; reason = reason })

abbrev pub Header : Type 0
Header = Text × Text

abbrev pub Headers : Type 0
Headers = List Header

abbrev pub RequestLine : Type 0
RequestLine = Text × Text × Text

abbrev pub crlf : Text
crlf = 13 ∷ 10 ∷ []

-- The pattern `([^ ]+) ([^ ]+) ([^ ]+)` on the whole line: three parts between two spaces, none
-- of them empty. Decoding by latin-1 keeps every code point.
request_line_parts : List Text → Parsed RequestLine
request_line_parts (m ∷ t ∷ v ∷ []) =
    if is_empty m || is_empty t || is_empty v
    then reject 400 "malformed request line"
    else ok (m, t, v)
request_line_parts _ = reject 400 "malformed request line"

unfoldable pub parse_request_line : Text → Parsed RequestLine
unfolding request_line_parts
parse_request_line line = request_line_parts (split (codes " ") line)

-- `head.replace(b"\r\n", b"")`; a removed pair is passed over, and what follows starts afresh.
remove_crlf : Text → Text
remove_crlf [] = []
remove_crlf (c ∷ []) = c ∷ []
remove_crlf (c ∷ d ∷ s) = elim (c == 13 && d == 10) [
  | true ↦ remove_crlf s
  | false ↦ c ∷ remove_crlf (d ∷ s)
]

unfoldable pub reject_bare_line_endings : Text → Parsed (Unit {0})
unfolding remove_crlf
reject_bare_line_endings head =
    let plain = remove_crlf head in
    if has_byte 13 plain || has_byte 10 plain then reject 400 "bare line ending" else ok tt

-- `line[:1] in (b" ", b"\t")`
starts_folded : Text → Bool
starts_folded [] = false
starts_folded (c ∷ s) = c == 32 || c == 9

-- One turn of the loop of `parse_head`.
unfoldable pub parse_header_line : Text → Parsed Header
unfolding starts_folded
parse_header_line line =
    if starts_folded line
    then reject 400 "obsolete line folding"
    else let (name, separator, value) = partition (codes ":") line in
      if not separator || is_empty name || has_byte 32 name || has_byte 9 name
      then reject 400 "invalid header line"
      else ok (lower name, value)

unfoldable pub parse_header_lines : List Text → Parsed Headers
unfolding parse_header_line
parse_header_lines [] = ok []
parse_header_lines (line ∷ lines) = do
  header ← parse_header_line line
  headers ← parse_header_lines lines
  ok (header ∷ headers)

unfoldable pub parse_head : Text → Parsed Headers
unfolding parse_header_lines
parse_head [] = ok []
parse_head (c ∷ block) = parse_header_lines (split crlf (c ∷ block))
