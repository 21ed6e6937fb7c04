-- ===== src/Proxy/Framing/Fields.antt =====
-- framing.py: the Content-Length and Transfer-Encoding fields.
use remote_devbox_mcp.Base.{
  ℕ, suc, Bool, false, not, ◌&&◌, ◌||◌, List, [], ◌∷◌, ◌++◌, map, if◌then◌else◌, ◌==◌, leb, ltb,
  Text, codes, text_eq, any, all, length, is_empty, is_in, is_digit, split, strip, lower, decimal,
}
use remote_devbox_mcp.Proxy.Framing.Head.{Parsed, ok, reject, ◌>>=◌}

abbrev pub ows : Text
ows = 32 ∷ 9 ∷ []

-- The pattern `[0-9]{1,19}` on the whole token.
unfoldable pub is_length_token : Text → Bool
unfolding all
is_length_token token = leb 1 (length token) && leb (length token) 19 && all is_digit token

-- `[token.strip(_OWS) for value in values for token in value.split(b",")]`
unfoldable pub length_tokens : List Text → List Text
length_tokens [] = []
length_tokens (value ∷ values) = map (strip ows) (split (codes ",") value) ++ length_tokens values

-- A set of lengths has one member exactly if all agree with the first.
unfoldable pub agreed : List ℕ → Parsed ℕ
unfolding all
agreed [] = reject 400 "conflicting content-length"
agreed (n ∷ ns) = if all (λ m. m == n) ns then ok n else reject 400 "conflicting content-length"

unfoldable pub parse_content_length : List Text → Parsed ℕ
unfolding length_tokens is_length_token agreed any
parse_content_length values =
    let tokens = length_tokens values in
    if is_empty tokens || any (λ token. not (is_length_token token)) tokens
    then reject 400 "invalid content-length"
    else agreed (map decimal tokens)

-- `value.decode("ascii")` fails on a byte of 128 or more.
unfoldable pub coding_tokens : List Text → Parsed (List Text)
unfolding all
coding_tokens [] = ok []
coding_tokens (value ∷ values) =
    let rest = coding_tokens values in
    if all (λ c. ltb c 128) value
    then (do
      tokens ← rest
      ok (map (λ part. lower (strip ows part)) (split (codes ",") value) ++ tokens))
    else reject 400 "non-ascii transfer-encoding"

abbrev chunked : Text
chunked = codes "chunked"

count : Text → List Text → ℕ
count t [] = 0
count t (s ∷ ss) = let rest = count t ss in if text_eq s t then suc rest else rest

last_is : Text → List Text → Bool
last_is t [] = false
last_is t (s ∷ []) = text_eq s t
last_is t (s ∷ r ∷ ss) = last_is t (r ∷ ss)

-- The tests on the tokens; the Python function raises on every path.
unfoldable pub judge_codings : List Text → Parsed (Unit {0})
unfolding count last_is any is_in
judge_codings tokens =
    if is_empty tokens || is_in [] tokens
    then reject 400 "empty transfer coding"
    else if ltb 1 (count chunked tokens)
    then reject 400 "duplicate chunked coding"
    else if is_in chunked tokens && not (last_is chunked tokens)
    then reject 400 "chunked coding not final"
    else if any (λ token. not (text_eq token chunked)) tokens
    then reject 501 "unknown transfer coding"
    else reject 501 "chunked transfer coding unsupported"

unfoldable pub validate_transfer_encoding : List Text → Parsed (Unit {0})
unfolding coding_tokens judge_codings
validate_transfer_encoding values = do tokens ← coding_tokens values; judge_codings tokens
