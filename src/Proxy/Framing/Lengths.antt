-- ===== src/Proxy/Framing/Lengths.antt =====
-- What the two body fields of framing.py can return.
use remote_devbox_mcp.Base.{
  ℕ, ◌≡◌, true, false, not, List, [], ◌∷◌, map, arith, Text, any, all, All, ◌==◌, decimal,
}
use remote_devbox_mcp.Proxy.Framing.Head.{Parsed, ok, raise, ◌>>=◌}
use remote_devbox_mcp.Proxy.Framing.Fields.{
  length_tokens, is_length_token, agreed, parse_content_length, judge_codings, coding_tokens,
  validate_transfer_encoding,
}

judge_codings-raises : (tokens : List Text) (u : Unit {0}) → judge_codings tokens ≡ ok u → ⊥
unfolding judge_codings
judge_codings-raises tokens u h = ground arith

-- A Transfer-Encoding header never gets through.
pub validate_transfer_encoding-raises :
    (values : List Text) (u : Unit {0}) → validate_transfer_encoding values ≡ ok u → ⊥
unfolding validate_transfer_encoding
validate_transfer_encoding-raises values u h = go (coding_tokens values) h
  where
    go : (r : Parsed (List Text)) → (r >>= judge_codings) ≡ ok u → ⊥
    go (ok tokens) e = judge_codings-raises tokens u e
    go (raise e) p = cc

-- The token is a length of at most 19 digits, and it is `n`.
abbrev pub Says : ℕ → Text → Type 0
Says n token = (is_length_token token ≡ true) × (decimal token ≡ n)

all-eq-first :
    (n : ℕ) (tokens : List Text)
    → all (λ m. m == n) (map decimal tokens) ≡ true
    → any (λ token. not (is_length_token token)) tokens ≡ false
    → All (Says n) tokens
unfolding all any
all-eq-first n [] h k = tt
all-eq-first n (t ∷ ts) h k = ground (arith, all-eq-first n ts)

agreed-Says :
    (tokens : List Text) (n : ℕ)
    → any (λ token. not (is_length_token token)) tokens ≡ false
    → agreed (map decimal tokens) ≡ ok n
    → All (Says n) tokens
unfolding agreed any
agreed-Says [] n k h = tt
agreed-Says (t ∷ ts) n k h = ground (arith, all-eq-first n ts)

-- All the lengths of all the Content-Length values agree with the result.
pub parse_content_length-Says :
    (values : List Text) (n : ℕ)
    → parse_content_length values ≡ ok n
    → All (Says n) (length_tokens values)
unfolding parse_content_length
parse_content_length-Says values n h = ground (arith, agreed-Says (length_tokens values) n)
