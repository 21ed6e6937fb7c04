-- ===== src/Proxy/Framing/Safety.antt =====
-- Accepted request heads, `validate_head` and `validate_request` of home/rdm/proxy/framing.py.
use remote_devbox_mcp.Base.{
  ℕ, ◌+◌, ◌≤◌, ◌≡◌, refl, inl, inr, Bool, false, List, [], ◌∷◌, Option, none, some, arith, Text,
  All, All-map, Option-cases, subst, any→All, length, codes, partition, ltb, not-ltb→le,
}
use remote_devbox_mcp.Proxy.Framing.Head.{
  BodyFraming, no_body, with_length, accepted, refused, Rejected, Parsed, ok, raise, Header,
  Headers, RequestLine, crlf, parse_request_line, parse_head, reject_bare_line_endings, ◌>>=◌,
}
use remote_devbox_mcp.Proxy.Framing.Fields.{length_tokens}
use remote_devbox_mcp.Proxy.Framing.Lengths.{
  Says, validate_transfer_encoding-raises, parse_content_length-Says,
}
use remote_devbox_mcp.Proxy.Framing.Validate.{
  max_body, max_header_bytes, max_header_line, max_header_count, dup_forbidden, is_malformed,
  header_total, values_of, count_of, head_fault, body_length, expectation, frame, upper, decision,
  validate_head, validate_request, body_of,
}

-- A name and a value, the colon and the line end.
abbrev pub FitsLine : Header → Type 0
FitsLine h = length h.0 + length h.1 + 2 ≤ max_header_line

abbrev pub total_bytes : Headers → ℕ
total_bytes [] = 0
total_bytes (h ∷ hs) = (length h.0 + length h.1 + 2) + total_bytes hs

header_total-bounds :
    (total t : ℕ) (headers : Headers)
    → header_total total headers ≡ some t
    → All FitsLine headers × (t ≡ total + total_bytes headers)
unfolding header_total
header_total-bounds total t [] h = ground arith
header_total-bounds total t (x ∷ headers) h =
    ground (arith, header_total-bounds (total + (length x.0 + length x.1 + 2)) t headers)

pub record IsBounded (headers : Headers) : Type 0 where
  pub clean : All (λ h. is_malformed h ≡ false) headers
  pub lines : All FitsLine headers
  pub count : length headers ≤ max_header_count
  pub bytes : total_bytes headers ≤ max_header_bytes
  pub single : All (λ name. count_of name headers ≤ 1) dup_forbidden

head_fault-IsBounded :
    (version : Text) (headers : Headers) → head_fault version headers ≡ none → IsBounded headers
unfolding head_fault
head_fault-IsBounded version headers h = elim (Option-cases (header_total 0 headers)) [
  | inl long ↦ absurd (ground arith)
  | inr (t, e) ↦
      let sized : All FitsLine headers × (t ≡ 0 + total_bytes headers) =
        header_total-bounds 0 t headers e in
      record {
        clean = any→All is_malformed headers (ground arith);
        lines = sized.0;
        count = ground arith;
        bytes = ground (arith, sized.1);
        single =
            All-map _ _ dup_forbidden (λ name k. not-ltb→le 1 (count_of name headers) k)
              (any→All (λ name. ltb 1 (count_of name headers)) dup_forbidden (ground arith));
      }
]

-- The length that the body fields give: none of them, or a number on which all of them agree.
abbrev pub AgreeOn : Option ℕ → List Text → Type 0
AgreeOn none values = values ≡ []
AgreeOn (some n) values = All (Says n) (length_tokens values)

parse_lengths-AgreeOn :
    (ls : List Text) (r : Parsed ℕ) (o : Option ℕ)
    → ((n : ℕ) → r ≡ ok n → AgreeOn (some n) ls)
    → (do n ← r; ok (some n)) ≡ ok o
    → AgreeOn o ls
parse_lengths-AgreeOn ls (ok n) none says h = cc
parse_lengths-AgreeOn ls (ok n) (some m) says h =
    let e : n ≡ m = cc in subst (λ k. AgreeOn (some k) ls) e (says n refl)
parse_lengths-AgreeOn ls (raise e) o says h = cc

body_of-AgreeOn :
    (es ls : List Text) (o : Option ℕ) → body_of es ls ≡ ok o → (es ≡ []) × AgreeOn o ls
unfolding body_of
body_of-AgreeOn [] [] none h = (refl, refl)
body_of-AgreeOn [] [] (some n) h = cc
body_of-AgreeOn [] (l ∷ ls) o h =
    (refl, parse_lengths-AgreeOn (l ∷ ls) _ o (parse_content_length-Says (l ∷ ls)) h)
body_of-AgreeOn (e ∷ es) (l ∷ ls) o h = cc
body_of-AgreeOn (e ∷ es) [] o h =
    absurd (ground (arith, validate_transfer_encoding-raises (e ∷ es) tt))

-- How the decision fits the length.
abbrev pub FitsLength : BodyFraming → ℕ → Option ℕ → Type 0
FitsLength framing n none = (framing ≡ no_body) × (n ≡ 0)
FitsLength framing n (some m) = (framing ≡ with_length) × (n ≡ m) × (n ≤ max_body)

frame-FitsLength :
    (verb : Text) (o : Option ℕ) (b : Bool) (framing : BodyFraming) (n : ℕ) (e : Bool)
    → frame verb o b ≡ accepted framing n e
    → FitsLength framing n o
unfolding frame
frame-FitsLength verb none b framing n e h = ground arith
frame-FitsLength verb (some m) b framing n e h = ground arith

-- What an accepted head satisfies: it is bounded and clean, has no Transfer-Encoding, and its
-- Content-Length fields, if there are any, all say the length that the decision reports.
pub record IsSafe (headers : Headers) (framing : BodyFraming) (n : ℕ) : Type 0 where
  pub bounded : IsBounded headers
  pub no_coding : values_of (codes "transfer-encoding") headers ≡ []
  pub declared : Option ℕ
  pub agree : AgreeOn declared (values_of (codes "content-length") headers)
  pub fits : FitsLength framing n declared

accepted-IsSafe :
    (headers : Headers) (verb : Text) (framing : BodyFraming) (n : ℕ) (e : Bool)
    (length : Parsed (Option ℕ)) (expect : Parsed Bool)
    → IsBounded headers
    → body_length headers ≡ length
    → decision (do o ← length; b ← expect; ok (frame verb o b)) ≡ accepted framing n e
    → IsSafe headers framing n
unfolding body_length
accepted-IsSafe headers verb framing n e (ok o) (ok b) bounded p h =
    let agree = body_of-AgreeOn _ _ o p in
    record {
      bounded = bounded;
      no_coding = agree.0;
      declared = o;
      agree = agree.1;
      fits = frame-FitsLength verb o b framing n e h;
    }
accepted-IsSafe headers verb framing n e (ok o) (raise x) bounded p h = cc
accepted-IsSafe headers verb framing n e (raise x) expect bounded p h = cc

-- A head that `validate_head` accepts is safe: every header is clean and fits its line, the
-- counts and sizes are within their bounds, singleton headers stand once at most, there is no
-- Transfer-Encoding, and every Content-Length token is the reported length, at most `max_body`;
-- without a Content-Length the reported length is 0 and there is no body.
pub validate_head-IsSafe :
    (method target version : Text) (headers : Headers) (framing : BodyFraming) (n : ℕ) (e : Bool)
    → validate_head method target version headers ≡ accepted framing n e
    → IsSafe headers framing n
unfolding validate_head
validate_head-IsSafe method target version headers framing n e h =
    go (head_fault version headers) (head_fault-IsBounded version headers) h
  where
    go :
        (fault : Option Rejected)
        → (fault ≡ none → IsBounded headers)
        → (elim fault [
          | some f ↦ refused f
          | none ↦
              decision
                (do o ← body_length headers; b ← expectation headers; ok (frame (upper method) o b))
        ])
          ≡ accepted framing n e
        → IsSafe headers framing n
    go none bounded p =
        accepted-IsSafe headers (upper method) framing n e (body_length headers)
          (expectation headers) (bounded refl) refl p
    go (some f) bounded p = cc

-- An accepted request has no bare line ending, its first line parses, and its header block parses
-- to headers that are safe for the decision.
pub validate_request-IsSafe :
    (head : Text) (framing : BodyFraming) (n : ℕ) (e : Bool)
    → validate_request head ≡ accepted framing n e
    → let (line, _, block) = partition crlf head in
      (reject_bare_line_endings head ≡ ok tt)
      × (request : RequestLine) × (parse_request_line line ≡ ok request)
      × (headers : Headers) × (parse_head block ≡ ok headers)
      × IsSafe headers framing n
unfolding validate_request
validate_request-IsSafe head framing n e h =
    let (line, _, block) = partition crlf head in
    go (reject_bare_line_endings head) (parse_request_line line) (parse_head block) h
  where
    go :
        (r : Parsed (Unit {0})) (l : Parsed RequestLine) (b : Parsed Headers)
        → decision (do _ ← r; (m, t, v) ← l; hs ← b; ok (validate_head m t v hs))
          ≡ accepted framing n e
        → (r ≡ ok tt)
          × (request : RequestLine) × (l ≡ ok request)
          × (headers : Headers) × (b ≡ ok headers)
          × IsSafe headers framing n
    go (ok _) (ok (m, t, v)) (ok hs) p =
        (refl, (m, t, v), refl, hs, refl, validate_head-IsSafe m t v hs framing n e p)
    go (ok _) (ok l) (raise x) p = cc
    go (ok _) (raise x) b p = cc
    go (raise x) l b p = cc
