-- ===== src/Proxy/Server/Access/Turns.antt =====
-- One turn of the loop, `_run` of home/rdm/proxy/server.py.
use remote_devbox_mcp.Base.{
  ℕ, ◌≡◌, refl, ap, ◌∙◌, Bool, true, ◌++◌, Option, none, some, arith, Text, length, partition,
  Bool-cases, inl, inr, text_eq, if◌then◌else◌,
}
use remote_devbox_mcp.Proxy.Framing.Head.{
  BodyFraming, no_body, FramingDecision, accepted, refused, Parsed, ok, raise, Headers, RequestLine,
  crlf, parse_request_line, parse_head,
}
use remote_devbox_mcp.Proxy.Framing.Safety.{FitsLength, validate_request-IsSafe}
use remote_devbox_mcp.Proxy.Framing.Validate.{validate_request}
use remote_devbox_mcp.Proxy.Server.Stream.{
  Socket, HeadRead, closed, too_big, head_of, read_head, crlf_crlf,
}
use remote_devbox_mcp.Proxy.Server.Stream.Laws.{to_come, ReadsHead, read_head-ReadsHead}
use remote_devbox_mcp.Proxy.Server.Access.{
  Config, Upstream, reply, forward, authorize, Surroundings, stop, answer, after_parse, judge,
  too_big_mark, turn,
}
use remote_devbox_mcp.Proxy.Server.Access.Consumed.{consume_body-InStep, dispatch-eq-forward}

-- What it means that the proxy forwards a body: the head before the first empty line is a request
-- that framing.py accepts, with the reported length; the upstream is authorized for its target and
-- its headers; the body has the reported length; and head, empty line, body, new carry and socket
-- are the bytes that were there, in order.
pub record Forwards (digest : Text → Text) (config : Config) (all_bytes : Text) (up : Upstream)
    (body rest : Text) (left : Socket) : Type 0 where
  pub head : Text
  pub framing : BodyFraming
  pub n : ℕ
  pub e : Bool
  pub valid : validate_request head ≡ accepted framing n e
  pub request : RequestLine
  pub line : parse_request_line (partition crlf head).0 ≡ ok request
  pub pairs : Headers
  pub block : parse_head (partition crlf head).2 ≡ ok pairs
  pub authorized : authorize digest config pairs request.1 ≡ inr up
  pub body_length : length body ≡ n
  pub in_order : head ++ (crlf_crlf ++ (body ++ (rest ++ to_come left))) ≡ all_bytes

-- The reported length of a head without a body is 0.
no_body-zero :
    (head : Text) (n : ℕ) (e : Bool) → validate_request head ≡ accepted no_body n e → n ≡ 0
no_body-zero head n e h =
    let safe = (validate_request-IsSafe head no_body n e h).5 in go safe.declared safe.fits
  where
    go : (o : Option ℕ) → FitsLength no_body n o → n ≡ 0
    go none f = f.1
    go (some m) f = cc (f.0)

after_parse-Forwards :
    (digest : Text → Text) (config : Config) (around : Surroundings) (all_bytes head : Text)
    (framing : BodyFraming) (n : ℕ) (e : Bool) (sock : Socket) (carry : Text)
    (l : Parsed RequestLine) (b : Parsed Headers) (close : Bool) (up : Upstream) (body rest : Text)
    (left : Socket)
    → validate_request head ≡ accepted framing n e
    → head ++ (crlf_crlf ++ (carry ++ to_come sock)) ≡ all_bytes
    → parse_request_line (partition crlf head).0 ≡ l
    → parse_head (partition crlf head).2 ≡ b
    → after_parse digest config around l b framing n e sock carry
      ≡ answer close (forward up body rest) left
    → Forwards digest config all_bytes up body rest left
unfolding after_parse
after_parse-Forwards digest config around all_bytes head framing n e sock carry (ok request)
      (ok pairs) close up body rest left valid all line block h =
    let sent =
      dispatch-eq-forward digest config around request.1 pairs framing n e sock carry up body rest
        left (ground arith) in
    let in_step =
      consume_body-InStep around.sent framing n e sock carry (body, rest, left)
        (λ f. no_body-zero head n e (rw (← f) valid)) sent.1 in
    record {
      head = head;
      framing = framing;
      n = n;
      e = e;
      valid = valid;
      request = request;
      line = line;
      pairs = pairs;
      block = block;
      authorized = sent.0;
      body_length = in_step.0;
      in_order = ap (λ z. head ++ (crlf_crlf ++ z)) in_step.1 ∙ all;
    }
after_parse-Forwards digest config around all_bytes head framing n e sock carry (ok request)
      (raise x) close up body rest left valid all line block h =
    cc
after_parse-Forwards digest config around all_bytes head framing n e sock carry (raise x) b close up
      body rest left valid all line block h =
    cc

-- Whenever a turn of the loop forwards a body, it forwards the body of an accepted and authorized
-- request, and the connection stays in step: the bytes that are left begin behind this body.
pub turn-Forwards :
    (digest : Text → Text) (config : Config) (around : Surroundings) (sock : Socket) (carry : Text)
    (close : Bool) (up : Upstream) (body rest : Text) (left : Socket)
    → turn digest config around sock carry ≡ answer close (forward up body rest) left
    → Forwards digest config (carry ++ to_come sock) up body rest left
unfolding turn judge
turn-Forwards digest config around sock carry close up body rest left h =
    go (read_head sock carry) (read_head-ReadsHead sock carry) h
  where
    judged :
        (head carry' : Text) (sock' : Socket) (d : FramingDecision)
        → validate_request head ≡ d
        → head ++ (crlf_crlf ++ (carry' ++ to_come sock')) ≡ carry ++ to_come sock
        → judge digest config around head carry' sock' d ≡ answer close (forward up body rest) left
        → Forwards digest config (carry ++ to_come sock) up body rest left
    judged head carry' sock' (refused x) v all p = cc
    judged head carry' sock' (accepted framing n e) v all p =
        after_parse-Forwards digest config around _ head framing n e sock' carry' _ _ close up body
          rest left v all refl refl p

    go :
        (r : Option (HeadRead × Socket))
        → ReadsHead (carry ++ to_come sock) r
        → (elim r [
          | none ↦ stop
          | some (closed, l) ↦ stop
          | some (too_big, l) ↦ answer true (reply 431) l
          | some (head_of head after, l) ↦
              if text_eq head too_big_mark
              then answer true (reply 431) l
              else judge digest config around head after l (validate_request head)
        ])
          ≡ answer close (forward up body rest) left
        → Forwards digest config (carry ++ to_come sock) up body rest left
    go none reads p = absurd reads
    go (some (closed, l)) reads p = cc
    go (some (too_big, l)) reads p = cc
    go (some (head_of head after, l)) reads p = elim (Bool-cases (text_eq head too_big_mark)) [
      | inl marked ↦ let q = rw marked at p in absurd (cc q)
      | inr other ↦ judged head after l (validate_request head) refl reads.0 (rw other at p)
    ]
