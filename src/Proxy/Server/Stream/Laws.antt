-- ===== src/Proxy/Server/Stream/Laws.antt =====
-- Reading from a socket, `_read_head` and `_read_body` of home/rdm/proxy/server.py.
use remote_devbox_mcp.Base.{
  ℕ, zero, suc, ◌+◌, ◌-◌, ◌≤◌, ◌<◌, ◌≡◌, ◌≢◌, refl, ap, sym, ◌∙◌, inl, inr, true, false, [], ◌∷◌,
  ◌++◌, append-nil, append_assoc, Option, none, some, arith, if◌then◌else◌, ltb, leb, min, Text,
  find_sep, length, length-append, length-take, take, drop, take-append-drop, length-drop,
  drop-eq-nil, subst, ltb→lt, not-ltb→le, Cuts, find_sep-Cuts, Bool-cases,
}
use remote_devbox_mcp.Proxy.Server.Stream.{
  bytes, os_error, Socket, Received, chunk, failed, recv, BodyRead, read_more, read_body, HeadRead,
  closed, too_big, head_of, crlf_crlf, head_limit, read_head_from, read_head,
}

-- The bytes that the socket has still to deliver, up to an error or the end.
abbrev pub to_come : Socket → Text
to_come [] = []
to_come (os_error ∷ sock) = []
to_come (bytes [] ∷ sock) = []
to_come (bytes (c ∷ cs) ∷ sock) = (c ∷ cs) ++ to_come sock

to_come-bytes :
    (b : Text) (sock : Socket) → 0 < length b → to_come (bytes b ∷ sock) ≡ b ++ to_come sock
to_come-bytes [] sock h = absurd (omega arith)
to_come-bytes (c ∷ cs) sock h = refl

-- What a `recv` takes from the socket.
abbrev pub Takes : ℕ → Socket → Received × Socket → Type 0
Takes n sock (chunk [], left) = to_come sock ≡ []
Takes n sock (chunk (c ∷ cs), left) =
    ((c ∷ cs) ++ to_come left ≡ to_come sock) × (suc (length cs) ≤ n)
Takes n sock (failed, left) = to_come sock ≡ []

part-Takes :
    (n : ℕ) (b part : Text) (sock left : Socket)
    → 0 < length part
    → length part ≤ n
    → part ++ to_come left ≡ to_come sock
    → Takes n sock (chunk part, left)
part-Takes n b [] sock left h k e = absurd (omega arith)
part-Takes n b (c ∷ cs) sock left h k e = (e, k)

recv-Takes : (n : ℕ) (sock : Socket) → 0 < n → Takes n sock (recv n sock)
unfolding recv
recv-Takes n [] h = refl
recv-Takes n (os_error ∷ sock) h = refl
recv-Takes n (bytes [] ∷ sock) h = elim (Bool-cases (leb 0 n)) [
  | inl fits ↦ rw fits
  | inr over ↦ absurd (ground arith)
]
recv-Takes n (bytes (c ∷ cs) ∷ sock) h = elim (Bool-cases (leb (suc (length cs)) n)) [
  | inl fits ↦ rw fits (refl, ground arith)
  | inr over ↦
      let longer : n < suc (length cs) = ground arith in
      rw over (
        part-Takes n (c ∷ cs) (take n (c ∷ cs)) (bytes (c ∷ cs) ∷ sock)
          (bytes (drop n (c ∷ cs)) ∷ sock) (omega (arith, length-take n (c ∷ cs)))
          (omega (arith, length-take n (c ∷ cs)))
          (ap (λ t. take n (c ∷ cs) ++ t)
              (to_come-bytes (drop n (c ∷ cs)) sock (omega (arith, length-drop n (c ∷ cs))))
            ∙ (sym (append_assoc (take n (c ∷ cs)) (drop n (c ∷ cs)) (to_come sock))
                ∙ ap (λ t. t ++ to_come sock) (take-append-drop n (c ∷ cs)))))
]

-- A complete body has the length asked for, and it, the new carry and the socket hold the bytes of
-- before, in order; an incomplete one is all that there was, and too short.
abbrev pub ReadsBody : ℕ → Text → BodyRead → Type 0
ReadsBody wanted all_bytes none = ⊥
ReadsBody wanted all_bytes (some ((body, carry, true), left)) =
    (length body ≡ wanted) × (body ++ (carry ++ to_come left) ≡ all_bytes)
ReadsBody wanted all_bytes (some ((body, carry, false), left)) =
    (body ≡ all_bytes) × (length body < wanted)

read_more-ReadsBody :
    (fuel wanted : ℕ) (body carry : Text) (sock : Socket)
    → wanted < length body + fuel
    → length body ≤ wanted
    → (length body < wanted → carry ≡ [])
    → ReadsBody wanted (body ++ (carry ++ to_come sock)) (read_more fuel wanted body carry sock)
unfolding read_more
read_more-ReadsBody zero wanted body carry sock f h k = absurd (omega arith)
read_more-ReadsBody (suc fuel) wanted body carry sock f h k =
    elim (Bool-cases (ltb (length body) wanted)) [
      | inr done ↦ rw done (ground arith, refl)
      | inl short ↦
          let more = recv (min 65536 (wanted - length body)) sock in
          let lt : length body < wanted = ground arith in
          rw short (
            go more (λ b l. read_more-ReadsBody fuel wanted b carry l)
              (recv-Takes (min 65536 (wanted - length body)) sock (omega arith)) lt)
    ]
  where
    go :
        (more : Received × Socket)
        (ih : (b : Text) (l : Socket)
          → wanted < length b + fuel
          → length b ≤ wanted
          → (length b < wanted → carry ≡ [])
          → ReadsBody wanted (b ++ (carry ++ to_come l)) (read_more fuel wanted b carry l))
        → Takes (min 65536 (wanted - length body)) sock more
        → length body < wanted
        → ReadsBody wanted (body ++ (carry ++ to_come sock)) (elim more.0 [
          | failed ↦ some ((body, [], false), more.1)
          | chunk [] ↦ some ((body, [], false), more.1)
          | chunk (c ∷ cs) ↦ read_more fuel wanted (body ++ (c ∷ cs)) carry more.1
        ])
    go (failed, left) ih t lt = (rw (k lt, t) (sym (append-nil body)), lt)
    go (chunk [], left) ih t lt = (rw (k lt, t) (sym (append-nil body)), lt)
    go (chunk (c ∷ cs), left) ih t lt =
        subst (λ z. ReadsBody wanted z (read_more fuel wanted (body ++ c ∷ cs) carry left))
          (rw (k lt) (append_assoc body (c ∷ cs) (to_come left) ∙ ap (λ z. body ++ z) t.0))
          (ih (body ++ c ∷ cs) left (omega (arith, length-append body (c ∷ cs)))
            (omega (arith, length-append body (c ∷ cs))) (λ _. k lt))

-- Reading a body of `wanted` bytes always returns. A complete body has `wanted` bytes, and body,
-- new carry and socket together hold the bytes that carry and socket held, in order. An
-- incomplete one holds all the bytes that came before the connection ended, fewer than `wanted`.
pub read_body-ReadsBody :
    (sock : Socket) (carry : Text) (wanted : ℕ)
    → ReadsBody wanted (carry ++ to_come sock) (read_body sock carry wanted)
unfolding read_body
read_body-ReadsBody sock carry wanted =
    subst (λ z. ReadsBody wanted z (read_body sock carry wanted))
      (sym (append_assoc (take wanted carry) (drop wanted carry) (to_come sock))
        ∙ ap (λ z. z ++ to_come sock) (take-append-drop wanted carry))
      (read_more-ReadsBody (suc wanted) wanted (take wanted carry) (drop wanted carry) sock
        (omega arith) (omega (arith, length-take wanted carry))
        (λ lt. drop-eq-nil wanted carry (omega (arith, length-take wanted carry))))

-- A head is what stands before the first empty line, and it, the rest and the socket hold all the
-- bytes, in order; without an empty line the bytes ended, or there are more than the limit.
abbrev pub ReadsHead : Text → Option (HeadRead × Socket) → Type 0
ReadsHead all_bytes none = ⊥
ReadsHead all_bytes (some (head_of head rest, left)) =
    (head ++ (crlf_crlf ++ (rest ++ to_come left)) ≡ all_bytes) × (find_sep crlf_crlf head ≡ none)
ReadsHead all_bytes (some (too_big, left)) = head_limit < length all_bytes
ReadsHead all_bytes (some (closed, left)) = find_sep crlf_crlf all_bytes ≡ none

crlf_crlf-ne-nil : crlf_crlf ≢ []
crlf_crlf-ne-nil h = cc

read_head_from-ReadsHead :
    (fuel : ℕ) (carry : Text) (sock : Socket)
    → 0 < fuel
    → head_limit < length carry + fuel
    → ReadsHead (carry ++ to_come sock) (read_head_from fuel carry sock)
unfolding read_head_from
read_head_from-ReadsHead zero carry sock h f = absurd (omega arith)
read_head_from-ReadsHead (suc fuel) carry sock h f =
    go (find_sep crlf_crlf carry) refl (find_sep-Cuts crlf_crlf carry crlf_crlf-ne-nil)
      (recv 65536 sock) (recv-Takes 65536 sock (omega arith)) (read_head_from-ReadsHead fuel)
  where
    step :
        (carried : Text) (left : Socket)
        (ih : (k : Text) (l : Socket)
          → 0 < fuel
          → head_limit < length k + fuel
          → ReadsHead (k ++ to_come l) (read_head_from fuel k l))
        → length carry < length carried
        → ReadsHead (carried ++ to_come left) (
            if ltb head_limit (length carried)
            then some (too_big, left)
            else read_head_from fuel carried left)
    step carried left ih grows = elim (Bool-cases (ltb head_limit (length carried))) [
      | inl over ↦ rw over (omega (arith, ltb→lt _ _ over, length-append carried (to_come left)))
      | inr within ↦
          rw within (ih carried left (omega (arith, not-ltb→le _ _ within)) (omega arith))
    ]

    go :
        (o : Option (Text × Text))
        → find_sep crlf_crlf carry ≡ o
        → Cuts crlf_crlf carry o
        → (more : Received × Socket) → Takes 65536 sock more
        → (ih : (k : Text) (l : Socket)
            → 0 < fuel
            → head_limit < length k + fuel
            → ReadsHead (k ++ to_come l) (read_head_from fuel k l))
        → ReadsHead (carry ++ to_come sock) (elim o [
          | some (head, rest) ↦ some (head_of head rest, sock)
          | none ↦ elim more.0 [
            | failed ↦ some (closed, more.1)
            | chunk [] ↦ some (closed, more.1)
            | chunk (c ∷ cs) ↦
                let carried = carry ++ (c ∷ cs) in
                let rest = read_head_from fuel carried more.1 in
                if ltb head_limit (length carried) then some (too_big, more.1) else rest
          ]
        ])
    go (some (head, rest)) e cut more t ih = (
      ap (λ z. head ++ z) (sym (append_assoc crlf_crlf rest (to_come sock)))
          ∙ (sym (append_assoc head (crlf_crlf ++ rest) (to_come sock))
              ∙ ap (λ z. z ++ to_come sock) cut.0),
      cut.1,
    )
    go none e cut (failed, left) t ih = rw (t, append-nil) e
    go none e cut (chunk [], left) t ih = rw (t, append-nil) e
    go none e cut (chunk (c ∷ cs), left) t ih =
        subst
          (λ z. ReadsHead z (
            if ltb head_limit (length (carry ++ (c ∷ cs)))
            then some (too_big, left)
            else read_head_from fuel (carry ++ (c ∷ cs)) left))
          (append_assoc carry (c ∷ cs) (to_come left) ∙ ap (λ z. carry ++ z) t.0)
          (step (carry ++ (c ∷ cs)) left ih (omega (arith, length-append carry (c ∷ cs))))

-- Reading a head always returns: the head before the first empty line, with every byte before
-- and behind it kept in order; or the request is over the limit; or the connection ended and the
-- bytes that came hold no empty line.
pub read_head-ReadsHead :
    (sock : Socket) (carry : Text) → ReadsHead (carry ++ to_come sock) (read_head sock carry)
unfolding read_head
read_head-ReadsHead sock carry =
    read_head_from-ReadsHead (head_limit + 2) carry sock (omega arith) (omega arith)
