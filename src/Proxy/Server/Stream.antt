-- ===== src/Proxy/Server/Stream.antt =====
-- server.py: `_read_head` and `_read_body` over a socket. A socket is the list of what `recv` will
-- deliver: bytes, or an OS error; at the end of the list the peer has closed.
pub mod Laws
use remote_devbox_mcp.Base.{
  ℕ, zero, suc, ◌+◌, ◌-◌, ◌*◌, ◌≡◌, refl, Bool, true, false, not, List, [], ◌∷◌, ◌++◌, Option, none,
  some, if◌then◌else◌, ◌==◌, ltb, leb, min, Text, find_sep, length, take, drop,
}

pub data Delivery : Type 0 where
  bytes : Text → Delivery
  os_error : Delivery

abbrev pub Socket : Type 0
Socket = List Delivery

-- What one `recv` returns.
pub data Received : Type 0 where
  chunk : Text → Received
  failed : Received

-- `sock.recv(n)`: at most `n` bytes; what does not fit stays for the next call.
unfoldable pub recv : ℕ → Socket → Received × Socket
recv n [] = (chunk [], [])
recv n (os_error ∷ sock) = (failed, sock)
recv n (bytes b ∷ sock) =
    if leb (length b) n then (chunk b, sock) else (chunk (take n b), bytes (drop n b) ∷ sock)

-- The body, the rest of the carry, and whether the body is complete; `none` where the fuel is out.
abbrev pub BodyRead : Type 0
BodyRead = Option ((Text × Text × Bool) × Socket)

-- The loop of `_read_body`; each round reads at least one byte or ends.
unfoldable pub read_more : ℕ → ℕ → Text → Text → Socket → BodyRead
unfolding recv
read_more zero wanted body carry sock = none
read_more (suc fuel) wanted body carry sock =
    let more : Received × Socket = recv (min 65536 (wanted - length body)) sock in
    let next : BodyRead = elim more.0 [
      | failed ↦ some ((body, [], false), more.1)
      | chunk [] ↦ some ((body, [], false), more.1)
      | chunk (c ∷ cs) ↦ read_more fuel wanted (body ++ (c ∷ cs)) carry more.1
    ] in
    if ltb (length body) wanted then next else some ((body, carry, true), sock)

unfoldable pub read_body : Socket → Text → ℕ → BodyRead
unfolding read_more
read_body sock carry wanted =
    read_more (suc wanted) wanted (take wanted carry) (drop wanted carry) sock

pub data HeadRead : Type 0 where
  closed : HeadRead
  too_big : HeadRead
  head_of : Text → Text → HeadRead

abbrev pub crlf_crlf : Text
crlf_crlf = 13 ∷ 10 ∷ 13 ∷ 10 ∷ []

abbrev pub head_limit : ℕ
head_limit = 64 * 1024 + 4

-- The loop of `_read_head`.
unfoldable pub read_head_from : ℕ → Text → Socket → Option (HeadRead × Socket)
unfolding recv
read_head_from zero carry sock = none
read_head_from (suc fuel) carry sock =
    let more : Received × Socket = recv 65536 sock in
    let next : Option (HeadRead × Socket) = elim more.0 [
      | failed ↦ some (closed, more.1)
      | chunk [] ↦ some (closed, more.1)
      | chunk (c ∷ cs) ↦
          let carried = carry ++ (c ∷ cs) in
          let rest = read_head_from fuel carried more.1 in
          if ltb head_limit (length carried) then some (too_big, more.1) else rest
    ] in
    elim (find_sep crlf_crlf carry) [
      | some (head, rest) ↦ some (head_of head rest, sock)
      | none ↦ next
    ]

-- Each round that goes on has one byte more, and the carry stays within the limit.
unfoldable pub read_head : Socket → Text → Option (HeadRead × Socket)
unfolding read_head_from
read_head sock carry = read_head_from (head_limit + 2) carry sock
