-- ===== src/Proxy/Server/Access/Consumed.antt =====
-- What `_consume_body` and `_dispatch` hand on.
use remote_devbox_mcp.Base.{
  ℕ, ◌≡◌, ◌≢◌, refl, ap, sym, ◌⊎◌, inl, inr, Bool, true, false, ◌++◌, Option, none, some, arith,
  if◌then◌else◌, Text, length, subst,
}
use remote_devbox_mcp.Proxy.Framing.Head.{BodyFraming, no_body, with_length, Headers}
use remote_devbox_mcp.Proxy.Router.{is_manifest}
use remote_devbox_mcp.Proxy.Auth.{check_token}
use remote_devbox_mcp.Proxy.Server.Stream.{Socket, BodyRead, read_body}
use remote_devbox_mcp.Proxy.Server.Stream.Laws.{to_come, ReadsBody, read_body-ReadsBody}
use remote_devbox_mcp.Proxy.Server.Access.{
  Mode, ingress_mode, target_mode, Config, Upstream, forward, serve_manifest, forward_on, Consumed,
  unsent, short, body_result, authorize, is_websocket, consume_body, Surroundings, dispatch,
}

inr-injective : {A B : Type 0} {x y : B} → ◌≡◌ {A = A ⊎ B} (inr x) (inr y) → x ≡ y
inr-injective {x} h = ap (elim [ inl a ↦ x | inr b ↦ b ]) h

-- A body that was consumed has its declared length, and no byte is lost or added.
abbrev pub InStep : ℕ → Text → Text × Text × Socket → Type 0
InStep n all_bytes (body, rest, left) =
    (length body ≡ n) × (body ++ (rest ++ to_come left) ≡ all_bytes)

body_result-InStep :
    (n : ℕ) (all_bytes : Text) (r : BodyRead) (x : Text × Text × Socket)
    → ReadsBody n all_bytes r
    → body_result r ≡ inr x
    → InStep n all_bytes x
unfolding body_result
body_result-InStep n bytes none x reads h = cc
body_result-InStep n bytes (some ((body, rest, true), left)) x reads h =
    subst (InStep n bytes) (inr-injective h) reads
body_result-InStep n bytes (some ((body, rest, false), left)) x reads h = cc

pub consume_body-InStep :
    (sent : Bool) (framing : BodyFraming) (n : ℕ) (e : Bool) (sock : Socket) (carry : Text)
    (x : Text × Text × Socket)
    → (framing ≡ no_body → n ≡ 0)
    → consume_body sent framing n e sock carry ≡ inr x
    → InStep n (carry ++ to_come sock) x
unfolding consume_body
consume_body-InStep sent no_body n e sock carry x f h =
    subst (InStep n (carry ++ to_come sock)) (inr-injective h) (sym (f refl), refl)
consume_body-InStep sent with_length n e sock carry x f h =
    body_result-InStep n _ (read_body sock carry n) x (read_body-ReadsBody sock carry n)
      (ground arith)

serve_manifest-ne-forward :
    (passed : Bool) (file : Option Text) (consumed : Consumed) (sock left : Socket) (up : Upstream)
    (body rest : Text)
    → serve_manifest passed file consumed sock ≢ (forward up body rest, left)
unfolding serve_manifest
serve_manifest-ne-forward false file consumed sock left up body rest h = cc
serve_manifest-ne-forward true none consumed sock left up body rest h = cc
serve_manifest-ne-forward true (some content) (inl unsent) sock left up body rest h = cc
serve_manifest-ne-forward true (some content) (inl short) sock left up body rest h = cc
serve_manifest-ne-forward true (some content) (inr x) sock left up body rest h = cc

forward_on-eq-forward :
    (auth : ℕ ⊎ Upstream) (websocket : Bool) (consumed : Consumed) (sock left : Socket)
    (up : Upstream) (body rest : Text)
    → forward_on auth websocket consumed sock ≡ (forward up body rest, left)
    → (auth ≡ inr up) × (consumed ≡ inr (body, rest, left))
unfolding forward_on
forward_on-eq-forward (inl status) websocket consumed sock left up body rest h = cc
forward_on-eq-forward (inr u) websocket (inl unsent) sock left up body rest h = cc
forward_on-eq-forward (inr u) websocket (inl short) sock left up body rest h = cc
forward_on-eq-forward (inr u) true (inr (b, r, l)) sock left up body rest h = cc
forward_on-eq-forward (inr u) false (inr (b, r, l)) sock left up body rest h = ground arith

pub dispatch-eq-forward :
    (digest : Text → Text) (config : Config) (around : Surroundings) (wanted : Text)
    (pairs : Headers) (framing : BodyFraming) (n : ℕ) (e : Bool) (sock : Socket) (carry : Text)
    (up : Upstream) (body rest : Text) (left : Socket)
    → dispatch digest config around wanted pairs framing n e sock carry
      ≡ (forward up body rest, left)
    → (authorize digest config pairs wanted ≡ inr up)
      × (consume_body around.sent framing n e sock carry ≡ inr (body, rest, left))
unfolding dispatch
dispatch-eq-forward digest config around wanted pairs framing n e sock carry up body rest left h =
    go config.mode (is_manifest wanted) h
  where
    go :
        (m : Mode) (b : Bool)
        → (elim m [
          | ingress_mode ↦
              if b
              then serve_manifest
                  (check_token digest pairs config.token)
                  around.manifest_file
                  (consume_body around.sent framing n e sock carry)
                  sock
              else forward_on
                  (authorize digest config pairs wanted)
                  (is_websocket pairs)
                  (consume_body around.sent framing n e sock carry)
                  sock
          | target_mode ↦
              forward_on
                (authorize digest config pairs wanted)
                (is_websocket pairs)
                (consume_body around.sent framing n e sock carry)
                sock
        ])
          ≡ (forward up body rest, left)
        → (authorize digest config pairs wanted ≡ inr up)
          × (consume_body around.sent framing n e sock carry ≡ inr (body, rest, left))
    go ingress_mode true p = absurd (serve_manifest-ne-forward _ _ _ sock left up body rest p)
    go ingress_mode false p = forward_on-eq-forward _ _ _ sock left up body rest p
    go target_mode b p = forward_on-eq-forward _ _ _ sock left up body rest p
