-- ===== src/Gateway/Session/Cancels.antt =====
-- Which calls `Session.cancel` of home/rdm/gateway/sessions.py finds.
use remote_devbox_mcp.Base.{
  ℕ, ◌+◌, ◌≡◌, refl, List, [], ◌∷◌, none, Text, Dict, Bool-cases, All, inl, inr,
}
use remote_devbox_mcp.Gateway.Policy.Calls.{Arguments}
use remote_devbox_mcp.Gateway.Session.{
  RpcId, number, text, rpc_eq, Child, Session, pending_get, pending_set, pending_pop, waiting,
  call_id, finish_call, cancel, dispatch_begin,
}
use remote_devbox_mcp.Gateway.Session.Laws.{begin_call-IsSent}

-- What one step changes in a session that is called through dispatch.py: a call that begins, a
-- call that ends, and the children that live, answer or are lost.
pub data Step : Session → Session → Type 0 where
  begins :
      {s after : Session} (exposed_name : Text) (args : Arguments) (rpc_id id : RpcId)
      (server tool : Text)
      → dispatch_begin exposed_name args rpc_id s ≡ waiting id server tool after
      → Step s after
  ends : {s : Session} (id : RpcId) → Step s (finish_call id s)
  changes : {s : Session} (children : Dict Child) → Step s (record s { children = children })

pub data Reach (s : Session) : Session → Type 0 where
  here : Reach s s
  next : {t u : Session} → Reach s t → Step t u → Reach s u

-- The ids of the pending calls are numbers.
abbrev pub IsNumbered : RpcId × Text → Type 0
IsNumbered x = (n : ℕ) × (x.0 ≡ number n)

pending_set-IsNumbered :
    (n : ℕ) (server : Text) (xs : List (RpcId × Text))
    → All IsNumbered xs
    → All IsNumbered (pending_set (number n) server xs)
unfolding pending_set
pending_set-IsNumbered n server [] h = ((n, refl), tt)
pending_set-IsNumbered n server ((i, other) ∷ xs) h = elim (Bool-cases (rpc_eq i (number n))) [
  | inl same ↦ rw same ((n, refl), h.1)
  | inr apart ↦ rw apart (h.0, pending_set-IsNumbered n server xs h.1)
]

pending_pop-IsNumbered :
    (id : RpcId) (xs : List (RpcId × Text)) → All IsNumbered xs → All IsNumbered (pending_pop id xs)
unfolding pending_pop
pending_pop-IsNumbered id [] h = h
pending_pop-IsNumbered id ((i, other) ∷ xs) h = elim (Bool-cases (rpc_eq i id)) [
  | inl same ↦ rw same h.1
  | inr apart ↦ rw apart (h.0, pending_pop-IsNumbered id xs h.1)
]

Step-IsNumbered : {s t : Session} → Step s t → All IsNumbered s.pending → All IsNumbered t.pending
unfolding dispatch_begin call_id finish_call
Step-IsNumbered {s} {t} (begins name args rpc_id id server tool h) all =
    let sent = begin_call-IsSent name args none s id server tool t h in
    rw (sent.is_pending, ← sent.has_id)
      (pending_set-IsNumbered (s.call_counter + 1) server s.pending all)
Step-IsNumbered {s} (ends id) all = pending_pop-IsNumbered id s.pending all
Step-IsNumbered (changes children) all = all

Reach-IsNumbered : {s t : Session} → Reach s t → All IsNumbered s.pending → All IsNumbered t.pending
Reach-IsNumbered here all = all
Reach-IsNumbered (next r st) all = Step-IsNumbered st (Reach-IsNumbered r all)

pending_get-text :
    (w : Text) (xs : List (RpcId × Text)) → All IsNumbered xs → pending_get (text w) xs ≡ none
unfolding pending_get rpc_eq
pending_get-text w [] h = refl
pending_get-text w ((i, server) ∷ xs) h = rw (h.0.1) (pending_get-text w xs h.1)

-- In a session whose calls come through dispatch.py, cancelling a request whose id is a string
-- reaches no child, whichever calls are waiting.
pub Reach-cancel-none :
    (w : Text) (s t : Session) → s.pending ≡ [] → Reach s t → cancel (text w) t ≡ none
unfolding cancel
Reach-cancel-none w s t empty r =
    rw (cancel, pending_get-text w t.pending (Reach-IsNumbered r (rw empty tt))) refl
