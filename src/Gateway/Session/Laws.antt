-- ===== src/Gateway/Session/Laws.antt =====
-- The calls that a session sends to a child, `Session` of home/rdm/gateway/sessions.py.
use remote_devbox_mcp.Base.{
  ◌+◌, ◌≡◌, ◌↔◌, refl, ap, ap₂, sym, ◌∙◌, Bool, true, false, not, List, [], ◌∷◌, ◌++◌, Option, none,
  some, arith, if◌then◌else◌, Text, codes, text_eq_iff, lookup, Bool-cases, inl, inr,
}
use remote_devbox_mcp.Gateway.Policy.Names.{parse_exposed_tool_name}
use remote_devbox_mcp.Gateway.Policy.Calls.{Arguments, check_call}
use remote_devbox_mcp.Gateway.Session.{
  RpcId, number, text, rpc_eq, Child, Session, pending_get, pending_set, pending_pop, or_self,
  Begun, refused, waiting, call_id, send_call, begin_parsed, begin_call, finish_call,
}

pub rpc_eq_refl : (id : RpcId) → rpc_eq id id ≡ true
unfolding rpc_eq
rpc_eq_refl (number n) = ground arith
rpc_eq_refl (text t) = (text_eq_iff t t).1 refl

-- What is set is found.
pub pending_get-set :
    (id : RpcId) (server : Text) (xs : List (RpcId × Text))
    → pending_get id (pending_set id server xs) ≡ some server
unfolding pending_get pending_set
pending_get-set id server [] = rw (rpc_eq_refl id) refl
pending_get-set id server ((i, other) ∷ xs) =
    ground (arith, rpc_eq_refl id, pending_get-set id server xs)

-- Setting a new id and popping it leaves the table as it was.
pending_pop-set :
    (id : RpcId) (server : Text) (xs : List (RpcId × Text))
    → pending_get id xs ≡ none
    → pending_pop id (pending_set id server xs) ≡ xs
unfolding pending_get pending_set pending_pop
pending_pop-set id server [] h = rw (rpc_eq_refl id) refl
pending_pop-set id server ((i, other) ∷ xs) h = ground (arith, pending_pop-set id server xs)

send_call-waiting :
    (rpc_id : Option RpcId) (server tool : Text) (s : Session)
    → send_call rpc_id server tool s
      ≡ waiting (call_id rpc_id s).0 server tool (record ((call_id rpc_id s).1) {
        pending = pending_set (call_id rpc_id s).0 server s.pending;
      })
unfolding send_call call_id
send_call-waiting none server tool s = refl
send_call-waiting (some id) server tool s = refl

abbrev pub resolved : Text → Session → Option (Text × Text)
resolved exposed_name s =
    parse_exposed_tool_name (or_self (lookup exposed_name s.registry) exposed_name)

-- What holds of a call that waits for its child.
pub record IsSent (exposed_name : Text) (args : Arguments) (rpc_id : Option RpcId) (s : Session)
    (id : RpcId) (server tool : Text) (after : Session) : Type 0 where
  pub is_resolved : resolved exposed_name s ≡ some (server, tool)
  pub is_allowed :
      (check_call server tool (lookup server s.allowlists) (some args) s.project_dir).0 ≡ true
  pub is_live : (child : Child) × (lookup server s.children ≡ some child) × (child.live ≡ true)
  pub has_id : (call_id rpc_id s).0 ≡ id
  pub is_pending : after.pending ≡ pending_set id server s.pending

-- The branches of a call whose name is resolved.
unfoldable attempt : Bool × Text → Option Child → Text → Text → Option RpcId → Session → Begun
attempt (allowed, reason) found server tool rpc_id s =
    if not allowed then refused reason else elim found [
      | none ↦ refused (codes "server unavailable: " ++ server)
      | some child ↦
          if child.live
          then send_call rpc_id server tool s
          else refused (codes "server unavailable: " ++ server)
    ]

attempt-waiting :
    (checked : Bool × Text) (found : Option Child) (sv tl : Text) (rpc_id : Option RpcId)
    (s : Session) (id : RpcId) (server tool : Text) (after : Session)
    → attempt checked found sv tl rpc_id s ≡ waiting id server tool after
    → (checked.0 ≡ true)
      × ((child : Child) × (found ≡ some child) × (child.live ≡ true))
      × (send_call rpc_id sv tl s ≡ waiting id server tool after)
unfolding attempt
attempt-waiting (false, r) found sv tl rpc_id s id server tool after h = absurd (cc h)
attempt-waiting (true, r) none sv tl rpc_id s id server tool after h = absurd (cc h)
attempt-waiting (true, r) (some child) sv tl rpc_id s id server tool after h =
    elim (Bool-cases child.live) [
      | inl live ↦ (refl, (child, refl, live), rw live at h)
      | inr dead ↦ let g = rw dead at h in absurd (cc g)
    ]

send_call-IsSent :
    (exposed_name : Text) (args : Arguments) (rpc_id : Option RpcId) (s : Session) (id : RpcId)
    (sv tl server tool : Text) (after : Session)
    → resolved exposed_name s ≡ some (sv, tl)
    → (check_call sv tl (lookup sv s.allowlists) (some args) s.project_dir).0 ≡ true
    → ((child : Child) × (lookup sv s.children ≡ some child) × (child.live ≡ true))
    → send_call rpc_id sv tl s ≡ waiting id server tool after
    → IsSent exposed_name args rpc_id s id server tool after
send_call-IsSent n args rpc_id s id sv tl server tool after e allowed live h =
    let g = sym (send_call-waiting rpc_id sv tl s) ∙ h in
    let same_id : (call_id rpc_id s).0 ≡ id = cc g in
    let same_server : sv ≡ server = cc g in
    let same_tool : tl ≡ tool = cc g in
    let is_pending : after.pending ≡ pending_set (call_id rpc_id s).0 sv s.pending = cc g in
    record {
      is_resolved = e ∙ ap₂ (λ a b. some (a, b)) same_server same_tool;
      is_allowed = rw (← same_server, ← same_tool) allowed;
      is_live = rw (← same_server) live;
      has_id = same_id;
      is_pending = is_pending ∙ ap₂ (λ i a. pending_set i a s.pending) same_id same_server;
    }

begin_parsed-IsSent :
    (exposed_name : Text) (args : Arguments) (rpc_id : Option RpcId) (s : Session) (id : RpcId)
    (server tool : Text) (after : Session) (o : Option (Text × Text))
    → resolved exposed_name s ≡ o
    → begin_parsed o args rpc_id s ≡ waiting id server tool after
    → IsSent exposed_name args rpc_id s id server tool after
unfolding begin_parsed attempt
begin_parsed-IsSent n args rpc_id s id server tool after none e h = absurd (cc h)
begin_parsed-IsSent n args rpc_id s id server tool after (some (sv, tl)) e h =
    let (allowed, live, was_sent) =
      attempt-waiting (check_call sv tl (lookup sv s.allowlists) (some args) s.project_dir)
        (lookup sv s.children) sv tl rpc_id s id server tool after h in
    send_call-IsSent n args rpc_id s id sv tl server tool after e allowed live was_sent

pub begin_call-IsSent :
    (exposed_name : Text) (args : Arguments) (rpc_id : Option RpcId) (s : Session) (id : RpcId)
    (server tool : Text) (after : Session)
    → begin_call exposed_name args rpc_id s ≡ waiting id server tool after
    → IsSent exposed_name args rpc_id s id server tool after
unfolding begin_call
begin_call-IsSent n args rpc_id s id server tool after h =
    begin_parsed-IsSent n args rpc_id s id server tool after (resolved n s) refl h

-- The name resolves to the server and the tool, these are allowed with the arguments, and the
-- server's child is live.
pub record MaySend (exposed_name : Text) (args : Arguments) (s : Session) (server tool : Text)
    : Type 0 where
  pub is_resolved : resolved exposed_name s ≡ some (server, tool)
  pub is_allowed :
      (check_call server tool (lookup server s.allowlists) (some args) s.project_dir).0 ≡ true
  pub is_live : (child : Child) × (lookup server s.children ≡ some child) × (child.live ≡ true)

-- The call is pending under the client's id, or under the next number, which is then counted.
abbrev pub IsPending : Option RpcId → Session → RpcId → Text → Session → Type 0
IsPending (some client) s id server after =
    (id ≡ client) × (after ≡ record s { pending = pending_set client server s.pending })
IsPending none s id server after =
    let n = s.call_counter + 1 in
    (id ≡ number n)
    × (after ≡ record s { call_counter = n; pending = pending_set (number n) server s.pending })

attempt-send_call :
    (checked : Bool × Text) (child : Child) (server tool : Text) (rpc_id : Option RpcId)
    (s : Session)
    → checked.0 ≡ true
    → child.live ≡ true
    → attempt checked (some child) server tool rpc_id s ≡ send_call rpc_id server tool s
unfolding attempt
attempt-send_call (allowed, reason) child server tool rpc_id s h live = rw (h, live) refl

begin_call-send_call :
    (exposed_name : Text) (args : Arguments) (rpc_id : Option RpcId) (s : Session)
    (server tool : Text)
    → MaySend exposed_name args s server tool
    → begin_call exposed_name args rpc_id s ≡ send_call rpc_id server tool s
unfolding begin_call begin_parsed attempt
begin_call-send_call n args rpc_id s server tool m =
    let (child, found, live) = m.is_live in
    let checked = check_call server tool (lookup server s.allowlists) (some args) s.project_dir in
    ap (λ o. begin_parsed o args rpc_id s) m.is_resolved
    ∙ (ap (λ o. attempt checked o server tool rpc_id s) found
        ∙ attempt-send_call checked child server tool rpc_id s m.is_allowed live)

send_call-IsPending :
    (rpc_id : Option RpcId) (server tool : Text) (s : Session) (id : RpcId) (after : Session)
    → (send_call rpc_id server tool s ≡ waiting id server tool after)
      ↔ IsPending rpc_id s id server after
unfolding send_call call_id
send_call-IsPending none server tool s id after =
    (λ h. (cc h, cc h), λ (e, f). ap₂ (λ i a. waiting i server tool a) (sym e) (sym f))
send_call-IsPending (some client) server tool s id after =
    (λ h. (cc h, cc h), λ (e, f). ap₂ (λ i a. waiting i server tool a) (sym e) (sym f))

-- A call is sent to a tool of a server's child exactly if its name resolves to the server and the
-- tool, `check_call` allows these with the arguments, and the child is live; it is then pending
-- under the client's id, or under the next number if there is none, and nothing else of the session
-- changes.
pub begin_call_iff :
    (exposed_name : Text) (args : Arguments) (rpc_id : Option RpcId) (s : Session) (id : RpcId)
    (server tool : Text) (after : Session)
    → (begin_call exposed_name args rpc_id s ≡ waiting id server tool after)
      ↔ (MaySend exposed_name args s server tool × IsPending rpc_id s id server after)
begin_call_iff n args rpc_id s id server tool after = (
  λ h.
      let sent = begin_call-IsSent n args rpc_id s id server tool after h in
      let may : MaySend n args s server tool = record {
        is_resolved = sent.is_resolved;
        is_allowed = sent.is_allowed;
        is_live = sent.is_live;
      } in
      (
        may,
        (send_call-IsPending rpc_id server tool s id after).0
            (sym (begin_call-send_call n args rpc_id s server tool may) ∙ h),
      ),
  λ (may, pending).
      begin_call-send_call n args rpc_id s server tool may
      ∙ (send_call-IsPending rpc_id server tool s id after).1 pending,
)

-- A call whose id is not pending leaves, when it has finished, the pending calls as they were.
pub finish_call-begin_call :
    (exposed_name : Text) (args : Arguments) (rpc_id : Option RpcId) (s : Session) (id : RpcId)
    (server tool : Text) (after : Session)
    → begin_call exposed_name args rpc_id s ≡ waiting id server tool after
    → pending_get id s.pending ≡ none
    → (finish_call id after).pending ≡ s.pending
unfolding finish_call
finish_call-begin_call n args rpc_id s id server tool after h fresh =
    ap (pending_pop id) (begin_call-IsSent n args rpc_id s id server tool after h).is_pending
    ∙ pending_pop-set id server s.pending fresh
