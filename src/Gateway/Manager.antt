-- ===== src/Gateway/Manager.antt =====
-- The session table of the gateway, `SessionManager` of home/rdm/gateway/sessions.py. What runs
-- under the lock is one operation here; a session is created in two of them, with the spawning of
-- its children between, and any other operation may come between them.
pub mod Laws
use remote_devbox_mcp.Base.{
  ℕ, ◌+◌, ◌-◌, ◌≤◌, ◌<◌, ◌≡◌, Bool, true, false, List, [], ◌∷◌, ◌++◌, Option, none, some,
  if◌then◌else◌, ◌==◌, leb, ltb, Text, codes, length, mem, digits, Dict, lookup, insert, erase,
}

module _ (Session : Type 0) where
  pub record Manager : Type 0 where
    pub sessions : Dict Session
    pub creating : ℕ
    pub next_id : ℕ
    pub max_sessions : ℕ

module _ {Session : Type 0} where
  -- The first block under the lock of `create_session`; `none` is `SessionLimitError`.
  unfoldable pub reserve : Manager Session → Option (ℕ × Manager Session)
  reserve m =
      if leb m.max_sessions (length m.sessions + m.creating)
      then none
      else some (m.next_id, record m { creating = m.creating + 1; next_id = m.next_id + 1 })

  -- The second block: the session is entered.
  unfoldable pub commit : Text → Session → Manager Session → Manager Session
  commit id session m = record m {
    creating = m.creating - 1;
    sessions = insert id session m.sessions;
  }

  -- The handler of an exception: the place is given back.
  unfoldable pub abort : Manager Session → Manager Session
  abort m = record m { creating = m.creating - 1 }

  -- `get`
  unfoldable pub get : Text → Manager Session → Option Session
  get id m = lookup id m.sessions

  -- `_drop`, which a session calls when it closes
  unfoldable pub drop_session : Text → Manager Session → Manager Session
  drop_session id m = record m { sessions = erase id m.sessions }

  -- The sessions that `reap_idle` closes, and the table when all of them have been dropped.
  unfoldable pub stale : (Session → ℕ) → ℕ → ℕ → Dict Session → List Text
  stale stamp now idle [] = []
  stale stamp now idle ((id, s) ∷ rest) =
      let others = stale stamp now idle rest in
      if ltb idle (now - stamp s) then id ∷ others else others

  unfoldable pub drop_all : List Text → Manager Session → Manager Session
  drop_all [] m = m
  drop_all (id ∷ ids) m = drop_all ids (drop_session id m)

  unfoldable pub reap_idle : (Session → ℕ) → ℕ → ℕ → Manager Session → Manager Session
  unfolding stale drop_all
  reap_idle stamp now idle m = drop_all (stale stamp now idle m.sessions) m

-- `f"sess-{n}"`
unfoldable pub session_id : ℕ → Text
session_id n = codes "sess-" ++ digits n

-- The manager and the numbers of the sessions that threads are creating.
pub record World (Session : Type 0) : Type 0 where
  pub manager : Manager Session
  pub threads : List ℕ

abbrev pub without : ℕ → List ℕ → List ℕ
without n [] = []
without n (k ∷ ks) = if n == k then ks else k ∷ without n ks

-- What the threads of the server do to the table, one step at a time.
pub data Step {Session : Type 0} (w : World Session) : World Session → Type 0 where
  reserves :
      {n : ℕ} {m : Manager Session}
      → reserve w.manager ≡ some (n, m)
      → Step w (record { manager = m; threads = n ∷ w.threads })
  commits :
      (n : ℕ) (s : Session)
      → mem n w.threads ≡ true
      → Step w
          (record { manager = commit (session_id n) s w.manager; threads = without n w.threads })
  aborts :
      (n : ℕ)
      → mem n w.threads ≡ true
      → Step w (record { manager = abort w.manager; threads = without n w.threads })
  drops : (id : Text) → Step w (record w { manager = drop_session id w.manager })

pub data Reach {Session : Type 0} (start : World Session) : World Session → Type 0 where
  here : Reach start start
  next : {v w : World Session} → Reach start v → Step v w → Reach start w
