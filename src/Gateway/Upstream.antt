-- ===== src/Gateway/Upstream.antt =====
-- The requests of one child process, `UpstreamChild` of home/rdm/gateway/upstream.py: a request is
-- cut where it waits for its event, and the reader thread answers it, or the child's death does.
pub mod Laws
mod Tests
use remote_devbox_mcp.Base.{
  ℕ, ◌+◌, ◌≡◌, Bool, true, false, not, ◌&&◌, List, [], ◌∷◌, ◌++◌, Option, none, some, if◌then◌else◌,
  ◌==◌, Text, mem,
}

-- What a request gets: the child's message, or the error of `_on_death`.
pub data Response : Type 0 where
  message : Text → Response
  crashed : Response

pub record UpstreamChild : Type 0 where
  pub next_id : ℕ
  pub pending : List ℕ
  -- the responses that were set, with the ids of their requests, the last one first
  pub answered : List (ℕ × Response)
  pub dead : Bool
  pub closed : Bool

-- `self._pending.pop(id, None)`
unfoldable pub pop : ℕ → List ℕ → List ℕ
pop id [] = []
pop id (n ∷ ns) = if id == n then ns else n ∷ pop id ns

-- `request` under the pending lock: the id, and the entry.
unfoldable pub begin_request : UpstreamChild → ℕ × UpstreamChild
begin_request child = (
  child.next_id,
  record child { next_id = child.next_id + 1; pending = child.next_id ∷ child.pending },
)

-- `request` when it was not sent or the time is over
unfoldable pub give_up : ℕ → UpstreamChild → UpstreamChild
unfolding pop
give_up id child = record child { pending = pop id child.pending }

-- `_resolve_pending`
unfoldable pub resolve_pending : ℕ → Text → UpstreamChild → UpstreamChild
unfolding pop
resolve_pending id text child =
    if mem id child.pending
    then record child {
      pending = pop id child.pending;
      answered = (id, message text) ∷ child.answered;
    }
    else child

unfoldable pub crash_all : List ℕ → List (ℕ × Response) → List (ℕ × Response)
crash_all [] answered = answered
crash_all (id ∷ ids) answered = (id, crashed) ∷ crash_all ids answered

-- `_on_death`
unfoldable pub on_death : UpstreamChild → UpstreamChild
unfolding crash_all
on_death child = record child {
  pending = [];
  answered = crash_all child.pending child.answered;
  dead = true;
}

-- `inflight_id`
unfoldable pub inflight_id : UpstreamChild → Option ℕ
inflight_id child = elim child.pending [ [] ↦ none | id ∷ _ ↦ some id ]

-- The child, and the request that holds the cycle lock.
pub record Cycle : Type 0 where
  pub child : UpstreamChild
  pub holder : Option ℕ

pub data Step (c : Cycle) : Cycle → Type 0 where
  begins :
      c.holder ≡ none
      → Step c
          (record { child = (begin_request c.child).1; holder = some (begin_request c.child).0 })
  resolves : (id : ℕ) (text : Text) → Step c (record c { child = resolve_pending id text c.child })
  dies : Step c (record c { child = on_death c.child })
  -- the request has its response, or gives up; popping an id that is gone changes nothing
  ends :
      (id : ℕ) → c.holder ≡ some id → Step c (record { child = give_up id c.child; holder = none })

pub data Reach (start : Cycle) : Cycle → Type 0 where
  here : Reach start start
  next : {c d : Cycle} → Reach start c → Step c d → Reach start d
