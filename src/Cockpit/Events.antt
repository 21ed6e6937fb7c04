-- ===== src/Cockpit/Events.antt =====
-- `reconcile_open_actions` of home/rdm/ui/control.py over the event log.
use remote_devbox_mcp.Base.{
  subst, Bool-cases, inl, inr, ◌≡◌, refl, ◌∙◌, Bool, true, false, not, ◌&&◌, ◌||◌, List, [], ◌∷◌,
  ◌++◌, arith, if◌then◌else◌, append-nil, Text, codes, text_eq, text_eq_refl, any, ℕ, ◌-◌, ◌≤◌,
  Option, none, some, All, ap, ap₂, sym, length, length-append, drop,
}

-- The fields of an event that the function reads. A kind or a status that is missing is an empty
-- text, which equals none that is asked for.
pub record Event : Type 0 where
  pub kind : Text
  pub status : Text
  pub job_id : Option Text
  pub tool : Option Text

-- A line of the log as it is read: an event, or `none` where it is no JSON object.
abbrev pub Line : Type 0
Line = Option Event

abbrev pub same_id : Option Text → Option Text → Bool
same_id none none = true
same_id (some s) (some t) = text_eq s t
same_id _ _ = false

-- `event.get("job_id") in closed`
abbrev pub is_known : Option Text → List (Option Text) → Bool
is_known id = any (same_id id)

unfoldable pub events_of : List Line → List Event
events_of [] = []
events_of (none ∷ ls) = events_of ls
events_of (some e ∷ ls) = e ∷ events_of ls

abbrev pub events_tail_lines : ℕ
events_tail_lines = 2000

-- `read_events`: the events in the last lines of the log
unfoldable pub read_events : List Line → List Event
unfolding events_of
read_events log = events_of (drop (length log - events_tail_lines) log)

abbrev pub is_action : Event → Bool
is_action e = text_eq e.kind (codes "action")

abbrev pub is_closing : Event → Bool
is_closing e =
    is_action e && (text_eq e.status (codes "finished") || text_eq e.status (codes "interrupted"))

-- `closed`
unfoldable pub closed_ids : List Event → List (Option Text)
closed_ids [] = []
closed_ids (e ∷ es) = let rest = closed_ids es in if is_closing e then e.job_id ∷ rest else rest

abbrev pub interrupted : Event → Event
interrupted e = record {
  kind = codes "action";
  status = codes "interrupted";
  job_id = e.job_id;
  tool = e.tool;
}

abbrev pub is_open : List (Option Text) → Event → Bool
is_open closed e =
    is_action e && text_eq e.status (codes "started") && not (is_known e.job_id closed)

-- the events that the loop emits, for the ids that are closed
unfoldable pub emitted : List (Option Text) → List Event → List Event
emitted closed [] = []
emitted closed (e ∷ es) =
    let rest = emitted closed es in if is_open closed e then interrupted e ∷ rest else rest

-- the lines that the events leave in the log, each by `sink.emit`
unfoldable pub written : (Event → List Line) → List Event → List Line
written emit [] = []
written emit (e ∷ es) = emit e ++ written emit es

-- The log afterwards. `emit` is what the log reads back for an event: nothing if the write failed.
unfoldable pub reconcile_open_actions : (Event → List Line) → List Line → List Line
unfolding read_events emitted closed_ids written
reconcile_open_actions emit log =
    let es = read_events log in log ++ written emit (emitted (closed_ids es) es)

same_id_refl : (t : Option Text) → same_id t t ≡ true
same_id_refl none = refl
same_id_refl (some t) = text_eq_refl t

is_known-append :
    (t : Option Text) (xs ys : List (Option Text))
    → is_known t (xs ++ ys) ≡ (is_known t xs || is_known t ys)
unfolding any
is_known-append t [] ys = refl
is_known-append t (x ∷ xs) ys = ground (arith, is_known-append t xs ys)

closed_ids-append : (xs ys : List Event) → closed_ids (xs ++ ys) ≡ closed_ids xs ++ closed_ids ys
unfolding closed_ids
closed_ids-append [] ys = refl
closed_ids-append (x ∷ xs) ys = elim (Bool-cases (is_closing x)) [
  | inl e ↦ rw (e, closed_ids-append xs ys) refl
  | inr e ↦ rw (e, closed_ids-append xs ys) refl
]

emitted-append :
    (closed : List (Option Text)) (xs ys : List Event)
    → emitted closed (xs ++ ys) ≡ emitted closed xs ++ emitted closed ys
unfolding emitted
emitted-append closed [] ys = refl
emitted-append closed (x ∷ xs) ys = elim (Bool-cases (is_open closed x)) [
  | inl e ↦ rw (e, emitted-append closed xs ys) refl
  | inr e ↦ rw (e, emitted-append closed xs ys) refl
]

-- An interrupted action counts as closed and is not open.
interrupted-is_closing : (e : Event) → is_closing (interrupted e) ≡ true
unfolding text_eq
interrupted-is_closing e = refl

is_open-interrupted :
    (closed : List (Option Text)) (e : Event) → is_open closed (interrupted e) ≡ false
unfolding text_eq
is_open-interrupted closed e = refl

emitted-emitted :
    (closed other : List (Option Text)) (es : List Event) → emitted other (emitted closed es) ≡ []
unfolding emitted
emitted-emitted closed other [] = refl
emitted-emitted closed other (x ∷ xs) = elim (Bool-cases (is_open closed x)) [
  | inl e ↦ rw (e, is_open-interrupted other x) (emitted-emitted closed other xs)
  | inr e ↦ rw e (emitted-emitted closed other xs)
]

-- Nothing is open for ids that hold the closed ones and those of the events emitted for them.
abbrev Covers : List (Option Text) → List (Option Text) → Type 0
Covers ids all_ids = (t : Option Text) → is_known t ids ≡ true → is_known t all_ids ≡ true

emitted-open :
    (closed : List (Option Text)) (x : Event) (xs : List Event)
    → is_open closed x ≡ true
    → closed_ids (emitted closed (x ∷ xs)) ≡ x.job_id ∷ closed_ids (emitted closed xs)
unfolding emitted closed_ids
emitted-open closed x xs e = rw (e, interrupted-is_closing x) refl

emitted-closed :
    (closed : List (Option Text)) (x : Event) (xs : List Event)
    → is_open closed x ≡ false
    → emitted closed (x ∷ xs) ≡ emitted closed xs
unfolding emitted
emitted-closed closed x xs e = rw e refl

emitted-covered :
    (closed all_ids : List (Option Text)) (es : List Event)
    → Covers closed all_ids
    → Covers (closed_ids (emitted closed es)) all_ids
    → emitted all_ids es ≡ []
unfolding emitted any
emitted-covered closed all_ids [] c d = refl
emitted-covered closed all_ids (x ∷ xs) c d = elim (Bool-cases (is_open closed x)) [
  | inl e ↦
      let all : Covers (x.job_id ∷ closed_ids (emitted closed xs)) all_ids =
        subst (λ ids. Covers ids all_ids) (emitted-open closed x xs e) d in
      let here = all x.job_id (ground (arith, same_id_refl x.job_id)) in
      emitted-closed all_ids x xs (ground arith)
      ∙ emitted-covered closed all_ids xs c (λ t h. all t (ground arith))
  | inr e ↦
      emitted-closed all_ids x xs (ground (arith, c x.job_id))
      ∙ emitted-covered closed all_ids xs c
          (subst (λ ys. Covers (closed_ids ys) all_ids) (emitted-closed closed x xs e) d)
]

-- Nothing is open among the events and those emitted for them.
emitted-none :
    (es : List Event)
    → let all = es ++ emitted (closed_ids es) es in emitted (closed_ids all) all ≡ []
emitted-none es =
    let new = emitted (closed_ids es) es in
    let ids = closed_ids es ++ closed_ids new in
    let covered : emitted ids es ≡ [] =
      emitted-covered (closed_ids es) ids es
        (λ t h. ground (arith, is_known-append t (closed_ids es) (closed_ids new)))
        (λ t h. ground (arith, is_known-append t (closed_ids es) (closed_ids new))) in
    rw
      (
        closed_ids-append es new,
        emitted-append ids es new,
        covered,
        emitted-emitted (closed_ids es) ids es,
      )
      refl

events_of-append : (xs ys : List Line) → events_of (xs ++ ys) ≡ events_of xs ++ events_of ys
unfolding events_of
events_of-append [] ys = refl
events_of-append (none ∷ xs) ys = events_of-append xs ys
events_of-append (some e ∷ xs) ys = ap (λ es. e ∷ es) (events_of-append xs ys)

-- The event is in the log when it was emitted.
abbrev pub IsWritten : (Event → List Line) → Event → Type 0
IsWritten emit e = emit e ≡ some e ∷ []

events_of-written :
    (emit : Event → List Line) (es : List Event)
    → All (IsWritten emit) es
    → events_of (written emit es) ≡ es
unfolding written events_of
events_of-written emit [] h = refl
events_of-written emit (e ∷ es) h =
    rw (h.0, events_of) (ap (λ xs. e ∷ xs) (events_of-written emit es h.1))

read_events-short :
    (log : List Line) → length log ≤ events_tail_lines → read_events log ≡ events_of log
unfolding read_events
read_events-short log h =
    let none_dropped : length log - 2000 ≡ 0 = omega arith in
    ap (λ n. events_of (drop n log)) none_dropped

-- When every event that a pass emits is written, and the log is then within the lines that are
-- read, a second pass leaves the log as it is: an interrupted action counts as closed.
pub reconcile_open_actions_idem :
    (emit : Event → List Line) (log : List Line)
    → All (IsWritten emit) (emitted (closed_ids (read_events log)) (read_events log))
    → length (reconcile_open_actions emit log) ≤ events_tail_lines
    → reconcile_open_actions emit (reconcile_open_actions emit log)
      ≡ reconcile_open_actions emit log
unfolding reconcile_open_actions written
reconcile_open_actions_idem emit log w fits =
    let es = read_events log in
    let new = emitted (closed_ids es) es in
    let after = log ++ written emit new in
    let first : es ≡ events_of log =
      read_events-short log (omega (arith, length-append log (written emit new))) in
    let second : read_events after ≡ es ++ new =
      read_events-short after fits
      ∙ (events_of-append log (written emit new)
          ∙ ap₂ (λ a b. a ++ b) (sym first) (events_of-written emit new w)) in
    let closed : emitted (closed_ids (read_events after)) (read_events after) ≡ [] =
      ap (λ xs. emitted (closed_ids xs) xs) second ∙ emitted-none es in
    ap (λ xs. after ++ written emit xs) closed ∙ append-nil after
