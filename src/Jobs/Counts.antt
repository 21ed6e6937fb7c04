-- ===== src/Jobs/Counts.antt =====
-- What `correlate` of home/rdm/events/jobs.py counts.
use remote_devbox_mcp.Base.{
  ℕ, ◌+◌, suc, ◌≤◌, ◌≡◌, refl, ap, ◌∙◌, List, [], ◌∷◌, ◌++◌, Option, none, some, arith,
  if◌then◌else◌, Text, length, Dict, lookup, Bool-cases, Option-cases, inl, inr,
}
use remote_devbox_mcp.Jobs.{
  Kind, request, response, unrelated, Event, Job, take_first, take_last, match_pending,
  has_identity, fits, pop_front, count_request, State, ask, observe, correlate_from, correlate,
  same,
}
use remote_devbox_mcp.Jobs.Laws.{
  total, total-insert, is_request, is_answer, count, count_request-counts, settle-responses,
  settle-requests, take_first-length, take_last-length,
}

pop_front-length :
    (es : List Event) (x : Event) (others : List Event)
    → pop_front es ≡ some (x, others)
    → suc (length others) ≡ length es
pop_front-length [] x others h = absurd (cc h)
pop_front-length (e ∷ es) x others h = ground arith

by_identity-length :
    (pending : List Event) (answer x : Event) (others : List Event)
    → (if has_identity answer then take_last (fits answer) pending else pop_front pending)
      ≡ some (x, others)
    → suc (length others) ≡ length pending
by_identity-length pending answer x others h = elim (Bool-cases (has_identity answer)) [
  | inl known ↦ take_last-length (fits answer) pending x others (rw known at h)
  | inr bare ↦ pop_front-length pending x others (rw bare at h)
]

match_pending-length :
    (pending : List Event) (answer x : Event) (others : List Event)
    → match_pending pending answer ≡ some (x, others)
    → suc (length others) ≡ length pending
unfolding match_pending
match_pending-length pending answer x others h = elim (Option-cases answer.job_id) [
  | inl e ↦ by_identity-length pending answer x others (rw (e, match_pending) at h)
  | inr (id, e) ↦ elim (Option-cases (take_first (λ asked. same asked.job_id (some id)) pending)) [
    | inl e' ↦ by_identity-length pending answer x others (rw (e, e', match_pending) at h)
    | inr (found, e') ↦
        take_first-length (λ asked. same asked.job_id (some id)) pending x others
          (e' ∙ (rw (e, e', match_pending) at h))
  ]
]

length-snoc : (es : List Event) (e : Event) → length (es ++ e ∷ []) ≡ suc (length es)
length-snoc [] e = refl
length-snoc (x ∷ es) e = ap suc (length-snoc es e)

-- How many responses and requests a state has counted, with the requests that are open.
abbrev pub responses_of : State → ℕ
responses_of (jobs, pending) = total (λ j. j.responses) jobs

abbrev pub requests_of : State → ℕ
requests_of (jobs, pending) = total (λ j. j.requests) jobs + length pending

ask-counts :
    (e : Event) (o : Option Text) (jobs : Dict Job) (pending : List Event)
    → (responses_of (ask e o (jobs, pending)) ≡ responses_of (jobs, pending))
      × (requests_of (ask e o (jobs, pending)) ≡ requests_of (jobs, pending) + 1)
unfolding ask
ask-counts e none jobs pending = (refl, omega (arith, length-snoc pending e))
ask-counts e (some id) jobs pending = elim (Option-cases (lookup id jobs)) [
  | inl new ↦ rw (new, ask) (refl, omega (arith, length-snoc pending e))
  | inr (job, found) ↦
      let by_response = total-insert (λ j. j.responses) id (count_request e job) jobs in
      let by_request = total-insert (λ j. j.requests) id (count_request e job) jobs in
      rw (found, ask)
        (
          omega (arith, rw found at by_response, (count_request-counts e job).1),
          omega (arith, rw found at by_request, (count_request-counts e job).0),
        )
]

observe-counts :
    (e : Event) (k : Kind) (jobs : Dict Job) (pending : List Event)
    → e.kind ≡ k
    → (responses_of (observe e (jobs, pending)) ≡ responses_of (jobs, pending) + is_answer e)
      × (requests_of (observe e (jobs, pending)) ≤ requests_of (jobs, pending) + is_request e)
unfolding observe
observe-counts e unrelated jobs pending h = rw (h, observe) (omega arith, omega arith)
observe-counts e request jobs pending h =
    let (by_response, by_request) = ask-counts e e.job_id jobs pending in
    rw (h, observe) (omega (arith, by_response), omega (arith, by_request))
observe-counts e response jobs pending h = elim (Option-cases (match_pending pending e)) [
  | inl lost ↦
      rw (h, lost, observe)
        (settle-responses jobs e none e.job_id refl, omega (arith, settle-requests jobs e none))
  | inr ((x, others), found) ↦
      rw (h, found, observe)
        (
          settle-responses jobs e (some x) e.job_id refl,
          omega (
            arith,
            settle-requests jobs e (some x),
            match_pending-length pending e x others found,
          ),
        )
]

correlate_from-counts :
    (state : State) (events : List Event)
    → (responses_of (correlate_from state events) ≡ responses_of state + count is_answer events)
      × (requests_of (correlate_from state events) ≤ requests_of state + count is_request events)
unfolding correlate_from
correlate_from-counts state [] = (omega arith, omega arith)
correlate_from-counts (jobs, pending) (e ∷ events) =
    let (by_response, by_request) = observe-counts e e.kind jobs pending refl in
    let (responses, requests) = correlate_from-counts (observe e (jobs, pending)) events in
    (omega (arith, by_response, responses), omega (arith, by_request, requests))

-- The jobs count every response that names a job, once, and no request is counted twice: those of
-- the jobs and the open calls together are no more than the requests that there were.
pub correlate-counts :
    (events : List Event)
    → (responses_of (correlate events) ≡ count is_answer events)
      × (requests_of (correlate events) ≤ count is_request events)
unfolding correlate
correlate-counts events =
    let (responses, requests) = correlate_from-counts ([], []) events in
    (responses ∙ omega arith, omega (arith, requests))
