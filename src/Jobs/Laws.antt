-- ===== src/Jobs/Laws.antt =====
-- The sums over the jobs, and how a response or a match changes them (home/rdm/events/jobs.py).
use remote_devbox_mcp.Base.{
  ℕ, ◌+◌, suc, ◌≤◌, ◌≡◌, refl, Bool, List, [], ◌∷◌, Option, none, some, arith, if◌then◌else◌, Text,
  text_eq, is_some, length, Dict, lookup, insert, Bool-cases, Option-cases, inl, inr,
}
use remote_devbox_mcp.Jobs.{
  request, response, unrelated, Event, Job, take_first, take_last, count_request, apply_response,
  job_or_new, settle,
}

-- The sum over the jobs.
abbrev pub total : (Job → ℕ) → Dict Job → ℕ
total f [] = 0
total f ((id, job) ∷ jobs) = f job + total f jobs

abbrev pub old : (Job → ℕ) → Option Job → ℕ
old f none = 0
old f (some job) = f job

pub total-insert :
    (f : Job → ℕ) (id : Text) (job : Job) (jobs : Dict Job)
    → total f (insert id job jobs) + old f (lookup id jobs) ≡ total f jobs + f job
unfolding insert lookup
total-insert f id job [] = omega arith
total-insert f id job ((other, j) ∷ jobs) = elim (Bool-cases (text_eq other id)) [
  | inl same_id ↦ rw (same_id, insert, lookup) (omega arith)
  | inr apart ↦ rw (apart, insert, lookup) (omega (arith, total-insert f id job jobs))
]

-- Which events are requests, and which are responses that name a job.
abbrev pub is_request : Event → ℕ
is_request e = elim e.kind [ request ↦ 1 | response ↦ 0 | unrelated ↦ 0 ]

abbrev pub is_answer : Event → ℕ
is_answer e = elim e.kind [
  | request ↦ 0
  | response ↦ (if is_some e.job_id then 1 else 0)
  | unrelated ↦ 0
]

abbrev pub count : (Event → ℕ) → List Event → ℕ
count f [] = 0
count f (e ∷ es) = f e + count f es

pub count_request-counts :
    (e : Event) (job : Job)
    → ((count_request e job).requests ≡ job.requests + 1)
      × ((count_request e job).responses ≡ job.responses)
unfolding count_request
count_request-counts e job = ground arith

abbrev pub matched : Option Event → ℕ
matched none = 0
matched (some _) = 1

apply_response-counts :
    (answer : Event) (asked : Option Event) (job : Job)
    → ((apply_response answer asked job).responses ≡ job.responses + 1)
      × ((apply_response answer asked job).requests ≡ job.requests + matched asked)
unfolding apply_response
apply_response-counts answer none job = (refl, omega arith)
apply_response-counts answer (some asked) job = (refl, (count_request-counts asked job).0)

old-job_or_new :
    (o : Option Job)
    → (old (λ j. j.responses) o ≡ (job_or_new o).responses)
      × (old (λ j. j.requests) o ≡ (job_or_new o).requests)
old-job_or_new none = (refl, refl)
old-job_or_new (some job) = (refl, refl)

pub settle-responses :
    (jobs : Dict Job) (answer : Event) (asked : Option Event) (o : Option Text)
    → answer.job_id ≡ o
    → total (λ j. j.responses) (settle jobs answer asked)
      ≡ total (λ j. j.responses) jobs + (if is_some o then 1 else 0)
unfolding settle
settle-responses jobs answer asked none e = rw (e, settle) (omega arith)
settle-responses jobs answer asked (some id) e =
    let job = job_or_new (lookup id jobs) in
    rw (e, settle)
      (omega (
        arith,
        total-insert (λ j. j.responses) id (apply_response answer asked job) jobs,
        (old-job_or_new (lookup id jobs)).0,
        (apply_response-counts answer asked job).0,
      ))

pub settle-requests :
    (jobs : Dict Job) (answer : Event) (asked : Option Event)
    → total (λ j. j.requests) (settle jobs answer asked)
      ≤ total (λ j. j.requests) jobs + matched asked
unfolding settle
settle-requests jobs answer asked = elim (Option-cases answer.job_id) [
  | inl e ↦ rw (e, settle) (omega arith)
  | inr (id, e) ↦
      let job = job_or_new (lookup id jobs) in
      rw (e, settle)
        (omega (
          arith,
          total-insert (λ j. j.requests) id (apply_response answer asked job) jobs,
          (old-job_or_new (lookup id jobs)).1,
          (apply_response-counts answer asked job).1,
        ))
]

pub take_first-length :
    (p : Event → Bool) (es : List Event) (x : Event) (others : List Event)
    → take_first p es ≡ some (x, others)
    → suc (length others) ≡ length es
unfolding take_first
take_first-length p [] x others h = absurd (cc h)
take_first-length p (e ∷ es) x others h = elim (Bool-cases (p e)) [
  | inl passes ↦ let q = rw (passes, take_first) at h in ground arith
  | inr fails ↦ elim (Option-cases (take_first p es)) [
    | inl e' ↦ let q = rw (fails, e', take_first) at h in absurd (cc q)
    | inr (y, e') ↦
        let q = rw (fails, e', take_first) at h in ground (arith, take_first-length p es y.0 y.1)
  ]
]

pub take_last-length :
    (p : Event → Bool) (es : List Event) (x : Event) (others : List Event)
    → take_last p es ≡ some (x, others)
    → suc (length others) ≡ length es
unfolding take_last
take_last-length p [] x others h = absurd (cc h)
take_last-length p (e ∷ es) x others h = elim (Option-cases (take_last p es)) [
  | inr (y, e') ↦ let q = rw (e', take_last) at h in ground (arith, take_last-length p es y.0 y.1)
  | inl e' ↦ elim (Bool-cases (p e)) [
    | inl passes ↦ let q = rw (e', passes, take_last) at h in ground arith
    | inr fails ↦ let q = rw (e', fails, take_last) at h in absurd (cc q)
  ]
]
