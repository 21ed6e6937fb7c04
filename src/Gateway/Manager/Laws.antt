-- ===== src/Gateway/Manager/Laws.antt =====
-- The session table under interleavings, `SessionManager` of home/rdm/gateway/sessions.py.
use remote_devbox_mcp.Base.{
  ℕ, suc, ◌+◌, ◌≤◌, ◌<◌, ◌≡◌, ◌≢◌, refl, subst, sym, ◌∙◌, true, false, List, [], ◌∷◌, none, some,
  some-injective, arith, if◌then◌else◌, ◌==◌, leb, Text, codes, text_eq, text_eq_iff,
  text_eq-append, digits, digits-injective, length, mem, All, All-map, lookup, insert,
  lookup-insert, lookup-erase-none, length-erase_le, length-insert_le, Bool-cases, inl, inr,
}
use remote_devbox_mcp.Gateway.Manager.{
  Manager, reserve, commit, abort, get, drop_session, session_id, World, without, Step, reserves,
  commits, aborts, drops, Reach, here, next,
}

text_eq-session_id : (m n : ℕ) → text_eq (session_id m) (session_id n) ≡ true → m ≡ n
unfolding session_id
text_eq-session_id m n h = digits-injective m n (
    (text_eq_iff (digits m) (digits n)).0
      (sym (text_eq-append (codes "sess-") (digits m) (digits n)) ∙ h))

abbrev pub AreDistinct : List ℕ → Type 0
AreDistinct [] = Unit
AreDistinct (n ∷ ns) = (mem n ns ≡ false) × AreDistinct ns

-- A session that is being created has an id below `next_id` that no session has.
abbrev pub IsPending : {Session : Type 0} → Manager Session → ℕ → Type 0
IsPending m n = (n < m.next_id) × (lookup (session_id n) m.sessions ≡ none)

pub record IsSound {Session : Type 0} (w : World Session) : Type 0 where
  pub bound : length w.manager.sessions + w.manager.creating ≤ w.manager.max_sessions
  pub counted : w.manager.creating ≡ length w.threads
  pub unused : (n : ℕ) → w.manager.next_id ≤ n → lookup (session_id n) w.manager.sessions ≡ none
  pub pending : All (IsPending w.manager) w.threads
  pub distinct : AreDistinct w.threads

length-without : (n : ℕ) (ns : List ℕ) → mem n ns ≡ true → suc (length (without n ns)) ≡ length ns
unfolding mem
length-without n [] h = cc
length-without n (k ∷ ks) h = ground (arith, length-without n ks)

mem-without : (p n : ℕ) (ns : List ℕ) → mem p ns ≡ false → mem p (without n ns) ≡ false
unfolding mem
mem-without p n [] h = h
mem-without p n (k ∷ ks) h = ground (arith, mem-without p n ks)

AreDistinct-without : (n : ℕ) (ns : List ℕ) → AreDistinct ns → AreDistinct (without n ns)
AreDistinct-without n [] d = tt
AreDistinct-without n (k ∷ ks) d =
    ground (arith, AreDistinct-without n ks d.1, mem-without k n ks d.0)

All-apart :
    (P Q : ℕ → Type 0) (n : ℕ) (ns : List ℕ)
    → ((k : ℕ) → k ≢ n → P k → Q k)
    → mem n ns ≡ false
    → All P ns
    → All Q ns
unfolding mem
All-apart P Q n [] f m h = tt
All-apart P Q n (k ∷ ks) f m h = (f k (ground arith) h.0, All-apart P Q n ks f (ground arith) h.1)

-- What is left without `n` keeps its property, and is not `n`.
All-without :
    (P Q : ℕ → Type 0) (n : ℕ) (ns : List ℕ)
    → ((k : ℕ) → k ≢ n → P k → Q k)
    → AreDistinct ns
    → All P ns
    → All Q (without n ns)
All-without P Q n [] f d h = tt
All-without P Q n (k ∷ ks) f d h = elim (Bool-cases (n == k)) [
  | inl same ↦
      let e : k ≡ n = ground arith in
      rw same (All-apart P Q n ks f (subst (λ j. mem j ks ≡ false) e d.0) h.1)
  | inr other ↦ rw other (f k (ground arith) h.0, All-without P Q n ks f d.1 h.1)
]

All-mem : (P : ℕ → Type 0) (n : ℕ) (ns : List ℕ) → All P ns → mem n ns ≡ true → P n
unfolding mem
All-mem P n [] h m = cc
All-mem P n (k ∷ ks) h m = elim (Bool-cases (n == k)) [
  | inl same ↦ let e : k ≡ n = ground arith in subst P e h.0
  | inr other ↦ All-mem P n ks h.1 (ground arith)
]

mem-below :
    {Session : Type 0} (m : Manager Session) (ns : List ℕ)
    → All (IsPending m) ns
    → mem m.next_id ns ≡ false
unfolding mem
mem-below m [] h = refl
mem-below m (k ∷ ks) h = ground (arith, mem-below m ks h.1)

module _ {Session : Type 0} where
  abbrev after_reserve : Manager Session → ℕ × Manager Session
  after_reserve m = (m.next_id, record m { creating = m.creating + 1; next_id = m.next_id + 1 })

  reserve-some :
      (m : Manager Session) (p : ℕ × Manager Session)
      → reserve m ≡ some p
      → (after_reserve m ≡ p) × (length m.sessions + m.creating < m.max_sessions)
  unfolding reserve
  reserve-some m p h = elim (Bool-cases (leb m.max_sessions (length m.sessions + m.creating))) [
    | inl full ↦ absurd (ground arith)
    | inr room ↦ (some-injective (rw room at h), ground arith)
  ]

  reserve-IsSound :
      (w : World Session) {n : ℕ} {m : Manager Session}
      → IsSound w
      → reserve w.manager ≡ some (n, m)
      → IsSound (record { manager = m; threads = n ∷ w.threads })
  reserve-IsSound w {n} {m} s h =
      let (same, room) = reserve-some w.manager (n, m) h in
      subst
        (λ (p : ℕ × Manager Session). IsSound (record { manager = p.1; threads = p.0 ∷ w.threads }))
        same
        (record {
          bound = omega (arith, s.bound);
          counted = omega (arith, s.counted);
          unused = λ k le. s.unused k (omega arith);
          pending = (
            (omega arith, s.unused w.manager.next_id (omega arith)),
            All-map (IsPending w.manager) _ w.threads (λ k q. (omega (arith, q.0), q.1)) s.pending,
          );
          distinct = (mem-below w.manager w.threads s.pending, s.distinct);
        })

  commit-IsSound :
      (w : World Session) (n : ℕ) (x : Session)
      → IsSound w
      → mem n w.threads ≡ true
      → IsSound
          (record { manager = commit (session_id n) x w.manager; threads = without n w.threads })
  unfolding commit
  commit-IsSound w n x s h =
      let p = All-mem (IsPending w.manager) n w.threads s.pending h in
      let shorter = length-without n w.threads h in
      let other : (k : ℕ)
          → k ≢ n
          → lookup (session_id k) w.manager.sessions ≡ none
          → lookup (session_id k) (insert (session_id n) x w.manager.sessions) ≡ none =
        λ k ne none_k. ground (
          arith,
          lookup-insert (session_id n) (session_id k) x w.manager.sessions,
          text_eq-session_id n k,
        ) in
      record {
        bound =
            omega (arith, length-insert_le (session_id n) x w.manager.sessions, s.bound, s.counted);
        counted = omega (arith, s.counted);
        unused = λ k le. other k (omega arith) (s.unused k le);
        pending =
            All-without (IsPending w.manager) _ n w.threads (λ k ne q. (q.0, other k ne q.1))
              s.distinct s.pending;
        distinct = AreDistinct-without n w.threads s.distinct;
      }

  abort-IsSound :
      (w : World Session) (n : ℕ)
      → IsSound w
      → mem n w.threads ≡ true
      → IsSound (record { manager = abort w.manager; threads = without n w.threads })
  unfolding abort
  abort-IsSound w n s h =
      let shorter = length-without n w.threads h in
      record {
        bound = omega (arith, s.bound);
        counted = omega (arith, s.counted);
        unused = s.unused;
        pending =
            All-without (IsPending w.manager) _ n w.threads (λ k ne q. q) s.distinct s.pending;
        distinct = AreDistinct-without n w.threads s.distinct;
      }

  drop-IsSound :
      (w : World Session) (id : Text)
      → IsSound w
      → IsSound (record w { manager = drop_session id w.manager })
  unfolding drop_session
  drop-IsSound w id s = record {
    bound = omega (arith, length-erase_le id w.manager.sessions, s.bound);
    counted = s.counted;
    unused = λ k le. lookup-erase-none id (session_id k) w.manager.sessions (s.unused k le);
    pending =
        All-map (IsPending w.manager) _ w.threads
          (λ k q. (q.0, lookup-erase-none id (session_id k) w.manager.sessions q.1)) s.pending;
    distinct = s.distinct;
  }

  Step-IsSound : {v w : World Session} → Step v w → IsSound v → IsSound w
  Step-IsSound {v} (reserves h) s = reserve-IsSound v s h
  Step-IsSound {v} (commits n x h) s = commit-IsSound v n x s h
  Step-IsSound {v} (aborts n h) s = abort-IsSound v n s h
  Step-IsSound {v} (drops id) s = drop-IsSound v id s

  -- From a sound state, under every interleaving of creations, failures and closings: the sessions
  -- and those being created stay within the limit, each thread holds one place, and the ids of
  -- threads are distinct and belong to no session.
  pub Reach-IsSound : {v w : World Session} → IsSound v → Reach v w → IsSound w
  Reach-IsSound s here = s
  Reach-IsSound s (next r st) = Step-IsSound st (Reach-IsSound s r)

  -- In a sound state a session that is entered is found under its id, takes no other session's
  -- place, and its id was not in use.
  pub get-commit :
      (w : World Session) (n : ℕ) (x : Session) (id : Text)
      → IsSound w
      → mem n w.threads ≡ true
      → (get (session_id n) w.manager ≡ none)
        × (get id (commit (session_id n) x w.manager)
            ≡ (if text_eq (session_id n) id then some x else get id w.manager))
  unfolding get commit
  get-commit w n x id s h = (
    (All-mem (IsPending w.manager) n w.threads s.pending h).1,
    lookup-insert (session_id n) id x w.manager.sessions,
  )
