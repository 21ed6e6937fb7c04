-- ===== src/Audit/Laws.antt =====
-- The chain of audit.py as audit_verify.py checks it.
use remote_devbox_mcp.Base.{
  ℕ, suc, ◌+◌, ◌≡◌, refl, sym, ap, ap₂, ◌∙◌, true, List, [], ◌∷◌, ◌++◌, map, none, arith, Text,
  text_eq, text_eq_refl, text_eq_sound, length, Bool-cases, any, if◌then◌else◌, false, inl, inr,
}
use remote_devbox_mcp.Audit.{
  Entry, Digest, genesis, Folder, Disk, prev_of, audit, line, Report, intact, no_json, Line,
  undecodable, is_separator, pieces, lines_of, read_lines, verify_log, is_genuine, verify_from,
  verify_file,
}

-- Each entry holds its digest, and the hash before it.
abbrev pub IsChained : Digest → Text → List Entry → Type 0
IsChained digest start [] = Unit
IsChained digest start (e ∷ es) =
    (is_genuine digest e ≡ true) × ((e.prev ≡ start) × IsChained digest e.hash es)

-- The hash at the end.
abbrev pub last_hash : Text → List Entry → Text
last_hash start [] = start
last_hash start (e ∷ es) = last_hash e.hash es

verify_from-IsChained :
    (digest : Digest) (n : ℕ) (start : Text) (es : List Entry)
    → IsChained digest start es
    → verify_from digest n start (map line es) ≡ intact (n + length es)
unfolding verify_from
verify_from-IsChained digest n start [] h = ap intact (omega arith)
verify_from-IsChained digest n start (e ∷ es) h =
    rw (h.0, h.1.0, text_eq_refl start)
      (verify_from-IsChained digest (suc n) e.hash es h.1.1 ∙ ap intact (omega arith))

IsChained-verify_from :
    (digest : Digest) (n m : ℕ) (start : Text) (es : List Entry)
    → verify_from digest n start (map line es) ≡ intact m
    → IsChained digest start es
unfolding verify_from
IsChained-verify_from digest n m start [] h = tt
IsChained-verify_from digest n m start (e ∷ es) h = elim (Bool-cases (is_genuine digest e)) [
  | inl g ↦ elim (Bool-cases (text_eq e.prev start)) [
    | inl p ↦ (
      g,
      (
        text_eq_sound e.prev start p,
        IsChained-verify_from digest (suc n) m e.hash es (rw (verify_from, g, p) at h),
      ),
    )
    | inr p ↦ absurd (cc (rw (verify_from, g, p) at h))
  ]
  | inr g ↦ absurd (cc (rw (verify_from, g) at h))
]

-- The chain file holds the hash at the end of the log.
abbrev pub IsSound : Digest → Folder → Type 0
IsSound digest f = IsChained digest genesis f.log × (prev_of f.chain ≡ last_hash genesis f.log)

-- No call leaves the chain behind: it is removed when the log is renamed, and written when a line was.
abbrev pub KeepsPace : Disk → Type 0
KeepsPace d = (d.unlinks ≡ true) × (d.writes ≡ true)

-- A call of `_audit`: what the disk does, the time and the event.
abbrev pub Call : Type 0
Call = Disk × (Text × Text)

abbrev pub audit_all : Digest → List Call → Folder → Folder
audit_all digest [] f = f
audit_all digest ((d, (ts, event)) ∷ calls) f = audit_all digest calls (audit digest d ts event f)

abbrev pub no_files : Folder
no_files = record { log = []; rotated = []; chain = none }

-- The event has no character at which its line is split when it is read.
abbrev pub IsPlain : Text → Type 0
IsPlain event = any is_separator event ≡ false

Plain : Entry → Type 0
Plain e = IsPlain e.event

pieces-first : (s : Text) → (rest : List Line) × (pieces s ≡ undecodable ∷ rest)
unfolding pieces
pieces-first [] = ([], refl)
pieces-first (c ∷ s) = elim (Bool-cases (is_separator c)) [
  | inl e ↦ (pieces s, rw (e, pieces) refl)
  | inr n ↦ let (rest, form) = pieces-first s in (rest, rw (n, pieces) form)
]

-- A log that begins with an event that has such a character is reported as no JSON.
verify_log-separator :
    (digest : Digest) (e : Entry) (es : List Entry)
    → any is_separator e.event ≡ true
    → verify_log digest (e ∷ es) ≡ no_json 1
unfolding verify_log verify_file read_lines lines_of verify_from
verify_log-separator digest e es h =
    let (rest, form) = pieces-first e.event in
    ap
      (λ b.
        verify_from digest 0 genesis ((if b then pieces e.event else line e ∷ []) ++ read_lines es))
      h
    ∙ ap (λ ls. verify_from digest 0 genesis (ls ++ read_lines es)) form

-- No two lines have one digest.
abbrev pub IsInjective : Digest → Type 0
IsInjective digest =
    (t e p t' e' p' : Text) → digest t e p ≡ digest t' e' p' → (t ≡ t') × ((e ≡ e') × (p ≡ p'))

same_entry :
    (e f : Entry) → e.ts ≡ f.ts → e.event ≡ f.event → e.prev ≡ f.prev → e.hash ≡ f.hash → e ≡ f
same_entry e f a b c d = ground arith

-- The number in a report that is intact.
count_of : Report → ℕ
count_of (intact n) = n
count_of _ = 0

same_entries :
    (digest : Digest) (g h : Text) (es fs : List Entry)
    → IsInjective digest
    → IsChained digest g es
    → IsChained digest h fs
    → length es ≡ length fs
    → last_hash g es ≡ last_hash h fs
    → (g ≡ h) × (es ≡ fs)
same_entries digest g h [] [] i c d n l = (l, refl)
same_entries digest g h [] (f ∷ fs) i c d n l = absurd (omega arith)
same_entries digest g h (e ∷ es) [] i c d n l = absurd (omega arith)
same_entries digest g h (e ∷ es) (f ∷ fs) i c d n l =
    let rest = same_entries digest e.hash f.hash es fs i c.1.1 d.1.1 (omega arith) l in
    let mine = text_eq_sound (digest e.ts e.event e.prev) e.hash c.0 in
    let theirs = text_eq_sound (digest f.ts f.event f.prev) f.hash d.0 in
    let parts = i e.ts e.event e.prev f.ts f.event f.prev (mine ∙ (rest.0 ∙ sym theirs)) in
    (
      sym c.1.0 ∙ (parts.1.1 ∙ d.1.0),
      ap₂ (λ (x : Entry) xs. x ∷ xs) (same_entry e f parts.0 parts.1.0 parts.1.1 rest.0) rest.1,
    )

-- Two logs that verify with as many entries and the same last hash are the same log, when no two
-- lines have one digest: no entry can be changed, swapped or replaced behind a hash that is kept.
pub verify_file-injective :
    (digest : Digest) (n : ℕ) (es fs : List Entry)
    → IsInjective digest
    → verify_file digest (map line es) ≡ intact n
    → verify_file digest (map line fs) ≡ intact n
    → last_hash genesis es ≡ last_hash genesis fs
    → es ≡ fs
unfolding verify_file count_of
verify_file-injective digest n es fs i h k l =
    let c = IsChained-verify_from digest 0 n genesis es h in
    let d = IsChained-verify_from digest 0 n genesis fs k in
    let count_es = sym (verify_from-IsChained digest 0 genesis es c) ∙ h in
    let count_fs = sym (verify_from-IsChained digest 0 genesis fs d) ∙ k in
    (same_entries digest genesis genesis es fs i c d
      (omega (arith, ap count_of count_es, ap count_of count_fs)) l).1
