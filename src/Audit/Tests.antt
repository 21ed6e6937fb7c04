-- ===== src/Audit/Tests.antt =====
-- A log of two events, and a digest without collisions.
use remote_devbox_mcp.Base.{
  ◌≡◌, refl, ap, true, false, List, [], ◌∷◌, ◌++◌, map, Text, codes, drop, text_eq, length, arith,
  any,
}
use remote_devbox_mcp.Audit.{
  Entry, Digest, Disk, zeros, genesis, rotate, new_entry, append_entry, audit, line, intact,
  verify_from, verify_file, verify_log, read_lines, lines_of, pieces, no_json,
}
use remote_devbox_mcp.Audit.Laws.{audit_all, no_files, Call, IsInjective, verify_file-injective}

-- The three texts with the lengths of the first two in front.
abbrev framed : Digest
framed ts event prev = length ts ∷ length event ∷ (ts ++ (event ++ prev))

append-injective : (s t x y : Text) → length s ≡ length t → s ++ x ≡ t ++ y → (s ≡ t) × (x ≡ y)
append-injective [] [] x y n h = (refl, h)
append-injective [] (b ∷ t) x y n h = absurd (omega arith)
append-injective (a ∷ s) [] x y n h = absurd (omega arith)
append-injective (a ∷ s) (b ∷ t) x y n h = ground (arith, append-injective s t x y)

framed-IsInjective : IsInjective framed
framed-IsInjective t e p t' e' p' h =
    let first : length t ≡ length t' = cc in
    let second : length e ≡ length e' = cc in
    let outer = append-injective t t' (e ++ p) (e' ++ p') first (ap (drop 2) h) in
    (outer.0, append-injective e e' p p' second outer.1)

abbrev good : Disk
good = record { is_large = false; renames = true; unlinks = true; appends = true; writes = true }

abbrev full : Disk
full = record { is_large = true; renames = true; unlinks = true; appends = true; writes = true }

abbrev calls : List Call
calls =
    (good, (codes "t1", codes "a"))
    ∷ (full, (codes "t2", codes "b"))
    ∷ (good, (codes "t3", codes "c"))
    ∷ []

-- One call with U+2028 in its event, and the log that it leaves.
split_run :
    verify_log framed (audit_all framed ((good, (codes "t1", 8232 ∷ [])) ∷ []) no_files).log
    ≡ no_json 1
unfolding verify_log audit rotate append_entry new_entry read_lines lines_of pieces any verify_file
    verify_from
split_run = refl

log_run : length (audit_all framed calls no_files).log ≡ 2
unfolding audit rotate new_entry append_entry
log_run = refl

abbrev two : List Entry
two =
    record {
      ts = codes "t1";
      event = codes "a";
      prev = genesis;
      hash = framed (codes "t1") (codes "a") genesis;
    }
    ∷ record {
      ts = codes "t2";
      event = codes "b";
      prev = framed (codes "t1") (codes "a") genesis;
      hash = framed (codes "t2") (codes "b") (framed (codes "t1") (codes "a") genesis);
    }
    ∷ []

two_run : verify_file framed (map line two) ≡ intact 2
unfolding verify_file verify_from text_eq genesis zeros
two_run = refl

verify_file-injective_example : two ≡ two
verify_file-injective_example =
    verify_file-injective framed 2 two two framed-IsInjective two_run two_run refl
