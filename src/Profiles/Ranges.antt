-- ===== src/Profiles/Ranges.antt =====
-- The overlap rule of validate, profiles.py: neighbours in the sorted list stand for all pairs.
use remote_devbox_mcp.Base.{
  ℕ, ◌+◌, ◌≤◌, ◌≡◌, ◌↔◌, refl, true, false, List, [], ◌∷◌, arith, if◌then◌else◌, leb, select, All,
  All-map, Bool-cases, inl, inr,
}
use remote_devbox_mcp.Profiles.Validate.Fields.{error, when}
use remote_devbox_mcp.Profiles.Validate.PortRules.{
  is_kept, pair_leb, insert_range, sort_ranges, overlap_problems,
}
use remote_devbox_mcp.Profiles.Clean.{clean, clean-when_off, split_clean}
use remote_devbox_mcp.Ports.{in_range}

-- How many of the ranges a port lies in.
unfoldable pub count_in : ℕ → List (ℕ × ℕ) → ℕ
count_in port [] = 0
count_in port (r ∷ rs) = (if in_range port r then 1 else 0) + count_in port rs

count_in-insert_range :
    (port : ℕ) (r : ℕ × ℕ) (rs : List (ℕ × ℕ))
    → count_in port (insert_range r rs) ≡ count_in port (r ∷ rs)
unfolding count_in insert_range
count_in-insert_range port r [] = refl
count_in-insert_range port r (s ∷ ss) = ground (arith, count_in-insert_range port r ss)

pub count_in-sort_ranges :
    (port : ℕ) (rs : List (ℕ × ℕ)) → count_in port (sort_ranges rs) ≡ count_in port rs
unfolding count_in sort_ranges
count_in-sort_ranges port [] = refl
count_in-sort_ranges port (r ∷ rs) =
    omega (arith, count_in-insert_range port r (sort_ranges rs), count_in-sort_ranges port rs)

abbrev IsOrdered : List (ℕ × ℕ) → Type 0
IsOrdered rs = All (λ (r : ℕ × ℕ). r.0 ≤ r.1) rs

All-insert_range :
    (P : ℕ × ℕ → Type 0) (r : ℕ × ℕ) (rs : List (ℕ × ℕ))
    → P r
    → All P rs
    → All P (insert_range r rs)
unfolding insert_range
All-insert_range P r [] h hs = (h, tt)
All-insert_range P r (s ∷ ss) h hs = elim (Bool-cases (pair_leb r s)) [
  | inl e ↦ rw e (h, hs)
  | inr e ↦ rw e (hs.0, All-insert_range P r ss h hs.1)
]

pub All-sort_ranges : (P : ℕ × ℕ → Type 0) (rs : List (ℕ × ℕ)) → All P rs → All P (sort_ranges rs)
unfolding sort_ranges
All-sort_ranges P [] h = tt
All-sort_ranges P (r ∷ rs) h = All-insert_range P r (sort_ranges rs) h.0 (All-sort_ranges P rs h.1)

-- Every later range begins behind the first one.
starts_behind :
    (port : ℕ) (r : ℕ × ℕ) (rs : List (ℕ × ℕ))
    → IsOrdered (r ∷ rs)
    → clean (overlap_problems (r ∷ rs)) ≡ true
    → port ≤ r.1
    → count_in port rs ≡ 0
unfolding overlap_problems count_in
starts_behind port r [] o h le = refl
starts_behind port r (s ∷ rs) o h le =
    let parts = split_clean (when (leb s.0 r.1) (error 30)) (overlap_problems (s ∷ rs)) h in
    let later = clean-when_off (leb s.0 r.1) 30 parts.0 in
    ground (arith, starts_behind port s rs o.1 parts.1)

pub count_in_le :
    (port : ℕ) (rs : List (ℕ × ℕ))
    → IsOrdered rs
    → clean (overlap_problems rs) ≡ true
    → count_in port rs ≤ 1
unfolding overlap_problems count_in
count_in_le port [] o h = omega arith
count_in_le port (r ∷ []) o h = ground arith
count_in_le port (r ∷ s ∷ rs) o h =
    let parts = split_clean (when (leb s.0 r.1) (error 30)) (overlap_problems (s ∷ rs)) h in
    ground (arith, count_in_le port (s ∷ rs) o.1 parts.1, starts_behind port r (s ∷ rs) o h)

-- The first lower end is the least one.
abbrev IsSorted : List (ℕ × ℕ) → Type 0
IsSorted [] = Unit
IsSorted (r ∷ rs) = All (λ (s : ℕ × ℕ). r.0 ≤ s.0) rs × IsSorted rs

insert_range-IsSorted : (r : ℕ × ℕ) (rs : List (ℕ × ℕ)) → IsSorted rs → IsSorted (insert_range r rs)
unfolding insert_range
insert_range-IsSorted r [] h = (tt, tt)
insert_range-IsSorted r (s ∷ ss) h = elim (Bool-cases (pair_leb r s)) [
  | inl e ↦
      let below : r.0 ≤ s.0 = ground arith in
      rw e (
        (
          below,
          All-map (λ (t : ℕ × ℕ). s.0 ≤ t.0) (λ (t : ℕ × ℕ). r.0 ≤ t.0) ss (λ t g. omega arith) h.0,
        ),
        h,
      )
  | inr e ↦ rw e (
    All-insert_range (λ (t : ℕ × ℕ). s.0 ≤ t.0) r ss (ground arith) h.0,
    insert_range-IsSorted r ss h.1,
  )
]

sort_ranges-IsSorted : (rs : List (ℕ × ℕ)) → IsSorted (sort_ranges rs)
unfolding sort_ranges
sort_ranges-IsSorted [] = tt
sort_ranges-IsSorted (r ∷ rs) = insert_range-IsSorted r (sort_ranges rs) (sort_ranges-IsSorted rs)

-- Ranges that share no port have no overlapping neighbours.
overlap_problems-clean :
    (rs : List (ℕ × ℕ))
    → IsSorted rs
    → IsOrdered rs
    → ((port : ℕ) → count_in port rs ≤ 1)
    → clean (overlap_problems rs) ≡ true
unfolding overlap_problems count_in clean
overlap_problems-clean [] s o h = refl
overlap_problems-clean (r ∷ []) s o h = refl
overlap_problems-clean (r ∷ t ∷ rs) s o h =
    let later : leb t.0 r.1 ≡ false = ground (arith, h t.0) in
    rw later (overlap_problems-clean (t ∷ rs) s.1 o.1 (λ port. ground (arith, h port)))

is_kept-IsOrdered : (rs : List (ℕ × ℕ)) → IsOrdered (select is_kept rs)
unfolding select
is_kept-IsOrdered [] = tt
is_kept-IsOrdered (r ∷ rs) = ground (arith, is_kept-IsOrdered rs)

-- The overlap rule reports nothing exactly if no port lies in two of the ranges that are kept.
pub overlap_problems-sort_ranges :
    (rs : List (ℕ × ℕ))
    → (clean (overlap_problems (sort_ranges (select is_kept rs))) ≡ true)
      ↔ ((port : ℕ) → count_in port (select is_kept rs) ≤ 1)
overlap_problems-sort_ranges rs =
    let kept = select is_kept rs in
    let o = All-sort_ranges (λ (r : ℕ × ℕ). r.0 ≤ r.1) kept (is_kept-IsOrdered rs) in
    (
      λ h port.
          omega (arith, count_in_le port (sort_ranges kept) o h, count_in-sort_ranges port kept),
      λ h.
          overlap_problems-clean (sort_ranges kept) (sort_ranges-IsSorted kept) o
            (λ port. omega (arith, h port, count_in-sort_ranges port kept)),
    )
