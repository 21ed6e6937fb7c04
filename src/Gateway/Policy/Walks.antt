-- ===== src/Gateway/Policy/Walks.antt =====
-- What a path means, told apart from the code: the names in a text, and the walk through them that
-- `_path_parts` and `_resolve_parts` of home/rdm/gateway/policy.py follow.
use mathlib.Core.List.{reverse, reverse-reverse}
use mathlib.Core.Path.{ap₂}
use remote_devbox_mcp.Base.{
  ℕ, ◌≡◌, ◌≢◌, refl, ap, ◌∙◌, sym, inl, inr, subst, Bool, true, false, not, ◌||◌, ◌&&◌, List, [],
  ◌∷◌, map, Option, none, some, some-injective, arith, if◌then◌else◌, ◌==◌, Text, codes, text_eq,
  text_eq_iff, split, split_from, starts_with, strip_prefix?, is_some, is_in, any, select,
  push_first, Bool-cases,
}
use remote_devbox_mcp.Gateway.Policy.Paths.{
  is_letter, has_drive, after_drive, slash_byte, is_drive_part, dot, dot_dot, path_parts,
  resolve_part, resolve_from, resolve_parts,
}

-- A slash or a backslash.
abbrev pub is_slash : ℕ → Bool
is_slash c = c == b'/' || c == 92

-- The stretches of a text between its slashes.
unfoldable pub stretches : Text → List Text
stretches [] = [] ∷ []
stretches (c ∷ s) = let rest = stretches s in if is_slash c then [] ∷ rest else push_first c rest

-- All but the empty ones and `.`.
unfoldable pub names_in : List Text → List Text
names_in [] = []
names_in (x ∷ xs) =
    let rest = names_in xs in
    if text_eq x [] then rest else if text_eq x dot then rest else x ∷ rest

-- The names of a path: a drive in front is a name of its own.
unfoldable pub names_of : Text → List Text
unfolding stretches names_in
names_of (c ∷ d ∷ s) =
    let rest = names_in (stretches s) in
    if d == b':' && is_letter c then (c ∷ d ∷ []) ∷ rest else names_in (stretches (c ∷ d ∷ s))
names_of s = names_in (stretches s)

-- A path starts at a root if its first character is a slash or its first name is a drive.
unfoldable pub names_drive : List Text → Bool
names_drive ((c ∷ d ∷ []) ∷ names) = d == b':'
names_drive _ = false

unfoldable pub starts_at_root : Text → Bool
unfolding names_of names_drive
starts_at_root [] = false
starts_at_root (c ∷ s) = is_slash c || names_drive (names_of (c ∷ s))

-- From a folder, given by its names with the deepest first, one name after another: `..` leaves a
-- folder, any other name enters one.
pub data Walk : List Text → List Text → List Text → Type 0 where
  arrives : {here : List Text} → Walk here [] here
  leaves :
      {here : List Text} {top part : Text} {parts end : List Text}
      → part ≡ codes ".."
      → Walk here parts end
      → Walk (top ∷ here) (part ∷ parts) end
  enters :
      {here : List Text} {part : Text} {parts end : List Text}
      → part ≢ codes ".."
      → Walk (part ∷ here) parts end
      → Walk here (part ∷ parts) end

pub resolve_from-Walk :
    (resolved parts next : List Text)
    → resolve_from resolved parts ≡ some next
    → Walk resolved parts next
unfolding resolve_from resolve_part
resolve_from-Walk resolved [] next h = subst (Walk resolved []) (some-injective h) arrives
resolve_from-Walk [] (part ∷ parts) next h = elim (Bool-cases (text_eq part dot_dot)) [
  | inl up ↦ absurd (cc (rw (resolve_from, resolve_part, up) at h))
  | inr down ↦
      enters (λ e. cc ((text_eq_iff part dot_dot).1 e))
        (resolve_from-Walk (part ∷ []) parts next (rw (resolve_from, resolve_part, down) at h))
]
resolve_from-Walk (top ∷ resolved) (part ∷ parts) next h =
    elim (Bool-cases (text_eq part dot_dot)) [
      | inl up ↦
          leaves ((text_eq_iff part dot_dot).0 up)
            (resolve_from-Walk resolved parts next (rw (resolve_from, resolve_part, up) at h))
      | inr down ↦
          enters (λ e. cc ((text_eq_iff part dot_dot).1 e))
            (resolve_from-Walk (part ∷ top ∷ resolved) parts next
              (rw (resolve_from, resolve_part, down) at h))
    ]

pub resolve_parts-resolve_from :
    (parts resolved : List Text)
    → resolve_parts parts ≡ some resolved
    → resolve_from [] parts ≡ some (reverse resolved)
unfolding resolve_parts
resolve_parts-resolve_from parts resolved h = go (resolve_from [] parts) refl h
  where
    go :
        (o : Option (List Text))
        → resolve_from [] parts ≡ o
        → (elim o [ none ↦ none | some r ↦ some (reverse r) ]) ≡ some resolved
        → resolve_from [] parts ≡ some (reverse resolved)
    go none e p = cc
    go (some r) e p = e ∙ ap some (sym (reverse-reverse r) ∙ ap reverse (some-injective p))

split-stretches : (s : Text) → split_from (codes "/") 0 (map slash_byte s) ≡ stretches s
unfolding split_from starts_with strip_prefix? stretches
split-stretches [] = refl
split-stretches (c ∷ s) = ground (arith, split-stretches s)

select-names_in :
    (xs : List Text) → select (λ part. not (is_in part ([] ∷ dot ∷ []))) xs ≡ names_in xs
unfolding names_in is_in any select
select-names_in [] = refl
select-names_in (x ∷ xs) = ground (arith, select-names_in xs)

abbrev parts_in : Text → List Text
parts_in s =
    select (λ part. not (is_in part ([] ∷ dot ∷ []))) (split (codes "/") (map slash_byte s))

parts_in-names_in : (s : Text) → parts_in s ≡ names_in (stretches s)
unfolding split
parts_in-names_in s = rw (split, split-stretches s) (select-names_in (stretches s))

-- A letter and a colon in front of a slash are a name.
drive_name :
    (c d : ℕ) (s : Text)
    → (d == b':' && is_letter c) ≡ true
    → names_in (stretches (c ∷ d ∷ b'/' ∷ s)) ≡ (c ∷ d ∷ []) ∷ names_in (stretches s)
unfolding stretches names_in text_eq
drive_name c d s e = ground arith

after_drive-drive :
    (c d : ℕ) (s : Text)
    → (d == b':' && is_letter c) ≡ true
    → after_drive (c ∷ d ∷ s) ≡ c ∷ d ∷ b'/' ∷ s
unfolding after_drive has_drive
after_drive-drive c d s e = ground arith

after_drive-plain :
    (c d : ℕ) (s : Text) → (d == b':' && is_letter c) ≡ false → after_drive (c ∷ d ∷ s) ≡ c ∷ d ∷ s
unfolding after_drive has_drive
after_drive-plain c d s e = ground arith

names_of-drive :
    (c d : ℕ) (s : Text)
    → (d == b':' && is_letter c) ≡ true
    → (c ∷ d ∷ []) ∷ names_in (stretches s) ≡ names_of (c ∷ d ∷ s)
unfolding names_of
names_of-drive c d s e = rw (names_of, e) refl

names_of-plain :
    (c d : ℕ) (s : Text)
    → (d == b':' && is_letter c) ≡ false
    → names_in (stretches (c ∷ d ∷ s)) ≡ names_of (c ∷ d ∷ s)
unfolding names_of
names_of-plain c d s e = rw (names_of, e) refl

-- The code's parts are the names.
pub path_parts-names_of : (s : Text) → (path_parts s).1 ≡ names_of s
unfolding path_parts after_drive names_of
path_parts-names_of [] = parts_in-names_in []
path_parts-names_of (c ∷ []) = parts_in-names_in (c ∷ [])
path_parts-names_of (c ∷ d ∷ s) = elim (Bool-cases (d == b':' && is_letter c)) [
  | inl e ↦
      ap parts_in (after_drive-drive c d s e)
      ∙ (parts_in-names_in (c ∷ d ∷ b'/' ∷ s) ∙ (drive_name c d s e ∙ names_of-drive c d s e))
  | inr e ↦
      ap parts_in (after_drive-plain c d s e)
      ∙ (parts_in-names_in (c ∷ d ∷ s) ∙ names_of-plain c d s e)
]

is_drive_part-names_drive : (xs : List Text) → is_drive_part xs ≡ names_drive xs
unfolding is_drive_part names_drive
is_drive_part-names_drive [] = refl
is_drive_part-names_drive ([] ∷ xs) = refl
is_drive_part-names_drive ((c ∷ []) ∷ xs) = refl
is_drive_part-names_drive ((c ∷ d ∷ []) ∷ xs) = refl
is_drive_part-names_drive ((c ∷ d ∷ e ∷ s) ∷ xs) = refl

-- A slash in front.
abbrev is_rooted : Text → Bool
is_rooted s = is_some (strip_prefix? (codes "/") (map slash_byte s))

abbrev slash_first : Text → Bool
slash_first [] = false
slash_first (c ∷ s) = is_slash c

is_rooted-slash_first : (s : Text) → is_rooted s ≡ slash_first s
unfolding strip_prefix?
is_rooted-slash_first [] = refl
is_rooted-slash_first (c ∷ s) = ground arith

after_drive-slash_first : (s : Text) → slash_first (after_drive s) ≡ slash_first s
unfolding after_drive
after_drive-slash_first [] = refl
after_drive-slash_first (c ∷ []) = refl
after_drive-slash_first (c ∷ d ∷ s) = elim (Bool-cases (d == b':' && is_letter c)) [
  | inl e ↦ ap slash_first (after_drive-drive c d s e)
  | inr e ↦ ap slash_first (after_drive-plain c d s e)
]

pub path_parts-starts_at_root : (s : Text) → (path_parts s).0 ≡ starts_at_root s
unfolding path_parts starts_at_root names_of names_in stretches names_drive strip_prefix? select
    split is_in text_eq
path_parts-starts_at_root [] = refl
path_parts-starts_at_root (c ∷ s) =
    ap₂ (λ a b. a || b)
      (is_rooted-slash_first (after_drive (c ∷ s)) ∙ after_drive-slash_first (c ∷ s))
      (is_drive_part-names_drive (path_parts (c ∷ s)).1
        ∙ ap names_drive (path_parts-names_of (c ∷ s)))
