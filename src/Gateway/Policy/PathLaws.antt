-- ===== src/Gateway/Policy/PathLaws.antt =====
-- The confinement of paths, `_resolves_inside` of home/rdm/gateway/policy.py.
use mathlib.Core.Path.{ap₂}
use mathlib.Core.List.{reverse, reverse_aux, reverse-reverse, reverse-append}
use remote_devbox_mcp.Base.{
  ℕ, ◌≡◌, ◌≢◌, ◌⊎◌, sym, refl, ap, ◌∙◌, subst, Bool, true, false, List, [], ◌∷◌, ◌++◌, Option, none,
  some, arith, some-injective, if◌then◌else◌, ◌==◌, Text, text_eq, text_eq_iff, All, All-append,
  All-reverse_aux, Bool-cases, inl, inr,
}
use remote_devbox_mcp.Gateway.Policy.Paths.{
  dot_dot, path_parts, resolve_part, resolve_from, resolve_parts, is_prefix, is_drive_relative,
  inside_base, resolves_inside, is_letter, has_drive,
}
use remote_devbox_mcp.Gateway.Policy.Walks.{
  names_of, starts_at_root, Walk, resolve_from-Walk, resolve_parts-resolve_from,
  path_parts-names_of, path_parts-starts_at_root,
}

-- No part climbs.
abbrev pub IsClean : List Text → Type 0
IsClean = All (λ part. text_eq part dot_dot ≡ false)

resolve_part-IsClean :
    (resolved : List Text) (part : Text) (next : List Text)
    → IsClean resolved
    → resolve_part resolved part ≡ some next
    → IsClean next
unfolding resolve_part
resolve_part-IsClean [] part next c h = elim (Bool-cases (text_eq part dot_dot)) [
  | inl up ↦ absurd (ground arith)
  | inr down ↦ let e : part ∷ [] ≡ next = ground arith in subst IsClean e (down, tt)
]
resolve_part-IsClean (top ∷ resolved) part next c h = elim (Bool-cases (text_eq part dot_dot)) [
  | inl up ↦ let e : resolved ≡ next = ground arith in subst IsClean e c.1
  | inr down ↦ let e : part ∷ top ∷ resolved ≡ next = ground arith in subst IsClean e (down, c)
]

resolve_from-IsClean :
    (resolved parts next : List Text)
    → IsClean resolved
    → resolve_from resolved parts ≡ some next
    → IsClean next
unfolding resolve_from
resolve_from-IsClean resolved [] next c h = subst IsClean (some-injective h) c
resolve_from-IsClean resolved (part ∷ parts) next c h =
    go (resolve_part resolved part) refl h (λ r. resolve_from-IsClean r parts next)
  where
    go :
        (o : Option (List Text))
        → resolve_part resolved part ≡ o
        → (elim o [ none ↦ none | some r ↦ resolve_from r parts ]) ≡ some next
        → (ih : (r : List Text) → IsClean r → resolve_from r parts ≡ some next → IsClean next)
        → IsClean next
    go none e p ih = cc
    go (some r) e p ih = ih r (resolve_part-IsClean resolved part r c e) p

-- Parts that do not climb are pushed one by one.
resolve_part-clean :
    (resolved : List Text) (part : Text)
    → text_eq part dot_dot ≡ false
    → resolve_part resolved part ≡ some (part ∷ resolved)
unfolding resolve_part
resolve_part-clean [] part h = rw h
resolve_part-clean (top ∷ resolved) part h = rw h

resolve_from-clean :
    (resolved parts : List Text)
    → IsClean parts
    → resolve_from resolved parts ≡ some (reverse_aux parts resolved)
unfolding resolve_from
resolve_from-clean resolved [] c = refl
resolve_from-clean resolved (part ∷ parts) c =
    rw (resolve_part-clean resolved part c.0, resolve_from)
      (resolve_from-clean (part ∷ resolved) parts c.1)

resolve_parts-clean : (parts : List Text) → IsClean parts → resolve_parts parts ≡ some parts
unfolding resolve_parts
resolve_parts-clean parts c =
    rw (resolve_from-clean [] parts c, resolve_parts) (ap some (reverse-reverse parts))

resolve_parts-IsClean :
    (parts resolved : List Text) → resolve_parts parts ≡ some resolved → IsClean resolved
unfolding resolve_parts
resolve_parts-IsClean parts resolved h = go (resolve_from [] parts) refl h
  where
    go :
        (o : Option (List Text))
        → resolve_from [] parts ≡ o
        → (elim o [ none ↦ none | some r ↦ some (reverse r) ]) ≡ some resolved
        → IsClean resolved
    go none e p = cc
    go (some r) e p =
        subst IsClean (some-injective p)
          (All-reverse_aux _ r [] (resolve_from-IsClean [] parts r tt e) tt)

-- Parts in front that do not climb are a folder to go on from.
resolve_from-append :
    (resolved xs parts : List Text)
    → IsClean xs
    → resolve_from resolved (xs ++ parts) ≡ resolve_from (reverse_aux xs resolved) parts
unfolding resolve_from
resolve_from-append resolved [] parts c = refl
resolve_from-append resolved (x ∷ xs) parts c =
    rw (resolve_part-clean resolved x c.0, resolve_from)
      (resolve_from-append (x ∷ resolved) xs parts c.1)

is_prefix-rest :
    (base candidate : List Text)
    → is_prefix base candidate ≡ true
    → (rest : List Text) × (candidate ≡ base ++ rest)
unfolding is_prefix
is_prefix-rest [] candidate h = (candidate, refl)
is_prefix-rest (b ∷ base) [] h = cc
is_prefix-rest (b ∷ base) (c ∷ candidate) h =
    let (rest, e) = is_prefix-rest base candidate (ground arith) in
    let same : c ≡ b = ground (arith, text_eq_iff c b) in (rest, ap₂ (λ x xs. x ∷ xs) same e)

is_prefix-append : (base rest : List Text) → is_prefix base (base ++ rest) ≡ true
unfolding is_prefix
is_prefix-append [] rest = refl
is_prefix-append (b ∷ base) rest = ground (arith, text_eq_iff b b, is_prefix-append base rest)

-- A value with a drive goes on with a slash: a drive's current folder is not the project's.
abbrev pub IsAnchored : Text → Type 0
IsAnchored value =
    (c : ℕ) (s : Text)
    → value ≡ c ∷ b':' ∷ s
    → is_letter c ≡ true
    → (x : ℕ) × (t : Text) × (s ≡ x ∷ t) × ((x ≡ b'/') ⊎ (x ≡ b'\\'))

-- The project folder's names lead from the root to a folder `base`. The value's names lead from
-- there, or from the root where the value starts at a root, to `base` or to something below it.
-- Folders are given by their names, the deepest first.
pub record IsInside (value project_dir : Text) : Type 0 where
  pub anchored : IsAnchored value
  pub base : List Text
  pub base_reached : Walk [] (names_of project_dir) base
  pub some_base : base ≢ []
  pub below : List Text
  pub reached : Walk (if starts_at_root value then [] else base) (names_of value) (below ++ base)

slash_behind :
    (c : ℕ) (s : Text)
    → is_drive_relative (c ∷ b':' ∷ s) ≡ false
    → is_letter c ≡ true
    → (x : ℕ) × (t : Text) × (s ≡ x ∷ t) × ((x ≡ b'/') ⊎ (x ≡ b'\\'))
unfolding is_drive_relative has_drive
slash_behind c [] h l = absurd (cc (sym l ∙ h))
slash_behind c (x ∷ t) h l = elim (Bool-cases (x == b'/')) [
  | inl e ↦ (x, t, refl, inl (ground (arith, e)))
  | inr n ↦ (x, t, refl, inr (ground (arith, h, l, n)))
]

is_drive_relative-IsAnchored : (value : Text) → is_drive_relative value ≡ false → IsAnchored value
is_drive_relative-IsAnchored value h c s e l = slash_behind c s (ap is_drive_relative (sym e) ∙ h) l

-- From `base`, or from the root, the parts resolve to what the walk reaches.
resolve_parts-Walk :
    (absolute : Bool) (base parts candidate : List Text)
    → IsClean base
    → resolve_parts (if absolute then parts else base ++ parts) ≡ some candidate
    → Walk (if absolute then [] else reverse base) parts (reverse candidate)
resolve_parts-Walk true base parts candidate c h =
    resolve_from-Walk [] parts (reverse candidate) (resolve_parts-resolve_from parts candidate h)
resolve_parts-Walk false base parts candidate c h =
    resolve_from-Walk (reverse base) parts (reverse candidate) (
      sym (resolve_from-append [] base parts c)
      ∙ resolve_parts-resolve_from (base ++ parts) candidate h)

-- A path that passes the check of `_resolves_inside` is no path on a drive's current folder, and
-- following its names, with `..` to the parent folder, leads to the project folder or below it.
pub resolves_inside-IsInside :
    (value project_dir : Text)
    → resolves_inside value (some project_dir) ≡ true
    → IsInside value project_dir
unfolding resolves_inside
resolves_inside-IsInside value project_dir h =
    go (resolve_parts (path_parts project_dir).1) refl (ground arith)
  where
    candidate :
        (b : Text) (base : List Text) (o : Option (List Text))
        → resolve_parts (path_parts project_dir).1 ≡ some (b ∷ base)
        → resolve_parts (
            if (path_parts value).0
            then (path_parts value).1
            else (b ∷ base) ++ (path_parts value).1)
          ≡ o
        → (elim o [ none ↦ false | some c ↦ is_prefix (b ∷ base) c ]) ≡ true
        → IsInside value project_dir
    candidate b base none e m p = cc
    candidate b base (some c) e m p =
        let (rest, at) = is_prefix-rest (b ∷ base) c p in
        record {
          anchored = is_drive_relative-IsAnchored value (ground arith);
          base = reverse (b ∷ base);
          base_reached =
              subst (λ names. Walk [] names (reverse (b ∷ base))) (path_parts-names_of project_dir)
                (resolve_parts-Walk true [] (path_parts project_dir).1 (b ∷ base) tt e);
          some_base = λ x. cc (sym (reverse-reverse (b ∷ base)) ∙ ap reverse x);
          below = reverse rest;
          reached =
              rw
                (
                  ← path_parts-starts_at_root value,
                  ← path_parts-names_of value,
                  ← reverse-append (b ∷ base) rest,
                  ← at,
                )
                (resolve_parts-Walk (path_parts value).0 (b ∷ base) (path_parts value).1 c
                  (resolve_parts-IsClean _ _ e) m);
        }

    go :
        (o : Option (List Text))
        → resolve_parts (path_parts project_dir).1 ≡ o
        → inside_base o (path_parts value) ≡ true
        → IsInside value project_dir
    go none e p = cc
    go (some []) e p = cc
    go (some (b ∷ base)) e p = candidate b base _ e refl p

-- A relative value that does not climb passes, wherever the project is.
pub resolves_inside-relative :
    (value project_dir : Text) {b : Text} {base parts : List Text}
    → is_drive_relative value ≡ false
    → resolve_parts (path_parts project_dir).1 ≡ some (b ∷ base)
    → path_parts value ≡ (false, parts)
    → IsClean parts
    → resolves_inside value (some project_dir) ≡ true
unfolding resolves_inside
resolves_inside-relative value project_dir {b} {base} {parts} d e m c =
    rw (d, e, m)
      (rw
        (
          resolve_parts-clean ((b ∷ base) ++ parts)
              (All-append _ (b ∷ base) parts (resolve_parts-IsClean _ _ e) c),
          inside_base,
        )
        (is_prefix-append (b ∷ base) parts))
