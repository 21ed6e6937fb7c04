-- ===== src/Proxy/Auth/Bearer.antt =====
-- The form `Bearer <token>` of an Authorization value, told apart from the code of
-- home/rdm/proxy/auth.py that takes it apart.
use mathlib.Core.List.{reverse, reverse-reverse, reverse-append}
use remote_devbox_mcp.Base.{
  ◌≡◌, ◌≢◌, refl, ap, ◌∙◌, sym, Bool, true, false, [], ◌∷◌, ◌++◌, some, arith, if◌then◌else◌, Text,
  codes, text_eq, text_eq_iff, has_byte, any, is_empty, strip, strip_left, lower, All, Bool-cases,
  inl, inr, All-reverse_aux,
}
use remote_devbox_mcp.Proxy.Framing.Fields.{ows}
use remote_devbox_mcp.Proxy.Auth.{whitespace, first_word, split_once, token_of}

-- All of a text is of these characters, or none of it is.
abbrev pub IsOf : Text → Text → Type 0
IsOf chars = All (λ c. has_byte c chars ≡ true)

abbrev pub HasNone : Text → Text → Type 0
HasNone chars = All (λ c. has_byte c chars ≡ false)

-- The first character is of these.
unfoldable pub begins_in : Text → Text → Bool
begins_in chars [] = false
begins_in chars (c ∷ s) = has_byte c chars

-- One word that is `bearer` in any case, white space, and the token. White space may stand in front,
-- and spaces and tabs behind; the token begins and ends with none of these.
pub record IsBearer (token value : Text) : Type 0 where
  pub before : Text
  pub scheme : Text
  pub gap : Text
  pub after : Text
  pub form : value ≡ before ++ (scheme ++ (gap ++ (token ++ after)))
  pub before_blank : IsOf whitespace before
  pub is_scheme : lower scheme ≡ codes "bearer"
  pub is_word : HasNone whitespace scheme
  pub some_gap : gap ≢ []
  pub gap_blank : IsOf whitespace gap
  pub after_blank : IsOf ows after
  pub sharp_left : begins_in whitespace token ≡ false
  pub sharp_right : begins_in ows (reverse token) ≡ false

-- What is stripped is of the characters, and what is left begins with another.
strip_left-cut :
    (chars s : Text)
    → (pad : Text) × (s ≡ pad ++ strip_left chars s)
      × IsOf chars pad
      × (begins_in chars (strip_left chars s) ≡ false)
unfolding strip_left begins_in
strip_left-cut chars [] = ([], refl, tt, refl)
strip_left-cut chars (c ∷ s) = elim (Bool-cases (has_byte c chars)) [
  | inl e ↦
      let (pad, form, blank, sharp) = strip_left-cut chars s in
      rw (e, strip_left) (c ∷ pad, ap (λ t. c ∷ t) form, (e, blank), sharp)
  | inr n ↦ rw (n, strip_left) ([], refl, tt, n)
]

strip_left-append :
    (chars pad s : Text) → IsOf chars pad → strip_left chars (pad ++ s) ≡ strip_left chars s
unfolding strip_left
strip_left-append chars [] s h = refl
strip_left-append chars (c ∷ pad) s h = rw (h.0, strip_left) (strip_left-append chars pad s h.1)

strip_left-sharp : (chars s : Text) → begins_in chars s ≡ false → strip_left chars s ≡ s
unfolding strip_left begins_in
strip_left-sharp chars [] h = refl
strip_left-sharp chars (c ∷ s) h = rw (h, strip_left) refl

-- The first word has no white space, and the rest is empty or begins with some.
first_word-cut :
    (s : Text) → (s ≡ (first_word s).0 ++ (first_word s).1) × HasNone whitespace (first_word s).0
unfolding first_word
first_word-cut [] = (refl, tt)
first_word-cut (c ∷ s) = elim (Bool-cases (has_byte c whitespace)) [
  | inl e ↦ rw (e, first_word) (refl, tt)
  | inr n ↦
      let (form, word) = first_word-cut s in rw (n, first_word) (ap (λ t. c ∷ t) form, (n, word))
]

first_word-rest : (s : Text) → (first_word s).1 ≢ [] → begins_in whitespace (first_word s).1 ≡ true
unfolding first_word begins_in
first_word-rest [] h = absurd (h refl)
first_word-rest (c ∷ s) h = elim (Bool-cases (has_byte c whitespace)) [
  | inl e ↦ rw (e, first_word, begins_in) e
  | inr n ↦ rw (n, first_word) (first_word-rest s (rw (n, first_word) at h))
]

first_word-append :
    (word rest : Text)
    → HasNone whitespace word
    → begins_in whitespace rest ≡ true
    → first_word (word ++ rest) ≡ (word, rest)
unfolding first_word begins_in
first_word-append [] [] h b = absurd (cc b)
first_word-append [] (c ∷ rest) h b = rw (b, first_word) refl
first_word-append (c ∷ word) rest h b = rw (h.0, first_word-append word rest h.1 b, first_word) refl

begins_in-append : (chars s t : Text) → begins_in chars (s ++ t) ≡ false → begins_in chars s ≡ false
unfolding begins_in
begins_in-append chars [] t h = refl
begins_in-append chars (c ∷ s) t h = h

-- Spaces and tabs are white space.
begins_in-ows : (s : Text) → begins_in whitespace s ≡ false → begins_in ows s ≡ false
unfolding begins_in has_byte any
begins_in-ows [] h = refl
begins_in-ows (c ∷ s) h = ground arith

token_of-parts :
    (word behind token : Text)
    → token_of
        (if is_empty word then [] else if is_empty behind then word ∷ [] else word ∷ behind ∷ [])
      ≡ some token
    → (text_eq (lower word) (codes "bearer") ≡ true)
      × (is_empty behind ≡ false)
      × (strip ows behind ≡ token)
unfolding token_of
token_of-parts word behind token h = ground arith

-- A text that begins with no white space is the token and what is stripped behind it.
strip-cut :
    (s : Text)
    → begins_in whitespace s ≡ false
    → (after : Text) × (s ≡ strip ows s ++ after)
      × IsOf ows after
      × (begins_in whitespace (strip ows s) ≡ false)
      × (begins_in ows (reverse (strip ows s)) ≡ false)
unfolding strip
strip-cut s sharp =
    let left : strip ows s ≡ reverse (strip_left ows (reverse s)) =
      ap (λ t. reverse (strip_left ows (reverse t)))
        (strip_left-sharp ows s (begins_in-ows s sharp)) in
    let (pad, form, blank, off) = strip_left-cut ows (reverse s) in
    let whole : s ≡ strip ows s ++ reverse pad =
      sym (reverse-reverse s)
      ∙ (ap reverse form
          ∙ (reverse-append pad (strip_left ows (reverse s))
              ∙ ap (λ t. t ++ reverse pad) (sym left))) in
    (
      reverse pad,
      whole,
      All-reverse_aux _ pad [] blank tt,
      begins_in-append whitespace (strip ows s) (reverse pad)
          (ap (begins_in whitespace) (sym whole) ∙ sharp),
      ap (begins_in ows) (ap reverse left ∙ reverse-reverse (strip_left ows (reverse s))) ∙ off,
    )

some_rest : (s : Text) → is_empty (strip_left whitespace s) ≡ false → s ≢ []
unfolding strip_left
some_rest [] h e = cc
some_rest (c ∷ s) h e = cc e

some_gap :
    (chars gap rest behind : Text)
    → rest ≡ gap ++ behind
    → begins_in chars rest ≡ true
    → begins_in chars behind ≡ false
    → gap ≢ []
some_gap chars gap rest behind form b n e =
    let same : rest ≡ behind = form ∙ ap (λ t. t ++ behind) e in
    absurd (cc (sym b ∙ (ap (begins_in chars) same ∙ n)))

pub split_once-IsBearer :
    (value token : Text) → token_of (split_once value) ≡ some token → IsBearer token value
unfolding split_once
split_once-IsBearer value token h =
    let left = strip_left whitespace value in
    let word = (first_word left).0 in
    let rest = (first_word left).1 in
    let behind = strip_left whitespace rest in
    let (is_scheme, some_behind, stripped) = token_of-parts word behind token h in
    let (before, outer, before_blank, _) = strip_left-cut whitespace value in
    let (inner, is_word) = first_word-cut left in
    let (gap, middle, gap_blank, sharp) = strip_left-cut whitespace rest in
    let (after, last, after_blank, sharp_left, sharp_right) = strip-cut behind sharp in
    record {
      before = before;
      scheme = word;
      gap = gap;
      after = after;
      form =
          outer
          ∙ ap (λ t. before ++ t)
              (inner
                ∙ ap (λ t. word ++ t)
                    (middle ∙ ap (λ t. gap ++ t) (last ∙ ap (λ t. t ++ after) stripped)));
      before_blank = before_blank;
      is_scheme = (text_eq_iff (lower word) (codes "bearer")).0 is_scheme;
      is_word = is_word;
      some_gap =
          some_gap whitespace gap rest behind middle
            (first_word-rest left (some_rest rest some_behind)) sharp;
      gap_blank = gap_blank;
      after_blank = after_blank;
      sharp_left = ap (begins_in whitespace) (sym stripped) ∙ sharp_left;
      sharp_right = ap (λ t. begins_in ows (reverse t)) (sym stripped) ∙ sharp_right;
    }

begins_in-word :
    (word rest : Text)
    → word ≢ []
    → HasNone whitespace word
    → begins_in whitespace (word ++ rest) ≡ false
unfolding begins_in
begins_in-word [] rest ne h = absurd (ne refl)
begins_in-word (c ∷ word) rest ne h = h.0

begins_in-gap :
    (gap rest : Text) → gap ≢ [] → IsOf whitespace gap → begins_in whitespace (gap ++ rest) ≡ true
unfolding begins_in
begins_in-gap [] rest ne h = absurd (ne refl)
begins_in-gap (c ∷ gap) rest ne h = h.0

begins_in-token :
    (chars token after : Text)
    → is_empty token ≡ false
    → begins_in chars (token ++ after) ≡ begins_in chars token
unfolding begins_in
begins_in-token chars [] after h = cc
begins_in-token chars (c ∷ token) after h = refl

token_of-words :
    (word behind : Text)
    → lower word ≡ codes "bearer"
    → is_empty behind ≡ false
    → is_empty (strip ows behind) ≡ false
    → token_of
        (if is_empty word then [] else if is_empty behind then word ∷ [] else word ∷ behind ∷ [])
      ≡ some (strip ows behind)
unfolding token_of lower
token_of-words [] behind h b t = absurd (cc h)
token_of-words (c ∷ word) behind h b t =
    let same = (text_eq_iff (lower (c ∷ word)) (codes "bearer")).1 h in
    rw b (rw (same, t, token_of) refl)

-- Behind the token, spaces and tabs are stripped.
strip-token :
    (token after : Text)
    → is_empty token ≡ false
    → IsOf ows after
    → begins_in whitespace token ≡ false
    → begins_in ows (reverse token) ≡ false
    → strip ows (token ++ after) ≡ token
unfolding strip
strip-token token after some_token blank left right =
    ap (λ t. reverse (strip_left ows (reverse t)))
      (strip_left-sharp ows (token ++ after)
        (begins_in-token ows token after some_token ∙ begins_in-ows token left))
    ∙ (ap (λ t. reverse (strip_left ows t)) (reverse-append token after)
        ∙ (ap reverse (
              strip_left-append ows (reverse after) (reverse token)
                (All-reverse_aux _ after [] blank tt)
              ∙ strip_left-sharp ows (reverse token) right)
            ∙ reverse-reverse token))

is_empty-append : (s t : Text) → is_empty s ≡ false → is_empty (s ++ t) ≡ false
is_empty-append [] t h = absurd (cc h)
is_empty-append (c ∷ s) t h = refl

some_word : (word : Text) → lower word ≡ codes "bearer" → word ≢ []
unfolding lower
some_word [] h e = cc h
some_word (c ∷ word) h e = cc e

pub IsBearer-split_once :
    (value token : Text)
    → is_empty token ≡ false
    → IsBearer token value
    → token_of (split_once value) ≡ some token
unfolding split_once
IsBearer-split_once value token some_token i =
    let tail = token ++ i.after in
    let behind : strip_left whitespace (i.gap ++ tail) ≡ tail =
      strip_left-append whitespace i.gap tail i.gap_blank
      ∙ strip_left-sharp whitespace tail
          (begins_in-token whitespace token i.after some_token ∙ i.sharp_left) in
    let left : strip_left whitespace value ≡ i.scheme ++ (i.gap ++ tail) =
      ap (strip_left whitespace) i.form
      ∙ (strip_left-append whitespace i.before (i.scheme ++ (i.gap ++ tail)) i.before_blank
          ∙ strip_left-sharp whitespace (i.scheme ++ (i.gap ++ tail)) (
              begins_in-word i.scheme (i.gap ++ tail) (some_word i.scheme i.is_scheme)
                i.is_word)) in
    let words =
      ap first_word left
      ∙ first_word-append i.scheme (i.gap ++ tail) i.is_word
          (begins_in-gap i.gap tail i.some_gap i.gap_blank) in
    let stripped = strip-token token i.after some_token i.after_blank i.sharp_left i.sharp_right in
    let some_tail = is_empty-append token i.after some_token in
    rw (split_once, words, behind)
      (token_of-words i.scheme tail i.is_scheme some_tail (ap is_empty stripped ∙ some_token)
        ∙ ap some stripped)
