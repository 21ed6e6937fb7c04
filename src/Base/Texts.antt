-- ===== src/Base/Texts.antt =====
-- Texts and byte strings: lists of code points. The operations of Python's `bytes` and `str`
-- that the program uses: equality, partition, split, strip, lower.
use Prim.Native.Nat.{ℕ, zero, suc, ◌+◌, ◌-◌, ◌*◌, pred}
use Prim.Native.Char.{code}
use Prim.Native.String.{String}
use mathlib.Core.Path.{◌≡◌, refl}
use mathlib.Core.Logic.{◌↔◌}
use mathlib.Core.Bool.{Bool, true, false, ◌&&◌}
use mathlib.Core.List.{List, [], ◌∷◌, ◌++◌, map, reverse}
use mathlib.Core.Option.{Option, none, some}
use native.Mathlib.Omega.{arith}
use remote_devbox_mcp.Base.Tests.{◌==◌, leb, if◌then◌else◌, is_some}
use remote_devbox_mcp.Base.Lists.{length, any}

abbrev pub Text : Type 0
Text = List ℕ

-- The code points of a literal.
abbrev pub codes : String → Text
codes String.[] = []
codes (String.◌∷◌ c s) = code c ∷ codes s

unfoldable pub text_eq : Text → Text → Bool
text_eq [] [] = true
text_eq (a ∷ s) (b ∷ t) = a == b && text_eq s t
text_eq _ _ = false

pub text_eq_sound : (s t : Text) → text_eq s t ≡ true → s ≡ t
unfolding text_eq
text_eq_sound [] [] h = refl
text_eq_sound (a ∷ s) (b ∷ t) h = ground (arith, text_eq_sound s t)
text_eq_sound (a ∷ s) [] h = cc
text_eq_sound [] (b ∷ t) h = cc

pub text_eq_refl : (s : Text) → text_eq s s ≡ true
unfolding text_eq
text_eq_refl [] = refl
text_eq_refl (a ∷ s) = ground (arith, text_eq_refl s)

pub text_eq_complete : (s t : Text) → s ≡ t → text_eq s t ≡ true
text_eq_complete s t h = rw h (text_eq_refl t)

pub text_eq_iff : (s t : Text) → (text_eq s t ≡ true) ↔ (s ≡ t)
text_eq_iff s t = (text_eq_sound s t, text_eq_complete s t)

-- `x in (a, b, …)`
unfoldable pub is_in : Text → List Text → Bool
unfolding any
is_in t = any (text_eq t)

-- `byte in text`
unfoldable pub has_byte : ℕ → Text → Bool
unfolding any
has_byte c = any (λ d. d == c)

-- The rest of a text behind a prefix.
unfoldable pub strip_prefix? : Text → Text → Option Text
strip_prefix? [] s = some s
strip_prefix? (a ∷ p) [] = none
strip_prefix? (a ∷ p) (b ∷ s) = if a == b then strip_prefix? p s else none

unfoldable pub starts_with : Text → Text → Bool
unfolding strip_prefix?
starts_with p s = is_some (strip_prefix? p s)

-- The parts before and behind the first separator, `none` where there is none.
unfoldable pub find_sep : Text → Text → Option (Text × Text)
unfolding strip_prefix?
find_sep sep [] = none
find_sep sep (c ∷ s) =
    let rest = find_sep sep s in
    elim (strip_prefix? sep (c ∷ s)) [
      | some after ↦ some ([], after)
      | none ↦ elim rest [ none ↦ none | some (before, after) ↦ some (c ∷ before, after) ]
    ]

-- `text.partition(sep)`: (before, True, behind), or (text, False, "") without a separator.
unfoldable pub partition : Text → Text → Text × Bool × Text
unfolding find_sep
partition sep s = elim (find_sep sep s) [
  | none ↦ (s, false, [])
  | some (before, after) ↦ (before, true, after)
]

-- Put a code point before the first of the parts.
abbrev pub push_first : ℕ → List Text → List Text
push_first c [] = (c ∷ []) ∷ []
push_first c (p ∷ ps) = (c ∷ p) ∷ ps

-- `text.split(sep)`; `skip` counts the bytes of a separator that are still to be passed over.
unfoldable pub split_from : Text → ℕ → Text → List Text
unfolding strip_prefix?
split_from sep skip [] = [] ∷ []
split_from sep (suc skip) (c ∷ s) = split_from sep skip s
split_from sep zero (c ∷ s) = elim (starts_with sep (c ∷ s)) [
  | true ↦ [] ∷ split_from sep (pred (length sep)) s
  | false ↦ push_first c (split_from sep zero s)
]

unfoldable pub split : Text → Text → List Text
unfolding split_from
split sep = split_from sep zero

-- `sep.join(parts)`
unfoldable pub join : Text → List Text → Text
join sep [] = []
join sep (p ∷ []) = p
join sep (p ∷ q ∷ ps) = p ++ (sep ++ join sep (q ∷ ps))

-- `text.strip(chars)`
unfoldable pub strip_left : Text → Text → Text
unfolding has_byte
strip_left chars [] = []
strip_left chars (c ∷ s) = let rest = strip_left chars s in if has_byte c chars then rest else c ∷ s

unfoldable pub strip : Text → Text → Text
unfolding strip_left
strip chars s = reverse (strip_left chars (reverse (strip_left chars s)))

-- What `str.strip()` strips and `\s` matches: the code points c with `chr(c).isspace()`.
abbrev pub spaces : Text
spaces =
    9 ∷ 10 ∷ 11 ∷ 12 ∷ 13 ∷ 28 ∷ 29 ∷ 30 ∷ 31 ∷ 32 ∷ 133 ∷ 160 ∷ 5760 ∷ 8192 ∷ 8193 ∷ 8194 ∷ 8195
    ∷ 8196 ∷ 8197 ∷ 8198 ∷ 8199 ∷ 8200 ∷ 8201 ∷ 8202 ∷ 8232 ∷ 8233 ∷ 8239 ∷ 8287 ∷ 12288 ∷ []

-- ASCII lower case, as `bytes.lower()` has it.
abbrev pub lower_byte : ℕ → ℕ
lower_byte c = if leb b'A' c && leb c b'Z' then c + 32 else c

unfoldable pub lower : Text → Text
lower = map lower_byte

abbrev pub is_digit : ℕ → Bool
is_digit c = leb b'0' c && leb c b'9'

-- `int(token)` of decimal digits.
unfoldable pub decimal_from : ℕ → Text → ℕ
decimal_from acc [] = acc
decimal_from acc (c ∷ s) = decimal_from (acc * 10 + (c - b'0')) s

unfoldable pub decimal : Text → ℕ
unfolding decimal_from
decimal = decimal_from 0
