-- ===== src/Proxy/Auth.antt =====
-- Bearer authorization, home/rdm/proxy/auth.py. SHA-256 is the parameter `digest`.
pub mod Bearer
pub mod Laws
use remote_devbox_mcp.Base.{
  ℕ, ◌≡◌, refl, Bool, true, false, not, ◌&&◌, ◌||◌, List, [], ◌∷◌, Option, none, some,
  if◌then◌else◌, ◌==◌, Text, codes, text_eq, has_byte, is_empty, strip, strip_left, lower,
}
use remote_devbox_mcp.Proxy.Framing.Head.{Header, Headers}
use remote_devbox_mcp.Proxy.Framing.Fields.{ows}
use remote_devbox_mcp.Proxy.Framing.Validate.{values_of}

-- What `bytes.split(None)` splits at.
abbrev pub whitespace : Text
whitespace = 32 ∷ 9 ∷ 10 ∷ 13 ∷ 11 ∷ 12 ∷ []

unfoldable pub first_word : Text → Text × Text
first_word [] = ([], [])
first_word (c ∷ s) =
    let (word, rest) = first_word s in
    if has_byte c whitespace then ([], c ∷ s) else (c ∷ word, rest)

-- `value.split(None, 1)`
unfoldable pub split_once : Text → List Text
unfolding first_word
split_once value =
    let (word, rest) = first_word (strip_left whitespace value) in
    let behind = strip_left whitespace rest in
    if is_empty word then [] else if is_empty behind then word ∷ [] else word ∷ behind ∷ []

-- The token behind the scheme `bearer`; `none` where the value is of another form.
unfoldable pub token_of : List Text → Option Text
token_of (scheme ∷ value ∷ []) =
    let token = strip ows value in
    if text_eq (lower scheme) (codes "bearer") && not (is_empty token) then some token else none
token_of _ = none

module _ (digest : Text → Text) where
  unfoldable pub constant_time_equal : Text → Text → Bool
  constant_time_equal left right = text_eq (digest left) (digest right)

  unfoldable pub check_values : List Text → Text → Bool
  unfolding constant_time_equal token_of
  check_values (value ∷ []) expected = elim (token_of (split_once value)) [
    | none ↦ false
    | some token ↦ constant_time_equal token expected
  ]
  check_values _ expected = false

  unfoldable pub check_token : Headers → Text → Bool
  unfolding check_values
  check_token headers expected =
      if is_empty expected
      then false
      else check_values (values_of (codes "authorization") headers) expected
