-- ===== src/Proxy/Auth/Laws.antt =====
-- Who passes the bearer check of auth.py.
use remote_devbox_mcp.Base.{
  ◌≡◌, refl, ap, ◌∙◌, ◌↔◌, true, false, List, [], ◌∷◌, Option, none, some, Text, codes, text_eq,
  is_empty, text_eq_iff, text_eq_refl,
}
use remote_devbox_mcp.Proxy.Framing.Head.{Headers}
use remote_devbox_mcp.Proxy.Framing.Validate.{values_of}
use remote_devbox_mcp.Proxy.Auth.Bearer.{IsBearer, split_once-IsBearer, IsBearer-split_once}
use remote_devbox_mcp.Proxy.Auth.{
  split_once, token_of, constant_time_equal, check_values, check_token,
}

-- The code finds the token in the one Authorization value.
abbrev HasToken : Text → List Text → Type 0
HasToken expected values =
    (value : Text) × (values ≡ value ∷ []) × (token_of (split_once value) ≡ some expected)

-- There is one Authorization value, and it has the form `Bearer <token>` with this token.
abbrev pub Carries : Text → List Text → Type 0
Carries expected values = (value : Text) × (values ≡ value ∷ []) × IsBearer expected value

module _ (digest : Text → Text) where
  check_values-HasToken :
      (values : List Text) (expected : Text)
      → ((t : Text) → digest t ≡ digest expected → t ≡ expected)
      → check_values digest values expected ≡ true
      → HasToken expected values
  unfolding check_values constant_time_equal
  check_values-HasToken [] expected inj h = cc
  check_values-HasToken (value ∷ []) expected inj h = go (token_of (split_once value)) refl h
    where
      go :
          (o : Option Text)
          → token_of (split_once value) ≡ o
          → (elim o [ none ↦ false | some t ↦ text_eq (digest t) (digest expected) ]) ≡ true
          → HasToken expected (value ∷ [])
      go none e p = cc
      go (some t) e p =
          (value, refl, e ∙ ap some (inj t ((text_eq_iff (digest t) (digest expected)).0 p)))
  check_values-HasToken (v ∷ w ∷ values) expected inj h = cc

  check_values_complete :
      (values : List Text) (expected : Text)
      → HasToken expected values
      → check_values digest values expected ≡ true
  unfolding check_values constant_time_equal
  check_values_complete values expected (value, single, e) =
      rw single (rw (e, check_values) (text_eq_refl (digest expected)))

  -- Where no other token has the digest of the expected one, the check passes exactly if a token is
  -- expected and there is one Authorization header, whose value is the word `bearer` in any case,
  -- white space and this token; white space may stand in front, and spaces and tabs behind.
  pub check_token_iff :
      (headers : Headers) (expected : Text)
      → ((t : Text) → digest t ≡ digest expected → t ≡ expected)
      → (check_token digest headers expected ≡ true) ↔ (
          (is_empty expected ≡ false)
          × Carries expected (values_of (codes "authorization") headers))
  unfolding check_token
  check_token_iff headers [] inj = (λ h. cc, λ h. cc (h.0))
  check_token_iff headers (c ∷ expected) inj = (
    λ h.
        let (value, single, e) = check_values-HasToken _ (c ∷ expected) inj h in
        (refl, (value, single, split_once-IsBearer value (c ∷ expected) e)),
    λ h.
        let (value, single, form) = h.1 in
        check_values_complete _ _
          (value, single, IsBearer-split_once value (c ∷ expected) refl form),
  )
