-- ===== src/Base/Decimals.antt =====
-- Decimal printing, `str(n)`, and its inverse.
use Prim.Native.Nat.{ℕ, zero, suc, ◌+◌, ◌-◌, ◌*◌, ◌/◌, ◌%◌, ◌<◌}
use mathlib.Core.Path.{◌≡◌, refl, ap, sym, ◌∙◌}
use mathlib.Core.Logic.{inl, inr}
use mathlib.Core.List.{[], ◌∷◌, ◌++◌}
use native.Mathlib.Omega.{arith}
use remote_devbox_mcp.Base.Tests.{ltb, if◌then◌else◌, Bool-cases}
use remote_devbox_mcp.Base.Texts.{Text, text_eq, decimal, decimal_from}

-- Decimal digits of a number; `n + 1` rounds are enough.
unfoldable pub digits_from : ℕ → ℕ → Text
digits_from zero n = []
digits_from (suc fuel) n =
    let rest = digits_from fuel (n / 10) in
    if ltb n 10 then (b'0' + n) ∷ [] else rest ++ (b'0' + n % 10) ∷ []

unfoldable pub digits : ℕ → Text
unfolding digits_from
digits n = digits_from (suc n) n

decimal_from-append :
    (acc : ℕ) (s : Text) (c : ℕ)
    → decimal_from acc (s ++ c ∷ []) ≡ decimal_from acc s * 10 + (c - b'0')
unfolding decimal_from
decimal_from-append acc [] c = refl
decimal_from-append acc (d ∷ s) c = decimal_from-append (acc * 10 + (d - b'0')) s c

pub decimal-digits_from : (fuel n : ℕ) → n < fuel → decimal (digits_from fuel n) ≡ n
unfolding decimal digits_from
decimal-digits_from zero n h = absurd (omega arith)
decimal-digits_from (suc fuel) n h = elim (Bool-cases (ltb n 10)) [
  | inl small ↦ rw small (ground arith)
  | inr big ↦ rw big (rw decimal_from-append (ground (arith, decimal-digits_from fuel (n / 10))))
]

pub digits-injective : (m n : ℕ) → digits m ≡ digits n → m ≡ n
unfolding digits
digits-injective m n h =
    sym (decimal-digits_from (suc m) m (omega arith))
    ∙ (ap decimal h ∙ decimal-digits_from (suc n) n (omega arith))

pub text_eq-append : (e s t : Text) → text_eq (e ++ s) (e ++ t) ≡ text_eq s t
unfolding text_eq
text_eq-append [] s t = refl
text_eq-append (c ∷ e) s t = ground (arith, text_eq-append e s t)
