-- ===== src/Base/TextLaws.antt =====
-- Laws of the text operations: prefixes, first separators, split and join.
use Prim.Native.Nat.{ℕ}
use mathlib.Core.Path.{◌≡◌, refl, ap, ◌∙◌}
use mathlib.Core.Logic.{◌≢◌}
use mathlib.Core.List.{[], ◌∷◌, ◌++◌}
use mathlib.Core.Option.{Option, none, some}
use native.Mathlib.Omega.{arith}
use remote_devbox_mcp.Base.Texts.{Text, strip_prefix?, find_sep}

pub strip_prefix?-some : (p s : Text) {r : Text} → strip_prefix? p s ≡ some r → p ++ r ≡ s
unfolding strip_prefix?
strip_prefix?-some [] s h = cc
strip_prefix?-some (a ∷ p) [] h = cc
strip_prefix?-some (a ∷ p) (b ∷ s) {r} h = ground (arith, strip_prefix?-some p s {r = r})

pub strip_prefix?-append : (p r : Text) → strip_prefix? p (p ++ r) ≡ some r
unfolding strip_prefix?
strip_prefix?-append [] r = refl
strip_prefix?-append (a ∷ p) r = ground (arith, strip_prefix?-append p r)

strip_prefix?-extend :
    (p s x r : Text) → strip_prefix? p s ≡ some r → strip_prefix? p (s ++ x) ≡ some (r ++ x)
unfolding strip_prefix?
strip_prefix?-extend [] s x r h = cc
strip_prefix?-extend (a ∷ p) [] x r h = cc
strip_prefix?-extend (a ∷ p) (b ∷ s) x r h = ground (arith, strip_prefix?-extend p s x r)

find_sep-cons_none :
    (sep : Text) (c : ℕ) (s : Text)
    → strip_prefix? sep (c ∷ s) ≡ none
    → find_sep sep s ≡ none
    → find_sep sep (c ∷ s) ≡ none
unfolding find_sep
find_sep-cons_none sep c s h k = ground arith

-- The parts give back the text, and the part before holds no separator.
abbrev pub Cuts : Text → Text → Option (Text × Text) → Type 0
Cuts sep s none = Unit
Cuts sep s (some (before, after)) = (before ++ (sep ++ after) ≡ s) × (find_sep sep before ≡ none)

pub find_sep-Cuts : (sep s : Text) → sep ≢ [] → Cuts sep s (find_sep sep s)
unfolding find_sep
find_sep-Cuts sep [] ne = tt
find_sep-Cuts sep (c ∷ s) ne =
    go (strip_prefix? sep (c ∷ s)) refl (find_sep sep s) (find_sep-Cuts sep s ne)
  where
    none_before :
        (b x : Text)
        → strip_prefix? sep (c ∷ b ++ x) ≡ none
        → (o : Option Text) → strip_prefix? sep (c ∷ b) ≡ o
        → strip_prefix? sep (c ∷ b) ≡ none
    none_before b x h none e = e
    none_before b x h (some r) e = cc (strip_prefix?-extend sep (c ∷ b) x r e)

    go :
        (p : Option Text)
        → strip_prefix? sep (c ∷ s) ≡ p
        → (rest : Option (Text × Text)) → Cuts sep s rest
        → Cuts sep (c ∷ s) (elim p [
          | some after ↦ some ([], after)
          | none ↦ elim rest [ none ↦ none | some (before, after) ↦ some (c ∷ before, after) ]
        ])
    go (some after) e rest k = (strip_prefix?-some sep (c ∷ s) e, refl)
    go none e none k = tt
    go none e (some (b, a)) k = (
      ap (λ t. c ∷ t) k.0,
      find_sep-cons_none sep c b
          (none_before b (sep ++ a) (ap (λ t. strip_prefix? sep (c ∷ t)) k.0 ∙ e) _ refl) k.1,
    )
