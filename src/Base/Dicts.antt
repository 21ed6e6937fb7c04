-- ===== src/Base/Dicts.antt =====
-- Python's `dict` with text keys, in insertion order.
use Prim.Native.Nat.{◌≤◌, suc}
use mathlib.Core.Path.{◌≡◌, refl, subst}
use mathlib.Core.Logic.{inl, inr}
use mathlib.Core.Bool.{Bool, true, false}
use mathlib.Core.List.{List, [], ◌∷◌, ◌++◌}
use mathlib.Core.Option.{Option, none, some}
use native.Mathlib.Omega.{arith}
use remote_devbox_mcp.Base.Tests.{if◌then◌else◌, is_some, Bool-cases}
use remote_devbox_mcp.Base.Lists.{length}
use remote_devbox_mcp.Base.Texts.{Text, text_eq, text_eq_sound, text_eq_iff}

abbrev pub Dict {ℓ} : Type ℓ → Type ℓ
Dict V = List (Text × V)

module _ {ℓ} {V : Type ℓ} where
  -- `d.get(k)`
  unfoldable pub lookup : Text → Dict V → Option V
  lookup k [] = none
  lookup k ((j, v) ∷ d) = if text_eq j k then some v else lookup k d

  -- `k in d`
  unfoldable pub contains : Text → Dict V → Bool
  unfolding lookup
  contains k d = is_some (lookup k d)

  -- `d[k] = v`: in place, or at the end
  unfoldable pub insert : Text → V → Dict V → Dict V
  insert k v [] = (k, v) ∷ []
  insert k v ((j, w) ∷ d) = if text_eq j k then (k, v) ∷ d else (j, w) ∷ insert k v d

  -- `d.pop(k, None)`
  unfoldable pub erase : Text → Dict V → Dict V
  erase k [] = []
  erase k ((j, w) ∷ d) = if text_eq j k then d else (j, w) ∷ erase k d

  pub lookup-insert :
      (k j : Text) (v : V) (d : Dict V)
      → lookup j (insert k v d) ≡ (if text_eq k j then some v else lookup j d)
  unfolding lookup insert
  lookup-insert k j v [] = refl
  lookup-insert k j v ((i, w) ∷ d) =
      ground (arith, text_eq_iff k j, text_eq_iff i k, text_eq_iff i j, lookup-insert k j v d)

-- No key stands twice.
abbrev pub HasUniqueKeys {ℓ} : {V : Type ℓ} → Dict V → Type ℓ
HasUniqueKeys [] = Unit
HasUniqueKeys ((k, v) ∷ d) = (lookup k d ≡ none) × HasUniqueKeys d

module _ {ℓ} {V : Type ℓ} where
  pub lookup-erase_ne :
      (k j : Text) (d : Dict V) → text_eq k j ≡ false → lookup j (erase k d) ≡ lookup j d
  unfolding lookup erase
  lookup-erase_ne k j [] h = refl
  lookup-erase_ne k j ((i, w) ∷ d) h =
      ground (arith, text_eq_iff i k, text_eq_iff i j, text_eq_iff k j, lookup-erase_ne k j d h)

module _ {ℓ} {V : Type ℓ} where
  -- Removing a key that is there makes the dictionary one shorter.
  pub length-erase :
      (k : Text) (d : Dict V) → contains k d ≡ true → suc (length (erase k d)) ≡ length d
  unfolding contains erase
  length-erase k [] h = cc
  length-erase k ((j, w) ∷ d) h = ground (arith, length-erase k d)

  -- A new key goes to the end.
  pub insert-new :
      (k : Text) (v : V) (d : Dict V) → lookup k d ≡ none → insert k v d ≡ d ++ (k, v) ∷ []
  unfolding lookup insert
  insert-new k v [] h = refl
  insert-new k v ((j, w) ∷ d) h = ground (arith, insert-new k v d)

  pub insert-HasUniqueKeys :
      (k : Text) (v : V) (d : Dict V) → HasUniqueKeys d → HasUniqueKeys (insert k v d)
  unfolding insert lookup
  insert-HasUniqueKeys k v [] u = (refl, tt)
  insert-HasUniqueKeys k v ((j, w) ∷ d) u = elim (Bool-cases (text_eq j k)) [
    | inl same ↦ rw same (subst (λ i. lookup i d ≡ none) (text_eq_sound j k same) u.0, u.1)
    | inr other ↦ rw other (
      ground (arith, lookup-insert k j v d, text_eq_iff j k, text_eq_iff k j),
      insert-HasUniqueKeys k v d u.1,
    )
  ]

  pub lookup-erase-none :
      (k j : Text) (d : Dict V) → lookup j d ≡ none → lookup j (erase k d) ≡ none
  unfolding lookup erase
  lookup-erase-none k j [] h = refl
  lookup-erase-none k j ((i, w) ∷ d) h = ground (arith, lookup-erase-none k j d)

  pub length-erase_le : (k : Text) (d : Dict V) → length (erase k d) ≤ length d
  unfolding erase
  length-erase_le k [] = omega arith
  length-erase_le k ((i, w) ∷ d) = ground (arith, length-erase_le k d)

  pub length-insert_le : (k : Text) (v : V) (d : Dict V) → length (insert k v d) ≤ suc (length d)
  unfolding insert
  length-insert_le k v [] = omega arith
  length-insert_le k v ((i, w) ∷ d) = ground (arith, length-insert_le k v d)
