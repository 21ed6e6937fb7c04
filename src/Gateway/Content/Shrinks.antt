-- ===== src/Gateway/Content/Shrinks.antt =====
-- The shrinking loop of `_cap_content` of home/rdm/gateway/server.py.
use remote_devbox_mcp.Base.{
  ℕ, zero, suc, ◌+◌, ◌-◌, ◌≤◌, ◌<◌, ◌≡◌, ◌⊎◌, inl, inr, refl, subst, Bool, true, false, List, [],
  ◌∷◌, Option, none, some, some-injective, arith, ltb, leb, min, Text, length, length-take, take,
  not-ltb→le, not-leb→lt, Bool-cases,
}
use remote_devbox_mcp.Gateway.Content.{
  Item, text_of, max_result_chars, trim_item, trim_last, drop_last, shrink, shrink_until, weight,
}

-- A text item has at most `limit` characters.
pub text_of-with_text :
    (item : Item) (text new : Text)
    → text_of item ≡ some text
    → text_of (record item { text = some new }) ≡ some new
unfolding text_of
text_of-with_text item text new h = ground arith

abbrev item_weight : Item → ℕ
item_weight item = suc (elim (text_of item) [ none ↦ 0 | some text ↦ length text ])

item_weight-text :
    (item : Item) (text : Text) → text_of item ≡ some text → item_weight item ≡ suc (length text)
item_weight-text item text h = rw h

trim_item-weight :
    (excess : ℕ) (item : Item) (text : Text) (items : List Item)
    → text_of item ≡ some text
    → weight (trim_item excess item text items) < suc (length text) + weight items
unfolding trim_item weight
trim_item-weight excess item text items h =
    let cut = min (length text) (excess + 64) in
    elim (Bool-cases (leb (length text) cut)) [
      | inl removed ↦ rw removed (omega arith)
      | inr kept ↦
          rw (kept, text_of-with_text item text (take (length text - cut) text) h)
            (omega (arith, length-take (length text - cut) text, not-leb→lt (length text) cut kept))
    ]

trim_last-weight :
    (excess : ℕ) (items trimmed : List Item)
    → trim_last excess items ≡ some trimmed
    → weight trimmed < weight items
unfolding trim_last weight
trim_last-weight excess [] trimmed h = cc
trim_last-weight excess (item ∷ items) trimmed h =
    go (trim_last excess items) refl (text_of item) refl h (trim_last-weight excess items)
  where
    go :
        (rest : Option (List Item))
        → trim_last excess items ≡ rest
        → (o : Option Text) → text_of item ≡ o
        → (elim rest [
          | some t ↦ some (item ∷ t)
          | none ↦ elim o [ none ↦ none | some text ↦ some (trim_item excess item text items) ]
        ])
          ≡ some trimmed
        → ((t : List Item) → trim_last excess items ≡ some t → weight t < weight items)
        → weight trimmed < item_weight item + weight items
    go (some t) e o f p ih =
        subst (λ z. weight z < item_weight item + weight items) (some-injective p)
          (omega (arith, ih t e))
    go none e none f p ih = cc
    go none e (some text) f p ih =
        subst (λ z. weight z < item_weight item + weight items) (some-injective p)
          (omega (arith, trim_item-weight excess item text items f, item_weight-text item text f))

drop_last-weight :
    (item : Item) (items : List Item) → weight (drop_last (item ∷ items)) < weight (item ∷ items)
unfolding drop_last weight
drop_last-weight item [] = ground arith
drop_last-weight item (next ∷ items) = ground (arith, drop_last-weight next items)

module _ (size : List Item → ℕ) where
  shrink-weight :
      (item : Item) (items : List Item)
      → weight (shrink size (item ∷ items)) < weight (item ∷ items)
  unfolding shrink
  shrink-weight item items =
      go (trim_last (size (item ∷ items) - max_result_chars) (item ∷ items)) refl
    where
      go :
          (o : Option (List Item))
          → trim_last (size (item ∷ items) - max_result_chars) (item ∷ items) ≡ o
          → weight (elim o [ some t ↦ t | none ↦ drop_last (item ∷ items) ]) < weight (item ∷ items)
      go (some t) e = trim_last-weight _ (item ∷ items) t e
      go none e = drop_last-weight item items

  -- The loop ended within the limit, or with nothing left; and if the flag is not set it has
  -- changed nothing.
  abbrev pub IsCapped : List Item → Bool → List Item × Bool → Type 0
  IsCapped items truncated (result, flag) =
      ((size result ≤ max_result_chars) ⊎ (result ≡ []))
      × (flag ≡ false → (result ≡ items) × (truncated ≡ false))

  pub shrink_until-IsCapped :
      (fuel : ℕ) (items : List Item) (truncated : Bool)
      → weight items < fuel
      → (result : List Item × Bool) × (shrink_until size fuel items truncated ≡ some result)
        × IsCapped items truncated result
  unfolding shrink_until
  shrink_until-IsCapped zero items truncated h = absurd (omega arith)
  shrink_until-IsCapped (suc fuel) [] truncated h =
      elim (Bool-cases (ltb max_result_chars (size []))) [
        | inl over ↦ (([], truncated), rw over, (inr refl, λ f. (refl, f)))
        | inr within ↦ (([], truncated), rw within, (inr refl, λ f. (refl, f)))
      ]
  shrink_until-IsCapped (suc fuel) (item ∷ items) truncated h =
      elim (Bool-cases (ltb max_result_chars (size (item ∷ items)))) [
        | inl over ↦
            let ((result, flag), made, (small, same)) =
              shrink_until-IsCapped fuel (shrink size (item ∷ items)) true
                (omega (arith, shrink-weight item items)) in
            ((result, flag), rw over made, (small, λ f. cc ((same f).1)))
        | inr within ↦
            ((item ∷ items, truncated), rw within, (inl (not-ltb→le _ _ within), λ f. (refl, f)))
      ]
