-- ===== src/Gateway/Content/Laws.antt =====
-- The capping of results, `_cap_content` of home/rdm/gateway/server.py.
use remote_devbox_mcp.Base.{
  ℕ, zero, suc, ◌+◌, ◌-◌, ◌≤◌, ◌≡◌, ◌⊎◌, inl, inr, refl, ap₂, sym, ◌∙◌, subst, Bool, true, false,
  List, [], ◌∷◌, map, Option, none, some, some-injective, arith, if◌then◌else◌, ltb, leb, min, Text,
  any, length, length-take, take, All, not-ltb→le, Bool-cases, Option-cases,
}
use remote_devbox_mcp.Gateway.Content.{
  Item, text_of, is_over, cap_item, max_text_chars, max_result_chars, trim_item, trim_last,
  drop_last, shrink, shrink_until, weight, cap_content,
}
-- A text item has at most `limit` characters.
use remote_devbox_mcp.Gateway.Content.Shrinks.{text_of-with_text, shrink_until-IsCapped}

abbrev pub FitsText : ℕ → Item → Type 0
FitsText limit item = is_over limit item ≡ false

is_over-text :
    (limit : ℕ) (item : Item) (text : Text)
    → text_of item ≡ some text
    → is_over limit item ≡ ltb limit (length text)
unfolding is_over
is_over-text limit item text e = rw (e, is_over)

is_over-other : (limit : ℕ) (item : Item) → text_of item ≡ none → is_over limit item ≡ false
unfolding is_over
is_over-other limit item e = rw (e, is_over)

cap_item-other : (limit : ℕ) (item : Item) → text_of item ≡ none → cap_item limit item ≡ item
unfolding cap_item
cap_item-other limit item e = rw (e, cap_item)

cap_item-text :
    (limit : ℕ) (item : Item) (text : Text)
    → text_of item ≡ some text
    → cap_item limit item
      ≡ (if ltb limit (length text) then record item { text = some (take limit text) } else item)
unfolding cap_item
cap_item-text limit item text e = rw (e, cap_item)

is_over-shortened :
    (limit n : ℕ) (item : Item) (text : Text)
    → text_of item ≡ some text
    → min n (length text) ≤ limit
    → is_over limit (record item { text = some (take n text) }) ≡ false
is_over-shortened limit n item text e h =
    rw (is_over-text limit _ (take n text) (text_of-with_text item text (take n text) e))
      (ground (arith, length-take n text))

cap_item-FitsText : (limit : ℕ) (item : Item) → FitsText limit (cap_item limit item)
cap_item-FitsText limit item = elim (Option-cases (text_of item)) [
  | inl other ↦ rw (cap_item-other limit item other) (is_over-other limit item other)
  | inr (text, e) ↦
      rw (cap_item-text limit item text e) (elim (Bool-cases (ltb limit (length text))) [
        | inl over ↦ rw over (is_over-shortened limit limit item text e (omega arith))
        | inr fits ↦ rw fits (is_over-text limit item text e ∙ fits)
      ])
]

cap_item-same : (limit : ℕ) (item : Item) → is_over limit item ≡ false → cap_item limit item ≡ item
cap_item-same limit item f = elim (Option-cases (text_of item)) [
  | inl other ↦ cap_item-other limit item other
  | inr (text, e) ↦
      let fits : ltb limit (length text) ≡ false = sym (is_over-text limit item text e) ∙ f in
      cap_item-text limit item text e ∙ rw fits
]

map-cap_item-FitsText :
    (limit : ℕ) (items : List Item) → All (FitsText limit) (map (cap_item limit) items)
map-cap_item-FitsText limit [] = tt
map-cap_item-FitsText limit (item ∷ items) =
    (cap_item-FitsText limit item, map-cap_item-FitsText limit items)

map-cap_item-same :
    (limit : ℕ) (items : List Item)
    → any (is_over limit) items ≡ false
    → map (cap_item limit) items ≡ items
unfolding any
map-cap_item-same limit [] h = refl
map-cap_item-same limit (item ∷ items) h =
    ap₂ (λ x xs. x ∷ xs) (cap_item-same limit item (ground arith))
      (map-cap_item-same limit items (ground arith))

drop_last-All : (P : Item → Type 0) (items : List Item) → All P items → All P (drop_last items)
unfolding drop_last
drop_last-All P [] h = tt
drop_last-All P (item ∷ []) h = tt
drop_last-All P (item ∷ next ∷ items) h = (h.0, drop_last-All P (next ∷ items) h.1)

trim_item-All :
    (limit excess : ℕ) (item : Item) (text : Text) (items : List Item)
    → text_of item ≡ some text
    → All (FitsText limit) (item ∷ items)
    → All (FitsText limit) (trim_item excess item text items)
unfolding trim_item
trim_item-All limit excess item text items e h =
    let cut = min (length text) (excess + 64) in
    elim (Bool-cases (leb (length text) cut)) [
      | inl removed ↦ rw removed h.1
      | inr kept ↦ rw kept (
        is_over-shortened limit (length text - cut) item text e (
            omega
              (arith, not-ltb→le limit (length text) (sym (is_over-text limit item text e) ∙ h.0))),
        h.1,
      )
    ]

trim_last-All :
    (limit excess : ℕ) (items trimmed : List Item)
    → trim_last excess items ≡ some trimmed
    → All (FitsText limit) items
    → All (FitsText limit) trimmed
unfolding trim_last
trim_last-All limit excess [] trimmed h f = cc
trim_last-All limit excess (item ∷ items) trimmed h f =
    go (trim_last excess items) refl (text_of item) refl h
      (λ t e. trim_last-All limit excess items t e f.1)
  where
    go :
        (rest : Option (List Item))
        → trim_last excess items ≡ rest
        → (o : Option Text) → text_of item ≡ o
        → (elim rest [
          | some t ↦ some (item ∷ t)
          | none ↦ elim o [ none ↦ none | some text ↦ some (trim_item excess item text items) ]
        ])
          ≡ some trimmed
        → ((t : List Item) → trim_last excess items ≡ some t → All (FitsText limit) t)
        → All (FitsText limit) trimmed
    go (some t) e o g p ih = subst (All (FitsText limit)) (some-injective p) (f.0, ih t e)
    go none e none g p ih = cc
    go none e (some text) g p ih =
        subst (All (FitsText limit)) (some-injective p)
          (trim_item-All limit excess item text items g f)

module _ (size : List Item → ℕ) where
  shrink-All :
      (limit : ℕ) (items : List Item)
      → All (FitsText limit) items
      → All (FitsText limit) (shrink size items)
  unfolding shrink
  shrink-All limit items f = go (trim_last (size items - max_result_chars) items) refl
    where
      go :
          (o : Option (List Item))
          → trim_last (size items - max_result_chars) items ≡ o
          → All (FitsText limit) (elim o [ some t ↦ t | none ↦ drop_last items ])
      go (some t) e = trim_last-All limit _ items t e f
      go none e = drop_last-All (FitsText limit) items f

  shrink_until-All :
      (limit fuel : ℕ) (items result : List Item) (truncated flag : Bool)
      → shrink_until size fuel items truncated ≡ some (result, flag)
      → All (FitsText limit) items
      → All (FitsText limit) result
  unfolding shrink_until
  shrink_until-All limit zero items result truncated flag h f = cc
  shrink_until-All limit (suc fuel) [] result truncated flag h f =
      let e : [] ≡ result = ground arith in subst (All (FitsText limit)) e tt
  shrink_until-All limit (suc fuel) (item ∷ items) result truncated flag h f =
      elim (Bool-cases (ltb max_result_chars (size (item ∷ items)))) [
        | inl over ↦
            shrink_until-All limit fuel (shrink size (item ∷ items)) result true flag (rw over at h)
              (shrink-All limit (item ∷ items) f)
        | inr within ↦
            let e : item ∷ items ≡ result = ground arith in subst (All (FitsText limit)) e f
      ]

-- Capping the content of a result always ends. The encoded result is within the limit, or nothing
-- is left of it; every text in it has at most 32000 characters; and where it is not marked as
-- truncated it is the content unchanged.
pub cap_content-IsCapped :
    (size : List Item → ℕ) (content : List Item)
    → (result : List Item × Bool) × (cap_content size content ≡ some result)
      × ((size result.0 ≤ max_result_chars) ⊎ (result.0 ≡ []))
      × All (FitsText max_text_chars) result.0
      × ((result.1 ≡ true) ⊎ (result.0 ≡ content))
unfolding cap_content
cap_content-IsCapped size content =
    let items = map (cap_item max_text_chars) content in
    let over = any (is_over max_text_chars) content in
    let (result, made, (small, same)) =
      shrink_until-IsCapped size (suc (weight items)) items over (omega arith) in
    (
      result,
      made,
      small,
      shrink_until-All size max_text_chars (suc (weight items)) items result.0 over result.1 made
          (map-cap_item-FitsText max_text_chars content),
      elim (Bool-cases result.1) [
        | inl cut ↦ inl cut
        | inr f ↦ inr ((same f).0 ∙ map-cap_item-same max_text_chars content (same f).1)
      ],
    )
