-- ===== src/Gateway/Content.antt =====
-- Results of tool calls on their way to the client: `_from_upstream_result` of sessions.py,
-- `strip_resource_links` and `_status` of dispatch.py, and `_cap_content` of server.py, all of
-- home/rdm/gateway. `json.dumps` enters as `size`, the length of the encoded items.
pub mod Shrinks
pub mod Laws
use remote_devbox_mcp.Base.{
  ℕ, zero, suc, ◌+◌, ◌-◌, ◌≤◌, ◌<◌, ◌≡◌, Bool, true, false, not, ◌&&◌, ◌||◌, List, [], ◌∷◌, ◌++◌,
  map, Option, none, some, if◌then◌else◌, ltb, leb, min, Text, codes, text_eq, is_in, is_some, any,
  select, length, take, starts_with,
}

-- A content block: its "type" and its string "text", where it is an object that has them, and the
-- rest of it.
pub record Item : Type 0 where
  pub kind : Option Text
  pub text : Option Text
  pub others : Text

pub record CallResult : Type 0 where
  pub content : List Item
  pub is_error : Bool
  pub truncated : Bool

abbrev pub has_kind : Text → Item → Bool
has_kind wanted item = elim item.kind [ none ↦ false | some kind ↦ text_eq kind wanted ]

-- `_is_text`, with the text
unfoldable pub text_of : Item → Option Text
text_of item = if has_kind (codes "text") item then item.text else none

-- `len(text) > cap` for a text item
unfoldable pub is_over : ℕ → Item → Bool
unfolding text_of
is_over cap item = elim (text_of item) [ none ↦ false | some text ↦ ltb cap (length text) ]

unfoldable pub cap_item : ℕ → Item → Item
unfolding text_of is_over
cap_item cap item = elim (text_of item) [
  | none ↦ item
  | some text ↦ if ltb cap (length text) then record item { text = some (take cap text) } else item
]

abbrev pub max_text_item_chars : ℕ
max_text_item_chars = 1_000_000

-- `_from_upstream_result`, from the content and the error flag of the result
unfoldable pub from_upstream_result : List Item → Bool → CallResult
unfolding cap_item any
from_upstream_result content is_error = record {
  content = map (cap_item max_text_item_chars) content;
  is_error = is_error;
  truncated = any (is_over max_text_item_chars) content;
}

unfoldable pub strip_resource_links : List Item → List Item
unfolding select
strip_resource_links = select (λ item. not (has_kind (codes "resource_link") item))

pub data Status : Type 0 where
  ok denied unavailable error : Status

abbrev pub deny_reasons : List Text
deny_reasons =
    codes "tool-not-allowed"
    ∷ codes "meta-tool-deny"
    ∷ codes "default-deny"
    ∷ codes "empty-allowlist"
    ∷ codes "arg-outside-project"
    ∷ []

-- the first text, or ""
unfoldable pub reason_of : List Item → Text
unfolding text_of
reason_of [] = []
reason_of (item ∷ items) =
    let rest = reason_of items in elim (text_of item) [ none ↦ rest | some text ↦ text ]

unfoldable pub status : CallResult → Status
unfolding reason_of is_in
status result =
    let reason = reason_of result.content in
    if not result.is_error
    then ok
    else if is_in reason deny_reasons
    then denied
    else if is_in reason (codes "unknown tool" ∷ codes "unknown-tool" ∷ [])
        || starts_with (codes "server unavailable") reason
        || starts_with (codes "server-unavailable") reason
    then unavailable
    else error

abbrev pub max_text_chars : ℕ
max_text_chars = 32000

abbrev pub max_result_chars : ℕ
max_result_chars = 64000

-- A text item loses `excess + 64` characters, or is removed if it has no more.
unfoldable pub trim_item : ℕ → Item → Text → List Item → List Item
trim_item excess item text items =
    let cut = min (length text) (excess + 64) in
    if leb (length text) cut
    then items
    else record item { text = some (take (length text - cut) text) } ∷ items

-- The last text item is trimmed; `none` where no item is a text.
unfoldable pub trim_last : ℕ → List Item → Option (List Item)
unfolding trim_item
trim_last excess [] = none
trim_last excess (item ∷ items) =
    let rest = trim_last excess items in
    elim rest [
      | some trimmed ↦ some (item ∷ trimmed)
      | none ↦ elim (text_of item) [
        | none ↦ none
        | some text ↦ some (trim_item excess item text items)
      ]
    ]

-- `items.pop()`
unfoldable pub drop_last : List Item → List Item
drop_last [] = []
drop_last (item ∷ []) = []
drop_last (item ∷ next ∷ items) = item ∷ drop_last (next ∷ items)

module _ (size : List Item → ℕ) where
  -- one round of the loop
  unfoldable pub shrink : List Item → List Item
  unfolding trim_last drop_last
  shrink items = elim (trim_last (size items - max_result_chars) items) [
    | some trimmed ↦ trimmed
    | none ↦ drop_last items
  ]

  -- The `while` loop; `none` where the fuel is out.
  unfoldable pub shrink_until : ℕ → List Item → Bool → Option (List Item × Bool)
  shrink_until zero items truncated = none
  shrink_until (suc fuel) items truncated =
      let rest = shrink_until fuel (shrink items) true in
      let stopped : Option (List Item × Bool) = elim items [
        | [] ↦ some ([], truncated)
        | _ ∷ _ ↦ rest
      ] in
      if ltb max_result_chars (size items) then stopped else some (items, truncated)

-- The items and the characters of their texts: more rounds than the loop can take.
unfoldable pub weight : List Item → ℕ
weight [] = 0
weight (item ∷ items) =
    suc (elim (text_of item) [ none ↦ 0 | some text ↦ length text ]) + weight items

unfoldable pub cap_content : (List Item → ℕ) → List Item → Option (List Item × Bool)
unfolding weight cap_item any
cap_content size content =
    let items = map (cap_item max_text_chars) content in
    shrink_until size (suc (weight items)) items (any (is_over max_text_chars) content)
