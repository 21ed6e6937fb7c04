-- ===== src/EnvFile/Laws.antt =====
-- Values set in the environment file of envfile.py are read back.
use remote_devbox_mcp.Base.{
  ℕ, zero, suc, ◌+◌, ◌<◌, ◌≤◌, ◌≡◌, refl, ap, ◌∙◌, false, List, [], ◌∷◌, Option, none, some, arith,
  if◌then◌else◌, Text, codes, text_eq, text_eq_refl, has_byte, any, is_some, length, partition,
  find_sep, strip_prefix?, strip, Dict, lookup, contains, insert, lookup-insert, All, All-map,
  branch, Bool-cases, inl, inr,
}
use remote_devbox_mcp.EnvFile.{
  EnvFile, whitespace, index_from, index_key_lines, add_key, key_of, nth, replace_at, value_of,
  get_at, get, key_line, set_at, set, remove_at, remove_line, remove, load,
}

-- Every position stands in the list of lines.
abbrev pub IsIndexed : EnvFile → Type 0
IsIndexed f = All (λ (p : Text × ℕ). p.1 < length f.lines) f.key_pos

lookup-All :
    (key : Text) (n : ℕ) (d : Dict ℕ) {i : ℕ}
    → All (λ (p : Text × ℕ). p.1 < n) d
    → lookup key d ≡ some i
    → i < n
unfolding lookup
lookup-All key n [] h e = absurd (cc e)
lookup-All key n ((k, j) ∷ d) {i} h e = elim (Bool-cases (text_eq k key)) [
  | inl same ↦ ground (arith, rw (lookup, same) at e)
  | inr other ↦ lookup-All key n d h.1 (rw (lookup, other) at e)
]

nth-replace_at :
    (i : ℕ) (x : Text) (lines : List Text) → i < length lines → nth i (replace_at i x lines) ≡ x
nth-replace_at i x [] h = absurd (omega arith)
nth-replace_at zero x (line ∷ lines) h = refl
nth-replace_at (suc i) x (line ∷ lines) h = nth-replace_at i x lines (omega arith)

find_sep-equals :
    (key value : Text)
    → has_byte b'=' key ≡ false
    → find_sep (codes "=") (key_line key value) ≡ some (key, value)
unfolding find_sep has_byte any strip_prefix?
find_sep-equals [] value h = refl
find_sep-equals (c ∷ key) value h = ground (arith, find_sep-equals key value)

value_of-key_line :
    (key value : Text)
    → has_byte b'=' key ≡ false
    → value_of (key_line key value) ≡ strip whitespace value
unfolding value_of partition
value_of-key_line key value h = rw (value_of, partition, find_sep-equals key value h) refl

get_at-set_at :
    (o : Option ℕ) (key value : Text) (f : EnvFile)
    → lookup key f.key_pos ≡ o
    → IsIndexed f
    → has_byte b'=' key ≡ false
    → get key (set_at o key value f) ≡ some (if is_some o then strip whitespace value else value)
unfolding get
get_at-set_at none key value f e h n =
    ap (λ o. get_at o key (set_at none key value f)) e
    ∙ (lookup-insert key key value f.pending ∙ rw (text_eq_refl key) refl)
get_at-set_at (some i) key value f e h n =
    ap (λ o. get_at o key (set_at (some i) key value f)) e
    ∙ ap some (
        ap value_of (
          nth-replace_at i (key_line key value) f.lines
            (lookup-All key (length f.lines) f.key_pos h e))
        ∙ value_of-key_line key value n)

All-insert :
    (P : Text × ℕ → Type 0) (key : Text) (i : ℕ) (d : Dict ℕ)
    → All P d
    → P (key, i)
    → All P (insert key i d)
unfolding insert
All-insert P key i [] h p = (p, tt)
All-insert P key i ((k, j) ∷ d) h p = elim (Bool-cases (text_eq k key)) [
  | inl same ↦ rw same (p, h.1)
  | inr other ↦ rw other (h.0, All-insert P key i d h.1 p)
]

Below : ℕ → Text × ℕ → Type 0
Below n p = p.1 < n

raise_bound : (n m : ℕ) (d : Dict ℕ) → n ≤ m → All (Below n) d → All (Below m) d
unfolding Below
raise_bound n m d le h = All-map (Below n) (Below m) d (λ p g. omega arith) h

add_key-Below :
    (o : Option Text) (i : ℕ) (d : Dict ℕ) → All (Below i) d → All (Below (suc i)) (add_key o i d)
unfolding Below
add_key-Below none i d h = raise_bound i (suc i) d (omega arith) h
add_key-Below (some k) i d h =
    branch (All (Below (suc i))) (contains k d) _ _ (raise_bound i (suc i) d (omega arith) h)
      (All-insert (Below (suc i)) k i d (raise_bound i (suc i) d (omega arith) h) (omega arith))

index_from-Below :
    (i : ℕ) (d : Dict ℕ) (lines : List Text)
    → All (Below i) d
    → All (Below (i + length lines)) (index_from i d lines)
unfolding index_from
index_from-Below i d [] h = raise_bound i (i + 0) d (omega arith) h
index_from-Below i d (line ∷ lines) h =
    raise_bound (suc i + length lines) (i + suc (length lines))
      (index_from (suc i) (add_key (key_of line) i d) lines) (omega arith)
      (index_from-Below (suc i) (add_key (key_of line) i d) lines
        (add_key-Below (key_of line) i d h))

index_key_lines-Below : (lines : List Text) → All (Below (length lines)) (index_key_lines lines)
index_key_lines-Below lines =
    raise_bound (0 + length lines) (length lines) (index_key_lines lines) (omega arith)
      (index_from-Below 0 [] lines tt)

length-replace_at :
    (i : ℕ) (x : Text) (lines : List Text) → length (replace_at i x lines) ≡ length lines
length-replace_at i x [] = refl
length-replace_at zero x (line ∷ lines) = refl
length-replace_at (suc i) x (line ∷ lines) = omega (arith, length-replace_at i x lines)

set_at-IsIndexed :
    (o : Option ℕ) (key value : Text) (f : EnvFile) → IsIndexed f → IsIndexed (set_at o key value f)
unfolding Below
set_at-IsIndexed none key value f h = h
set_at-IsIndexed (some i) key value f h =
    raise_bound (length f.lines) (length (replace_at i (key_line key value) f.lines)) f.key_pos
      (omega (arith, length-replace_at i (key_line key value) f.lines)) h

remove_line-IsIndexed : (o : Option ℕ) (f : EnvFile) → IsIndexed f → IsIndexed (remove_line o f)
unfolding Below
remove_line-IsIndexed none f h = h
remove_line-IsIndexed (some i) f h = index_key_lines-Below (remove_at i f.lines)

-- The changes of a file after it was loaded.
pub data Change : Type 0 where
  sets : Text → Text → Change
  removes : Text → Change

abbrev pub change : Change → EnvFile → EnvFile
change (sets key value) f = set key value f
change (removes key) f = remove key f

abbrev pub change_all : List Change → EnvFile → EnvFile
change_all [] f = f
change_all (c ∷ cs) f = change_all cs (change c f)

change_all-IsIndexed : (cs : List Change) (f : EnvFile) → IsIndexed f → IsIndexed (change_all cs f)
unfolding set remove
change_all-IsIndexed [] f h = h
change_all-IsIndexed (sets key value ∷ cs) f h =
    change_all-IsIndexed cs (set key value f)
      (set_at-IsIndexed (lookup key f.key_pos) key value f h)
change_all-IsIndexed (removes key ∷ cs) f h =
    change_all-IsIndexed cs (remove key f) (remove_line-IsIndexed (lookup key f.key_pos) f h)

load-IsIndexed : (text : Text) → IsIndexed (load text)
unfolding load Below
load-IsIndexed text = index_key_lines-Below (load text).lines

-- In a file that was loaded and changed in any way, a key without `=` that is set is read back:
-- with the white space around its value stripped when a line of the file has the key, and as it
-- was set when it is new.
pub get-set :
    (text : Text) (cs : List Change) (key value : Text)
    → has_byte b'=' key ≡ false
    → get key (set key value (change_all cs (load text)))
      ≡ some (
          if contains key (change_all cs (load text)).key_pos
          then strip whitespace value
          else value)
unfolding set contains
get-set text cs key value n =
    let f = change_all cs (load text) in
    get_at-set_at (lookup key f.key_pos) key value f refl
      (change_all-IsIndexed cs (load text) (load-IsIndexed text)) n
