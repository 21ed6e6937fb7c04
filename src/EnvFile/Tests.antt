-- ===== src/EnvFile/Tests.antt =====
-- A file with a comment and a key that stands twice.
use remote_devbox_mcp.Base.{
  ◌≡◌, refl, [], ◌∷◌, some, if◌then◌else◌, codes, Text, text_eq, has_byte, any, contains, lookup,
  insert, erase, split, split_from, starts_with, strip_prefix?, strip, strip_left, find_sep,
  partition,
}
use remote_devbox_mcp.EnvFile.{
  whitespace, span_key, key_of, index_from, unix_lines, load, value_of, get, set, remove,
}
use remote_devbox_mcp.EnvFile.Laws.{sets, removes, change_all, get-set}

abbrev sample : Text
sample = codes "# env\r\nA=1\n B = 2\nA=3\n"

-- A later line of the same key shows once the first is removed.
twice_run :
    (get (codes "A") (load sample) ≡ some (codes "1"))
    × (get (codes "A") (remove (codes "A") (load sample)) ≡ some (codes "3"))
unfolding load unix_lines split split_from starts_with strip_prefix? index_from key_of span_key
    strip_left has_byte any contains lookup insert text_eq get value_of partition find_sep strip
    remove erase
twice_run = (refl, refl)

get-set_example :
    get (codes "C") (
      set
        (codes "C")
        (codes " x ")
        (change_all (sets (codes "A") (codes "9") ∷ removes (codes "B") ∷ []) (load sample)))
    ≡ some (
        if contains
          (codes "C")
          (change_all
            (sets (codes "A") (codes "9") ∷ removes (codes "B") ∷ [])
            (load sample)).key_pos
        then strip whitespace (codes " x ")
        else codes " x ")
unfolding has_byte any
get-set_example =
    get-set sample (sets (codes "A") (codes "9") ∷ removes (codes "B") ∷ []) (codes "C")
      (codes " x ") refl
