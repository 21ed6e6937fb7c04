-- ===== src/Gateway/Policy/NameLaws.antt =====
-- Exposed names and their registry, home/rdm/gateway/policy.py.
use remote_devbox_mcp.Base.{
  ℕ, zero, suc, ◌+◌, ◌≤◌, ◌<◌, ◌≡◌, refl, ap, sym, ◌∙◌, Bool, true, false, not, ◌||◌, List, [], ◌∷◌,
  ◌++◌, append-nil, append_assoc, none, some, arith, ◌==◌, ltb, Text, codes, text_eq, text_eq_iff,
  text_eq-append, digits, digits-injective, is_empty, all, select, partition, find_sep,
  strip_prefix?, length, Dict, lookup, contains, insert, erase, lookup-erase_ne, HasUniqueKeys,
  length-erase, insert-new, insert-HasUniqueKeys, is_some, Bool-cases, inl, inr,
}
use remote_devbox_mcp.Gateway.Policy.Names.{
  tool_name_max, is_name_char, valid_server_name, separator, exposed_tool_name,
  parse_exposed_tool_name, suffixed, free_suffix, registered_name, is_resolvable, register_from,
  register_tools,
}

abbrev has_no_underscore : Text → Bool
has_no_underscore = all (λ c. not (c == b'_'))

name-has_no_underscore :
    (name : Text) → valid_server_name name ≡ true → has_no_underscore name ≡ true
unfolding valid_server_name all
name-has_no_underscore [] h = cc
name-has_no_underscore (c ∷ s) h = ground (arith, go s)
  where
    go : (s : Text) → all (λ d. is_name_char d || d == b'-') s ≡ true → has_no_underscore s ≡ true
    go [] h = refl
    go (d ∷ s) h = ground (arith, go s)

-- The first separator stands right behind a name without underscores.
find_sep-name :
    (name rest : Text)
    → has_no_underscore name ≡ true
    → find_sep separator (name ++ (separator ++ rest)) ≡ some (name, rest)
unfolding find_sep strip_prefix? all
find_sep-name [] rest h = refl
find_sep-name (c ∷ name) rest h = ground (arith, find_sep-name name rest)

-- Parsing gives back the server and the tool that a name was made of.
pub parse_exposed_tool_name-exposed_tool_name :
    (name tool : Text)
    → valid_server_name name ≡ true
    → is_empty tool ≡ false
    → parse_exposed_tool_name (exposed_tool_name name tool) ≡ some (name, tool)
unfolding parse_exposed_tool_name exposed_tool_name partition valid_server_name
parse_exposed_tool_name-exposed_tool_name [] tool v t = cc
parse_exposed_tool_name-exposed_tool_name (c ∷ name) tool v t =
    ground (arith, find_sep-name (c ∷ name) tool (name-has_no_underscore (c ∷ name) v))

text_eq-suffixed :
    (entry : Text) (m n : ℕ) → text_eq (suffixed entry m) (suffixed entry n) ≡ true → m ≡ n
unfolding suffixed
text_eq-suffixed entry m n h = digits-injective m n (
    (text_eq_iff (digits m) (digits n)).0 (
      sym (text_eq-append (codes "_") (digits m) (digits n))
      ∙ (sym (text_eq-append entry (codes "_" ++ digits m) (codes "_" ++ digits n)) ∙ h)))

contains-erase-suffixed :
    (entry : Text) (m n : ℕ) (registry : Dict Text)
    → m < n
    → contains (suffixed entry n) (erase (suffixed entry m) registry)
      ≡ contains (suffixed entry n) registry
unfolding contains
contains-erase-suffixed entry m n registry h = ap is_some (
    lookup-erase_ne (suffixed entry m) (suffixed entry n) registry
      (ground (arith, text_eq-suffixed entry m n)))

-- Looking for a suffix above `m` does not see the name with the suffix `m`.
free_suffix-erase :
    (fuel : ℕ) (entry : Text) (m suffix : ℕ) (registry : Dict Text)
    → m < suffix
    → free_suffix fuel entry suffix (erase (suffixed entry m) registry)
      ≡ free_suffix fuel entry suffix registry
unfolding free_suffix
free_suffix-erase zero entry m suffix registry h = refl
free_suffix-erase (suc fuel) entry m suffix registry h = rw (
  contains-erase-suffixed entry m suffix registry h,
  free_suffix-erase fuel entry m (suffix + 1) registry (omega arith),
)

-- Fuel above the size of the registry is enough: every name that is taken is another key.
free_suffix_total :
    (fuel : ℕ) (entry : Text) (suffix : ℕ) (registry : Dict Text)
    → length registry < fuel
    → (n : ℕ) × (free_suffix fuel entry suffix registry ≡ some n)
      × (contains (suffixed entry n) registry ≡ false)
      × (suffix ≤ n)
unfolding free_suffix
free_suffix_total zero entry suffix registry h = absurd (omega arith)
free_suffix_total (suc fuel) entry suffix registry h =
    elim (Bool-cases (contains (suffixed entry suffix) registry)) [
      | inr free ↦ (suffix, rw free, free, omega arith)
      | inl taken ↦
          let shorter = length-erase (suffixed entry suffix) registry taken in
          let (n, found, free, le) =
            free_suffix_total fuel entry (suffix + 1) (erase (suffixed entry suffix) registry)
              (omega arith) in
          (
            n,
            rw taken (
                sym (free_suffix-erase fuel entry suffix (suffix + 1) registry (omega arith))
                ∙ found),
            sym (contains-erase-suffixed entry suffix n registry (omega arith)) ∙ free,
            omega arith,
          )
    ]

contains-false : {V : Type 0} (k : Text) (d : Dict V) → contains k d ≡ false → lookup k d ≡ none
unfolding contains
contains-false k d h = ground arith

-- A name is always found, and it is new.
registered_name_new :
    (entry : Text) (registry : Dict Text)
    → (name : Text) × (registered_name entry registry ≡ some name) × (lookup name registry ≡ none)
unfolding registered_name
registered_name_new entry registry =
    elim (Bool-cases (ltb tool_name_max (length entry) || contains entry registry)) [
      | inl renamed ↦
          let (n, found, free, _) =
            free_suffix_total (suc (length registry)) entry 2 registry (omega arith) in
          (
            suffixed entry n,
            rw (renamed, found, registered_name),
            contains-false (suffixed entry n) registry free,
          )
      | inr kept ↦ (entry, rw kept, contains-false entry registry (ground arith))
    ]

abbrev pub values {ℓ} : {V : Type ℓ} → Dict V → List V
values [] = []
values ((k, v) ∷ d) = v ∷ values d

values-append : (d : Dict Text) (k v : Text) → values (d ++ (k, v) ∷ []) ≡ values d ++ v ∷ []
values-append [] k v = refl
values-append (x ∷ d) k v = ap (λ z. x.1 ∷ z) (values-append d k v)

-- The registry that a list of names leads to.
abbrev pub Registers : Dict Text → List Text → Dict Text → Type 0
Registers before entries after =
    HasUniqueKeys after × (values after ≡ values before ++ select is_resolvable entries)

register_from-step :
    (registry : Dict Text) (entry name : Text) (entries : List Text)
    → is_resolvable entry ≡ true
    → registered_name entry registry ≡ some name
    → register_from registry (entry ∷ entries) ≡ register_from (insert name entry registry) entries
unfolding register_from
register_from-step registry entry name entries r n = ground arith

register_from-skip :
    (registry : Dict Text) (entry : Text) (entries : List Text)
    → is_resolvable entry ≡ false
    → register_from registry (entry ∷ entries) ≡ register_from registry entries
unfolding register_from
register_from-skip registry entry entries r = ground arith

register_from-Registers :
    (registry : Dict Text) (entries : List Text)
    → HasUniqueKeys registry
    → (result : Dict Text) × (register_from registry entries ≡ some result)
      × Registers registry entries result
unfolding register_from select
register_from-Registers registry [] u = (registry, refl, (u, sym (append-nil (values registry))))
register_from-Registers registry (entry ∷ entries) u = elim (Bool-cases (is_resolvable entry)) [
  | inr skipped ↦
      rw (register_from-skip registry entry entries skipped, skipped)
        (register_from-Registers registry entries u)
  | inl resolvable ↦
      let (name, found, new) = registered_name_new entry registry in
      let (result, made, (unique, kept)) =
        register_from-Registers (insert name entry registry) entries
          (insert-HasUniqueKeys name entry registry u) in
      (
        result,
        register_from-step registry entry name entries resolvable found ∙ made,
        (
          unique,
          rw resolvable (
              kept
              ∙ (ap (λ d. values d ++ select is_resolvable entries)
                    (insert-new name entry registry new)
                  ∙ (ap (λ z. z ++ select is_resolvable entries) (values-append registry name entry)
                      ∙ append_assoc (values registry) (entry ∷ [])
                          (select is_resolvable entries)))),
        ),
      )
]

-- Registering always ends; the registered names are all different, and they stand for exactly the
-- entries that can be resolved, in their order.
pub register_tools-Registers :
    (entries : List Text)
    → (result : Dict Text) × (register_tools entries ≡ some result)
      × HasUniqueKeys result
      × (values result ≡ select is_resolvable entries)
unfolding register_tools
register_tools-Registers entries =
    let (result, made, (unique, kept)) = register_from-Registers [] entries tt in
    (result, made, unique, kept)
