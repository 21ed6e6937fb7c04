-- ===== src/Gateway/Snapshot/Dicts.antt =====
-- Lemmas on the dictionaries and texts of snapshot.py: unique keys, sorted pairs, equality.
use remote_devbox_mcp.Base.{
  ◌≡◌, refl, sym, subst, ◌∙◌, true, false, List, [], ◌∷◌, ◌++◌, map, none, some, arith, Text,
  text_eq, text_eq_sound, text_eq_refl, text_eq_iff, Dict, lookup, insert-new, HasUniqueKeys, All,
  All-map, Bool-cases, inl, inr, append-nil, append_assoc,
}
use remote_devbox_mcp.Gateway.Snapshot.Data.{string, ServerSnapshot}
use remote_devbox_mcp.Gateway.Snapshot.Build.{
  strings, string_fields, text_leb, insert_pair, sort_pairs,
}
use remote_devbox_mcp.Gateway.Snapshot.Load.{field_json, dict_from, texts_eq, pairs_eq, server_eq}

pub strings-map : (xs : List Text) → strings (map string xs) ≡ some xs
unfolding strings
strings-map [] = refl
strings-map (x ∷ xs) = rw (strings-map xs) refl

pub string_fields-map : (d : Dict Text) → string_fields (map field_json d) ≡ some d
unfolding string_fields
string_fields-map [] = refl
string_fields-map ((k, v) ∷ d) = rw (string_fields-map d) refl

text_leb_total : (s t : Text) → text_leb s t ≡ false → text_leb t s ≡ true
unfolding text_leb
text_leb_total [] t h = absurd (cc h)
text_leb_total (a ∷ s) [] h = refl
text_leb_total (a ∷ s) (b ∷ t) h = ground (arith, text_leb_total s t)

-- Each key is at most the next one.
IsSorted : Dict Text → Type 0
IsSorted [] = Unit
IsSorted (p ∷ []) = Unit
IsSorted (p ∷ q ∷ qs) = (text_leb p.0 q.0 ≡ true) × IsSorted (q ∷ qs)

insert_pair-IsSorted :
    (p : Text × Text) (qs : Dict Text) → IsSorted qs → IsSorted (insert_pair p qs)
unfolding insert_pair IsSorted
insert_pair-IsSorted p [] h = tt
insert_pair-IsSorted p (q ∷ []) h = elim (Bool-cases (text_leb p.0 q.0)) [
  | inl e ↦ rw e (e, tt)
  | inr e ↦ rw e (text_leb_total p.0 q.0 e, tt)
]
insert_pair-IsSorted p (q ∷ r ∷ qs) h = elim (Bool-cases (text_leb p.0 q.0)) [
  | inl e ↦ rw e (e, h)
  | inr e ↦ elim (Bool-cases (text_leb p.0 r.0)) [
    | inl f ↦ rw (e, f) (text_leb_total p.0 q.0 e, (f, h.1))
    | inr f ↦
        let rest = insert_pair-IsSorted p (r ∷ qs) h.1 in
        let moved = rw f at rest in rw (e, f) (h.0, moved)
  ]
]

sort_pairs-IsSorted : (ps : Dict Text) → IsSorted (sort_pairs ps)
unfolding sort_pairs IsSorted
sort_pairs-IsSorted [] = tt
sort_pairs-IsSorted (p ∷ ps) = insert_pair-IsSorted p (sort_pairs ps) (sort_pairs-IsSorted ps)

sort_pairs-sorted : (ps : Dict Text) → IsSorted ps → sort_pairs ps ≡ ps
unfolding sort_pairs IsSorted insert_pair
sort_pairs-sorted [] h = refl
sort_pairs-sorted (p ∷ []) h = refl
sort_pairs-sorted (p ∷ q ∷ qs) h = rw (sort_pairs-sorted (q ∷ qs) h.1, h.0) refl

pub sort_pairs_idem : (ps : Dict Text) → sort_pairs (sort_pairs ps) ≡ sort_pairs ps
sort_pairs_idem ps = sort_pairs-sorted (sort_pairs ps) (sort_pairs-IsSorted ps)

module _ {ℓ} {V : Type ℓ} where
  absent_key :
      (j k : Text) (d e : Dict V) (v : V) → lookup j (d ++ (k, v) ∷ e) ≡ none → text_eq k j ≡ false
  unfolding lookup
  absent_key j k [] e v h = elim (Bool-cases (text_eq k j)) [
    | inl f ↦ absurd (cc (rw f at h))
    | inr f ↦ f
  ]
  absent_key j k ((i, w) ∷ d) e v h = ground (arith, absent_key j k d e v)

  lookup-front :
      (k : Text) (d e : Dict V) (v : V) → HasUniqueKeys (d ++ (k, v) ∷ e) → lookup k d ≡ none
  unfolding lookup
  lookup-front k [] e v u = refl
  lookup-front k ((j, w) ∷ d) e v u =
      ground (
        arith,
        absent_key j k d e v u.0,
        text_eq_iff j k,
        text_eq_iff k j,
        lookup-front k d e v u.1,
      )

  pub dict_from_unique : (d e : Dict V) → HasUniqueKeys (d ++ e) → dict_from d e ≡ d ++ e
  unfolding dict_from
  dict_from_unique d [] u = sym (append-nil d)
  dict_from_unique d ((k, v) ∷ e) u =
      let appended = append_assoc d ((k, v) ∷ []) e in
      rw (insert-new k v d (lookup-front k d e v u))
        (dict_from_unique (d ++ (k, v) ∷ []) e (subst HasUniqueKeys (sym appended) u) ∙ appended)

  behind :
      (k : Text) (v : V) (p : Text × V) (d : Dict V)
      → lookup k d ≡ none
      → lookup p.0 d ≡ some p.1
      → lookup p.0 ((k, v) ∷ d) ≡ some p.1
  unfolding lookup
  behind k v p d u h = elim (Bool-cases (text_eq k p.0)) [
    | inl e ↦ absurd (cc (subst (λ j. lookup j d ≡ none) (text_eq_sound k p.0 e) u, h))
    | inr e ↦ rw e h
  ]

  -- Each pair of a dictionary with unique keys is found under its key.
  pub finds_all : (d : Dict V) → HasUniqueKeys d → All (λ (p : Text × V). lookup p.0 d ≡ some p.1) d
  unfolding lookup
  finds_all [] u = tt
  finds_all ((k, v) ∷ d) u = (
    rw (text_eq_refl k) refl,
    All-map (λ (p : Text × V). lookup p.0 d ≡ some p.1)
        (λ (p : Text × V). lookup p.0 ((k, v) ∷ d) ≡ some p.1) d (λ p h. behind k v p d u.0 h)
        (finds_all d u.1),
  )

pub texts_eq_sound : (s t : List Text) → texts_eq s t ≡ true → s ≡ t
unfolding texts_eq
texts_eq_sound [] [] h = refl
texts_eq_sound (a ∷ s) (b ∷ t) h = ground (arith, text_eq_sound a b, texts_eq_sound s t)
texts_eq_sound (a ∷ s) [] h = cc
texts_eq_sound [] (b ∷ t) h = cc

pub texts_eq_refl : (s : List Text) → texts_eq s s ≡ true
unfolding texts_eq
texts_eq_refl [] = refl
texts_eq_refl (a ∷ s) = ground (arith, text_eq_refl a, texts_eq_refl s)

pub pairs_eq_sound : (s t : Dict Text) → pairs_eq s t ≡ true → s ≡ t
unfolding pairs_eq
pairs_eq_sound [] [] h = refl
pairs_eq_sound ((a, x) ∷ s) ((b, y) ∷ t) h =
    ground (arith, text_eq_sound a b, text_eq_sound x y, pairs_eq_sound s t)
pairs_eq_sound (a ∷ s) [] h = cc
pairs_eq_sound [] (b ∷ t) h = cc

pub pairs_eq_refl : (s : Dict Text) → pairs_eq s s ≡ true
unfolding pairs_eq
pairs_eq_refl [] = refl
pairs_eq_refl (a ∷ s) = ground (arith, text_eq_refl a.0, text_eq_refl a.1, pairs_eq_refl s)

pub server_eq_refl : (s : ServerSnapshot) → server_eq s s ≡ true
unfolding server_eq
server_eq_refl s = ground (
  arith,
  text_eq_refl s.command,
  texts_eq_refl s.args,
  pairs_eq_refl s.env,
  text_eq_refl s.pins.specifier,
  text_eq_refl s.pins.sha256,
)

pub server_eq_sound : (s t : ServerSnapshot) → server_eq s t ≡ true → s ≡ t
unfolding server_eq
server_eq_sound s t h = ground (
  arith,
  text_eq_sound s.command t.command,
  texts_eq_sound s.args t.args,
  pairs_eq_sound s.env t.env,
  text_eq_sound s.pins.specifier t.pins.specifier,
  text_eq_sound s.pins.sha256 t.pins.sha256,
)
