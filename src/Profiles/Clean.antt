-- ===== src/Profiles/Clean.antt =====
-- Lists of problems without an error: the lemmas on `++`, `each` and `when` of validate, profiles.py.
use remote_devbox_mcp.Base.{
  ℕ, ◌≡◌, refl, Bool, true, false, not, ◌&&◌, List, [], ◌∷◌, ◌++◌, arith, all, select, is_empty,
}
use remote_devbox_mcp.Profiles.Validate.Fields.{Problem, error, warning, when, each}
use remote_devbox_mcp.Profiles.Validate.{is_error}

unfoldable pub clean : List Problem → Bool
clean [] = true
clean (x ∷ ps) = not (is_error x) && clean ps

pub is_empty-select : (ps : List Problem) → is_empty (select is_error ps) ≡ clean ps
unfolding clean select
is_empty-select [] = refl
is_empty-select (error n ∷ ps) = refl
is_empty-select (warning n ∷ ps) = is_empty-select ps

pub clean-append : (ps qs : List Problem) → clean (ps ++ qs) ≡ (clean ps && clean qs)
unfolding clean
clean-append [] qs = refl
clean-append (error n ∷ ps) qs = refl
clean-append (warning n ∷ ps) qs = clean-append ps qs

pub clean-when : (b : Bool) (n : ℕ) → clean (when b (error n)) ≡ not b
unfolding clean
clean-when true n = refl
clean-when false n = refl

pub clean-each {ℓ} :
    {A : Type ℓ} (f : A → List Problem) (xs : List A)
    → clean (each f xs) ≡ all (λ x. clean (f x)) xs
unfolding clean each all
clean-each f [] = refl
clean-each f (x ∷ xs) = rw (clean-append, clean-each f xs) refl

pub split_clean :
    (ps qs : List Problem) → clean (ps ++ qs) ≡ true → (clean ps ≡ true) × (clean qs ≡ true)
split_clean ps qs h = ground (arith, clean-append ps qs)

pub clean-when_off : (b : Bool) (n : ℕ) → clean (when b (error n)) ≡ true → b ≡ false
clean-when_off true n h = absurd (cc (clean-when true n))
clean-when_off false n h = refl
