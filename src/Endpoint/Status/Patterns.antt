-- ===== src/Endpoint/Status/Patterns.antt =====
-- What a matcher of status codes accepts.
use maintenant.Base.{
  ℕ, ◌≤◌, ◌≡◌, refl, inl, inr, true, ◌&&◌, Option, none, some, List, [], ◌∷◌, arith, Str, is_empty,
  map, any, All, leb, if_elim, Bool-cases,
}
use maintenant.Endpoint.Status.{
  StatusRange, trimmed, split_comma, lower, atoi, shorthand, exact, or_exact, parse_status_part,
  add_range, parse_each, or_default, or_2xx, new_status_matcher, matches,
}

-- A range of status codes that is not empty.
abbrev IsCodes : StatusRange → Type 0
IsCodes r = (100 ≤ r.min) × (r.min ≤ r.max) × (r.max ≤ 599)

abbrev IsCodesIf : Option StatusRange → Type 0
IsCodesIf o = (r : StatusRange) → o ≡ some r → IsCodes r

shorthand-IsCodes : (s : Str) → IsCodesIf (shorthand s)
unfolding shorthand
shorthand-IsCodes [] r e = cc
shorthand-IsCodes (a ∷ []) r e = cc
shorthand-IsCodes (a ∷ b ∷ []) r e = cc
shorthand-IsCodes (a ∷ b ∷ c ∷ []) r e = ground arith
shorthand-IsCodes (a ∷ b ∷ c ∷ d ∷ s) r e = cc

exact-IsCodes : (o : Option ℕ) → IsCodesIf (exact o)
unfolding exact
exact-IsCodes none r e = cc
exact-IsCodes (some n) r e = ground arith

or_exact-IsCodes : (o : Option StatusRange) (s : Str) → IsCodesIf o → IsCodesIf (or_exact o s)
unfolding or_exact
or_exact-IsCodes none s h r e = exact-IsCodes (atoi s) r e
or_exact-IsCodes (some q) s h r e = h r e

parse_status_part-IsCodes : (s : Str) → IsCodesIf (parse_status_part s)
unfolding parse_status_part
parse_status_part-IsCodes s =
    or_exact-IsCodes (shorthand (map lower s)) (map lower s) (shorthand-IsCodes (map lower s))

add_range-IsCodes :
    (o : Option StatusRange) (l : List StatusRange)
    → IsCodesIf o
    → All IsCodes l
    → All IsCodes (add_range o l)
unfolding add_range
add_range-IsCodes none l h hs = hs
add_range-IsCodes (some r) l h hs = (h r refl, hs)

parse_each-IsCodes : (parts : List Str) → All IsCodes (parse_each parts)
unfolding parse_each
parse_each-IsCodes [] = tt
parse_each-IsCodes (part ∷ parts) =
    add_range-IsCodes _ (parse_each parts)
      (if_elim IsCodesIf (is_empty (trimmed part)) (λ e r h. cc)
        (λ e. parse_status_part-IsCodes (trimmed part)))
      (parse_each-IsCodes parts)

or_default-IsCodes : (l : List StatusRange) → All IsCodes l → All IsCodes (or_default l)
unfolding or_default
or_default-IsCodes [] h = (omega arith, tt)
or_default-IsCodes (r ∷ l) h = h

new_status_matcher-IsCodes : (pattern : Str) → All IsCodes (new_status_matcher pattern)
unfolding new_status_matcher
new_status_matcher-IsCodes pattern =
    or_default-IsCodes _ (parse_each-IsCodes (split_comma (or_2xx (trimmed pattern))))

matches-IsCodes :
    (l : List StatusRange) (code : ℕ)
    → All IsCodes l
    → matches l code ≡ true
    → (100 ≤ code) × (code ≤ 599)
unfolding matches any
matches-IsCodes [] code h e = cc
matches-IsCodes (r ∷ l) code h e = elim (Bool-cases (leb r.min code && leb code r.max)) [
  | inl hit ↦ ground arith
  | inr miss ↦ matches-IsCodes l code h.1 (ground arith)
]

or_default-matches :
    (l : List StatusRange)
    → All IsCodes (or_default l)
    → (code : ℕ) × (matches (or_default l) code ≡ true)
unfolding or_default matches any
or_default-matches [] h = (200, refl)
or_default-matches (r ∷ l) h = (r.min, ground arith)

-- Whatever the pattern, the matcher accepts some status code, and only codes from 100 to 599.
pub matches_codes :
    (pattern : Str)
    → ((code : ℕ) × (matches (new_status_matcher pattern) code ≡ true))
      × ((code : ℕ)
          → matches (new_status_matcher pattern) code ≡ true
          → (100 ≤ code) × (code ≤ 599))
unfolding new_status_matcher
matches_codes pattern = (
  or_default-matches _ (new_status_matcher-IsCodes pattern),
  λ code e. matches-IsCodes _ code (new_status_matcher-IsCodes pattern) e,
)
