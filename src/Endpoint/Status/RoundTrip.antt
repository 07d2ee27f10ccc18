-- ===== src/Endpoint/Status/RoundTrip.antt =====
-- A pattern of well-formed parts accepts what its parts name.
use maintenant.Base.{
  ℕ, ◌+◌, ◌*◌, ◌≤◌, ◌≡◌, refl, ap, ◌∙◌, Bool, false, ◌&&◌, ◌||◌, some, List, [], ◌∷◌, ◌++◌, arith,
  Str, is_empty, map, any, All, leb,
}
use maintenant.Endpoint.Status.{
  StatusRange, is_space, trim_left, trim_right, trimmed, push, split_comma, digits, unsigned, atoi,
  shorthand, exact, or_exact, parse_status_part, add_range, parse_each, or_default, or_2xx,
  new_status_matcher, matches,
}

-- "2xx", or the three digits of a code.
pub data Part : Type 0 where
  family : ℕ → Part
  code : ℕ → ℕ → ℕ → Part

abbrev pub IsPart : Part → Type 0
IsPart (family a) = (1 ≤ a) × (a ≤ 5)
IsPart (code a b c) = (1 ≤ a) × (a ≤ 5) × (b ≤ 9) × (c ≤ 9)

abbrev pub render : Part → Str
render (family a) = (48 + a) ∷ 120 ∷ 120 ∷ []
render (code a b c) = (48 + a) ∷ (48 + b) ∷ (48 + c) ∷ []

abbrev pub pattern_of : Part → List Part → Str
pattern_of p [] = render p
pattern_of p (q ∷ qs) = render p ++ 44 ∷ pattern_of q qs

abbrev pub range : Part → StatusRange
range (family a) = record { min = a * 100; max = a * 100 + 99 }
range (code a b c) = record { min = (a * 10 + b) * 10 + c; max = (a * 10 + b) * 10 + c }

abbrev pub accepts : ℕ → Part → Bool
accepts n p = leb (range p).min n && leb n (range p).max

parse_status_part-render : (p : Part) → IsPart p → parse_status_part (render p) ≡ some (range p)
unfolding parse_status_part shorthand or_exact exact atoi unsigned digits
parse_status_part-render (family a) h = ground arith
parse_status_part-render (code a b c) h = ground arith

-- No byte is a space.
abbrev Solid : Str → Type 0
Solid = All (λ c. is_space c ≡ false)

trim_left-Solid : (s : Str) → Solid s → trim_left s ≡ s
unfolding trim_left
trim_left-Solid [] h = refl
trim_left-Solid (c ∷ s) h = rw (h.0) refl

trim_right-Solid : (s : Str) → Solid s → trim_right s ≡ s
unfolding trim_right
trim_right-Solid [] h = refl
trim_right-Solid (c ∷ s) h = rw (h.0, trim_right-Solid s h.1) refl

trimmed-Solid : (s : Str) → Solid s → trimmed s ≡ s
unfolding trimmed
trimmed-Solid s h = ap trim_right (trim_left-Solid s h) ∙ trim_right-Solid s h

render-Solid : (p : Part) → IsPart p → Solid (render p)
render-Solid (family a) h = (ground arith, (refl, (refl, tt)))
render-Solid (code a b c) h = (ground arith, (ground arith, (ground arith, tt)))

append-Solid : (s t : Str) → Solid s → Solid t → Solid (s ++ t)
append-Solid [] t h k = k
append-Solid (c ∷ s) t h k = (h.0, append-Solid s t h.1 k)

pattern_of-Solid : (p : Part) (ps : List Part) → IsPart p → All IsPart ps → Solid (pattern_of p ps)
pattern_of-Solid p [] h hs = render-Solid p h
pattern_of-Solid p (q ∷ qs) h hs =
    append-Solid (render p) (44 ∷ pattern_of q qs) (render-Solid p h)
      (refl, pattern_of-Solid q qs hs.0 hs.1)

split_comma-last : (p : Part) → IsPart p → split_comma (render p) ≡ render p ∷ []
unfolding split_comma push
split_comma-last (family a) h = ground arith
split_comma-last (code a b c) h = ground arith

split_comma-first :
    (p : Part) (s : Str) → IsPart p → split_comma (render p ++ 44 ∷ s) ≡ render p ∷ split_comma s
unfolding split_comma push
split_comma-first (family a) s h = ground arith
split_comma-first (code a b c) s h = ground arith

split_comma-pattern_of :
    (p : Part) (ps : List Part)
    → IsPart p
    → All IsPart ps
    → split_comma (pattern_of p ps) ≡ render p ∷ map render ps
split_comma-pattern_of p [] h hs = split_comma-last p h
split_comma-pattern_of p (q ∷ qs) h hs =
    split_comma-first p (pattern_of q qs) h
    ∙ ap (λ l. render p ∷ l) (split_comma-pattern_of q qs hs.0 hs.1)

is_empty-render : (p : Part) → is_empty (render p) ≡ false
is_empty-render (family a) = refl
is_empty-render (code a b c) = refl

parse_each-render : (ps : List Part) → All IsPart ps → parse_each (map render ps) ≡ map range ps
unfolding parse_each add_range
parse_each-render [] h = refl
parse_each-render (p ∷ ps) h =
    rw
      (
        trimmed-Solid (render p) (render-Solid p h.0),
        is_empty-render p,
        parse_status_part-render p h.0,
        parse_each-render ps h.1,
      )
      refl

or_2xx-pattern_of : (p : Part) (ps : List Part) → or_2xx (pattern_of p ps) ≡ pattern_of p ps
or_2xx-pattern_of (family a) [] = refl
or_2xx-pattern_of (family a) (q ∷ qs) = refl
or_2xx-pattern_of (code a b c) [] = refl
or_2xx-pattern_of (code a b c) (q ∷ qs) = refl

matches-range : (n : ℕ) (ps : List Part) → matches (map range ps) n ≡ any (accepts n) ps
unfolding matches any
matches-range n [] = refl
matches-range n (p ∷ ps) = ap (λ b. accepts n p || b) (matches-range n ps)

-- A pattern that lists families such as 2xx, from 1xx to 5xx, and codes from 100 to 599, separated by
-- commas, accepts a code exactly when one of them is its family or is the code.
pub matches-pattern_of :
    (p : Part) (ps : List Part) (n : ℕ)
    → IsPart p
    → All IsPart ps
    → matches (new_status_matcher (pattern_of p ps)) n ≡ any (accepts n) (p ∷ ps)
unfolding new_status_matcher or_default
matches-pattern_of p ps n h hs =
    rw
      (
        trimmed-Solid (pattern_of p ps) (pattern_of-Solid p ps h hs),
        or_2xx-pattern_of p ps,
        split_comma-pattern_of p ps h hs,
        parse_each-render (p ∷ ps) (h, hs),
      )
      (matches-range n (p ∷ ps))
