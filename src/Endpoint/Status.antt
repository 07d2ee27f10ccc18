-- ===== src/Endpoint/Status.antt =====
-- internal/endpoint/status.go. Text is read over ASCII. `Atoi` gives none for a negative number here,
-- which is no status code either way.
pub mod Patterns
pub mod RoundTrip
use maintenant.Base.{
  ℕ, ◌+◌, ◌-◌, ◌*◌, Bool, true, false, ◌&&◌, ◌||◌, Option, none, some, List, [], ◌∷◌, Str, lit,
  is_empty, map, any, leb, ◌==◌, if◌then◌else◌,
}

pub record StatusRange : Type 0 where
  pub min : ℕ
  pub max : ℕ

abbrev pub is_space : ℕ → Bool
is_space c = c == 32 || leb 9 c && leb c 13

-- `strings.TrimSpace`
pub trim_left : Str → Str
trim_left [] = []
trim_left (c ∷ s) = let rest = trim_left s in if is_space c then rest else c ∷ s

pub trim_right : Str → Str
trim_right [] = []
trim_right (c ∷ s) = let rest = trim_right s in if is_space c && is_empty rest then [] else c ∷ rest

unfoldable pub trimmed : Str → Str
unfolding trim_left trim_right
trimmed s = trim_right (trim_left s)

-- `strings.Split(s, ",")`
pub push : ℕ → List Str → List Str
push c [] = (c ∷ []) ∷ []
push c (p ∷ ps) = (c ∷ p) ∷ ps

unfoldable pub split_comma : Str → List Str
unfolding push
split_comma [] = [] ∷ []
split_comma (c ∷ s) = let parts = split_comma s in if c == 44 then [] ∷ parts else push c parts

-- `strings.ToLower`, byte by byte.
abbrev pub lower : ℕ → ℕ
lower c = if leb 65 c && leb c 90 then c + 32 else c

-- `strconv.Atoi`
pub digits : ℕ → Str → Option ℕ
digits n [] = some n
digits n (c ∷ s) =
    let rest = digits (n * 10 + (c - 48)) s in if leb 48 c && leb c 57 then rest else none

pub unsigned : Str → Option ℕ
unfolding digits
unsigned [] = none
unsigned (c ∷ s) = digits 0 (c ∷ s)

pub atoi : Str → Option ℕ
unfolding unsigned
atoi [] = none
atoi (c ∷ s) = if c == 43 then unsigned s else unsigned (c ∷ s)

-- "2xx" and the like.
pub shorthand : Str → Option StatusRange
shorthand (a ∷ b ∷ c ∷ []) =
    if b == 120 && c == 120 && leb 49 a && leb a 53
    then some (record { min = (a - 48) * 100; max = (a - 48) * 100 + 99 })
    else none
shorthand _ = none

pub exact : Option ℕ → Option StatusRange
exact none = none
exact (some code) =
    if leb 100 code && leb code 599 then some (record { min = code; max = code }) else none

pub or_exact : Option StatusRange → Str → Option StatusRange
unfolding exact atoi
or_exact none s = exact (atoi s)
or_exact (some r) s = some r

unfoldable pub parse_status_part : Str → Option StatusRange
unfolding or_exact shorthand
parse_status_part s = let s' = map lower s in or_exact (shorthand s') s'

pub add_range : Option StatusRange → List StatusRange → List StatusRange
add_range none ranges = ranges
add_range (some r) ranges = r ∷ ranges

unfoldable pub parse_each : List Str → List StatusRange
unfolding add_range parse_status_part trimmed
parse_each [] = []
parse_each (part ∷ parts) =
    let part' = trimmed part in
    add_range (if is_empty part' then none else parse_status_part part') (parse_each parts)

pub or_default : List StatusRange → List StatusRange
or_default [] = record { min = 200; max = 299 } ∷ []
or_default (r ∷ rs) = r ∷ rs

abbrev pub or_2xx : Str → Str
or_2xx [] = lit "2xx"
or_2xx (c ∷ s) = c ∷ s

-- The ranges of the matcher.
unfoldable pub new_status_matcher : Str → List StatusRange
unfolding trimmed parse_each split_comma or_default
new_status_matcher pattern = or_default (parse_each (split_comma (or_2xx (trimmed pattern))))

unfoldable pub matches : List StatusRange → ℕ → Bool
unfolding any
matches ranges code = any (λ r. leb r.min code && leb code r.max) ranges
