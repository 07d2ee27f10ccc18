-- ===== src/Update/Semver.antt =====
-- internal/update/semver.go: splitVariant and ClassifyUpdate. Case is folded over ASCII. A version of the
-- semver library is the triple of its numbers, and a nil version is none.
pub mod Laws
use maintenant.Base.{
  ℕ, zero, suc, ◌+◌, ◌-◌, Bool, true, false, ◌&&◌, Option, none, some, List, [], ◌∷◌, Str, lit,
  str_eq, length, map, ltb, leb, if◌then◌else◌,
}
use maintenant.Update.Risk.{UpdateType, major, minor, patch, unknown}

abbrev pub known_variant_suffixes : List Str
known_variant_suffixes =
    lit "-slim-bookworm"
    ∷ lit "-slim-bullseye"
    ∷ lit "-slim-buster"
    ∷ lit "-alpine3.21"
    ∷ lit "-alpine3.20"
    ∷ lit "-alpine3.19"
    ∷ lit "-alpine3.18"
    ∷ lit "-alpine"
    ∷ lit "-bookworm"
    ∷ lit "-bullseye"
    ∷ lit "-buster"
    ∷ lit "-noble"
    ∷ lit "-jammy"
    ∷ lit "-focal"
    ∷ []

-- `s[:n]` and `s[n:]`
abbrev pub front : ℕ → Str → Str
front zero s = []
front (suc n) [] = []
front (suc n) (c ∷ s) = c ∷ front n s

abbrev pub back : ℕ → Str → Str
back zero s = s
back (suc n) [] = []
back (suc n) (c ∷ s) = back n s

abbrev pub to_lower : ℕ → ℕ
to_lower c = if leb 65 c && leb c 90 then c + 32 else c

-- `strings.HasSuffix`
abbrev pub has_suffix : Str → Str → Bool
has_suffix s suffix =
    leb (length suffix) (length s) && str_eq (back (length s - length suffix) s) suffix

unfoldable pub split_at : List Str → Str → Str × Str
split_at [] tag = (tag, [])
split_at (suffix ∷ suffixes) tag =
    let rest = split_at suffixes tag in
    let n = length tag - length suffix in
    if has_suffix (map to_lower tag) suffix then (front n tag, back n tag) else rest

unfoldable pub split_variant : Str → Str × Str
unfolding split_at
split_variant tag = split_at known_variant_suffixes tag

pub record Version : Type 0 where
  pub major_number : ℕ
  pub minor_number : ℕ
  pub patch_number : ℕ

unfoldable pub classify_update : Option Version → Option Version → UpdateType
classify_update none latest = unknown
classify_update (some c) none = unknown
classify_update (some c) (some l) =
    if ltb c.major_number l.major_number
    then major
    else (if ltb c.minor_number l.minor_number
        then minor
        else (if ltb c.patch_number l.patch_number then patch else unknown))
