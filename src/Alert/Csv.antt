-- ===== src/Alert/Csv.antt =====
-- The CSV filters of internal/alert/engine.go: trimSpace, splitCSV, containsCSV. The loops over an index
-- are recursions on the bytes that are left; `cur` is the slice s[start:i].
pub mod RoundTrip
use maintenant.Base.{
  ℕ, ◌≡◌, Bool, true, false, ◌&&◌, List, [], ◌∷◌, ◌++◌, arith, Str, str_eq, is_empty, ◌==◌, any,
  if◌then◌else◌,
}

abbrev pub comma : ℕ
comma = 44

abbrev pub space : ℕ
space = 32

pub trim_start : Str → Str
trim_start [] = []
trim_start (c ∷ s) = let rest = trim_start s in if c == space then rest else c ∷ s

unfoldable pub trim_end : Str → Str
trim_end [] = []
trim_end (c ∷ s) = let rest = trim_end s in if c == space && is_empty rest then [] else c ∷ rest

unfoldable pub trim_space : Str → Str
unfolding trim_start trim_end
trim_space s = trim_end (trim_start s)

-- `if item != "" { result = append(result, item) }`, before the items that follow.
pub push_item : Str → List Str → List Str
push_item [] items = items
push_item (c ∷ s) items = (c ∷ s) ∷ items

pub split_from : Str → Str → List Str
unfolding push_item trim_space
split_from cur [] = push_item (trim_space cur) []
split_from cur (c ∷ s) =
    let item = push_item (trim_space cur) (split_from [] s) in
    let more = split_from (cur ++ c ∷ []) s in if c == comma then item else more

unfoldable pub split_csv : Str → List Str
unfolding split_from
split_csv [] = []
split_csv (c ∷ s) = split_from [] (c ∷ s)

unfoldable pub contains_csv : Str → Str → Bool
unfolding split_csv any
contains_csv csv value = any (λ item. str_eq item value) (split_csv csv)
