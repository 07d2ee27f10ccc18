-- ===== src/Alert/Csv/RoundTrip.antt =====
-- CSV filters: splitting what was joined by commas, with any spaces round the items.
use mathlib.Core.List.{append_assoc, append-nil}
use maintenant.Base.{
  ℕ, zero, suc, ◌≡◌, refl, ap, sym, ◌∙◌, ◌≢◌, ◌↔◌, inl, inr, true, List, [], ◌∷◌, ◌++◌, arith, Str,
  str_eq, str_eq_iff, All, any, In, map, Bool-cases,
}
use maintenant.Alert.Csv.{
  comma, space, trim_start, trim_end, trim_space, push_item, split_from, split_csv, contains_csv,
}

abbrev pub spaces : ℕ → Str
spaces zero = []
spaces (suc n) = space ∷ spaces n

abbrev pub StartsSolid : Str → Type 0
StartsSolid [] = ⊥
StartsSolid (c ∷ s) = c ≢ space

-- A text that is not empty, holds no comma and has no space at either end.
pub record IsItem (w : Str) : Type 0 where
  pub start : StartsSolid w
  pub ends : trim_end w ≡ w
  pub no_comma : All (λ c. c ≢ comma) w

-- An item with spaces round it.
pub record Padded : Type 0 where
  pub before : ℕ
  pub item : Str
  pub after : ℕ

abbrev pub render : Padded → Str
render p = spaces p.before ++ (p.item ++ spaces p.after)

abbrev pub join : Padded → List Padded → Str
join p [] = render p
join p (q ∷ qs) = render p ++ comma ∷ join q qs

trim_start-spaces : (n : ℕ) (s : Str) → trim_start (spaces n ++ s) ≡ trim_start s
unfolding trim_start
trim_start-spaces zero s = refl
trim_start-spaces (suc n) s = trim_start-spaces n s

trim_start-solid : (w s : Str) → StartsSolid w → trim_start (w ++ s) ≡ w ++ s
unfolding trim_start
trim_start-solid [] s h = absurd h
trim_start-solid (c ∷ w) s h = ground arith

trim_end-spaces : (n : ℕ) → trim_end (spaces n) ≡ []
unfolding trim_end
trim_end-spaces zero = refl
trim_end-spaces (suc n) = ground (arith, trim_end-spaces n)

trim_end-append : (w : Str) (n : ℕ) → trim_end (w ++ spaces n) ≡ trim_end w
unfolding trim_end
trim_end-append [] n = trim_end-spaces n
trim_end-append (c ∷ w) n = ground (arith, trim_end-append w n)

trim_space-render : (p : Padded) → IsItem p.item → trim_space (render p) ≡ p.item
unfolding trim_space
trim_space-render p h =
    ap trim_end (
      trim_start-spaces p.before (p.item ++ spaces p.after)
      ∙ trim_start-solid p.item (spaces p.after) h.start)
    ∙ trim_end-append p.item p.after
    ∙ h.ends

split_from-append :
    (w cur rest : Str)
    → All (λ c. c ≢ comma) w
    → split_from cur (w ++ rest) ≡ split_from (cur ++ w) rest
unfolding split_from
split_from-append [] cur rest h = ap (λ c. split_from c rest) (sym (append-nil cur))
split_from-append (c ∷ w) cur rest h =
    ground (arith, split_from-append w (cur ++ c ∷ []) rest h.1, append_assoc cur (c ∷ []) w)

spaces-no_comma : (n : ℕ) → All (λ c. c ≢ comma) (spaces n)
spaces-no_comma zero = tt
spaces-no_comma (suc n) = (omega arith, spaces-no_comma n)

All-append :
    (u v : Str) → All (λ c. c ≢ comma) u → All (λ c. c ≢ comma) v → All (λ c. c ≢ comma) (u ++ v)
All-append [] v hu hv = hv
All-append (c ∷ u) v hu hv = (hu.0, All-append u v hu.1 hv)

render-no_comma : (p : Padded) → IsItem p.item → All (λ c. c ≢ comma) (render p)
render-no_comma p h =
    All-append (spaces p.before) _ (spaces-no_comma p.before)
      (All-append p.item _ h.no_comma (spaces-no_comma p.after))

push_item-solid : (w : Str) (items : List Str) → StartsSolid w → push_item w items ≡ w ∷ items
unfolding push_item
push_item-solid [] items h = absurd h
push_item-solid (c ∷ w) items h = refl

split_from-join :
    (p : Padded) (ps : List Padded)
    → IsItem p.item
    → All (λ q. IsItem q.item) ps
    → split_from [] (join p ps) ≡ p.item ∷ map (λ q. q.item) ps
unfolding split_from
split_from-join p [] h hs =
    ap (split_from []) (sym (append-nil (render p)))
    ∙ split_from-append (render p) [] [] (render-no_comma p h)
    ∙ rw (trim_space-render p h) (push_item-solid p.item [] h.start)
split_from-join p (q ∷ qs) h hs =
    split_from-append (render p) [] (comma ∷ join q qs) (render-no_comma p h)
    ∙ rw (trim_space-render p h, split_from-join q qs hs.0 hs.1) (push_item-solid p.item _ h.start)

split_csv-eq-split_from : (s : Str) → split_csv s ≡ split_from [] s
unfolding split_csv trim_space trim_start trim_end push_item
split_csv-eq-split_from [] = refl
split_csv-eq-split_from (c ∷ s) = refl

-- Splitting a list of items, none of them empty, with a comma or with a space at an end, that stand
-- between commas and any number of spaces, gives back the items in order.
pub split_csv-join :
    (p : Padded) (ps : List Padded)
    → IsItem p.item
    → All (λ q. IsItem q.item) ps
    → split_csv (join p ps) ≡ p.item ∷ map (λ q. q.item) ps
split_csv-join p ps h hs = split_csv-eq-split_from (join p ps) ∙ split_from-join p ps h hs

any-In : (v : Str) (items : List Str) → (any (λ item. str_eq item v) items ≡ true) ↔ In v items
unfolding any
any-In v [] = (λ h. cc, λ h. absurd h)
any-In v (w ∷ ws) = (
  λ h. elim (Bool-cases (str_eq w v)) [
    | inl e ↦ inl (sym ((str_eq_iff w v).0 e))
    | inr e ↦ inr ((any-In v ws).0 (ground arith))
  ],
  λ h. elim h [
    | inl e ↦ ground (arith, (str_eq_iff w v).1 (sym e))
    | inr i ↦ ground (arith, (any-In v ws).1 i)
  ],
)

-- A filter that is made of items, none of them empty, with a comma or with a space at an end, joined by
-- commas and any number of spaces, holds a value exactly when the value is one of the items.
pub contains_csv-join :
    (p : Padded) (ps : List Padded) (v : Str)
    → IsItem p.item
    → All (λ q. IsItem q.item) ps
    → (contains_csv (join p ps) v ≡ true) ↔ In v (p.item ∷ map (λ q. q.item) ps)
unfolding contains_csv
contains_csv-join p ps v h hs =
    rw (split_csv-join p ps h hs) (any-In v (p.item ∷ map (λ q. q.item) ps))
