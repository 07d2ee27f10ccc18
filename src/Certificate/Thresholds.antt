-- ===== src/Certificate/Thresholds.antt =====
-- The threshold that a certificate has crossed.
use maintenant.Base.{
  ℕ, ◌+◌, ◌≤◌, ◌≡◌, refl, ◌∙◌, ap, true, false, Option, none, some, List, [], ◌∷◌, arith, any, leb,
  ltb, if◌then◌else◌,
}
use maintenant.Certificate.{
  days_until, valid, expiring, insert_down, sort_down, compute_status, last_crossed,
  crossed_threshold,
}

abbrev pub lesser : ℕ → Option ℕ → ℕ
lesser t none = t
lesser t (some u) = if ltb u t then u else t

-- The least threshold that is not below the days.
unfoldable pub least_within : ℕ → List ℕ → Option ℕ
least_within days [] = none
least_within days (t ∷ ts) =
    let rest = least_within days ts in if leb days t then some (lesser t rest) else rest

abbrev Falls : ℕ → List ℕ → Type 0
Falls high [] = Unit
Falls high (t ∷ ts) = (t ≤ high) × Falls t ts

Falls-weaken : (high high' : ℕ) (ts : List ℕ) → high ≤ high' → Falls high ts → Falls high' ts
Falls-weaken high high' [] le h = tt
Falls-weaken high high' (t ∷ ts) le h = (omega (arith, h.0), h.1)

Falls-insert_down :
    (high t : ℕ) (ts : List ℕ) → t ≤ high → Falls high ts → Falls high (insert_down t ts)
unfolding insert_down
Falls-insert_down high t [] le h = (le, tt)
Falls-insert_down high t (x ∷ xs) le h = ground (arith, Falls-insert_down x t xs, h.0, h.1)

least_within-insert_down :
    (days t : ℕ) (ts : List ℕ) → least_within days (insert_down t ts) ≡ least_within days (t ∷ ts)
unfolding least_within insert_down
least_within-insert_down days t [] = refl
least_within-insert_down days t (x ∷ xs) = ground (arith, least_within-insert_down days t xs)

least_within-sort_down :
    (days : ℕ) (ts : List ℕ) → least_within days (sort_down ts) ≡ least_within days ts
unfolding least_within sort_down
least_within-sort_down days [] = refl
least_within-sort_down days (t ∷ ts) =
    least_within-insert_down days t (sort_down ts)
    ∙ ap (λ (rest : Option ℕ). if leb days t then some (lesser t rest) else rest)
        (least_within-sort_down days ts)

least_within-le :
    (days high : ℕ) (ts : List ℕ) (u : ℕ) → Falls high ts → least_within days ts ≡ some u → u ≤ high
unfolding least_within
least_within-le days high [] u h e = cc
least_within-le days high (t ∷ ts) u h e = ground (arith, least_within-le days t ts u, h.0, h.1)

abbrev or_found : Option ℕ → Option ℕ → Option ℕ
or_found none found = found
or_found (some u) found = some u

found_last :
    (days t : ℕ) (found o : Option ℕ)
    → ((u : ℕ) → o ≡ some u → u ≤ t)
    → or_found o (if leb days t then some t else found)
      ≡ or_found (if leb days t then some (lesser t o) else o) found
found_last days t found none h = ground arith
found_last days t found (some u) h = ground (arith, h u refl)

last_crossed-least_within :
    (days high : ℕ) (found : Option ℕ) (ts : List ℕ)
    → Falls high ts
    → last_crossed days found ts ≡ or_found (least_within days ts) found
unfolding last_crossed least_within
last_crossed-least_within days high found [] h = refl
last_crossed-least_within days high found (t ∷ ts) h =
    last_crossed-least_within days t (if leb days t then some t else found) ts h.1
    ∙ found_last days t found (least_within days ts) (λ u. least_within-le days t ts u h.1)

Falls-sort_down : (ts : List ℕ) → (high : ℕ) × Falls high (sort_down ts)
unfolding sort_down
Falls-sort_down [] = (0, tt)
Falls-sort_down (t ∷ ts) =
    let (high, h) = Falls-sort_down ts in
    (
      high + t,
      Falls-insert_down (high + t) t (sort_down ts) (omega arith)
          (Falls-weaken high (high + t) (sort_down ts) (omega arith) h),
    )

any-least_within :
    (days : ℕ) (ts : List ℕ)
    → any (leb days) ts ≡ (elim (least_within days ts) [ none ↦ false | some u ↦ true ])
unfolding any least_within
any-least_within days [] = refl
any-least_within days (t ∷ ts) = ground (arith, any-least_within days ts)

or_found-none : (o : Option ℕ) → or_found o none ≡ o
or_found-none none = refl
or_found-none (some u) = refl

status_of :
    (now not_after : ℕ) (ts : List ℕ)
    → now ≤ not_after
    → any (leb (days_until now not_after)) (sort_down ts)
      ≡ (elim (least_within (days_until now not_after) ts) [ none ↦ false | some u ↦ true ])
    → compute_status now not_after ts
      ≡ (elim (least_within (days_until now not_after) ts) [ none ↦ valid | some t ↦ expiring ])
unfolding compute_status
status_of now not_after ts le e = ground (arith, le, e)

-- The threshold that the loop over the sorted thresholds ends on is the least that is not below the days,
-- in whatever order the thresholds are configured; and a certificate that is not past is expiring exactly
-- if there is one, and valid otherwise.
pub crossed_threshold-least_within :
    (now not_after : ℕ) (ts : List ℕ)
    → now ≤ not_after
    → (crossed_threshold (days_until now not_after) ts ≡ least_within (days_until now not_after) ts)
      × (compute_status now not_after ts ≡ (elim (least_within (days_until now not_after) ts) [
        | none ↦ valid
        | some t ↦ expiring
      ]))
unfolding crossed_threshold compute_status
crossed_threshold-least_within now not_after ts le =
    let days = days_until now not_after in
    let (high, h) = Falls-sort_down ts in
    (
      last_crossed-least_within days high none (sort_down ts) h
          ∙ or_found-none (least_within days (sort_down ts))
          ∙ least_within-sort_down days ts,
      status_of now not_after ts le (
          any-least_within days (sort_down ts)
          ∙ ap (λ (o : Option ℕ). elim o [ none ↦ false | some u ↦ true ])
              (least_within-sort_down days ts)),
    )
