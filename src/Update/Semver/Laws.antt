-- ===== src/Update/Semver/Laws.antt =====
-- The parts of a tag, and the type of an update to a newer version.
use mathlib.Core.List.{append-nil}
use maintenant.Base.{
  ℕ, zero, suc, ◌-◌, ◌<◌, ◌≡◌, refl, ap, sym, ◌∙◌, ◌⊎◌, inl, inr, true, some, List, [], ◌∷◌, ◌++◌,
  arith, Str, str_eq_iff, length, map, In, if_elim,
}
use maintenant.Update.Risk.{major, minor, patch}
use maintenant.Update.Semver.{
  known_variant_suffixes, front, back, to_lower, has_suffix, split_at, split_variant, Version,
  classify_update,
}

front-back : (n : ℕ) (s : Str) → front n s ++ back n s ≡ s
front-back zero s = refl
front-back (suc n) [] = refl
front-back (suc n) (c ∷ s) = ap (λ t. c ∷ t) (front-back n s)

back-map : (n : ℕ) (s : Str) → back n (map to_lower s) ≡ map to_lower (back n s)
back-map zero s = refl
back-map (suc n) [] = refl
back-map (suc n) (c ∷ s) = back-map n s

length-map : (s : Str) → length (map to_lower s) ≡ length s
length-map [] = refl
length-map (c ∷ s) = ap suc (length-map s)

-- The variant is empty, or one of the suffixes but for its case.
abbrev IsVariant : List Str → Str → Type 0
IsVariant suffixes v = (v ≡ []) ⊎ In (map to_lower v) suffixes

suffix-back :
    (tag suffix : Str)
    → has_suffix (map to_lower tag) suffix ≡ true
    → map to_lower (back (length tag - length suffix) tag) ≡ suffix
suffix-back tag suffix hit =
    let n = length (map to_lower tag) - length suffix in
    let found : back n (map to_lower tag) ≡ suffix =
      (str_eq_iff (back n (map to_lower tag)) suffix).0 (ground arith) in
    sym (back-map (length tag - length suffix) tag)
    ∙ ap (λ m. back (m - length suffix) (map to_lower tag)) (sym (length-map tag))
    ∙ found

split_at-parts :
    (suffixes : List Str) (tag : Str)
    → ((split_at suffixes tag).0 ++ (split_at suffixes tag).1 ≡ tag)
      × IsVariant suffixes (split_at suffixes tag).1
unfolding split_at
split_at-parts [] tag = (append-nil tag, inl refl)
split_at-parts (suffix ∷ suffixes) tag =
    let n = length tag - length suffix in
    let rest = split_at-parts suffixes tag in
    if_elim (λ (x : Str × Str). (x.0 ++ x.1 ≡ tag) × IsVariant (suffix ∷ suffixes) x.1)
      (has_suffix (map to_lower tag) suffix)
      (λ hit. (front-back n tag, inr (inl (suffix-back tag suffix hit))))
      (λ miss. (rest.0, elim rest.1 [ inl e ↦ inl e | inr i ↦ inr (inr i) ]))

-- The version and the variant of a tag make up the tag, and the variant is empty or, but for its case, one
-- of the known suffixes.
pub split_variant-parts :
    (tag : Str)
    → ((split_variant tag).0 ++ (split_variant tag).1 ≡ tag)
      × (((split_variant tag).1 ≡ [])
          ⊎ In (map to_lower (split_variant tag).1) known_variant_suffixes)
unfolding split_variant
split_variant-parts tag = split_at-parts known_variant_suffixes tag

-- The first number in which `l` differs from `c` is greater in `l`.
abbrev pub Newer : Version → Version → Type 0
Newer c l =
    (c.major_number < l.major_number)
    ⊎ ((c.major_number ≡ l.major_number)
        × ((c.minor_number < l.minor_number)
            ⊎ ((c.minor_number ≡ l.minor_number) × (c.patch_number < l.patch_number))))

-- An update to a newer version is major exactly when the major numbers differ, minor exactly when they
-- agree and the minor numbers differ, and patch exactly when both agree.
pub classify_update-Newer :
    (c l : Version)
    → Newer c l
    → ((c.major_number < l.major_number) × (classify_update (some c) (some l) ≡ major))
      ⊎ ((c.major_number ≡ l.major_number)
          × (((c.minor_number < l.minor_number) × (classify_update (some c) (some l) ≡ minor))
              ⊎ ((c.minor_number ≡ l.minor_number) × (classify_update (some c) (some l) ≡ patch))))
unfolding classify_update
classify_update-Newer c l n = ground arith
