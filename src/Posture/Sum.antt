-- ===== src/Posture/Sum.antt =====
-- The weighted score of computeContainerScore in internal/commercial/posture/scorer.go.
use maintenant.Base.{
  ℕ, suc, ◌+◌, ◌≡◌, refl, ap, inl, inr, Option, none, some, List, [], ◌∷◌, ltb, if◌then◌else◌,
  count, keep, Bool-cases,
}
use maintenant.Posture.{Floats, Category}

unfoldable pub total_weight : List Category → ℕ
total_weight [] = 0
total_weight (c ∷ cs) = let rest = total_weight cs in if c.applicable then c.weight + rest else rest

unfoldable pub applicable_count : List Category → ℕ
unfolding count
applicable_count cs = count (λ c. c.applicable) cs

-- The weight of a category as a part of 100.
abbrev pub adjusted_weight : {F : Type 0} → Floats F → ℕ → Category → F
adjusted_weight fl total c =
    fl.times (fl.over (fl.of_int c.weight) (fl.of_int total)) (fl.of_int 100)

abbrev pub share : {F : Type 0} → Floats F → ℕ → Category → ℕ
share fl total c =
    fl.round
      (fl.over (fl.times (fl.of_int c.sub_score) (adjusted_weight fl total c)) (fl.of_int 100))

-- The sum of the shares, where `total` is the weight of the applicable categories.
unfoldable pub weighted_sum : {F : Type 0} → Floats F → ℕ → List Category → ℕ
weighted_sum fl total [] = 0
weighted_sum fl total (c ∷ cs) =
    let rest = weighted_sum fl total cs in if c.applicable then share fl total c + rest else rest

abbrev pub at_most_100 : ℕ → ℕ
at_most_100 n = if ltb 100 n then 100 else n

-- No score where no category applies.
unfoldable pub total_score : {F : Type 0} → Floats F → List Category → Option ℕ
unfolding total_weight applicable_count weighted_sum
total_score fl cs =
    if ltb 0 (applicable_count cs)
    then some (at_most_100 (weighted_sum fl (total_weight cs) cs))
    else none

abbrev pub applicable : List Category → List Category
applicable cs = keep (λ c. c.applicable) cs

total_weight-applicable : (cs : List Category) → total_weight (applicable cs) ≡ total_weight cs
unfolding total_weight keep
total_weight-applicable [] = refl
total_weight-applicable (c ∷ cs) = elim (Bool-cases c.applicable) [
  | inl e ↦ simp (e) (ap (λ (n : ℕ). c.weight + n) (total_weight-applicable cs))
  | inr e ↦ rw e (total_weight-applicable cs)
]

applicable_count-applicable :
    (cs : List Category) → applicable_count (applicable cs) ≡ applicable_count cs
unfolding applicable_count count keep
applicable_count-applicable [] = refl
applicable_count-applicable (c ∷ cs) = elim (Bool-cases c.applicable) [
  | inl e ↦ simp (e) (ap suc (applicable_count-applicable cs))
  | inr e ↦ rw e (applicable_count-applicable cs)
]

weighted_sum-applicable :
    {F : Type 0} (fl : Floats F) (t : ℕ) (cs : List Category)
    → weighted_sum fl t (applicable cs) ≡ weighted_sum fl t cs
unfolding weighted_sum keep
weighted_sum-applicable fl t [] = refl
weighted_sum-applicable fl t (c ∷ cs) = elim (Bool-cases c.applicable) [
  | inl e ↦ simp (e) (ap (λ (n : ℕ). share fl t c + n) (weighted_sum-applicable fl t cs))
  | inr e ↦ rw e (weighted_sum-applicable fl t cs)
]

-- Whatever the operations of floating-point numbers return, the total is that of the categories that apply
-- alone: the weight, the sub-score and the place of another category do not change it.
pub total_score-applicable :
    {F : Type 0} (fl : Floats F) (cs : List Category)
    → total_score fl (applicable cs) ≡ total_score fl cs
unfolding total_score
total_score-applicable fl cs =
    rw (applicable_count-applicable cs, total_weight-applicable cs)
      (ap (λ (n : ℕ). if ltb 0 (applicable_count cs) then some (at_most_100 n) else none)
        (weighted_sum-applicable fl (total_weight cs) cs))
