-- ===== src/Tests/Postures.antt =====
-- internal/commercial/posture/scorer.go on a container with two categories and on a few scores.
use maintenant.Base.{
  ltb, ◌⊎◌, ℕ, ◌+◌, ◌*◌, ◌/◌, ◌≤◌, ◌<◌, ◌≡◌, refl, true, some, List, [], ◌∷◌, arith, Str, lit,
}
use maintenant.Posture.{Floats, Category}
use maintenant.Posture.Sum.{applicable, total_score, total_score-applicable}
use maintenant.Posture.Threshold.{was_below, evaluate_threshold}
use maintenant.Posture.Threshold.Alternation.{
  is_alerting, Alternates, evaluations, new_watch, evaluations-Alternates, zero_score_forgets,
}

-- Fixed-point numbers with six digits.
abbrev fixed : Floats ℕ
fixed = record {
  of_int = λ n. n * 1_000_000;
  times = λ a b. a * b / 1_000_000;
  over = λ a b. a * 1_000_000 / b;
  round = λ a. (a + 500_000) / 1_000_000;
}

abbrev category : ℕ → ℕ → Category
category weight sub_score = record {
  name = lit "tls";
  weight = weight;
  sub_score = sub_score;
  applicable = ltb 0 sub_score;
  issue_count = 0;
  summary = [];
}

-- The second does not apply.
abbrev three : List Category
three = category 20 50 ∷ category 30 0 ∷ category 15 100 ∷ []

three_total : total_score fixed three ≡ some 72
unfolding total_score
three_total = refl

total_score-applicable_example : total_score fixed (applicable three) ≡ total_score fixed three
total_score-applicable_example = total_score-applicable fixed three

abbrev falls : List (ℕ × Str)
falls = (90, lit "green") ∷ (50, lit "orange") ∷ (95, lit "green") ∷ []

abbrev sinking : List (ℕ × Str)
sinking = (90, lit "green") ∷ (50, lit "orange") ∷ []

evaluations-Alternates_example :
    Alternates (evaluations falls (new_watch 80)).told
    × (is_alerting (evaluations falls (new_watch 80)).told
        ≡ was_below 80 (evaluations falls (new_watch 80)).last_infra_score)
evaluations-Alternates_example =
    evaluations-Alternates 80 falls (omega arith) (omega arith, (omega arith, (omega arith, tt)))

-- Alerting at 50, then 0, then back at 90.
zero_score_forgets_example :
    let told =
      (evaluate_threshold 90
        (lit "green")
        (evaluate_threshold 0 (lit "red") (evaluations sinking (new_watch 80)))).told in
    ((80 ≤ 90) × (is_alerting told ≡ true)) ⊎ ((90 < 80) × ¬ Alternates told)
zero_score_forgets_example =
    zero_score_forgets 80 sinking (lit "red") (lit "green") 90 (omega arith)
      (omega arith, (omega arith, tt))
      (unfold evaluations in unfold evaluate_threshold in unfold is_alerting in refl)
