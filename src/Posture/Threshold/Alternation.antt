-- ===== src/Posture/Threshold/Alternation.antt =====
-- Alerts and recoveries of the threshold.
use maintenant.Base.{
  ap, sym, subst, ◌∙◌, ◌⊎◌, inl, inr, Bool-cases, if_elim, leb, str_eq, ℕ, ◌≤◌, ◌<◌, ◌≡◌, refl,
  Bool, true, false, not, ◌&&◌, ◌||◌, List, [], ◌∷◌, arith, Str, ltb, ◌==◌, if◌then◌else◌, All,
}
use maintenant.Posture.{color_level}
use maintenant.Posture.Threshold.{
  distance, Told, posture_changed, posture_alert, Watch, event_of, was_below, alert_of,
  evaluate_threshold,
}

-- Whether the last alert call was one of a score below the threshold.
unfoldable pub is_alerting : List Told → Bool
is_alerting [] = false
is_alerting (posture_changed s p c ∷ told) = is_alerting told
is_alerting (posture_alert s p c below ∷ told) = below

-- Alerts and recoveries take turns, from an alert on.
unfoldable pub Alternates : List Told → Type 0
unfolding is_alerting
Alternates [] = Unit
Alternates (posture_changed s p c ∷ told) = Alternates told
Alternates (posture_alert s p c below ∷ told) = (is_alerting told ≡ not below) × Alternates told

-- The last call tells how the last score compares.
abbrev IsTold : Watch → Type 0
IsTold w =
    (1 ≤ w.threshold)
    × (is_alerting w.told ≡ was_below w.threshold w.last_infra_score)
    × Alternates w.told

event-Alternates :
    (score previous : ℕ) (color : Str) (told : List Told)
    → (is_alerting (event_of score previous color told) ≡ is_alerting told)
      × (Alternates told → Alternates (event_of score previous color told))
unfolding is_alerting Alternates event_of
event-Alternates score previous color told =
    if_elim
      (λ (l : List Told). (is_alerting l ≡ is_alerting told) × (Alternates told → Alternates l))
      (ltb 0 previous
        && (leb 5 (distance score previous) || not (str_eq (color_level previous) color)))
      (λ e. (refl, λ a. a)) (λ e. (refl, λ a. a))

alert-Alternates :
    (t score previous : ℕ) (color : Str) (told : List Told)
    → 1 ≤ score
    → is_alerting told ≡ was_below t previous
    → Alternates told
    → (is_alerting (alert_of t score previous color told) ≡ was_below t score)
      × Alternates (alert_of t score previous color told)
unfolding is_alerting Alternates
alert-Alternates t score previous color told pos same alt =
    let C = λ (l : List Told). (is_alerting l ≡ was_below t score) × Alternates l in
    if_elim C (ltb score t && not (was_below t previous))
      (λ e. (ground (arith, pos), (ground arith, alt)))
      (λ e.
        if_elim C (not (ltb score t) && was_below t previous)
          (λ e'. (ground (arith, pos), (ground arith, alt))) (λ e'. (ground (arith, pos), alt)))

IsTold-evaluate_threshold :
    (score : ℕ) (color : Str) (w : Watch)
    → 1 ≤ score
    → IsTold w
    → IsTold (evaluate_threshold score color w)
unfolding evaluate_threshold
IsTold-evaluate_threshold score color w pos (some_threshold, same, alt) =
    let before = event-Alternates score w.last_infra_score color w.told in
    let after =
      alert-Alternates w.threshold score w.last_infra_score color
        (event_of score w.last_infra_score color w.told) pos (before.0 ∙ same) (before.1 alt) in
    let C = λ (l : List Told). (is_alerting l ≡ was_below w.threshold score) × Alternates l in
    let calls : C (
        if w.threshold == 0
        then w.told
        else alert_of w.threshold score w.last_infra_score color
            (event_of score w.last_infra_score color w.told)) =
      if_elim C (w.threshold == 0) (λ e. ground arith) (λ e. after) in
    (some_threshold, calls.0, calls.1)

unfoldable pub evaluations : List (ℕ × Str) → Watch → Watch
unfolding evaluate_threshold
evaluations [] w = w
evaluations ((score, color) ∷ xs) w = evaluations xs (evaluate_threshold score color w)

IsTold-evaluations :
    (xs : List (ℕ × Str)) (w : Watch)
    → All (λ (x : ℕ × Str). 1 ≤ x.0) xs
    → IsTold w
    → IsTold (evaluations xs w)
unfolding evaluations
IsTold-evaluations [] w h told = told
IsTold-evaluations ((score, color) ∷ xs) w h told =
    IsTold-evaluations xs (evaluate_threshold score color w) h.1
      (IsTold-evaluate_threshold score color w h.0 told)

-- A scorer with a threshold that has told nothing.
abbrev pub new_watch : ℕ → Watch
new_watch threshold = record { threshold = threshold; last_infra_score = 0; told = [] }

threshold-evaluations :
    (xs : List (ℕ × Str)) (w : Watch) → (evaluations xs w).threshold ≡ w.threshold
unfolding evaluations evaluate_threshold
threshold-evaluations [] w = refl
threshold-evaluations ((score, color) ∷ xs) w =
    threshold-evaluations xs (evaluate_threshold score color w)

-- If no score is 0 and there is a threshold, then the alerts and the recoveries that the callback is told
-- take turns from an alert on, and the last of them is an alert exactly if there was a score and the last one
-- is below the threshold.
pub evaluations-Alternates :
    (threshold : ℕ) (xs : List (ℕ × Str))
    → 1 ≤ threshold
    → All (λ (x : ℕ × Str). 1 ≤ x.0) xs
    → Alternates (evaluations xs (new_watch threshold)).told
      × (is_alerting (evaluations xs (new_watch threshold)).told
          ≡ was_below threshold (evaluations xs (new_watch threshold)).last_infra_score)
evaluations-Alternates threshold xs pos h =
    let start : IsTold (new_watch threshold) =
      (pos, unfold is_alerting in ground arith, unfold Alternates in tt) in
    let (p, same, alt) = IsTold-evaluations xs (new_watch threshold) h start in
    (
      alt,
      same
          ∙ ap (λ (t : ℕ). was_below t (evaluations xs (new_watch threshold)).last_infra_score)
              (threshold-evaluations xs (new_watch threshold)),
    )

zero_quiet :
    (t previous : ℕ) (color : Str) (told : List Told)
    → 1 ≤ t
    → was_below t previous ≡ true
    → alert_of t 0 previous color told ≡ told
zero_quiet t previous color told pos below = ground (arith, pos, below)

-- A score of 0 leaves an open alert open, and is kept as the last score.
alerting_at_zero :
    (color : Str) (w : Watch)
    → IsTold w
    → is_alerting w.told ≡ true
    → is_alerting (evaluate_threshold 0 color w).told ≡ true
unfolding evaluate_threshold
alerting_at_zero color w (pos, same, alt) raised =
    let calls = event_of 0 w.last_infra_score color w.told in
    if_elim (λ (l : List Told). is_alerting l ≡ true) (w.threshold == 0) (λ _. raised)
      (λ _.
        ap is_alerting
          (zero_quiet w.threshold w.last_infra_score color calls pos (sym same ∙ raised))
        ∙ (event-Alternates 0 w.last_infra_score color w.told).0
        ∙ raised)

above_after_zero :
    (score : ℕ) (color : Str) (w : Watch)
    → 1 ≤ w.threshold
    → w.last_infra_score ≡ 0
    → w.threshold ≤ score
    → (evaluate_threshold score color w).told ≡ w.told
unfolding evaluate_threshold event_of
above_after_zero score color w pos zero_before above = ground arith

below_after_zero :
    (score : ℕ) (color : Str) (w : Watch)
    → 1 ≤ w.threshold
    → w.last_infra_score ≡ 0
    → score < w.threshold
    → (evaluate_threshold score color w).told ≡ posture_alert score 0 color true ∷ w.told
unfolding evaluate_threshold event_of
below_after_zero score color w pos zero_before below = ground arith

twice_alerted :
    (score : ℕ) (color : Str) (told : List Told)
    → is_alerting told ≡ true
    → ¬ Alternates (posture_alert score 0 color true ∷ told)
unfolding Alternates
twice_alerted score color told raised (first, rest) = cc

-- If an alert is open after scores of which none is 0, and then a score of 0 comes and after it any score,
-- then either that score is at the threshold or above, and the alert is still open, with no recovery told; or
-- it is below, and the callback is told of a second alert with no recovery between them.
pub zero_score_forgets :
    (threshold : ℕ) (xs : List (ℕ × Str)) (black color : Str) (score : ℕ)
    → 1 ≤ threshold
    → All (λ (x : ℕ × Str). 1 ≤ x.0) xs
    → is_alerting (evaluations xs (new_watch threshold)).told ≡ true
    → let told =
        (evaluate_threshold score color
          (evaluate_threshold 0 black (evaluations xs (new_watch threshold)))).told in
      ((threshold ≤ score) × (is_alerting told ≡ true)) ⊎ ((score < threshold) × ¬ Alternates told)
unfolding evaluate_threshold
zero_score_forgets threshold xs black color score pos h raised =
    let start : IsTold (new_watch threshold) =
      (pos, unfold is_alerting in ground arith, unfold Alternates in tt) in
    let w = evaluations xs (new_watch threshold) in
    let sound = IsTold-evaluations xs (new_watch threshold) h start in
    let same : w.threshold ≡ threshold = threshold-evaluations xs (new_watch threshold) in
    let zero = evaluate_threshold 0 black w in
    let still = alerting_at_zero black w sound raised in
    elim (Bool-cases (ltb score threshold)) [
      | inl below ↦
          let less : score < threshold = ground arith in
          inr (
            less,
            subst (λ (l : List Told). ¬ Alternates l)
                (sym (
                  below_after_zero score color zero sound.0 refl
                    (subst (λ (t : ℕ). score < t) (sym same) less)))
                (twice_alerted score color zero.told still),
          )
      | inr above ↦
          let more : threshold ≤ score = ground arith in
          inl (
            more,
            ap is_alerting (
                  above_after_zero score color zero sound.0 refl
                    (subst (λ (t : ℕ). t ≤ score) (sym same) more))
                ∙ still,
          )
    ]
