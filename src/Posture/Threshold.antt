-- ===== src/Posture/Threshold.antt =====
-- evaluateThreshold of internal/commercial/posture/scorer.go. Scores are naturals, since they are set to lie
-- between 0 and 100; a threshold of 0 is none. Both callbacks are set.
pub mod Alternation
use maintenant.Base.{
  ℕ, ◌+◌, ◌-◌, Bool, true, false, not, ◌&&◌, ◌||◌, Option, none, some, List, [], ◌∷◌, ◌++◌, Str,
  str_eq, ltb, leb, ◌==◌, if◌then◌else◌,
}
use maintenant.Posture.{color_level}

-- A call of onPostureEvent, and one of onPostureAlert with whether the score is below the threshold.
pub data Told : Type 0 where
  posture_changed : ℕ → ℕ → Str → Told
  posture_alert : ℕ → ℕ → Str → Bool → Told

-- `told` has the newest call first.
pub record Watch : Type 0 where
  pub threshold : ℕ
  pub last_infra_score : ℕ
  pub told : List Told

abbrev pub distance : ℕ → ℕ → ℕ
distance a b = if ltb a b then b - a else a - b

abbrev pub event_of : ℕ → ℕ → Str → List Told → List Told
unfolding str_eq
event_of score previous color told =
    if ltb 0 previous
      && (leb 5 (distance score previous) || not (str_eq (color_level previous) color))
    then posture_changed score previous color ∷ told
    else told

abbrev pub was_below : ℕ → ℕ → Bool
was_below threshold previous = ltb 0 previous && ltb previous threshold

abbrev pub alert_of : ℕ → ℕ → ℕ → Str → List Told → List Told
alert_of threshold score previous color told =
    if ltb score threshold && not (was_below threshold previous)
    then posture_alert score previous color true ∷ told
    else if not (ltb score threshold) && was_below threshold previous
    then posture_alert score previous color false ∷ told
    else told

unfoldable pub evaluate_threshold : ℕ → Str → Watch → Watch
unfolding event_of
evaluate_threshold score color w =
    let calls =
      alert_of w.threshold score w.last_infra_score color
        (event_of score w.last_infra_score color w.told) in
    record w { last_infra_score = score; told = if w.threshold == 0 then w.told else calls }
