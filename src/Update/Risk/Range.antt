-- ===== src/Update/Risk/Range.antt =====
-- The range of the risk score that the enricher stores.
use maintenant.Base.{ℕ, ◌≤◌, ◌≡◌, ◌≢◌, ltb, if◌then◌else◌}
use maintenant.Update.Risk.{UpdateType, major, level_critical, risk_level_from_score}

abbrev pub greater : ℕ → ℕ → ℕ
greater a b = if ltb a b then b else a

-- The two kinds of score: of a major update, and of another.
abbrev pub IsMajorScore : UpdateType → ℕ → Type 0
IsMajorScore type n = (type ≡ major) × (n ≡ 85) × (risk_level_from_score n ≡ level_critical)

abbrev pub IsMinorScore : UpdateType → ℕ → Type 0
IsMinorScore type n = (type ≢ major) × (n ≤ 75) × (risk_level_from_score n ≢ level_critical)
