-- ===== src/Update/Risk/Enrich.antt =====
-- enrichRisk of internal/commercial/updates/enricher.go, with BaseRiskScore of internal/update/model.go, on
-- one container. The factors are recorded as they are, not as JSON.
use maintenant.Base.{ℕ, Bool, Option, none, some, List, ◌∷◌, lit, ltb, ◌++◌, if◌then◌else◌}
use maintenant.Update.Risk.{
  UpdateType, major, minor, patch, digest_only, unknown, CveSeverity, RiskContext, RiskScore,
  update_label, risk_level_from_score, calculate_score,
}

pub data RiskCall : Type 0 where
  get_image_update update_image_update insert_risk_score_record : RiskCall

-- `context` is what the risk scorer reads of the container.
pub record RiskEnv : Type 0 where
  pub has_risk : Bool
  pub context : RiskContext
  pub fails : RiskCall → Bool

pub record ImageUpdate : Type 0 where
  pub update_type : UpdateType
  pub has_breaking_changes : Bool
  pub risk_score : ℕ

-- The row of the update, and the history of scores with the newest first.
pub record RiskWorld : Type 0 where
  pub update : Option ImageUpdate
  pub history : List RiskScore

unfoldable pub base_risk_score : UpdateType → ℕ
base_risk_score major = 85
base_risk_score minor = 50
base_risk_score patch = 15
base_risk_score digest_only = 5
base_risk_score unknown = 0

unfoldable pub floored : UpdateType → RiskScore → RiskScore
unfolding base_risk_score update_label risk_level_from_score
floored type s =
    if ltb s.score (base_risk_score type)
    then record s {
      score = base_risk_score type;
      level = risk_level_from_score (base_risk_score type);
      baseline =
          some (record { label = update_label type ++ lit "_floor"; score = base_risk_score type });
    }
    else s

unfoldable pub scored : RiskEnv → List CveSeverity → ImageUpdate → RiskScore
unfolding floored calculate_score
scored env cves u =
    floored u.update_type (calculate_score u.update_type u.has_breaking_changes cves env.context)

unfoldable pub enrich_known :
    RiskEnv → List CveSeverity → Option ImageUpdate → RiskWorld → RiskWorld
unfolding scored
enrich_known env cves none w = w
enrich_known env cves (some u) w = record {
  update =
      if env.fails update_image_update
      then w.update
      else some (record u { risk_score = (scored env cves u).score });
  history = if env.fails insert_risk_score_record then w.history else scored env cves u ∷ w.history;
}

unfoldable pub enrich_risk : RiskEnv → List CveSeverity → RiskWorld → RiskWorld
unfolding enrich_known
enrich_risk env cves w =
    if env.has_risk
    then (if env.fails get_image_update then w else enrich_known env cves w.update w)
    else w
