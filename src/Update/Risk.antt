-- ===== src/Update/Risk.antt =====
-- internal/commercial/updates/risk.go: CalculateScore and networkExposed, with RiskLevelFromScore of
-- internal/update/model.go. Labels are kept; the map of the factors is a record of its six entries,
-- of which the last is set by the floor of the enricher.
-- A restart count is not negative.
pub mod Enrich
pub mod Range
use maintenant.Base.{
  ℕ, ◌+◌, Bool, true, false, ◌||◌, Option, none, some, List, [], ◌∷◌, Str, lit, ltb, leb, ◌==◌,
  if◌then◌else◌, any,
}

pub data UpdateType : Type 0 where
  major minor patch digest_only unknown : UpdateType

pub data CveSeverity : Type 0 where
  critical high medium low unknown : CveSeverity

pub data RiskLevel : Type 0 where
  level_critical level_high level_moderate level_low : RiskLevel

-- The kinds of insight of internal/security that name a network exposure, and the rest.
pub data InsightType : Type 0 where
  port_exposed_all_interfaces database_port_exposed host_network_mode : InsightType
  service_load_balancer service_node_port privileged_container other : InsightType

pub record RiskFactor : Type 0 where
  pub label : Str
  pub score : ℕ

pub record RiskContext : Type 0 where
  pub publicly_exposed : Bool
  pub restart_count : ℕ

pub record RiskScore : Type 0 where
  pub score : ℕ
  pub level : RiskLevel
  pub update_type : RiskFactor
  pub cve_severity : RiskFactor
  pub public_exposure : RiskFactor
  pub stability : RiskFactor
  pub breaking_changes : RiskFactor
  pub baseline : Option RiskFactor

pub exposes : InsightType → Bool
exposes port_exposed_all_interfaces = true
exposes database_port_exposed = true
exposes host_network_mode = true
exposes service_load_balancer = true
exposes service_node_port = true
exposes privileged_container = false
exposes other = false

unfoldable pub network_exposed : Option (List InsightType) → Bool
unfolding exposes
network_exposed none = false
network_exposed (some insights) = any exposes insights

unfoldable pub risk_level_from_score : ℕ → RiskLevel
risk_level_from_score score =
    if leb 81 score
    then level_critical
    else (if leb 61 score then level_high else (if leb 31 score then level_moderate else level_low))

pub update_score : UpdateType → ℕ
update_score major = 20
update_score minor = 12
update_score patch = 6
update_score digest_only = 3
update_score unknown = 0

pub update_label : UpdateType → Str
update_label major = lit "major"
update_label minor = lit "minor"
update_label patch = lit "patch"
update_label digest_only = lit "digest_only"
update_label unknown = lit "unknown"

-- The step of the loop that keeps the greatest CVE score.
pub raise_cve : ℕ → CveSeverity → ℕ
raise_cve max_cve critical = if ltb max_cve 30 then 30 else max_cve
raise_cve max_cve high = if ltb max_cve 22 then 22 else max_cve
raise_cve max_cve medium = if ltb max_cve 12 then 12 else max_cve
raise_cve max_cve low = if ltb max_cve 5 then 5 else max_cve
raise_cve max_cve unknown = max_cve

pub max_cve_score : ℕ → List CveSeverity → ℕ
unfolding raise_cve
max_cve_score max_cve [] = max_cve
max_cve_score max_cve (c ∷ cves) = max_cve_score (raise_cve max_cve c) cves

-- riskSeverityLabel, whose loop returns on the first critical CVE.
pub severity_name : CveSeverity → Str
severity_name critical = lit "critical"
severity_name high = lit "high"
severity_name medium = lit "medium"
severity_name low = lit "low"
severity_name unknown = lit "unknown"

pub is_high : CveSeverity → Bool
is_high high = true
is_high _ = false

pub highest : CveSeverity → List CveSeverity → CveSeverity
unfolding is_high
highest best [] = best
highest best (critical ∷ cves) = critical
highest best (high ∷ cves) = highest high cves
highest best (medium ∷ cves) = highest (if is_high best then best else medium) cves
highest best (low ∷ cves) = highest best cves
highest best (unknown ∷ cves) = highest best cves

pub risk_severity_label : List CveSeverity → Str
unfolding severity_name highest
risk_severity_label [] = lit "none"
risk_severity_label (c ∷ cves) = severity_name (highest low (c ∷ cves))

pub risk_bool_label : Bool → Str
risk_bool_label true = lit "yes"
risk_bool_label false = lit "no"

pub risk_restart_label : ℕ → Str
risk_restart_label count =
    if count == 0
    then lit "stable"
    else (if leb count 2 then lit "minor_restarts" else lit "unstable")

pub stability_score : ℕ → ℕ
stability_score count =
    if ltb 5 count then 10 else (if ltb 2 count then 6 else (if ltb 0 count then 3 else 0))

unfoldable pub calculate_score : UpdateType → Bool → List CveSeverity → RiskContext → RiskScore
unfolding update_score update_label max_cve_score risk_severity_label risk_bool_label
    risk_restart_label stability_score risk_level_from_score
calculate_score type has_breaking_changes cves rctx =
    let cve_score = max_cve_score 0 cves in
    let exposure_score = if rctx.publicly_exposed then 10 else 0 in
    let breaking_score = if has_breaking_changes then 5 else 0 in
    let total =
      update_score type
      + cve_score
      + exposure_score
      + stability_score rctx.restart_count
      + breaking_score in
    record {
      score = total;
      level = risk_level_from_score total;
      update_type = record { label = update_label type; score = update_score type };
      cve_severity = record { label = risk_severity_label cves; score = cve_score };
      public_exposure = record {
        label = risk_bool_label rctx.publicly_exposed;
        score = exposure_score;
      };
      stability = record {
        label = risk_restart_label rctx.restart_count;
        score = stability_score rctx.restart_count;
      };
      breaking_changes = record {
        label = risk_bool_label has_breaking_changes;
        score = breaking_score;
      };
      baseline = none;
    }
