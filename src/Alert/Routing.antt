-- ===== src/Alert/Routing.antt =====
-- The filters of internal/alert/engine.go: matchesSilenceRule, matchesTrigger, severityRank.
use maintenant.Base.{
  ℕ, ◌++◌, ◌∷◌, Bool, true, false, not, ◌&&◌, Option, none, some, Str, str_eq, is_empty,
  if◌then◌else◌,
}
use maintenant.Alert.Model.{
  Event, Alert, AlertTrigger, SilenceRule, severity_info, severity_warning, severity_critical,
  status_resolved,
}
use maintenant.Alert.Csv.{contains_csv}

-- One more than the rank of the source, which starts at -1 for an unknown severity.
unfoldable pub severity_rank : Str → ℕ
severity_rank s =
    if str_eq s severity_info
    then 1
    else (if str_eq s severity_warning then 2 else (if str_eq s severity_critical then 3 else 0))

abbrev pub is_nil : {A : Type 0} → Option A → Bool
is_nil none = true
is_nil (some a) = false

-- `rule.EntityID != nil && *rule.EntityID != evt.EntityID`
pub entity_id_differs : Option Str → Str → Bool
entity_id_differs none id = false
entity_id_differs (some r) id = not (str_eq r id)

unfoldable pub matches_silence_rule : {D : Type 0} → SilenceRule → Event D → Bool
unfolding entity_id_differs
matches_silence_rule rule evt =
    if is_empty rule.entity_type && is_empty rule.source && is_nil rule.entity_id
    then true
    else (if not (is_empty rule.source) && not (str_eq rule.source evt.source)
        then false
        else (if not (is_empty rule.entity_type) && not (str_eq rule.entity_type evt.entity_type)
            then false
            else not (entity_id_differs rule.entity_id evt.entity_id)))

-- `fmt.Sprintf("%s:%s", a.EntityType, a.EntityID)`
unfoldable pub scope : Alert → Str
scope a = a.entity_type ++ 58 ∷ a.entity_id

unfoldable pub matches_trigger : AlertTrigger → Alert → Bool
matches_trigger t a =
    if str_eq a.status status_resolved && not t.notify_on_resolve
    then false
    else (if not (is_empty t.filter_severities) && not (contains_csv t.filter_severities a.severity)
        then false
        else (if not (is_empty t.filter_sources) && not (contains_csv t.filter_sources a.source)
            then false
            else (if not (is_empty t.filter_scopes) && not (contains_csv t.filter_scopes (scope a))
                then false
                else true)))
