-- ===== src/Alert/Model.antt =====
-- internal/alert/model.go and the key type of internal/alert/engine.go. Instants are nanoseconds since
-- the epoch; the time zone of a `time.Time` is not modelled.
use maintenant.Base.{
  ℕ, ◌≡◌, ◌↔◌, Bool, true, ◌&&◌, Option, List, arith, Str, lit, str_eq, str_eq_iff, Eq,
}

abbrev pub status_active : Str
status_active = lit "active"

abbrev pub status_resolved : Str
status_resolved = lit "resolved"

abbrev pub status_silenced : Str
status_silenced = lit "silenced"

abbrev pub severity_critical : Str
severity_critical = lit "critical"

abbrev pub severity_warning : Str
severity_warning = lit "warning"

abbrev pub severity_info : Str
severity_info = lit "info"

-- `D` is the type of the `Details` maps.
pub record Event (D : Type 0) : Type 0 where
  pub source : Str
  pub alert_type : Str
  pub severity : Str
  pub is_recover : Bool
  pub message : Str
  pub entity_type : Str
  pub entity_id : Str
  pub entity_name : Str
  pub agent_id : Str
  pub details : Option D
  pub timestamp : ℕ

pub record Alert : Type 0 where
  pub id : Str
  pub source : Str
  pub alert_type : Str
  pub severity : Str
  pub status : Str
  pub message : Str
  pub entity_type : Str
  pub entity_id : Str
  pub entity_name : Str
  pub agent_id : Str
  pub details : Str
  pub resolved_by_id : Option Str
  pub fired_at : ℕ
  pub resolved_at : Option ℕ
  pub acknowledged_at : Option ℕ
  pub acknowledged_by : Str
  pub escalated_at : Option ℕ
  pub created_at : ℕ

pub record NotificationChannel : Type 0 where
  pub id : Str
  pub name : Str
  pub type : Str
  pub url : Str
  pub enabled : Bool

pub record AlertTrigger : Type 0 where
  pub id : Str
  pub filter_severities : Str
  pub filter_sources : Str
  pub filter_scopes : Str
  pub notify_on_resolve : Bool
  pub channel_ids : List Str

pub record SilenceRule : Type 0 where
  pub id : Str
  pub entity_type : Str
  pub entity_id : Option Str
  pub source : Str

-- What identifies an active alert for dedup and recovery.
pub record ActiveAlertKey : Type 0 where
  pub source : Str
  pub alert_type : Str
  pub entity_type : Str
  pub entity_id : Str

unfoldable pub key_eq : ActiveAlertKey → ActiveAlertKey → Bool
key_eq j k =
    str_eq j.source k.source
    && str_eq j.alert_type k.alert_type
    && str_eq j.entity_type k.entity_type
    && str_eq j.entity_id k.entity_id

pub key_eq_iff : (j k : ActiveAlertKey) → (key_eq j k ≡ true) ↔ (j ≡ k)
unfolding key_eq
key_eq_iff j k = ground (
  arith,
  str_eq_iff j.source k.source,
  str_eq_iff j.alert_type k.alert_type,
  str_eq_iff j.entity_type k.entity_type,
  str_eq_iff j.entity_id k.entity_id,
)

instance abbrev pub Key_eq : Eq ActiveAlertKey
Key_eq = record { beq = key_eq; beq_iff = key_eq_iff }

abbrev pub event_key : {D : Type 0} → Event D → ActiveAlertKey
event_key e = record {
  source = e.source;
  alert_type = e.alert_type;
  entity_type = e.entity_type;
  entity_id = e.entity_id;
}

abbrev pub alert_key : Alert → ActiveAlertKey
alert_key a = record {
  source = a.source;
  alert_type = a.alert_type;
  entity_type = a.entity_type;
  entity_id = a.entity_id;
}
