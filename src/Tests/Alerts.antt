-- ===== src/Tests/Alerts.antt =====
-- internal/alert/engine.go, on a store in memory.
use maintenant.Base.{
  ℕ, ◌+◌, ◌≡◌, ◌↔◌, refl, true, false, ◌&&◌, Option, none, some, List, [], ◌∷◌, arith, Str, lit,
  str_eq, str_eq_iff, length, any, if◌then◌else◌,
}
use maintenant.Base.Map.{lookup}
use maintenant.Alert.Model.{
  Event, Alert, NotificationChannel, AlertTrigger, SilenceRule, Key_eq, key_eq, key_eq_iff,
  event_key, status_active, severity_warning, severity_critical, severity_info,
}
use maintenant.Alert.Csv.{trim_end}
use maintenant.Alert.Csv.RoundTrip.{Padded, IsItem}
use maintenant.Alert.Routing.{severity_rank}
use maintenant.Alert.Deps.{Deps, Engine}
use maintenant.Alert.Dispatch.{dispatch_notifications}
use maintenant.Alert.Dispatch.Once.{
  StoresChannels, jobs, one, routed, is_enabled, jobs-dispatch_notifications,
}
use maintenant.Alert.Engine.{
  process_event, process_events, check_silence_rules, new_alert, note_collision,
}
use maintenant.Alert.Engine.Invariant.{IsTracked, process_events-IsTracked}
use maintenant.Alert.Engine.Severity.{peak, severity-process_events}
use maintenant.Alert.Engine.Branches.{jobs-fire}
use maintenant.Alert.Engine.Failures.{failed_escalation_lost, failed_recovery_lost}
use maintenant.Alert.Operations.{ok, acknowledge}
use maintenant.Alert.Operations.Laws.{acknowledge_iff}

record Memory : Type 0 where
  rows : List Alert
  deliveries : ℕ

abbrev find : Str → List Alert → Option Alert
find id [] = none
find id (a ∷ rest) = let found = find id rest in if str_eq a.id id then some a else found

abbrev hook : NotificationChannel
hook = record {
  id = lit "hook";
  name = lit "On call";
  type = lit "webhook";
  url = lit "https://example.org";
  enabled = true;
}

abbrev trigger : AlertTrigger
trigger = record {
  id = lit "t";
  filter_severities = lit "warning, critical";
  filter_sources = [];
  filter_scopes = [];
  notify_on_resolve = true;
  channel_ids = lit "hook" ∷ lit "hook" ∷ [];
}

abbrev channel : Str → Option (Option NotificationChannel)
channel id = if str_eq (lit "hook") id then some (some hook) else some none

abbrev memory : Deps
memory = record {
  Details = Str;
  marshal = some;
  Db = Memory;
  insert_alert = λ m a. (
    record m { rows = record a { id = length m.rows ∷ [] } ∷ m.rows },
    some (length m.rows ∷ []),
  );
  update_alert_status = λ m id status at by. (m, true);
  update_alert_on_escalation = λ m id severity message name details. (m, true);
  get_alert = λ m id. some (find id m.rows);
  acknowledge_alert = λ m id by at. (m, some true);
  list_active_alerts = λ m. some m.rows;
  get_active_silence_rules = λ m. some [];
  is_suppressed = λ m source type id. some false;
  list_enabled_triggers = λ m. trigger ∷ [];
  get_channel = λ m id. channel id;
  insert_delivery =
      λ m alert id. (record m { deliveries = m.deliveries + 1 }, some (m.deliveries ∷ []));
  has_notifier = true;
  has_broadcaster = true;
}

-- Stores that refuse every alert and every escalation.
abbrev refusing : Deps
refusing = record memory {
  insert_alert = λ m a. (m, none);
  update_alert_on_escalation = λ m id severity message name details. (m, false);
}

abbrev everything : SilenceRule
everything = record { id = lit "s"; entity_type = []; entity_id = none; source = [] }

abbrev muted : Deps
muted = record memory { get_active_silence_rules = λ m. some (everything ∷ []) }

memory-StoresChannels : StoresChannels memory
memory-StoresChannels = record {
  unchanged = λ m alert id other. refl;
  own_id = λ m id ch h. ground (arith, str_eq_iff (lit "hook") id);
  written = λ m alert id. (m.deliveries ∷ [], refl);
}

abbrev high_cpu : Event Str
high_cpu = record {
  source = lit "resource";
  alert_type = lit "cpu";
  severity = severity_warning;
  is_recover = false;
  message = lit "CPU over 80%";
  entity_type = lit "container";
  entity_id = lit "c1";
  entity_name = lit "web";
  agent_id = [];
  details = none;
  timestamp = 5;
}

abbrev full_cpu : Event Str
full_cpu = record high_cpu { severity = severity_critical }

abbrev calm_cpu : Event Str
calm_cpu = record high_cpu { severity = severity_info; is_recover = true }

abbrev start : Engine Memory
start = record { db = record { rows = []; deliveries = 0 }; active_alerts = []; out = [] }

-- The alert of `high_cpu`, and the engine that holds it.
abbrev first : Alert
first = record (new_alert memory high_cpu false) { id = 0 ∷ [] }

abbrev watched : Engine Memory
watched = record {
  db = record { rows = first ∷ []; deliveries = 0 };
  active_alerts = (event_key high_cpu, first) ∷ [];
  out = [];
}

start-IsTracked : IsTracked start.active_alerts
unfolding lookup
start-IsTracked k a h = cc

watched-IsTracked : IsTracked watched.active_alerts
unfolding lookup new_alert
watched-IsTracked k a h = ground (arith, key_eq_iff (event_key high_cpu) k)

watched_here : lookup (event_key high_cpu) watched.active_alerts ≡ some first
unfolding lookup key_eq str_eq
watched_here = refl

process_events-IsTracked_example :
    IsTracked (process_events memory start (high_cpu ∷ full_cpu ∷ calm_cpu ∷ [])).active_alerts
process_events-IsTracked_example =
    process_events-IsTracked memory start (high_cpu ∷ full_cpu ∷ calm_cpu ∷ []) start-IsTracked

jobs-dispatch_notifications_example :
    jobs (lit "hook") (dispatch_notifications memory start first first).out
    ≡ jobs (lit "hook") start.out
      + one (
          true
          && any (λ other. str_eq other (lit "hook")) (routed first (trigger ∷ []))
          && is_enabled (channel (lit "hook")))
jobs-dispatch_notifications_example =
    jobs-dispatch_notifications memory memory-StoresChannels start first first (lit "hook")

severity-process_events_example :
    (b : Alert) × (lookup
        (event_key high_cpu)
        (process_events memory watched (high_cpu ∷ full_cpu ∷ high_cpu ∷ [])).active_alerts
      ≡ some b)
    × (b.id ≡ first.id)
    × (severity_rank b.severity
        ≡ peak memory
            (event_key high_cpu)
            (severity_rank first.severity)
            (high_cpu ∷ full_cpu ∷ high_cpu ∷ []))
severity-process_events_example =
    severity-process_events memory (high_cpu ∷ full_cpu ∷ high_cpu ∷ []) watched
      (event_key high_cpu) first watched-IsTracked (λ r. cc, (λ r. cc, (λ r. cc, tt))) watched_here

jobs-fire_example :
    jobs (lit "hook") (process_event memory start high_cpu).out
    ≡ jobs (lit "hook") start.out
      + one (
          true
          && any (λ other. str_eq other (lit "hook")) (routed first (trigger ∷ []))
          && is_enabled (channel (lit "hook")))
unfolding lookup check_silence_rules any
jobs-fire_example =
    jobs-fire memory start high_cpu (0 ∷ []) (lit "hook") memory-StoresChannels refl refl refl refl

failed_escalation_lost_example :
    ((process_event refusing watched full_cpu).out
      ≡ (note_collision refusing watched first full_cpu).out)
    × (process_event refusing (process_event refusing watched full_cpu) full_cpu
        ≡ process_event refusing watched full_cpu)
unfolding severity_rank new_alert str_eq
failed_escalation_lost_example =
    failed_escalation_lost refusing watched full_cpu first refl watched_here (omega arith) refl

failed_recovery_lost_example :
    ((process_event refusing watched calm_cpu).db ≡ watched.db)
    × ((process_event refusing watched calm_cpu).out ≡ [])
    × (process_event refusing (process_event refusing watched calm_cpu) calm_cpu
        ≡ process_event refusing watched calm_cpu)
failed_recovery_lost_example =
    failed_recovery_lost refusing watched calm_cpu first refl watched_here refl

abbrev seen_first : Alert
seen_first = record first { acknowledged_at = some 8; acknowledged_by = lit "ann" }

acknowledge_iff_example :
    ((acknowledge memory watched (0 ∷ []) (lit "ann") 8).1 ≡ ok seen_first) ↔ (
      (a : Alert) × (some (find (0 ∷ []) (first ∷ [])) ≡ some (some a))
      × (a.status ≡ status_active)
      × (a.acknowledged_at ≡ none)
      × (some true ≡ some true)
      × (seen_first ≡ record a { acknowledged_at = some 8; acknowledged_by = lit "ann" }))
acknowledge_iff_example = acknowledge_iff memory watched (0 ∷ []) (lit "ann") 8 seen_first

abbrev warning_item : Padded
warning_item = record { before = 0; item = lit "warning"; after = 1 }

abbrev critical_item : Padded
critical_item = record { before = 2; item = lit "critical"; after = 0 }

warning-IsItem : IsItem (lit "warning")
unfolding trim_end
warning-IsItem = record { start = omega arith; ends = refl; no_comma = ground arith }

critical-IsItem : IsItem (lit "critical")
unfolding trim_end
critical-IsItem = record { start = omega arith; ends = refl; no_comma = ground arith }
