-- ===== src/Alert/Engine.antt =====
-- The handlers of internal/alert/engine.go: processEvent, escalateAlert, processRecovery. Each runs to its end before the next: the engine's goroutine
-- takes one event after another. An alert that the map points to and that is changed in place is
-- changed in the map.
pub mod Active
pub mod Invariant
pub mod Severity
pub mod Branches
pub mod Failures
use maintenant.Base.{
  ℕ, ◌++◌, Bool, true, false, not, ◌&&◌, Option, none, some, List, [], ◌∷◌, Str, lit, str_eq, any,
  ltb, leb, ◌==◌, ◌||◌, if◌then◌else◌,
}
use maintenant.Base.Map.{lookup, insert, erase}
use maintenant.Alert.Model.{
  Event, Alert, SilenceRule, ActiveAlertKey, Key_eq, event_key, alert_key, status_active,
  status_resolved, status_silenced,
}
use maintenant.Alert.Routing.{severity_rank, matches_silence_rule, is_nil}
use maintenant.Alert.Deps.{
  Deps, Engine, EventType, alert_fired, alert_silenced, alert_resolved, alert_acknowledged, Effect,
  broadcast, on_alert_created, on_alert_acknowledged, on_alert_resolved, key_collision, perform,
}
use maintenant.Alert.Dispatch.{dispatch_notifications}

-- uid.LocalAgent
abbrev pub local_agent : Str
local_agent = lit "00000000-0000-0000-0000-000000000000"

pub is_blank : Str → Bool
is_blank [] = true
is_blank (c ∷ s) = (c == 32 || leb 9 c && leb c 13) && is_blank s

-- uid.Agent: a blank agent id stands for the local agent. Blank is read over ASCII.
unfoldable pub agent : Str → Str
unfolding is_blank
agent id = if is_blank id then local_agent else id

module _ (d : Deps) where
  pub marshalled : Option Str → Str
  marshalled none = lit "{}"
  marshalled (some json) = json

  pub details_json : Option d.Details → Str
  unfolding marshalled
  details_json none = lit "{}"
  details_json (some details) = marshalled (d.marshal details)

  unfoldable pub emit : EventType → Alert → Engine d.Db → Engine d.Db
  emit type a s = if d.has_broadcaster then perform (broadcast type a) s else s

  pub consult_suppressor : Option Bool → Bool
  consult_suppressor none = false
  consult_suppressor (some suppressed) = suppressed

  pub silenced_by : d.Db → Event d.Details → Option (List SilenceRule) → Bool
  unfolding consult_suppressor
  silenced_by db evt none = false
  silenced_by db evt (some rules) =
      if any (λ rule. matches_silence_rule rule evt) rules
      then true
      else consult_suppressor (d.is_suppressed db evt.source evt.entity_type evt.entity_id)

  unfoldable pub check_silence_rules : d.Db → Event d.Details → Bool
  unfolding silenced_by
  check_silence_rules db evt = silenced_by db evt (d.get_active_silence_rules db)

  -- The record that processEvent persists; the store gives the id.
  unfoldable pub new_alert : Event d.Details → Bool → Alert
  unfolding details_json agent
  new_alert evt silenced = record {
    id = [];
    source = evt.source;
    alert_type = evt.alert_type;
    severity = evt.severity;
    status = if silenced then status_silenced else status_active;
    message = evt.message;
    entity_type = evt.entity_type;
    entity_id = evt.entity_id;
    entity_name = evt.entity_name;
    agent_id = agent evt.agent_id;
    details = details_json evt.details;
    resolved_by_id = none;
    fired_at = evt.timestamp;
    resolved_at = none;
    acknowledged_at = none;
    acknowledged_by = [];
    escalated_at = none;
    created_at = 0;
  }

  -- The end of processEvent, once the alert is persisted.
  pub announce : Engine d.Db → Event d.Details → Alert → Bool → Engine d.Db
  unfolding emit
  announce s evt a true = emit alert_silenced a s
  announce s evt a false =
      let tracked = record s { active_alerts = insert (event_key evt) a s.active_alerts } in
      let live = perform (on_alert_created a) (emit alert_fired a tracked) in
      dispatch_notifications d live a a

  pub persisted : Engine d.Db → Event d.Details → Alert → Bool → Option Str → Engine d.Db
  unfolding announce
  persisted s evt a silenced none = s
  persisted s evt a silenced (some id) = announce s evt (record a { id = id }) silenced

  unfoldable pub fire : Engine d.Db → Event d.Details → Engine d.Db
  unfolding persisted
  fire s evt =
      let silenced = check_silence_rules s.db evt in
      let a = new_alert evt silenced in
      let (db', id) = d.insert_alert s.db a in persisted (record s { db = db' }) evt a silenced id

  -- `existing` with the fields of the escalating event.
  unfoldable pub raised : Alert → Event d.Details → Alert
  unfolding details_json
  raised existing evt = record existing {
    severity = evt.severity;
    message = evt.message;
    entity_name = evt.entity_name;
    details = details_json evt.details;
  }

  -- What the stored record knows of an acknowledgment.
  pub with_acknowledgment : Alert → Option (Option Alert) → Alert
  with_acknowledgment a none = a
  with_acknowledgment a (some none) = a
  with_acknowledgment a (some (some stored)) = record a {
    acknowledged_at = stored.acknowledged_at;
    acknowledged_by = stored.acknowledged_by;
  }

  pub raised_message : Str → Alert → Str
  raised_message old a =
      lit "Severity raised from " ++ old ++ lit " to " ++ a.severity ++ lit ": " ++ a.message

  -- The end of escalateAlert, once the store has the new severity.
  pub announce_raise : Engine d.Db → Str → Alert → Engine d.Db
  unfolding emit raised_message
  announce_raise s old a =
      let tracked = record s { active_alerts = insert (alert_key a) a s.active_alerts } in
      let shown = emit alert_fired a tracked in
      let live = if is_nil a.acknowledged_at then perform (on_alert_created a) shown else shown in
      dispatch_notifications d live a (record a { message = raised_message old a })

  unfoldable pub escalate_alert : Engine d.Db → Alert → Event d.Details → Engine d.Db
  unfolding with_acknowledgment announce_raise raised
  escalate_alert s existing evt =
      let a = raised existing evt in
      let mutated = insert (event_key evt) a s.active_alerts in
      let (db', stored) =
        d.update_alert_on_escalation s.db a.id a.severity a.message a.entity_name a.details in
      let s' = record s { db = db'; active_alerts = mutated } in
      let acknowledged = with_acknowledgment a (d.get_alert db' a.id) in
      if stored then announce_raise s' existing.severity acknowledged else s'

  -- The guard that reports a key claimed by two entities.
  pub note_collision : Engine d.Db → Alert → Event d.Details → Engine d.Db
  note_collision s existing evt =
      if str_eq evt.entity_name existing.entity_name
      then s
      else perform (key_collision (event_key evt) existing.entity_name evt.entity_name) s

  pub process_firing : Engine d.Db → Event d.Details → Option Alert → Engine d.Db
  process_firing s evt none = fire s evt
  process_firing s evt (some existing) =
      let noted = note_collision s existing evt in
      if ltb (severity_rank existing.severity) (severity_rank evt.severity)
      then escalate_alert noted existing evt
      else noted

  pub recovery_alert : Event d.Details → Alert → Alert
  unfolding details_json
  recovery_alert evt original = record {
    id = [];
    source = evt.source;
    alert_type = evt.alert_type;
    severity = evt.severity;
    status = status_resolved;
    message = evt.message;
    entity_type = evt.entity_type;
    entity_id = evt.entity_id;
    entity_name = evt.entity_name;
    agent_id = original.agent_id;
    details = details_json evt.details;
    resolved_by_id = none;
    fired_at = evt.timestamp;
    resolved_at = none;
    acknowledged_at = none;
    acknowledged_by = [];
    escalated_at = none;
    created_at = 0;
  }

  -- The end of processRecovery, once the recovery is persisted. A failed update of the original is
  -- only logged.
  pub resolve_original : Engine d.Db → Event d.Details → Alert → Option Str → Engine d.Db
  unfolding emit
  resolve_original s evt original none = s
  resolve_original s evt original (some recovery_id) =
      let (db', _) =
        d.update_alert_status s.db original.id status_resolved (some evt.timestamp)
          (some recovery_id) in
      let hooked = perform (on_alert_resolved original.id evt.timestamp) (record s { db = db' }) in
      let resolved = record original {
        status = status_resolved;
        resolved_at = some evt.timestamp;
        resolved_by_id = some recovery_id;
      } in
      dispatch_notifications d (emit alert_resolved resolved hooked) resolved
        (record resolved { message = evt.message; severity = evt.severity })

  pub recover_from : Engine d.Db → Event d.Details → Option Alert → Engine d.Db
  unfolding recovery_alert resolve_original
  recover_from s evt none = s
  recover_from s evt (some original) =
      let (db', recovery_id) = d.insert_alert s.db (recovery_alert evt original) in
      resolve_original
        (record s { db = db'; active_alerts = erase (event_key evt) s.active_alerts }) evt original
        recovery_id

  unfoldable pub process_recovery : Engine d.Db → Event d.Details → Engine d.Db
  unfolding recover_from
  process_recovery s evt = recover_from s evt (lookup (event_key evt) s.active_alerts)

  unfoldable pub process_event : Engine d.Db → Event d.Details → Engine d.Db
  unfolding process_recovery process_firing
  process_event s evt =
      if evt.is_recover
      then process_recovery s evt
      else process_firing s evt (lookup (event_key evt) s.active_alerts)

  -- The loop of the engine's goroutine over the events of the channel.
  unfoldable pub process_events : Engine d.Db → List (Event d.Details) → Engine d.Db
  process_events s [] = s
  process_events s (evt ∷ evts) = process_events (process_event s evt) evts
