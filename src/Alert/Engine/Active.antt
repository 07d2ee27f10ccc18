-- ===== src/Alert/Engine/Active.antt =====
-- What each handler of the engine does to the map of active alerts.
use maintenant.Base.{
  ◌≡◌, refl, ◌∙◌, inl, inr, Bool, true, false, Option, none, some, arith, Str, if◌then◌else◌,
  Bool-cases,
}
use maintenant.Base.Map.{Map, lookup, insert, erase, lookup-insert}
use maintenant.Alert.Model.{
  Event, Alert, ActiveAlertKey, Key_eq, key_eq_iff, key_eq, event_key, alert_key,
}
use maintenant.Alert.Routing.{is_nil}
use mathlib.Core.Option
use maintenant.Alert.Deps.{Deps, Engine, EventType}
use maintenant.Alert.Dispatch.Frame.{active-dispatch_notifications}
use maintenant.Alert.Engine.{
  emit, check_silence_rules, new_alert, announce, persisted, fire, raised, with_acknowledgment,
  announce_raise, escalate_alert, resolve_original, recover_from,
}

abbrev pub put : ActiveAlertKey → Option Alert → Map ActiveAlertKey Alert → Map ActiveAlertKey Alert
put k none m = m
put k (some a) m = insert k a m

module _ (d : Deps) where
  active-emit :
      (t : EventType) (a : Alert) (s : Engine d.Db) → (emit d t a s).active_alerts ≡ s.active_alerts
  unfolding emit
  active-emit t a s = ground arith

  active-announce :
      (s : Engine d.Db) (evt : Event d.Details) (a : Alert) (silenced : Bool)
      → (announce d s evt a silenced).active_alerts
        ≡ (if silenced then s.active_alerts else insert (event_key evt) a s.active_alerts)
  unfolding announce
  active-announce s evt a true = active-emit _ _ _
  active-announce s evt a false = active-dispatch_notifications d _ _ _ ∙ active-emit _ _ _

  active-announce_raise :
      (s : Engine d.Db) (old : Str) (a : Alert)
      → (announce_raise d s old a).active_alerts ≡ insert (alert_key a) a s.active_alerts
  unfolding announce_raise
  active-announce_raise s old a =
      active-dispatch_notifications d _ _ _ ∙ elim (Bool-cases (is_nil a.acknowledged_at)) [
        | inl e ↦ rw e (active-emit _ _ _)
        | inr e ↦ rw e (active-emit _ _ _)
      ]

  active-resolve_original :
      (s : Engine d.Db) (evt : Event d.Details) (a : Alert) (o : Option Str)
      → (resolve_original d s evt a o).active_alerts ≡ s.active_alerts
  unfolding resolve_original
  active-resolve_original s evt a none = refl
  active-resolve_original s evt a (some id) =
      active-dispatch_notifications d _ _ _ ∙ active-emit _ _ _

  pub active-recover_from :
      (s : Engine d.Db) (evt : Event d.Details) (a : Alert)
      → (recover_from d s evt (some a)).active_alerts ≡ erase (event_key evt) s.active_alerts
  unfolding recover_from
  active-recover_from s evt a = active-resolve_original _ evt a _

  active-persisted :
      (s : Engine d.Db) (evt : Event d.Details) (a : Alert) (silenced : Bool) (o : Option Str)
      → (persisted d s evt a silenced o).active_alerts
        ≡ put
            (event_key evt)
            (if silenced then none else Option.map (λ id. record a { id = id }) o)
            s.active_alerts
  unfolding persisted
  active-persisted s evt a true none = refl
  active-persisted s evt a false none = refl
  active-persisted s evt a true (some id) = active-announce s evt (record a { id = id }) true
  active-persisted s evt a false (some id) = active-announce s evt (record a { id = id }) false

  -- The alert that `fire` has persisted and tracks, if any.
  unfoldable pub fired : d.Db → Event d.Details → Option Alert
  fired db evt =
      if check_silence_rules d db evt
      then none
      else Option.map (λ id. record (new_alert d evt false) { id = id })
          (d.insert_alert db (new_alert d evt false)).1

  pub active-fire :
      (s : Engine d.Db) (evt : Event d.Details)
      → (fire d s evt).active_alerts ≡ put (event_key evt) (fired s.db evt) s.active_alerts
  unfolding fire fired
  active-fire s evt = elim (Bool-cases (check_silence_rules d s.db evt)) [
    | inl e ↦ rw e (active-persisted _ evt (new_alert d evt true) true _)
    | inr e ↦ rw e (
        active-persisted (record s { db = (d.insert_alert s.db (new_alert d evt false)).0 }) evt
          (new_alert d evt false) false (d.insert_alert s.db (new_alert d evt false)).1)
  ]

  pub key-with_acknowledgment :
      (a : Alert) (o : Option (Option Alert)) → alert_key (with_acknowledgment d a o) ≡ alert_key a
  unfolding with_acknowledgment
  key-with_acknowledgment a none = refl
  key-with_acknowledgment a (some none) = refl
  key-with_acknowledgment a (some (some b)) = refl

  active-raise :
      (s : Engine d.Db) (m : Map ActiveAlertKey Alert) (old : Str) (a b : Alert) (stored : Bool)
      (key k : ActiveAlertKey)
      → s.active_alerts ≡ insert key a m
      → alert_key b ≡ key
      → lookup k (if stored then announce_raise d s old b else s).active_alerts
        ≡ (if key_eq key k then some (if stored then b else a) else lookup k m)
  active-raise s m old a b true key k hs hb =
      rw (active-announce_raise s old b, hs, hb)
        (lookup-insert key k b (insert key a m)
          ∙ rw (lookup-insert key k a m) (ground (arith, key_eq_iff key k)))
  active-raise s m old a b false key k hs hb = rw hs (lookup-insert key k a m)

  -- The alert that the map holds after `escalate_alert`.
  unfoldable pub escalated : d.Db → Alert → Event d.Details → Alert
  escalated db existing evt =
      let a = raised d existing evt in
      let (db', stored) =
        d.update_alert_on_escalation db a.id a.severity a.message a.entity_name a.details in
      if stored then with_acknowledgment d a (d.get_alert db' a.id) else a

  pub active-escalate_alert :
      (s : Engine d.Db) (existing : Alert) (evt : Event d.Details) (k : ActiveAlertKey)
      → alert_key existing ≡ event_key evt
      → lookup k (escalate_alert d s existing evt).active_alerts ≡ (
          if key_eq (event_key evt) k
          then some (escalated s.db existing evt)
          else lookup k s.active_alerts)
  unfolding escalate_alert escalated
  active-escalate_alert s existing evt k h =
      active-raise _ s.active_alerts existing.severity (raised d existing evt) _ _ (event_key evt) k
        refl (key-with_acknowledgment (raised d existing evt) _ ∙ h)

  abbrev Keeps : Alert → Alert → Type 0
  Keeps a b =
      (alert_key b ≡ alert_key a)
      × (b.status ≡ a.status)
      × (b.id ≡ a.id)
      × (b.severity ≡ a.severity)

  with_acknowledgment-Keeps :
      (a : Alert) (o : Option (Option Alert)) → Keeps a (with_acknowledgment d a o)
  unfolding with_acknowledgment
  with_acknowledgment-Keeps a none = (refl, refl, refl, refl)
  with_acknowledgment-Keeps a (some none) = (refl, refl, refl, refl)
  with_acknowledgment-Keeps a (some (some b)) = (refl, refl, refl, refl)

  -- An escalation changes neither the id, the key nor the status, and sets the event's severity.
  pub escalated_keeps :
      (db : d.Db) (a : Alert) (evt : Event d.Details)
      → (alert_key (escalated db a evt) ≡ alert_key a)
        × ((escalated db a evt).status ≡ a.status)
        × ((escalated db a evt).id ≡ a.id)
        × ((escalated db a evt).severity ≡ evt.severity)
  unfolding escalated raised
  escalated_keeps db a evt = ground (
    arith,
    with_acknowledgment-Keeps (raised d a evt) (
        d.get_alert
          (d.update_alert_on_escalation db a.id evt.severity evt.message evt.entity_name
            (raised d a evt).details).0
          a.id),
  )
