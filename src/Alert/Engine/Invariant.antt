-- ===== src/Alert/Engine/Invariant.antt =====
-- The map of active alerts through processEvent: its entries, key by key, and what always holds of them.
use maintenant.Base.{
  ◌≡◌, refl, sym, ap, ◌∙◌, inl, inr, Option, none, some, List, [], ◌∷◌, arith, if◌then◌else◌, ltb,
  Bool-cases,
}
use maintenant.Base.Map.{Map, lookup, lookup-insert, lookup-erase}
use maintenant.Alert.Model.{
  Event, Alert, ActiveAlertKey, Key_eq, key_eq_iff, key_eq, event_key, alert_key, status_active,
}
use maintenant.Alert.Routing.{severity_rank}
use maintenant.Alert.Deps.{Deps, Engine}
use maintenant.Alert.Engine.{
  new_alert, note_collision, process_firing, recover_from, process_event, process_events,
}
use maintenant.Alert.Engine.Active.{
  put, fired, active-fire, active-recover_from, escalated, active-escalate_alert, escalated_keeps,
}

-- Each entry is an active alert that carries the key under which it stands.
abbrev pub IsTracked : Map ActiveAlertKey Alert → Type 0
IsTracked m =
    (k : ActiveAlertKey) (a : Alert)
    → lookup k m ≡ some a
    → (alert_key a ≡ k) × (a.status ≡ status_active)

module _ (d : Deps) where
  -- What the map holds for the key of a firing event afterwards.
  unfoldable pub next_firing : d.Db → Event d.Details → Option Alert → Option Alert
  unfolding fired escalated
  next_firing db evt none = fired d db evt
  next_firing db evt (some a) =
      if ltb (severity_rank a.severity) (severity_rank evt.severity)
      then some (escalated d db a evt)
      else some a

  unfoldable pub next : d.Db → Event d.Details → Option Alert → Option Alert
  unfolding next_firing
  next db evt existing = if evt.is_recover then none else next_firing db evt existing

  lookup-put :
      (k j : ActiveAlertKey) (o : Option Alert) (m : Map ActiveAlertKey Alert)
      → lookup k m ≡ none
      → lookup j (put k o m) ≡ (if key_eq k j then o else lookup j m)
  lookup-put k j none m h = ground (arith, key_eq_iff k j)
  lookup-put k j (some a) m h = lookup-insert k j a m

  lookup-process_firing :
      (s : Engine d.Db) (evt : Event d.Details) (k : ActiveAlertKey) (o : Option Alert)
      → IsTracked s.active_alerts
      → lookup (event_key evt) s.active_alerts ≡ o
      → lookup k (process_firing d s evt o).active_alerts
        ≡ (if key_eq (event_key evt) k then next_firing s.db evt o else lookup k s.active_alerts)
  unfolding process_firing next_firing note_collision
  lookup-process_firing s evt k none t h =
      ap (lookup k) (active-fire d s evt) ∙ lookup-put (event_key evt) k (fired d s.db evt) _ h
  lookup-process_firing s evt k (some a) t h = ground (
    arith,
    active-escalate_alert d (note_collision d s a evt) a evt k (t (event_key evt) a h).0,
    key_eq_iff (event_key evt) k,
  )

  lookup-process_recovery :
      (s : Engine d.Db) (evt : Event d.Details) (k : ActiveAlertKey) (o : Option Alert)
      → lookup (event_key evt) s.active_alerts ≡ o
      → lookup k (recover_from d s evt o).active_alerts
        ≡ (if key_eq (event_key evt) k then none else lookup k s.active_alerts)
  unfolding recover_from
  lookup-process_recovery s evt k none h = ground (arith, key_eq_iff (event_key evt) k)
  lookup-process_recovery s evt k (some a) h =
      ap (lookup k) (active-recover_from d s evt a) ∙ lookup-erase (event_key evt) k s.active_alerts

  -- In a map whose entries are active and under their own keys, an event changes the entry of its own
  -- key only: a recovery removes it; a firing event makes it if there is none, it is not silenced and
  -- it is stored, and gives it the new severity, message, name and details if it is more severe.
  pub lookup-process_event :
      (s : Engine d.Db) (evt : Event d.Details) (k : ActiveAlertKey)
      → IsTracked s.active_alerts
      → lookup k (process_event d s evt).active_alerts ≡ (
          if key_eq (event_key evt) k
          then next s.db evt (lookup (event_key evt) s.active_alerts)
          else lookup k s.active_alerts)
  unfolding process_event next
  lookup-process_event s evt k t = elim (Bool-cases evt.is_recover) [
    | inl e ↦ simp e (lookup-process_recovery s evt k (lookup (event_key evt) s.active_alerts) refl)
    | inr e ↦ simp e (lookup-process_firing s evt k (lookup (event_key evt) s.active_alerts) t refl)
  ]

  next-IsTracked :
      (db : d.Db) (evt : Event d.Details) (o : Option Alert) (b : Alert)
      → ((a : Alert) → o ≡ some a → (alert_key a ≡ event_key evt) × (a.status ≡ status_active))
      → next db evt o ≡ some b
      → (alert_key b ≡ event_key evt) × (b.status ≡ status_active)
  unfolding next next_firing fired new_alert
  next-IsTracked db evt none b t h = ground arith
  next-IsTracked db evt (some a) b t h = ground (arith, t a refl, escalated_keeps d db a evt)

  pub process_event-IsTracked :
      (s : Engine d.Db) (evt : Event d.Details)
      → IsTracked s.active_alerts
      → IsTracked (process_event d s evt).active_alerts
  process_event-IsTracked s evt t k a h = elim (Bool-cases (key_eq (event_key evt) k)) [
    | inl e ↦
        let same = (key_eq_iff (event_key evt) k).0 e in
        rw (← same) (
          next-IsTracked s.db evt (lookup (event_key evt) s.active_alerts) a (t (event_key evt))
            (sym (lookup-process_event s evt k t ∙ simp e) ∙ h))
    | inr e ↦ t k a (ground (arith, lookup-process_event s evt k t))
  ]

  -- Any sequence of events keeps the entries of the map active and under their own keys.
  pub process_events-IsTracked :
      (s : Engine d.Db) (evts : List (Event d.Details))
      → IsTracked s.active_alerts
      → IsTracked (process_events d s evts).active_alerts
  unfolding process_events
  process_events-IsTracked s [] t = t
  process_events-IsTracked s (evt ∷ evts) t =
      process_events-IsTracked (process_event d s evt) evts (process_event-IsTracked s evt t)
