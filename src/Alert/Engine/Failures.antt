-- ===== src/Alert/Engine/Failures.antt =====
-- What a failing store does to the engine.
use maintenant.Base.{◌<◌, ◌≡◌, sym, ap, ◌∙◌, Bool, true, false, none, some, arith, str_eq_iff}
use maintenant.Base.Map.{lookup, insert, erase, lookup-insert, lookup-erase}
use maintenant.Alert.Model.{Event, Alert, Key_eq, key_eq_iff, event_key}
use maintenant.Alert.Routing.{severity_rank}
use maintenant.Alert.Deps.{Deps, Engine}
use maintenant.Alert.Engine.{raised, note_collision, escalate_alert, recovery_alert, process_event}

module _ (d : Deps) (s : Engine d.Db) (evt : Event d.Details) (a : Alert) where
  abbrev b : Alert
  b = raised d a evt

  abbrev refused : d.Db × Bool
  refused =
      d.update_alert_on_escalation s.db a.id evt.severity evt.message evt.entity_name b.details

  after_refusal : Engine d.Db
  after_refusal = record {
    db = refused.0;
    active_alerts = insert (event_key evt) b s.active_alerts;
    out = (note_collision d s a evt).out;
  }

  first-escalation :
      evt.is_recover ≡ false
      → lookup (event_key evt) s.active_alerts ≡ some a
      → severity_rank a.severity < severity_rank evt.severity
      → refused.1 ≡ false
      → process_event d s evt ≡ after_refusal
  unfolding process_event escalate_alert note_collision after_refusal raised
  first-escalation r h lt f = ground arith

  second-escalation : evt.is_recover ≡ false → process_event d after_refusal evt ≡ after_refusal
  unfolding process_event note_collision after_refusal raised
  second-escalation r = ground (
    arith,
    lookup-insert (event_key evt) (event_key evt) b s.active_alerts,
    key_eq_iff (event_key evt) (event_key evt),
    str_eq_iff evt.entity_name evt.entity_name,
  )

  -- When the store refuses to escalate the active alert of a firing event that is more severe, nothing
  -- is shown or notified but a collision of names, and the same event, sent again, changes nothing.
  pub failed_escalation_lost :
      evt.is_recover ≡ false
      → lookup (event_key evt) s.active_alerts ≡ some a
      → severity_rank a.severity < severity_rank evt.severity
      → refused.1 ≡ false
      → ((process_event d s evt).out ≡ (note_collision d s a evt).out)
        × (process_event d (process_event d s evt) evt ≡ process_event d s evt)
  unfolding after_refusal
  failed_escalation_lost r h lt f =
      let first = first-escalation r h lt f in
      (
        ap (λ t. t.out) first,
        ap (λ t. process_event d t evt) first ∙ second-escalation r ∙ sym first,
      )

  abbrev unstored : d.Db
  unstored = (d.insert_alert s.db (recovery_alert d evt a)).0

  after_loss : Engine d.Db
  after_loss = record {
    db = unstored;
    active_alerts = erase (event_key evt) s.active_alerts;
    out = s.out;
  }

  first-recovery :
      evt.is_recover ≡ true
      → lookup (event_key evt) s.active_alerts ≡ some a
      → (d.insert_alert s.db (recovery_alert d evt a)).1 ≡ none
      → process_event d s evt ≡ after_loss
  unfolding process_event after_loss
  first-recovery r h f = ground arith

  second-recovery : evt.is_recover ≡ true → process_event d after_loss evt ≡ after_loss
  unfolding process_event after_loss
  second-recovery r = ground (
    arith,
    lookup-erase (event_key evt) (event_key evt) s.active_alerts,
    key_eq_iff (event_key evt) (event_key evt),
  )

  -- When the store refuses the record of a recovery of an active alert, the database is as the refused
  -- insert left it, so that no call has resolved the original, nothing is shown or notified, and the
  -- same recovery, sent again, changes nothing.
  pub failed_recovery_lost :
      evt.is_recover ≡ true
      → lookup (event_key evt) s.active_alerts ≡ some a
      → (d.insert_alert s.db (recovery_alert d evt a)).1 ≡ none
      → ((process_event d s evt).db ≡ unstored)
        × ((process_event d s evt).out ≡ s.out)
        × (process_event d (process_event d s evt) evt ≡ process_event d s evt)
  unfolding after_loss
  failed_recovery_lost r h f =
      let first = first-recovery r h f in
      (
        ap (λ t. t.db) first,
        ap (λ t. t.out) first,
        ap (λ t. process_event d t evt) first ∙ second-recovery r ∙ sym first,
      )
