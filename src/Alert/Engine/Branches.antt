-- ===== src/Alert/Engine/Branches.antt =====
-- The branches of processEvent.
use maintenant.Base.{
  ◌+◌, ◌≤◌, ◌≡◌, true, false, ◌&&◌, none, some, ◌∷◌, arith, Str, str_eq, any, if◌then◌else◌,
}
use maintenant.Base.Map.{lookup, insert}
use maintenant.Alert.Model.{Event, Alert, Key_eq, event_key}
use maintenant.Alert.Routing.{severity_rank}
use maintenant.Alert.Deps.{
  Deps, Engine, key_collision, broadcast, alert_silenced, alert_fired, on_alert_created, perform,
}
use maintenant.Alert.Dispatch.Once.{
  StoresChannels, jobs, one, routed, is_enabled, jobs-dispatch_notifications,
}
use maintenant.Alert.Engine.{
  emit, check_silence_rules, new_alert, fire, announce, note_collision, process_event,
}

module _ (d : Deps) (s : Engine d.Db) (evt : Event d.Details) where
  -- A firing event that is no more severe than the active alert of its key changes neither the stores
  -- nor the map, and its only effect is the report of a collision, if it names another entity.
  pub duplicate_skipped :
      (a : Alert)
      → evt.is_recover ≡ false
      → lookup (event_key evt) s.active_alerts ≡ some a
      → severity_rank evt.severity ≤ severity_rank a.severity
      → process_event d s evt ≡ (
          if str_eq evt.entity_name a.entity_name
          then s
          else perform (key_collision (event_key evt) a.entity_name evt.entity_name) s)
  unfolding process_event note_collision
  duplicate_skipped a r h le = ground arith

  -- A firing event whose key has no alert, that is silenced and that is stored under `id`, is shown as
  -- silenced where a broadcaster is set: it is not tracked, starts no escalation and reaches no channel.
  pub silenced_only_shown :
      (id : Str)
      → evt.is_recover ≡ false
      → lookup (event_key evt) s.active_alerts ≡ none
      → check_silence_rules d s.db evt ≡ true
      → (d.insert_alert s.db (new_alert d evt true)).1 ≡ some id
      → process_event d s evt ≡ record {
        db = (d.insert_alert s.db (new_alert d evt true)).0;
        active_alerts = s.active_alerts;
        out =
            if d.has_broadcaster
            then broadcast alert_silenced (record (new_alert d evt true) { id = id }) ∷ s.out
            else s.out;
      }
  unfolding process_event fire emit
  silenced_only_shown id r h q i = ground arith

  -- If a delivery row can be written and changes no channel, and a channel is found under its own id,
  -- then a firing event whose key has no alert, that is not silenced and that is stored under `id` adds
  -- one job for a channel that is enabled and that a matching trigger names, and none for another.
  pub jobs-fire :
      (id ch : Str)
      → StoresChannels d
      → evt.is_recover ≡ false
      → lookup (event_key evt) s.active_alerts ≡ none
      → check_silence_rules d s.db evt ≡ false
      → (d.insert_alert s.db (new_alert d evt false)).1 ≡ some id
      → let db = (d.insert_alert s.db (new_alert d evt false)).0 in
        let a = record (new_alert d evt false) { id = id } in
        jobs ch (process_event d s evt).out
        ≡ jobs ch s.out
          + one (
              d.has_notifier
              && any (λ other. str_eq other ch) (routed a (d.list_enabled_triggers db))
              && is_enabled (d.get_channel db ch))
  unfolding process_event fire emit announce
  jobs-fire id ch stores r h q i = ground (
    arith,
    jobs-dispatch_notifications d stores
        (perform (on_alert_created (record (new_alert d evt false) { id = id })) (
          emit d alert_fired (record (new_alert d evt false) { id = id })
            (record s {
              db = (d.insert_alert s.db (new_alert d evt false)).0;
              active_alerts =
                  insert (event_key evt) (record (new_alert d evt false) { id = id })
                    s.active_alerts;
            })))
        (record (new_alert d evt false) { id = id }) (record (new_alert d evt false) { id = id })
        ch,
  )
