-- ===== src/Alert/Operations.antt =====
-- The other operations of internal/alert/engine.go: Acknowledge, ResolveByEntity, reloadActiveAlerts,
-- AlertCount.
pub mod Laws
use maintenant.Base.{
  ℕ, Bool, true, false, not, ◌&&◌, ◌||◌, Option, none, some, List, [], ◌∷◌, Str, str_eq, length,
  map, keep, if◌then◌else◌,
}
use maintenant.Base.Map.{Map, insert}
use maintenant.Alert.Model.{
  Alert, ActiveAlertKey, Key_eq, alert_key, status_active, status_resolved,
}
use maintenant.Alert.Routing.{is_nil}
use maintenant.Alert.Deps.{
  Deps, Engine, alert_resolved, alert_acknowledged, on_alert_acknowledged, on_alert_resolved,
  perform,
}
use maintenant.Alert.Engine.{emit}

-- The errors of Acknowledge: the store's, ErrAlertNotFound and ErrNotAcknowledgeable.
pub data AckError : Type 0 where
  store_error alert_not_found not_acknowledgeable : AckError

pub data AckResult : Type 0 where
  ok : Alert → AckResult
  err : AckError → AckResult

abbrev pub is_for : Str → Str → ActiveAlertKey → Bool
is_for type id k = str_eq k.entity_type type && str_eq k.entity_id id

module _ (d : Deps) where
  pub acknowledged : Engine d.Db → Alert → Str → Str → ℕ → Option Bool → Engine d.Db × AckResult
  unfolding emit
  acknowledged s a id by at none = (s, err store_error)
  acknowledged s a id by at (some false) = (s, err not_acknowledgeable)
  acknowledged s a id by at (some true) =
      let a' = record a { acknowledged_at = some at; acknowledged_by = by } in
      (perform (on_alert_acknowledged id by at) (emit d alert_acknowledged a' s), ok a')

  unfoldable pub acknowledge_loaded :
      Engine d.Db → Str → Str → ℕ → Option (Option Alert) → Engine d.Db × AckResult
  unfolding acknowledged
  acknowledge_loaded s id by at none = (s, err store_error)
  acknowledge_loaded s id by at (some none) = (s, err alert_not_found)
  acknowledge_loaded s id by at (some (some a)) =
      let (db', done) = d.acknowledge_alert s.db id by at in
      if not (str_eq a.status status_active) || not (is_nil a.acknowledged_at)
      then (s, err not_acknowledgeable)
      else acknowledged (record s { db = db' }) a id by at done

  -- `at` is the clock, cut to seconds.
  unfoldable pub acknowledge : Engine d.Db → Str → Str → ℕ → Engine d.Db × AckResult
  unfolding acknowledge_loaded
  acknowledge s id by at = acknowledge_loaded s id by at (d.get_alert s.db id)

  pub resolve_one : ℕ → Engine d.Db → Alert → Engine d.Db
  unfolding emit
  resolve_one now s a =
      let (db', updated) = d.update_alert_status s.db a.id status_resolved (some now) none in
      let s' = record s { db = db' } in
      if updated
      then emit d alert_resolved (record a { status = status_resolved; resolved_at = some now })
          (perform (on_alert_resolved a.id now) s')
      else s'

  pub resolve_each : ℕ → List Alert → Engine d.Db → Engine d.Db
  unfolding resolve_one
  resolve_each now [] s = s
  resolve_each now (a ∷ rest) s = resolve_each now rest (resolve_one now s a)

  -- The entries of the map that `toResolve` collects, in the order of the `range`.
  unfoldable pub to_resolve : Str → Str → Map ActiveAlertKey Alert → List Alert
  to_resolve type id m = map (λ entry. entry.1) (keep (λ entry. is_for type id entry.0) m)

  unfoldable pub resolve_by_entity : Engine d.Db → Str → Str → ℕ → Engine d.Db
  unfolding resolve_each
  resolve_by_entity s type id now =
      resolve_each now (to_resolve type id s.active_alerts)
        (record s { active_alerts = keep (λ entry. not (is_for type id entry.0)) s.active_alerts })

  pub track : List Alert → Map ActiveAlertKey Alert → Map ActiveAlertKey Alert
  track [] m = m
  track (a ∷ rest) m = track rest (insert (alert_key a) a m)

  pub reloaded : Engine d.Db → Option (List Alert) → Engine d.Db × Bool
  unfolding track
  reloaded s none = (s, false)
  reloaded s (some active) = (record s { active_alerts = track active s.active_alerts }, true)

  -- False for an error.
  unfoldable pub reload_active_alerts : Engine d.Db → Engine d.Db × Bool
  unfolding reloaded
  reload_active_alerts s = reloaded s (d.list_active_alerts s.db)

  abbrev pub alert_count : Engine d.Db → ℕ
  alert_count s = length s.active_alerts
