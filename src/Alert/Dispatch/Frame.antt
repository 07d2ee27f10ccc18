-- ===== src/Alert/Dispatch/Frame.antt =====
-- A dispatch leaves the map of active alerts alone.
use maintenant.Base.{◌≡◌, refl, Option, none, some, List, [], ◌∷◌, arith, Str}
use maintenant.Alert.Model.{Alert, AlertTrigger, NotificationChannel}
use maintenant.Alert.Deps.{Deps, Engine}
use maintenant.Alert.Dispatch.{
  delivered, enqueue_delivery, reach, dispatch_channel, dispatch_channels, dispatch_triggers,
  dispatch_notifications,
}

module _ (d : Deps) where
  active-delivered :
      (ch : NotificationChannel) (a : Alert) (s : Engine d.Db) (n : Option Str)
      → (delivered d ch a s n).active_alerts ≡ s.active_alerts
  unfolding delivered
  active-delivered ch a s none = refl
  active-delivered ch a s (some m) = refl

  active-reach :
      (payload : Alert) (id : Str) (s : Engine d.Db) (l : List Str)
      (o : Option (Option NotificationChannel))
      → (reach d payload id (s, l) o).0.active_alerts ≡ s.active_alerts
  unfolding reach enqueue_delivery
  active-reach payload id s l none = refl
  active-reach payload id s l (some none) = refl
  active-reach payload id s l (some (some ch)) = ground (
    arith,
    active-delivered ch payload (record s { db = (d.insert_delivery s.db payload.id ch.id).0 })
        (d.insert_delivery s.db payload.id ch.id).1,
  )

  active-dispatch_channels :
      (payload : Alert) (ids : List Str) (st : Engine d.Db × List Str)
      → (dispatch_channels d payload ids st).0.active_alerts ≡ st.0.active_alerts
  unfolding dispatch_channels dispatch_channel
  active-dispatch_channels payload [] st = refl
  active-dispatch_channels payload (id ∷ ids) (s, l) = ground (
    arith,
    active-dispatch_channels payload ids (dispatch_channel d payload id (s, l)),
    active-reach payload id s l (d.get_channel s.db id),
  )

  active-dispatch_triggers :
      (route payload : Alert) (ts : List AlertTrigger) (st : Engine d.Db × List Str)
      → (dispatch_triggers d route payload ts st).0.active_alerts ≡ st.0.active_alerts
  unfolding dispatch_triggers
  active-dispatch_triggers route payload [] st = refl
  active-dispatch_triggers route payload (t ∷ ts) st = ground (
    arith,
    active-dispatch_triggers route payload ts st,
    active-dispatch_triggers route payload ts (dispatch_channels d payload t.channel_ids st),
    active-dispatch_channels payload t.channel_ids st,
  )

  pub active-dispatch_notifications :
      (s : Engine d.Db) (route payload : Alert)
      → (dispatch_notifications d s route payload).active_alerts ≡ s.active_alerts
  unfolding dispatch_notifications
  active-dispatch_notifications s route payload =
      ground (arith, active-dispatch_triggers route payload (d.list_enabled_triggers s.db) (s, []))
