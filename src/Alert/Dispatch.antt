-- ===== src/Alert/Dispatch.antt =====
-- dispatchNotifications and enqueueDelivery of internal/alert/engine.go. The map `dispatched` is the
-- list of its keys; the loops are recursions on the lists that they range over.
pub mod Once
pub mod Frame
use maintenant.Base.{Bool, Option, none, some, List, [], ◌∷◌, Str, str_eq, any, if◌then◌else◌}
use maintenant.Alert.Model.{Alert, AlertTrigger, NotificationChannel}
use maintenant.Alert.Routing.{matches_trigger}
use maintenant.Alert.Deps.{Deps, Engine, Effect, enqueue, perform}

abbrev pub seen : Str → List Str → Bool
seen id = any (λ other. str_eq other id)

module _ (d : Deps) where
  -- The notifier is given a copy of the alert.
  pub delivered : NotificationChannel → Alert → Engine d.Db → Option Str → Engine d.Db
  delivered ch a s none = s
  delivered ch a s (some delivery_id) = perform (enqueue delivery_id ch a) s

  pub enqueue_delivery : Engine d.Db → NotificationChannel → Alert → Engine d.Db
  unfolding delivered
  enqueue_delivery s ch a =
      let (db', delivery_id) = d.insert_delivery s.db a.id ch.id in
      delivered ch a (record s { db = db' }) delivery_id

  -- The body of the inner loop after `GetChannel`.
  pub reach :
      Alert
      → Str
      → Engine d.Db × List Str
      → Option (Option NotificationChannel)
      → Engine d.Db × List Str
  unfolding enqueue_delivery
  reach payload id (s, dispatched) none = (s, dispatched)
  reach payload id (s, dispatched) (some none) = (s, dispatched)
  reach payload id (s, dispatched) (some (some ch)) =
      if ch.enabled then (enqueue_delivery s ch payload, id ∷ dispatched) else (s, dispatched)

  pub dispatch_channel : Alert → Str → Engine d.Db × List Str → Engine d.Db × List Str
  unfolding reach
  dispatch_channel payload id (s, dispatched) =
      if seen id dispatched
      then (s, dispatched)
      else reach payload id (s, dispatched) (d.get_channel s.db id)

  pub dispatch_channels : Alert → List Str → Engine d.Db × List Str → Engine d.Db × List Str
  unfolding dispatch_channel
  dispatch_channels payload [] st = st
  dispatch_channels payload (id ∷ ids) st =
      dispatch_channels payload ids (dispatch_channel payload id st)

  pub dispatch_triggers :
      Alert → Alert → List AlertTrigger → Engine d.Db × List Str → Engine d.Db × List Str
  unfolding dispatch_channels
  dispatch_triggers route_by payload [] st = st
  dispatch_triggers route_by payload (t ∷ ts) st =
      dispatch_triggers route_by payload ts
        (if matches_trigger t route_by then dispatch_channels payload t.channel_ids st else st)

  unfoldable pub dispatch_notifications : Engine d.Db → Alert → Alert → Engine d.Db
  unfolding dispatch_triggers
  dispatch_notifications s route_by payload =
      if d.has_notifier
      then (dispatch_triggers route_by payload (d.list_enabled_triggers s.db) (s, [])).0
      else s
