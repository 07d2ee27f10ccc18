-- ===== src/Alert/Deps.antt =====
-- What internal/alert/engine.go is given: the stores, the hooks, the broadcaster and the notifier.
-- `Db` is the state behind the stores (the SQL database and the clock of the silence queries). An
-- operation that may fail returns `none`, or `false`, for a non-nil error. The silence, channel and
-- trigger stores are set, as the program sets them.
use maintenant.Base.{ℕ, Bool, Option, List, ◌∷◌, Str}
use maintenant.Base.Map.{Map}
use maintenant.Alert.Model.{Alert, AlertTrigger, SilenceRule, NotificationChannel, ActiveAlertKey}

pub record Deps : Type 1 where
  -- `map[string]any` and `json.Marshal` on it.
  pub Details : Type 0
  pub marshal : Details → Option Str
  pub Db : Type 0
  -- AlertStore
  pub insert_alert : Db → Alert → Db × Option Str
  pub update_alert_status : Db → Str → Str → Option ℕ → Option Str → Db × Bool
  pub update_alert_on_escalation : Db → Str → Str → Str → Str → Str → Db × Bool
  pub get_alert : Db → Str → Option (Option Alert)
  pub acknowledge_alert : Db → Str → Str → ℕ → Db × Option Bool
  pub list_active_alerts : Db → Option (List Alert)
  -- SilenceStore and MaintenanceSuppressor
  pub get_active_silence_rules : Db → Option (List SilenceRule)
  pub is_suppressed : Db → Str → Str → Str → Option Bool
  -- TriggerStore: the list that comes with an error is ranged over too.
  pub list_enabled_triggers : Db → List AlertTrigger
  -- ChannelStore
  pub get_channel : Db → Str → Option (Option NotificationChannel)
  pub insert_delivery : Db → Str → Str → Db × Option Str
  -- Whether the optional notifier and broadcaster are set.
  pub has_notifier : Bool
  pub has_broadcaster : Bool

-- The events of internal/event/event.go that the engine broadcasts.
pub data EventType : Type 0 where
  alert_fired alert_silenced alert_resolved alert_acknowledged : EventType

-- What the engine does to the world beside its stores. Log lines are left out, but for the one that
-- reports a key claimed by two entities.
pub data Effect : Type 0 where
  broadcast : EventType → Alert → Effect
  on_alert_created : Alert → Effect
  on_alert_acknowledged : Str → Str → ℕ → Effect
  on_alert_resolved : Str → ℕ → Effect
  enqueue : Str → NotificationChannel → Alert → Effect
  key_collision : ActiveAlertKey → Str → Str → Effect

-- The engine with what stands behind it. `out` has the newest effect first.
pub record Engine (Db : Type 0) : Type 0 where
  pub db : Db
  pub active_alerts : Map ActiveAlertKey Alert
  pub out : List Effect

abbrev pub perform : {Db : Type 0} → Effect → Engine Db → Engine Db
perform x s = record s { out = x ∷ s.out }
