-- ===== src/Escalation/Model.antt =====
-- internal/alert/escalation/model.go and contract.go. Instants are whole seconds: the store keeps them so,
-- and every delay is a whole number of seconds. When and by whom a policy was written is left out.
use maintenant.Base.{ℕ, Bool, true, false, Option, List, Str, ◌==◌}

pub record Scope : Type 0 where
  pub kind : Str
  pub ref_id : Str

pub record Filters : Type 0 where
  pub severities : List Str
  pub scopes : List Scope

pub record Level : Type 0 where
  pub order : ℕ
  pub delay_seconds : ℕ
  pub channel_ids : List Str

pub record Policy : Type 0 where
  pub id : Str
  pub name : Str
  pub active : Bool
  pub active_before_downgrade : Bool
  pub filters : Filters
  pub levels : List Level

pub data RunStatus : Type 0 where
  active paused_by_maintenance : RunStatus
  stopped_by_ack stopped_by_resolution stopped_by_policy_deletion : RunStatus
  stopped_by_policy_disabled stopped_by_edition_downgrade exhausted : RunStatus

abbrev pub is_live : RunStatus → Bool
is_live active = true
is_live paused_by_maintenance = true
is_live _ = false

abbrev pub is_paused : RunStatus → Bool
is_paused paused_by_maintenance = true
is_paused _ = false

-- `executed` is one more than LastExecutedLevelIndex; `snapshot` is what the JSON of the run unmarshals
-- to, none where it does not. The ids of the store grow with time.
pub record Run : Type 0 where
  pub id : ℕ
  pub policy_id : Option Str
  pub snapshot : Option Policy
  pub alert_id : Str
  pub status : RunStatus
  pub executed : ℕ
  pub started_at : ℕ
  pub ended_at : Option ℕ
  pub next_action_at : Option ℕ

-- The level index of a delivery: a level, specialLevelAck or specialLevelExhausted.
pub data Slot : Type 0 where
  level : ℕ → Slot
  special_ack special_exhausted : Slot

abbrev pub slot_eq : Slot → Slot → Bool
slot_eq (level n) (level m) = n == m
slot_eq special_ack special_ack = true
slot_eq special_exhausted special_exhausted = true
slot_eq _ _ = false

pub data DeliveryStatus : Type 0 where
  pending sent failed abandoned : DeliveryStatus

pub record Delivery : Type 0 where
  pub id : ℕ
  pub run_id : ℕ
  pub slot : Slot
  pub channel_id : Option Str
  pub status : DeliveryStatus
  pub error : Str
  pub attempt_started_at : ℕ
  pub sent_at : Option ℕ
