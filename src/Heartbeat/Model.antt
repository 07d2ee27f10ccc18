-- ===== src/Heartbeat/Model.antt =====
-- internal/heartbeat/model.go: a heartbeat, its executions, and what the service tells the world.
-- Instants are nanoseconds since the epoch; intervals are seconds.
use maintenant.Base.{ℕ, ◌+◌, ◌*◌, Bool, true, false, Option, Str}

pub data HeartbeatStatus : Type 0 where
  new up down started paused : HeartbeatStatus

pub data AlertState : Type 0 where
  normal alerting : AlertState

pub data PingType : Type 0 where
  success start exit_code : PingType

pub data ExecutionOutcome : Type 0 where
  outcome_success outcome_failure outcome_timeout outcome_in_progress : ExecutionOutcome

abbrev pub min_interval_seconds : ℕ
min_interval_seconds = 60

abbrev pub max_interval_seconds : ℕ
max_interval_seconds = 604800

abbrev pub max_payload_bytes : ℕ
max_payload_bytes = 10240

abbrev pub max_name_length : ℕ
max_name_length = 255

pub record Heartbeat : Type 0 where
  pub id : Str
  pub ping_token : Str
  pub name : Str
  pub status : HeartbeatStatus
  pub alert_state : AlertState
  pub interval_seconds : ℕ
  pub grace_seconds : ℕ
  pub last_ping_at : Option ℕ
  pub next_deadline_at : Option ℕ
  pub current_run_started_at : Option ℕ
  pub last_exit_code : Option ℕ
  pub last_duration_ms : Option ℕ
  pub consecutive_failures : ℕ
  pub consecutive_successes : ℕ

pub record HeartbeatPing : Type 0 where
  pub heartbeat_id : Str
  pub ping_type : PingType
  pub exit_code : Option ℕ
  pub source_ip : Str
  pub http_method : Str
  pub payload : Option Str
  pub timestamp : ℕ

pub record HeartbeatExecution : Type 0 where
  pub id : ℕ
  pub heartbeat_id : Str
  pub started_at : Option ℕ
  pub completed_at : Option ℕ
  pub duration_ms : Option ℕ
  pub exit_code : Option ℕ
  pub outcome : ExecutionOutcome
  pub payload : Option Str

pub data AlertType : Type 0 where
  deadline_missed : AlertType
  exit_code_failure : ℕ → AlertType

-- The events for the browser and the two kinds of alert callback.
pub data Effect : Type 0 where
  created updated deleted : Str → Effect
  ping_received : Str → PingType → HeartbeatStatus → Effect
  status_changed : Str → HeartbeatStatus → HeartbeatStatus → Effect
  alert_event recovery_event : Str → Effect
  alert_callback : Str → AlertType → Effect
  recovery_callback : Str → Effect

abbrev pub is_started : HeartbeatStatus → Bool
is_started started = true
is_started _ = false

abbrev pub is_down : HeartbeatStatus → Bool
is_down down = true
is_down _ = false

abbrev pub is_paused : HeartbeatStatus → Bool
is_paused paused = true
is_paused _ = false

abbrev pub is_up : HeartbeatStatus → Bool
is_up up = true
is_up _ = false

abbrev pub is_new : HeartbeatStatus → Bool
is_new new = true
is_new _ = false

abbrev pub is_alerting : AlertState → Bool
is_alerting alerting = true
is_alerting normal = false

abbrev pub same_status : HeartbeatStatus → HeartbeatStatus → Bool
same_status new t = is_new t
same_status up t = is_up t
same_status down t = is_down t
same_status started t = is_started t
same_status paused t = is_paused t

abbrev pub second : ℕ
second = 1_000_000_000

-- `now.Add(time.Duration(h.IntervalSeconds+h.GraceSeconds) * time.Second)`
abbrev pub deadline_from : ℕ → Heartbeat → ℕ
deadline_from now h = now + (h.interval_seconds + h.grace_seconds) * second
