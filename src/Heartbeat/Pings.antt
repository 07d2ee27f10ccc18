-- ===== src/Heartbeat/Pings.antt =====
-- What the pings of internal/heartbeat/service.go share: what they log, and how they settle the new row of a
-- heartbeat. Both callbacks are set; log lines and the agent id of an event are left out. A clock that
-- runs backwards gives the duration 0 here.
use maintenant.Base.{
  ℕ, zero, suc, ◌-◌, ◌/◌, Bool, true, false, not, ◌&&◌, Option, none, some, [], ◌∷◌, Str,
  if◌then◌else◌,
}
use maintenant.Heartbeat.Model.{
  HeartbeatStatus, PingType, ExecutionOutcome, Heartbeat, HeartbeatPing, HeartbeatExecution,
  ping_received, status_changed, recovery_event, recovery_callback, is_paused, same_status,
  max_payload_bytes,
}
use maintenant.Heartbeat.Store.{
  update_state, insert_ping, insert_execution, update_execution, get_execution, end_pause, Faults,
  World, emit, update_heartbeat_state, insert_execution_row, current_execution, finish_execution,
  close_pause,
}

pub data Error : Type 0 where
  store_error heartbeat_not_found invalid_input invalid_exit_code limit_reached : Error

pub data Result : Type 0 where
  ok : Heartbeat → Result
  err : Error → Result

-- A request's source address, method and payload, and whether the licence stores payloads.
pub record Request : Type 0 where
  pub source_ip : Str
  pub http_method : Str
  pub payload : Option Str
  pub can_store_payload : Bool

abbrev pub take : ℕ → Str → Str
take zero s = []
take (suc n) [] = []
take (suc n) (c ∷ s) = c ∷ take n s

unfoldable pub filter_payload : Option Str → Bool → Option Str
filter_payload none can = none
filter_payload (some p) can = if can then some (take max_payload_bytes p) else none

abbrev pub is_some : {A : Type 0} → Option A → Bool
is_some none = false
is_some (some a) = true

-- The milliseconds since the start of the current run.
unfoldable pub elapsed_ms : ℕ → Option ℕ → Option ℕ
elapsed_ms now none = none
elapsed_ms now (some t) = some ((now - t) / 1_000_000)

module _ (f : Faults) where
  unfoldable pub record_ping : HeartbeatPing → World → World
  record_ping p w = if f insert_ping p.heartbeat_id then w else record w { pings = p ∷ w.pings }

  unfoldable pub add_execution : HeartbeatExecution → World → World
  unfolding insert_execution_row
  add_execution e w = if f insert_execution e.heartbeat_id then w else insert_execution_row e w

  unfoldable pub finish_found :
      Str
      → ℕ
      → Option ℕ
      → Option ℕ
      → ExecutionOutcome
      → Option Str
      → Option HeartbeatExecution
      → World
      → World
  finish_found id now duration code outcome payload none w = w
  finish_found id now duration code outcome payload (some e) w =
      if f update_execution id then w else record w {
        executions = finish_execution e.id now duration code outcome payload w.executions;
      }

  -- The current execution; a failed read gives none.
  unfoldable pub read_execution : Str → World → Option HeartbeatExecution
  read_execution id w = if f get_execution id then none else current_execution id w.executions

  unfoldable pub finish_current :
      Str → ℕ → Option ℕ → Option ℕ → ExecutionOutcome → Option Str → World → World
  unfolding finish_found read_execution
  finish_current id now duration code outcome payload w =
      finish_found id now duration code outcome payload (read_execution id w) w

  -- `end_pause` of the service.
  unfoldable pub leave_pause : Str → HeartbeatStatus → World → World
  unfolding close_pause
  leave_pause id previous w =
      if is_paused previous && not (f end_pause id) then close_pause id w else w

  unfoldable pub note_change : Str → HeartbeatStatus → HeartbeatStatus → World → World
  note_change id previous status w =
      if same_status status previous then w else emit (status_changed id previous status) w

  unfoldable pub note_recovery : Str → Bool → World → World
  note_recovery id recovering w =
      if recovering then emit (recovery_callback id) (emit (recovery_event id) w) else w

  -- What all three pings do once the new row `h` is known: it is written, and the listeners are told
  -- before `after`.
  unfoldable pub settle :
      Heartbeat → HeartbeatStatus → PingType → (World → World) → World → World × Result
  unfolding update_heartbeat_state leave_pause note_change
  settle h previous type after w = if f update_state h.id then (w, err store_error) else (
    after (
        note_change h.id previous h.status (
          emit (ping_received h.id type h.status)
            (leave_pause h.id previous (update_heartbeat_state h w)))),
    ok h,
  )
