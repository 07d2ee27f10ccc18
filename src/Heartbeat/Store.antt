-- ===== src/Heartbeat/Store.antt =====
-- internal/store/heartbeats.go: the statements that the service runs, on lists of rows. A row keeps its
-- instants in whole seconds. The ids of executions grow with time, so the newest execution comes first.
use maintenant.Base.{
  ℕ, ◌+◌, ◌*◌, ◌/◌, Bool, true, false, ◌&&◌, ◌||◌, Option, none, some, List, [], ◌∷◌, Str, Str_eq,
  str_eq, ltb, ◌==◌, if◌then◌else◌,
}
use maintenant.Base.Map.{Map, lookup, insert, erase}
use maintenant.Heartbeat.Model.{
  ExecutionOutcome, outcome_in_progress, Heartbeat, HeartbeatPing, HeartbeatExecution, Effect,
  is_up, is_started, second,
}

-- The calls of the store. A call may fail for a heartbeat.
pub data Call : Type 0 where
  get_by_token get_by_id get_again count create update delete update_state : Call
  insert_ping insert_execution update_execution get_execution end_pause : Call
  list_overdue pause resume rotate : Call

abbrev pub Faults : Type 0
Faults = Call → Str → Bool

-- `paused_since` holds the open pauses; `out` has the newest effect first.
pub record World : Type 0 where
  pub heartbeats : Map Str Heartbeat
  pub pings : List HeartbeatPing
  pub executions : List HeartbeatExecution
  pub next_execution : ℕ
  pub open_pauses : Map Str ℕ
  pub out : List Effect

abbrev pub emit : Effect → World → World
emit x w = record w { out = x ∷ w.out }

-- What is read back of an instant that was written as its seconds.
abbrev pub stored_time : ℕ → ℕ
stored_time t = t / second * second

abbrev pub stored_option : Option ℕ → Option ℕ
stored_option none = none
stored_option (some t) = some (stored_time t)

abbrev pub stored : Heartbeat → Heartbeat
stored h = record h {
  last_ping_at = stored_option h.last_ping_at;
  next_deadline_at = stored_option h.next_deadline_at;
  current_run_started_at = stored_option h.current_run_started_at;
}

unfoldable pub find_by_token : Str → Map Str Heartbeat → Option Heartbeat
find_by_token token [] = none
find_by_token token ((id, h) ∷ rest) =
    if str_eq h.ping_token token then some h else find_by_token token rest

-- UPDATE heartbeats ... WHERE id=?: a missing row stays missing.
unfoldable pub replace : Option Heartbeat → Heartbeat → Map Str Heartbeat → Map Str Heartbeat
replace none h m = m
replace (some old) h m = insert h.id h m

-- `h` is the row with the values that UpdateHeartbeatState is given.
unfoldable pub update_heartbeat_state : Heartbeat → World → World
unfolding replace
update_heartbeat_state h w = record w {
  heartbeats = replace (lookup h.id w.heartbeats) (stored h) w.heartbeats;
}

unfoldable pub insert_execution_row : HeartbeatExecution → World → World
insert_execution_row e w = record w {
  executions = record e { id = w.next_execution } ∷ w.executions;
  next_execution = w.next_execution + 1;
}

abbrev pub is_open : ExecutionOutcome → Bool
is_open outcome_in_progress = true
is_open _ = false

-- GetCurrentExecution: the newest execution in progress.
unfoldable pub current_execution : Str → List HeartbeatExecution → Option HeartbeatExecution
current_execution id [] = none
current_execution id (e ∷ rest) =
    if str_eq e.heartbeat_id id && is_open e.outcome then some e else current_execution id rest

unfoldable pub finish_execution :
    ℕ
    → ℕ
    → Option ℕ
    → Option ℕ
    → ExecutionOutcome
    → Option Str
    → List HeartbeatExecution
    → List HeartbeatExecution
finish_execution id at duration code outcome payload [] = []
finish_execution id at duration code outcome payload (e ∷ rest) =
    let finished = record e {
      completed_at = some at;
      duration_ms = duration;
      exit_code = code;
      outcome = outcome;
      payload = payload;
    } in
    (if e.id == id then finished else e) ∷ finish_execution id at duration code outcome payload rest

-- The rows that a deadline check finds.
abbrev pub past : ℕ → Option ℕ → Bool
past now none = false
past now (some deadline) = ltb (deadline / second) (now / second)

abbrev pub overdue : ℕ → Heartbeat → Bool
overdue now h = (is_up h.status || is_started h.status) && past now h.next_deadline_at

unfoldable pub overdue_rows : ℕ → Map Str Heartbeat → List Heartbeat
overdue_rows now [] = []
overdue_rows now ((id, h) ∷ rest) =
    let found = overdue_rows now rest in if overdue now h then h ∷ found else found

unfoldable pub close_pause : Str → World → World
close_pause id w = record w { open_pauses = erase id w.open_pauses }
