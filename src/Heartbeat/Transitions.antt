-- ===== src/Heartbeat/Transitions.antt =====
-- ProcessPing, ProcessStartPing and ProcessExitCodePing of internal/heartbeat/service.go, once the heartbeat
-- is read.
use maintenant.Base.{ℕ, ◌+◌, ◌&&◌, ◌||◌, Option, none, some, ◌==◌, if◌then◌else◌}
use maintenant.Heartbeat.Model.{
  up, started, normal, alerting, success, start, exit_code, outcome_success, outcome_failure,
  outcome_timeout, outcome_in_progress, Heartbeat, HeartbeatExecution, exit_code_failure,
  alert_event, alert_callback, is_started, is_down, is_alerting, deadline_from,
}
use maintenant.Heartbeat.Store.{Faults, World, emit}
use maintenant.Heartbeat.Pings.{
  Request, Result, add_execution, elapsed_ms, filter_payload, finish_current, finish_found, is_some,
  note_recovery, read_execution, record_ping, settle,
}

module _ (f : Faults) where
  unfoldable pub pinged : Heartbeat → ℕ → Heartbeat
  unfolding elapsed_ms
  pinged h now =
      let completes = is_started h.status && is_some h.current_run_started_at in
      let recovering = is_down h.status || is_alerting h.alert_state in
      record h {
        status = up;
        alert_state = if recovering then normal else h.alert_state;
        last_ping_at = some now;
        next_deadline_at = some (deadline_from now h);
        consecutive_successes = h.consecutive_successes + 1;
        consecutive_failures = 0;
        last_duration_ms =
            if completes then elapsed_ms now h.current_run_started_at else h.last_duration_ms;
        current_run_started_at = if completes then none else h.current_run_started_at;
      }

  -- The ping and the execution that a success ping records.
  unfoldable pub ping_records : Heartbeat → Request → ℕ → World → World
  ping_records h req now w =
      let payload = filter_payload req.payload req.can_store_payload in
      let logged =
        record_ping f
          (record {
            heartbeat_id = h.id;
            ping_type = success;
            exit_code = none;
            source_ip = req.source_ip;
            http_method = req.http_method;
            payload = payload;
            timestamp = now;
          })
          w in
      let completes = is_started h.status && is_some h.current_run_started_at in
      if completes
      then finish_current f h.id now (elapsed_ms now h.current_run_started_at) none outcome_success
          payload logged
      else add_execution f
          (record {
            id = 0;
            heartbeat_id = h.id;
            started_at = none;
            completed_at = some now;
            duration_ms = none;
            exit_code = none;
            outcome = outcome_success;
            payload = payload;
          })
          logged

  unfoldable pub ping_known : Heartbeat → Request → ℕ → World → World × Result
  unfolding ping_records settle note_recovery pinged
  ping_known h req now w =
      settle f (pinged h now) h.status success
        (note_recovery f h.id (is_down h.status || is_alerting h.alert_state))
        (ping_records h req now w)

  unfoldable pub started_at : Heartbeat → ℕ → Heartbeat
  started_at h now = record h {
    status = started;
    next_deadline_at = some (deadline_from now h);
    current_run_started_at = some now;
  }

  -- The ping and the executions that a start ping records.
  unfoldable pub start_records : Heartbeat → Request → ℕ → World → World
  start_records h req now w =
      let logged =
        record_ping f
          (record {
            heartbeat_id = h.id;
            ping_type = start;
            exit_code = none;
            source_ip = req.source_ip;
            http_method = req.http_method;
            payload = none;
            timestamp = now;
          })
          w in
      let timed_out = finish_current f h.id now none none outcome_timeout none logged in
      add_execution f
        (record {
          id = 0;
          heartbeat_id = h.id;
          started_at = some now;
          completed_at = none;
          duration_ms = none;
          exit_code = none;
          outcome = outcome_in_progress;
          payload = none;
        })
        timed_out

  unfoldable pub start_known : Heartbeat → Request → ℕ → World → World × Result
  unfolding start_records settle started_at
  start_known h req now w =
      settle f (started_at h now) h.status start (λ w'. w') (start_records h req now w)

  unfoldable pub exited : Heartbeat → ℕ → ℕ → Heartbeat
  unfolding elapsed_ms
  exited h code now =
      let completes = is_started h.status && is_some h.current_run_started_at in
      let clean = code == 0 in
      record h {
        status = up;
        alert_state =
            if clean
            then (if is_alerting h.alert_state then normal else h.alert_state)
            else alerting;
        last_ping_at = some now;
        next_deadline_at = some (deadline_from now h);
        last_exit_code = some code;
        consecutive_successes = if clean then h.consecutive_successes + 1 else 0;
        consecutive_failures = if clean then 0 else h.consecutive_failures + 1;
        last_duration_ms =
            if completes then elapsed_ms now h.current_run_started_at else h.last_duration_ms;
        current_run_started_at = if completes then none else h.current_run_started_at;
      }

  unfoldable pub finish_or_add : HeartbeatExecution → ℕ → Option HeartbeatExecution → World → World
  unfolding add_execution finish_found
  finish_or_add e now none w = add_execution f e w
  finish_or_add e now (some current) w =
      finish_found f e.heartbeat_id now e.duration_ms e.exit_code e.outcome e.payload (some current)
        w

  unfoldable pub tell_exit : Heartbeat → ℕ → World → World
  unfolding note_recovery
  tell_exit h code w =
      if code == 0
      then note_recovery f h.id (is_down h.status || is_alerting h.alert_state) w
      else emit (alert_callback h.id (exit_code_failure code)) (emit (alert_event h.id) w)

  -- The ping and the execution that an exit-code ping records.
  unfoldable pub exit_records : Heartbeat → ℕ → Request → ℕ → World → World
  exit_records h code req now w =
      let payload = filter_payload req.payload req.can_store_payload in
      let logged =
        record_ping f
          (record {
            heartbeat_id = h.id;
            ping_type = exit_code;
            exit_code = some code;
            source_ip = req.source_ip;
            http_method = req.http_method;
            payload = payload;
            timestamp = now;
          })
          w in
      let completes = is_started h.status && is_some h.current_run_started_at in
      let execution : HeartbeatExecution = record {
        id = 0;
        heartbeat_id = h.id;
        started_at = none;
        completed_at = some now;
        duration_ms = if completes then elapsed_ms now h.current_run_started_at else none;
        exit_code = some code;
        outcome = if code == 0 then outcome_success else outcome_failure;
        payload = payload;
      } in
      finish_or_add execution now (read_execution f h.id logged) logged

  unfoldable pub exit_known : Heartbeat → ℕ → Request → ℕ → World → World × Result
  unfolding exit_records settle exited tell_exit
  exit_known h code req now w =
      settle f (exited h code now) h.status exit_code (tell_exit h code)
        (exit_records h code req now w)
