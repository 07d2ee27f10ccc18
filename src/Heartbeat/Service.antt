-- ===== src/Heartbeat/Service.antt =====
-- The pings by token and the deadline check of internal/heartbeat/service.go. The clock is an argument.
use maintenant.Base.{ℕ, ◌+◌, none, some, List, [], ◌∷◌, Str, Str_eq, if◌then◌else◌}
use maintenant.Base.Int.{ℤ, in_range}
use maintenant.Heartbeat.Model.{
  down, alerting, outcome_timeout, Heartbeat, deadline_missed, status_changed, alert_event,
  alert_callback, is_started,
}
use maintenant.Heartbeat.Store.{
  get_by_token, update_state, list_overdue, Faults, World, emit, find_by_token,
  update_heartbeat_state, overdue_rows,
}
use maintenant.Heartbeat.Pings.{
  store_error, heartbeat_not_found, invalid_exit_code, Result, err, Request, finish_current,
}
use maintenant.Heartbeat.Transitions.{ping_known, start_known, exit_known}

module _ (f : Faults) where
  abbrev pub by_token : Str → World → (Heartbeat → World → World × Result) → World × Result
  by_token token w act =
      if f get_by_token token
      then (w, err store_error)
      else elim (find_by_token token w.heartbeats) [
        | none ↦ (w, err heartbeat_not_found)
        | some h ↦ act h w
      ]

  unfoldable pub process_ping : Str → Request → ℕ → World → World × Result
  unfolding ping_known
  process_ping token req now w = by_token token w (λ h. ping_known f h req now)

  unfoldable pub process_start_ping : Str → Request → ℕ → World → World × Result
  unfolding start_known
  process_start_ping token req now w = by_token token w (λ h. start_known f h req now)

  unfoldable pub process_exit_code_ping : Str → ℤ → Request → ℕ → World → World × Result
  unfolding exit_known in_range
  process_exit_code_ping token code req now w = elim (in_range 0 255 code) [
    | none ↦ (w, err invalid_exit_code)
    | some c ↦ by_token token w (λ h. exit_known f h c req now)
  ]

  unfoldable pub missed : Heartbeat → Heartbeat
  missed h = record h {
    status = down;
    alert_state = alerting;
    consecutive_failures = h.consecutive_failures + 1;
    consecutive_successes = 0;
  }

  -- The body of the loop of checkDeadlines.
  unfoldable pub miss : ℕ → Heartbeat → World → World
  unfolding update_heartbeat_state missed finish_current
  miss now h w =
      if f update_state h.id
      then w
      else (let written = update_heartbeat_state (missed h) w in
          let executed =
            if is_started h.status
            then finish_current f h.id now none none outcome_timeout none written
            else written in
          emit (alert_callback h.id deadline_missed)
            (emit (alert_event h.id) (emit (status_changed h.id h.status down) executed)))

  unfoldable pub miss_each : ℕ → List Heartbeat → World → World
  unfolding miss
  miss_each now [] w = w
  miss_each now (h ∷ hs) w = miss_each now hs (miss now h w)

  unfoldable pub check_deadlines : ℕ → World → World
  unfolding miss_each overdue_rows
  check_deadlines now w =
      if f list_overdue [] then w else miss_each now (overdue_rows now w.heartbeats) w
