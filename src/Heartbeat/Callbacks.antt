-- ===== src/Heartbeat/Callbacks.antt =====
-- Which alert callbacks the pings and the deadline check make.
use maintenant.Base.{
  ℕ, suc, ◌+◌, ◌≡◌, refl, ◌∙◌, Bool, true, false, not, ◌&&◌, ◌||◌, Option, none, some, List, [],
  ◌∷◌, arith, Str, str_eq, str_eq_iff, ◌==◌, if◌then◌else◌, if_elim,
}
use maintenant.Heartbeat.Model.{
  ExecutionOutcome, outcome_timeout, is_started, is_down, is_alerting, Heartbeat, HeartbeatPing,
  HeartbeatExecution, Effect, created, updated, deleted, ping_received, status_changed, alert_event,
  recovery_event, alert_callback, recovery_callback,
}
use maintenant.Heartbeat.Store.{
  Faults, World, update_state, list_overdue, overdue_rows, update_heartbeat_state,
  insert_execution_row, close_pause,
}
use maintenant.Heartbeat.Pings.{
  record_ping, add_execution, finish_found, read_execution, finish_current, leave_pause,
  note_change, note_recovery, is_some, settle, Request,
}
use maintenant.Heartbeat.Transitions.{
  ping_records, exit_records, tell_exit, finish_or_add, ping_known, exit_known, pinged, exited,
}
use maintenant.Heartbeat.Service.{miss, missed, miss_each, check_deadlines}

-- How many alerts and recoveries of the heartbeat the callback got.
abbrev pub alerts : Str → List Effect → ℕ
alerts id [] = 0
alerts id (alert_callback i t ∷ out) =
    let rest = alerts id out in if str_eq i id then suc rest else rest
alerts id (recovery_callback i ∷ out) = alerts id out
alerts id (created i ∷ out) = alerts id out
alerts id (updated i ∷ out) = alerts id out
alerts id (deleted i ∷ out) = alerts id out
alerts id (ping_received i t s ∷ out) = alerts id out
alerts id (status_changed i s t ∷ out) = alerts id out
alerts id (alert_event i ∷ out) = alerts id out
alerts id (recovery_event i ∷ out) = alerts id out

abbrev pub recoveries : Str → List Effect → ℕ
recoveries id [] = 0
recoveries id (recovery_callback i ∷ out) =
    let rest = recoveries id out in if str_eq i id then suc rest else rest
recoveries id (alert_callback i t ∷ out) = recoveries id out
recoveries id (created i ∷ out) = recoveries id out
recoveries id (updated i ∷ out) = recoveries id out
recoveries id (deleted i ∷ out) = recoveries id out
recoveries id (ping_received i t s ∷ out) = recoveries id out
recoveries id (status_changed i s t ∷ out) = recoveries id out
recoveries id (alert_event i ∷ out) = recoveries id out
recoveries id (recovery_event i ∷ out) = recoveries id out

abbrev pub count : Bool → ℕ
count true = 1
count false = 0

module _ (f : Faults) where
  out-record_ping : (p : HeartbeatPing) (w : World) → (record_ping f p w).out ≡ w.out
  unfolding record_ping
  out-record_ping p w = ground arith

  out-add_execution : (e : HeartbeatExecution) (w : World) → (add_execution f e w).out ≡ w.out
  unfolding add_execution insert_execution_row
  out-add_execution e w = ground arith

  out-finish_found :
      (id : Str) (now : ℕ) (duration code : Option ℕ) (o : ExecutionOutcome) (p : Option Str)
      (e : Option HeartbeatExecution) (w : World)
      → (finish_found f id now duration code o p e w).out ≡ w.out
  unfolding finish_found
  out-finish_found id now duration code o p none w = refl
  out-finish_found id now duration code o p (some e) w = ground arith

  out-finish_current :
      (id : Str) (now : ℕ) (duration code : Option ℕ) (o : ExecutionOutcome) (p : Option Str)
      (w : World)
      → (finish_current f id now duration code o p w).out ≡ w.out
  unfolding finish_current
  out-finish_current id now duration code o p w =
      out-finish_found id now duration code o p (read_execution f id w) w

  out-finish_or_add :
      (e : HeartbeatExecution) (now : ℕ) (o : Option HeartbeatExecution) (w : World)
      → (finish_or_add f e now o w).out ≡ w.out
  unfolding finish_or_add
  out-finish_or_add e now none w = out-add_execution e w
  out-finish_or_add e now (some c) w = out-finish_found _ _ _ _ _ _ (some c) w

  out-ping_records :
      (h : Heartbeat) (req : Request) (now : ℕ) (w : World)
      → (ping_records f h req now w).out ≡ w.out
  unfolding ping_records
  out-ping_records h req now w =
      if_elim (λ (v : World). v.out ≡ w.out)
        (is_started h.status && is_some h.current_run_started_at)
        (λ e. out-finish_current _ _ _ _ _ _ _ ∙ out-record_ping _ _)
        (λ e. out-add_execution _ _ ∙ out-record_ping _ _)

  out-exit_records :
      (h : Heartbeat) (code : ℕ) (req : Request) (now : ℕ) (w : World)
      → (exit_records f h code req now w).out ≡ w.out
  unfolding exit_records
  out-exit_records h code req now w = out-finish_or_add _ _ _ _ ∙ out-record_ping _ _

  -- A ping of a heartbeat whose state is written makes one recovery callback if the heartbeat was down
  -- or alerting, none otherwise, and no alert callback.
  pub ping_callbacks :
      (h : Heartbeat) (req : Request) (now : ℕ) (w : World)
      → f update_state h.id ≡ false
      → let out = (ping_known f h req now w).0.out in
        (recoveries h.id out
          ≡ recoveries h.id w.out + count (is_down h.status || is_alerting h.alert_state))
        × (alerts h.id out ≡ alerts h.id w.out)
  unfolding ping_known settle pinged leave_pause note_change note_recovery update_heartbeat_state
      close_pause
  ping_callbacks h req now w works =
      ground (arith, out-ping_records h req now w, str_eq_iff h.id h.id)

  -- An exit-code ping of a heartbeat whose state is written makes one alert callback for a code other
  -- than 0, and for the code 0 one recovery callback if the heartbeat was down or alerting; it makes no
  -- other callback.
  pub exit_callbacks :
      (h : Heartbeat) (code : ℕ) (req : Request) (now : ℕ) (w : World)
      → f update_state h.id ≡ false
      → let out = (exit_known f h code req now w).0.out in
        (recoveries h.id out
          ≡ recoveries h.id w.out
            + count (code == 0 && (is_down h.status || is_alerting h.alert_state)))
        × (alerts h.id out ≡ alerts h.id w.out + count (not (code == 0)))
  unfolding exit_known settle exited leave_pause note_change note_recovery tell_exit
      update_heartbeat_state close_pause
  exit_callbacks h code req now w works =
      ground (arith, out-exit_records h code req now w, str_eq_iff h.id h.id)

  -- How many of the heartbeats stand under the id and can be written.
  abbrev pub reported : Str → List Heartbeat → ℕ
  reported id [] = 0
  reported id (h ∷ hs) = count (str_eq h.id id && not (f update_state h.id)) + reported id hs

  out-miss :
      (now : ℕ) (h : Heartbeat) (w : World) (id : Str)
      → (alerts id (miss f now h w).out
          ≡ alerts id w.out + count (str_eq h.id id && not (f update_state h.id)))
        × (recoveries id (miss f now h w).out ≡ recoveries id w.out)
  unfolding miss update_heartbeat_state
  out-miss now h w id = ground (
    arith,
    out-finish_current h.id now none none outcome_timeout none
        (update_heartbeat_state (missed f h) w),
  )

  out-miss_each :
      (now : ℕ) (hs : List Heartbeat) (w : World) (id : Str)
      → (alerts id (miss_each f now hs w).out ≡ alerts id w.out + reported id hs)
        × (recoveries id (miss_each f now hs w).out ≡ recoveries id w.out)
  unfolding miss_each
  out-miss_each now [] w id = ground arith
  out-miss_each now (h ∷ hs) w id =
      let first = out-miss now h w id in
      let rest = out-miss_each now hs (miss f now h w) id in
      (omega (arith, first.0, rest.0), rest.1 ∙ first.1)

  -- A deadline check whose list can be read makes one alert callback for each heartbeat that is overdue
  -- and whose state is written, and no recovery callback; without the list it makes none.
  pub deadline_callbacks :
      (now : ℕ) (w : World) (id : Str)
      → (alerts id (check_deadlines f now w).out
          ≡ alerts id w.out
            + (if f list_overdue [] then 0 else reported id (overdue_rows now w.heartbeats)))
        × (recoveries id (check_deadlines f now w).out ≡ recoveries id w.out)
  unfolding check_deadlines
  deadline_callbacks now w id =
      ground (arith, out-miss_each now (overdue_rows now w.heartbeats) w id)
