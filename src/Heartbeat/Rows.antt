-- ===== src/Heartbeat/Rows.antt =====
-- What each operation of the heartbeat service does to the rows of the store.
use maintenant.Base.{
  ℕ, inl, inr, ◌≡◌, refl, ap, ◌∙◌, Bool, ◌&&◌, ◌||◌, Option, none, some, arith, Str, Str_eq,
  if◌then◌else◌, if_elim, Bool-cases,
}
use maintenant.Base.Map.{Map, lookup}
use maintenant.Heartbeat.Model.{
  HeartbeatStatus, PingType, success, start, exit_code, ExecutionOutcome, outcome_timeout,
  is_started, is_down, is_alerting, Heartbeat, HeartbeatPing, HeartbeatExecution,
}
use maintenant.Heartbeat.Store.{
  Faults, World, update_state, update_heartbeat_state, replace, stored,
}
use maintenant.Heartbeat.Pings.{
  record_ping, add_execution, finish_found, read_execution, finish_current, note_recovery, is_some,
  settle, Request,
}
use maintenant.Heartbeat.Transitions.{
  ping_records, start_records, exit_records, tell_exit, finish_or_add, ping_known, start_known,
  exit_known, pinged, started_at, exited,
}
use maintenant.Heartbeat.Service.{miss, missed}

module _ (f : Faults) where
  rows-record_ping : (p : HeartbeatPing) (w : World) → (record_ping f p w).heartbeats ≡ w.heartbeats
  unfolding record_ping
  rows-record_ping p w = ground arith

  rows-add_execution :
      (e : HeartbeatExecution) (w : World) → (add_execution f e w).heartbeats ≡ w.heartbeats
  unfolding add_execution
  rows-add_execution e w = ground arith

  rows-finish_found :
      (id : Str) (now : ℕ) (duration code : Option ℕ) (o : ExecutionOutcome) (p : Option Str)
      (e : Option HeartbeatExecution) (w : World)
      → (finish_found f id now duration code o p e w).heartbeats ≡ w.heartbeats
  unfolding finish_found
  rows-finish_found id now duration code o p none w = refl
  rows-finish_found id now duration code o p (some e) w = ground arith

  pub rows-finish_current :
      (id : Str) (now : ℕ) (duration code : Option ℕ) (o : ExecutionOutcome) (p : Option Str)
      (w : World)
      → (finish_current f id now duration code o p w).heartbeats ≡ w.heartbeats
  unfolding finish_current
  rows-finish_current id now duration code o p w =
      rows-finish_found id now duration code o p (read_execution f id w) w

  rows-finish_or_add :
      (e : HeartbeatExecution) (now : ℕ) (o : Option HeartbeatExecution) (w : World)
      → (finish_or_add f e now o w).heartbeats ≡ w.heartbeats
  unfolding finish_or_add
  rows-finish_or_add e now none w = rows-add_execution e w
  rows-finish_or_add e now (some c) w = rows-finish_found _ _ _ _ _ _ (some c) w

  -- The rows after the state of `h` is written, if it is.
  abbrev pub written : Heartbeat → Map Str Heartbeat → Map Str Heartbeat
  written h m = if f update_state h.id then m else replace (lookup h.id m) (stored h) m

  rows-settle :
      (h : Heartbeat) (previous : HeartbeatStatus) (type : PingType) (after : World → World)
      (w : World)
      → ((v : World) → (after v).heartbeats ≡ v.heartbeats)
      → (settle f h previous type after w).0.heartbeats ≡ written h w.heartbeats
  unfolding settle
  rows-settle h previous type after w keeps = elim (Bool-cases (f update_state h.id)) [
    | inl e ↦ rw e
    | inr e ↦ rw e (keeps _ ∙ ground arith)
  ]

  rows-note_recovery :
      (id : Str) (b : Bool) (w : World) → (note_recovery f id b w).heartbeats ≡ w.heartbeats
  unfolding note_recovery
  rows-note_recovery id b w = ground arith

  rows-tell_exit :
      (h : Heartbeat) (code : ℕ) (w : World) → (tell_exit f h code w).heartbeats ≡ w.heartbeats
  unfolding tell_exit
  rows-tell_exit h code w = ground arith

  rows-ping_records :
      (h : Heartbeat) (req : Request) (now : ℕ) (w : World)
      → (ping_records f h req now w).heartbeats ≡ w.heartbeats
  unfolding ping_records
  rows-ping_records h req now w =
      if_elim (λ (v : World). v.heartbeats ≡ w.heartbeats)
        (is_started h.status && is_some h.current_run_started_at)
        (λ e. rows-finish_current _ _ _ _ _ _ _ ∙ rows-record_ping _ _)
        (λ e. rows-add_execution _ _ ∙ rows-record_ping _ _)

  pub rows-ping_known :
      (h : Heartbeat) (req : Request) (now : ℕ) (w : World)
      → (ping_known f h req now w).0.heartbeats ≡ written (pinged f h now) w.heartbeats
  unfolding ping_known
  rows-ping_known h req now w =
      rows-settle (pinged f h now) h.status success
        (note_recovery f h.id (is_down h.status || is_alerting h.alert_state))
        (ping_records f h req now w)
        (rows-note_recovery h.id (is_down h.status || is_alerting h.alert_state))
      ∙ ap (written (pinged f h now)) (rows-ping_records h req now w)

  rows-start_records :
      (h : Heartbeat) (req : Request) (now : ℕ) (w : World)
      → (start_records f h req now w).heartbeats ≡ w.heartbeats
  unfolding start_records
  rows-start_records h req now w =
      rows-add_execution _ _ ∙ rows-finish_current _ _ _ _ _ _ _ ∙ rows-record_ping _ _

  pub rows-start_known :
      (h : Heartbeat) (req : Request) (now : ℕ) (w : World)
      → (start_known f h req now w).0.heartbeats ≡ written (started_at f h now) w.heartbeats
  unfolding start_known
  rows-start_known h req now w =
      rows-settle (started_at f h now) h.status start (λ v. v) (start_records f h req now w)
        (λ v. refl)
      ∙ ap (written (started_at f h now)) (rows-start_records h req now w)

  rows-exit_records :
      (h : Heartbeat) (code : ℕ) (req : Request) (now : ℕ) (w : World)
      → (exit_records f h code req now w).heartbeats ≡ w.heartbeats
  unfolding exit_records
  rows-exit_records h code req now w = rows-finish_or_add _ _ _ _ ∙ rows-record_ping _ _

  pub rows-exit_known :
      (h : Heartbeat) (code : ℕ) (req : Request) (now : ℕ) (w : World)
      → (exit_known f h code req now w).0.heartbeats ≡ written (exited f h code now) w.heartbeats
  unfolding exit_known
  rows-exit_known h code req now w =
      rows-settle (exited f h code now) h.status exit_code (tell_exit f h code)
        (exit_records f h code req now w) (rows-tell_exit h code)
      ∙ ap (written (exited f h code now)) (rows-exit_records h code req now w)

  pub rows-miss :
      (now : ℕ) (h : Heartbeat) (w : World)
      → (miss f now h w).heartbeats ≡ written (missed f h) w.heartbeats
  unfolding miss
  rows-miss now h w = ground (
    arith,
    rows-finish_current h.id now none none outcome_timeout none
        (update_heartbeat_state (missed f h) w),
  )
