-- ===== src/Tests/Heartbeats.antt =====
-- internal/heartbeat: a backup job that is late, paused and resumed.
use maintenant.Base.{
  ℕ, ◌≡◌, refl, inr, true, false, none, some, List, [], ◌∷◌, arith, Str_eq, str_eq, lit,
}
use maintenant.Base.Map.{lookup, insert}
use maintenant.Base.Int.{pos}
use maintenant.Heartbeat.Model.{
  up, down, paused, alerting, normal, Heartbeat, status_changed, deadline_from,
}
use maintenant.Heartbeat.Store.{Faults, World, stored_time, update_state, replace}
use maintenant.Heartbeat.Pings.{Request}
use maintenant.Heartbeat.Service.{missed, check_deadlines}
use maintenant.Heartbeat.Edits.{pause_heartbeat, resume_heartbeat}
use maintenant.Heartbeat.Invariant.{Rows}
use maintenant.Heartbeat.Safety.{
  Op, ping, start_ping, exit_code_ping, deadlines, pause_op, resume_op, run, run-Rows,
}
use maintenant.Heartbeat.Outcomes.{InTime, check_deadlines_settles, pause_resume}

abbrev no_faults : Faults
no_faults call id = false

abbrev only_state_fails : Faults
only_state_fails update_state id = true
only_state_fails _ id = false

abbrev backup : Heartbeat
backup = record {
  id = lit "h1";
  ping_token = lit "token";
  name = lit "backup";
  status = up;
  alert_state = alerting;
  interval_seconds = 3600;
  grace_seconds = 60;
  last_ping_at = some 1_000_000_000;
  next_deadline_at = some 3_661_000_000_000;
  current_run_started_at = none;
  last_exit_code = some 2;
  last_duration_ms = none;
  consecutive_failures = 1;
  consecutive_successes = 0;
}

abbrev world : World
world = record {
  heartbeats = (lit "h1", backup) ∷ [];
  pings = [];
  executions = [];
  next_execution = 1;
  open_pauses = [];
  out = [];
}

abbrev late : ℕ
late = 4_000_000_000_000

abbrev request : Request
request = record {
  source_ip = lit "192.0.2.7";
  http_method = lit "POST";
  payload = some (lit "done");
  can_store_payload = true;
}

world-Rows : Rows world.heartbeats
world-Rows = (
  (
    refl,
    record {
      running = λ e. cc;
      up_timed = λ e. refl;
      started_timed = λ e. cc;
      down_alerting = λ e. cc;
      paused_calm = λ e. cc;
      new_calm = λ e. cc;
      one_streak = inr refl;
      interval_low = omega arith;
      interval_high = omega arith;
      grace = omega arith;
    },
  ),
  tt,
)

abbrev day_of_ops : List (Faults × Op)
day_of_ops =
    (no_faults, deadlines late)
    ∷ (no_faults, start_ping (lit "token") request late)
    ∷ (only_state_fails, exit_code_ping (lit "token") (pos 1) request late)
    ∷ (no_faults, pause_op (lit "h1") late)
    ∷ (no_faults, resume_op (lit "h1") late)
    ∷ (no_faults, ping (lit "token") request late)
    ∷ []

run-Rows_example : Rows (run day_of_ops world).heartbeats
run-Rows_example = run-Rows day_of_ops world world-Rows

check_deadlines_settles_example : InTime late down (some 3_661_000_000_000)
unfolding check_deadlines missed replace lookup insert str_eq
check_deadlines_settles_example =
    check_deadlines_settles no_faults late world (lit "h1")
      (record backup { status = down; consecutive_failures = 2 }) (λ j. refl) refl world-Rows refl

pause_resume_example :
    (lookup
        (lit "h1")
        (resume_heartbeat no_faults
          (lit "h1")
          late
          (pause_heartbeat no_faults (lit "h1") late world).0).0.heartbeats
      ≡ some (record backup {
        status = up;
        alert_state = normal;
        next_deadline_at = some (stored_time (deadline_from late backup));
      }))
    × ((resume_heartbeat no_faults
          (lit "h1")
          late
          (pause_heartbeat no_faults (lit "h1") late world).0).0.out
        ≡ status_changed (lit "h1") paused up ∷ status_changed (lit "h1") up paused ∷ [])
unfolding lookup str_eq
pause_resume_example =
    pause_resume no_faults (lit "h1") late late world backup (λ c j. refl) refl refl
