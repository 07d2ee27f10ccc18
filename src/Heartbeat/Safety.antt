-- ===== src/Heartbeat/Safety.antt =====
-- Every run of the heartbeat service keeps the rows sound.
use maintenant.Base.{ℕ, Bool, List, [], ◌∷◌, Str, Str_eq}
use maintenant.Base.Int.{ℤ}
use maintenant.Heartbeat.Store.{Faults, World}
use maintenant.Heartbeat.Pings.{Request}
use maintenant.Heartbeat.Service.{
  process_ping, process_start_ping, process_exit_code_ping, check_deadlines,
}
use maintenant.Heartbeat.Edits.{
  CreateInput, UpdateInput, pause_heartbeat, resume_heartbeat, delete_heartbeat, create_heartbeat,
  update_heartbeat, rotate_ping_token,
}
use maintenant.Heartbeat.Invariant.{Rows}
use maintenant.Heartbeat.Preserve.Checks.{
  process_ping-Rows, process_start_ping-Rows, process_exit_code_ping-Rows, check_deadlines-Rows,
}
use maintenant.Heartbeat.Preserve.Edits.{
  pause_heartbeat-Rows, resume_heartbeat-Rows, delete_heartbeat-Rows, create_heartbeat-Rows,
  update_heartbeat-Rows, rotate_ping_token-Rows,
}

-- The operations of the service, each with its own clock and its own faults.
pub data Op : Type 0 where
  ping start_ping : Str → Request → ℕ → Op
  exit_code_ping : Str → ℤ → Request → ℕ → Op
  deadlines : ℕ → Op
  pause_op resume_op : Str → ℕ → Op
  delete_op : Str → Op
  create_op : (ℕ → Bool) → CreateInput → Str → Str → Op
  update_op : Str → UpdateInput → Op
  rotate_op : Str → Str → Op

unfoldable pub apply : Faults → Op → World → World
unfolding process_ping process_start_ping process_exit_code_ping check_deadlines pause_heartbeat
    resume_heartbeat delete_heartbeat create_heartbeat update_heartbeat rotate_ping_token
apply f (ping token req now) w = (process_ping f token req now w).0
apply f (start_ping token req now) w = (process_start_ping f token req now w).0
apply f (exit_code_ping token code req now) w = (process_exit_code_ping f token code req now w).0
apply f (deadlines now) w = check_deadlines f now w
apply f (pause_op id now) w = (pause_heartbeat f id now w).0
apply f (resume_op id now) w = (resume_heartbeat f id now w).0
apply f (delete_op id) w = (delete_heartbeat f id w).0
apply f (create_op allowed input id token) w = (create_heartbeat f allowed input id token w).0
apply f (update_op id input) w = (update_heartbeat f id input w).0
apply f (rotate_op id token) w = (rotate_ping_token f id token w).0

unfoldable pub run : List (Faults × Op) → World → World
unfolding apply
run [] w = w
run ((f, op) ∷ ops) w = run ops (apply f op w)

apply-Rows : (f : Faults) (op : Op) (w : World) → Rows w.heartbeats → Rows (apply f op w).heartbeats
unfolding apply
apply-Rows f (ping token req now) w r = process_ping-Rows f token req now w r
apply-Rows f (start_ping token req now) w r = process_start_ping-Rows f token req now w r
apply-Rows f (exit_code_ping token code req now) w r =
    process_exit_code_ping-Rows f token code req now w r
apply-Rows f (deadlines now) w r = check_deadlines-Rows f now w r
apply-Rows f (pause_op id now) w r = pause_heartbeat-Rows f id now w r
apply-Rows f (resume_op id now) w r = resume_heartbeat-Rows f id now w r
apply-Rows f (delete_op id) w r = delete_heartbeat-Rows f id w r
apply-Rows f (create_op allowed input id token) w r =
    create_heartbeat-Rows f allowed input id token w r
apply-Rows f (update_op id input) w r = update_heartbeat-Rows f id input w r
apply-Rows f (rotate_op id token) w r = rotate_ping_token-Rows f id token w r

-- If every row stands under its own id and is sound, then after any sequence of pings, deadline checks and
-- calls that change heartbeats, whatever calls of the store fail, so is every row: a started heartbeat
-- has a run and a deadline, one that is up has a deadline, one that is down is alerting, one that is new
-- or paused is not, one of the two streaks is 0, and the interval and the grace are in their bounds.
pub run-Rows :
    (ops : List (Faults × Op)) (w : World) → Rows w.heartbeats → Rows (run ops w).heartbeats
unfolding run
run-Rows [] w r = r
run-Rows ((f, op) ∷ ops) w r = run-Rows ops (apply f op w) (apply-Rows f op w r)
