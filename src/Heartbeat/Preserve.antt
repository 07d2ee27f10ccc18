-- ===== src/Heartbeat/Preserve.antt =====
-- A call that begins with a read of one heartbeat keeps the rows sound if its act does.
pub mod Checks
pub mod Edits
use maintenant.Base.{
  ℕ, ◌+◌, ◌*◌, ◌≤◌, ◌≡◌, refl, ap, sym, subst, ◌∙◌, ◌⊎◌, inl, inr, Bool, true, false, not, ◌&&◌,
  ◌||◌, Option, none, some, List, [], length, ◌∷◌, arith, All, Str, Str_eq, if◌then◌else◌, if_elim,
  Bool-cases, Option-cases,
}
use maintenant.Base.Map.{Map, lookup, insert, erase, insert-Each, erase-Each, lookup-Each}
use maintenant.Base.Int.{ℤ, in_range, in_range-bounds}
use maintenant.Heartbeat.Model.{
  Heartbeat, is_paused, created, updated, min_interval_seconds, max_interval_seconds,
}
use maintenant.Heartbeat.Store.{
  Call, get_by_token, get_by_id, get_again, count, create, update, delete, pause, resume,
  list_overdue, Faults, World, emit, find_by_token, overdue_rows, overdue,
}
use maintenant.Heartbeat.Pings.{Error, Request, Result, ok, err}
use maintenant.Heartbeat.Transitions.{
  pinged, started_at, exited, ping_known, start_known, exit_known,
}
use maintenant.Heartbeat.Service.{
  by_token, process_ping, process_start_ping, process_exit_code_ping, missed, miss, miss_each,
  check_deadlines,
}
use maintenant.Heartbeat.Edits.{
  CreateInput, UpdateInput, by_id, reread, paused_row, pause_known, pause_heartbeat, resumed_row,
  resume_known, resume_heartbeat, delete_heartbeat, new_row, create_valid, create_heartbeat,
  updated_row, update_valid, update_known, update_heartbeat, shifted_deadline, valid_grace,
  validate_create_input, is_valid_name, or_in_range, window_from, new_window, name_allowed,
}
use maintenant.Heartbeat.Rows.{
  written, rows-ping_known, rows-start_known, rows-exit_known, rows-miss,
}
use maintenant.Heartbeat.Invariant.{
  IsSound, IsWindow, IsRow, Rows, new_row-IsSound, updated_row-IsSound, pinged-IsSound,
  started_at-IsSound, exited-IsSound, missed-IsSound, paused_row-IsSound, resumed_row-IsSound,
  written-Rows, find_by_token-IsSound,
}

module _ (f : Faults) where
  -- An act on the heartbeat of a token that writes a sound row keeps the rows sound.
  pub by_token-Rows :
      (token : Str) (w : World) (act : Heartbeat → World → World × Result)
      → ((h : Heartbeat) → IsSound h → Rows (act h w).0.heartbeats)
      → Rows w.heartbeats
      → Rows (by_token f token w act).0.heartbeats
  by_token-Rows token w act keeps r =
      if_elim (λ (x : World × Result). Rows x.0.heartbeats) (f get_by_token token) (λ e. r)
        (λ e. elim (Option-cases (find_by_token token w.heartbeats)) [
          | inl miss ↦ rw miss r
          | inr hit ↦
              rw hit.1 (keeps hit.0 (find_by_token-IsSound f token w.heartbeats hit.0 hit.1 r))
        ])

  pub by_id-Rows :
      (call : Call) (id : Str) (w : World) (act : Heartbeat → World → World × Result)
      → ((h : Heartbeat) → IsRow id h → Rows (act h w).0.heartbeats)
      → Rows w.heartbeats
      → Rows (by_id f call id w act).0.heartbeats
  by_id-Rows call id w act keeps r =
      if_elim (λ (x : World × Result). Rows x.0.heartbeats) (f call id) (λ e. r)
        (λ e. elim (Option-cases (lookup id w.heartbeats)) [
          | inl miss ↦ rw miss r
          | inr hit ↦ rw hit.1 (keeps hit.0 (lookup-Each IsRow id hit.0 w.heartbeats hit.1 r))
        ])
