-- ===== src/Heartbeat/Preserve/Checks.antt =====
-- The three pings and the deadline check keep the rows sound.
use maintenant.Base.{
  ℕ, sym, subst, inl, inr, List, [], ◌∷◌, All, Str, Str_eq, if_elim, Option-cases,
}
use maintenant.Base.Map.{Map}
use maintenant.Base.Int.{ℤ, in_range}
use maintenant.Heartbeat.Model.{Heartbeat}
use maintenant.Heartbeat.Store.{Faults, World, overdue_rows, overdue}
use maintenant.Heartbeat.Pings.{Request}
use maintenant.Heartbeat.Transitions.{
  pinged, started_at, exited, ping_known, start_known, exit_known,
}
use maintenant.Heartbeat.Service.{
  process_ping, process_start_ping, process_exit_code_ping, missed, miss, miss_each,
  check_deadlines,
}
use maintenant.Heartbeat.Rows.{rows-ping_known, rows-start_known, rows-exit_known, rows-miss}
use maintenant.Heartbeat.Invariant.{
  IsSound, Rows, pinged-IsSound, started_at-IsSound, exited-IsSound, missed-IsSound, written-Rows,
}
use maintenant.Heartbeat.Preserve.{by_token-Rows}

abbrev AllSound : List Heartbeat → Type 0
AllSound = All IsSound

overdue_rows-AllSound : (now : ℕ) (m : Map Str Heartbeat) → Rows m → AllSound (overdue_rows now m)
unfolding overdue_rows
overdue_rows-AllSound now [] r = tt
overdue_rows-AllSound now ((id, h) ∷ m) r =
    if_elim AllSound (overdue now h) (λ e. (r.0.1, overdue_rows-AllSound now m r.1))
      (λ e. overdue_rows-AllSound now m r.1)

module _ (f : Faults) where
  pub process_ping-Rows :
      (token : Str) (req : Request) (now : ℕ) (w : World)
      → Rows w.heartbeats
      → Rows (process_ping f token req now w).0.heartbeats
  unfolding process_ping
  process_ping-Rows token req now w r =
      by_token-Rows f token w (λ h. ping_known f h req now)
        (λ h s.
          subst Rows (sym (rows-ping_known f h req now w))
            (written-Rows f (pinged f h now) w.heartbeats (pinged-IsSound f h now s) r))
        r

  pub process_start_ping-Rows :
      (token : Str) (req : Request) (now : ℕ) (w : World)
      → Rows w.heartbeats
      → Rows (process_start_ping f token req now w).0.heartbeats
  unfolding process_start_ping
  process_start_ping-Rows token req now w r =
      by_token-Rows f token w (λ h. start_known f h req now)
        (λ h s.
          subst Rows (sym (rows-start_known f h req now w))
            (written-Rows f (started_at f h now) w.heartbeats (started_at-IsSound f h now s) r))
        r

  pub process_exit_code_ping-Rows :
      (token : Str) (code : ℤ) (req : Request) (now : ℕ) (w : World)
      → Rows w.heartbeats
      → Rows (process_exit_code_ping f token code req now w).0.heartbeats
  unfolding process_exit_code_ping
  process_exit_code_ping-Rows token code req now w r = elim (Option-cases (in_range 0 255 code)) [
    | inl bad ↦ rw (bad, process_exit_code_ping) r
    | inr (c, good) ↦
        rw (good, process_exit_code_ping)
          (by_token-Rows f token w (λ h. exit_known f h c req now)
            (λ h s.
              subst Rows (sym (rows-exit_known f h c req now w))
                (written-Rows f (exited f h c now) w.heartbeats (exited-IsSound f h c now s) r))
            r)
  ]

  miss_each-Rows :
      (now : ℕ) (hs : List Heartbeat) (w : World)
      → AllSound hs
      → Rows w.heartbeats
      → Rows (miss_each f now hs w).heartbeats
  unfolding miss_each
  miss_each-Rows now [] w s r = r
  miss_each-Rows now (h ∷ hs) w s r = miss_each-Rows now hs (miss f now h w) s.1 (
      subst Rows (sym (rows-miss f now h w))
        (written-Rows f (missed f h) w.heartbeats (missed-IsSound f h s.0) r))

  pub check_deadlines-Rows :
      (now : ℕ) (w : World) → Rows w.heartbeats → Rows (check_deadlines f now w).heartbeats
  unfolding check_deadlines
  check_deadlines-Rows now w r =
      if_elim (λ (v : World). Rows v.heartbeats) _ (λ e. r)
        (λ e.
          miss_each-Rows now (overdue_rows now w.heartbeats) w
            (overdue_rows-AllSound now w.heartbeats r) r)
