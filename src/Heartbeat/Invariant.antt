-- ===== src/Heartbeat/Invariant.antt =====
-- What always holds of the rows of the heartbeats.
use maintenant.Base.{
  ℕ, ◌≤◌, ◌≡◌, refl, subst, ◌⊎◌, inl, inr, true, Option, none, some, [], ◌∷◌, arith, Str, Str_eq,
  if_elim, Bool-cases, str_eq,
}
use maintenant.Base.Map.{Map, lookup, Each, insert-Each}
use maintenant.Heartbeat.Model.{
  new, up, down, started, paused, normal, alerting, Heartbeat, min_interval_seconds,
  max_interval_seconds,
}
use maintenant.Heartbeat.Store.{Faults, update_state, replace, stored, find_by_token}
use maintenant.Heartbeat.Pings.{is_some}
use maintenant.Heartbeat.Transitions.{pinged, started_at, exited}
use maintenant.Heartbeat.Service.{missed, miss}
use maintenant.Heartbeat.Edits.{
  CreateInput, paused_row, resumed_row, new_row, updated_row, shifted_deadline,
}
use maintenant.Heartbeat.Rows.{written}

-- A started heartbeat has a run; one that is up or started has a deadline; one that is down is
-- alerting, and one that is new or paused is not; a streak of failures and one of successes exclude
-- each other; the window is one that the service accepts.
pub record IsSound (h : Heartbeat) : Type 0 where
  pub running : h.status ≡ started → is_some h.current_run_started_at ≡ true
  pub up_timed : h.status ≡ up → is_some h.next_deadline_at ≡ true
  pub started_timed : h.status ≡ started → is_some h.next_deadline_at ≡ true
  pub down_alerting : h.status ≡ down → h.alert_state ≡ alerting
  pub paused_calm : h.status ≡ paused → h.alert_state ≡ normal
  pub new_calm : h.status ≡ new → h.alert_state ≡ normal
  pub one_streak : (h.consecutive_failures ≡ 0) ⊎ (h.consecutive_successes ≡ 0)
  pub interval_low : min_interval_seconds ≤ h.interval_seconds
  pub interval_high : h.interval_seconds ≤ max_interval_seconds
  pub grace : h.grace_seconds ≤ h.interval_seconds

-- Every row stands under its own id and is sound.
abbrev pub IsRow : Str → Heartbeat → Type 0
IsRow id h = (h.id ≡ id) × IsSound h

abbrev pub Rows : Map Str Heartbeat → Type 0
Rows = Each IsRow

-- An interval and a grace that the service accepts.
abbrev pub IsWindow : ℕ → ℕ → Type 0
IsWindow interval grace =
    (min_interval_seconds ≤ interval) × (interval ≤ max_interval_seconds) × (grace ≤ interval)

stored-IsSound : (h : Heartbeat) → IsSound h → IsSound (stored h)
stored-IsSound h s = ground arith

module _ (f : Faults) where
  pub pinged-IsSound : (h : Heartbeat) (now : ℕ) → IsSound h → IsSound (pinged f h now)
  unfolding pinged
  pinged-IsSound h now s = ground arith

  pub started_at-IsSound : (h : Heartbeat) (now : ℕ) → IsSound h → IsSound (started_at f h now)
  unfolding started_at
  started_at-IsSound h now s = ground arith

  pub exited-IsSound : (h : Heartbeat) (code now : ℕ) → IsSound h → IsSound (exited f h code now)
  unfolding exited
  exited-IsSound h code now s = ground arith

  pub missed-IsSound : (h : Heartbeat) → IsSound h → IsSound (missed f h)
  unfolding missed
  missed-IsSound h s = ground arith

  pub paused_row-IsSound : (h : Heartbeat) → IsSound h → IsSound (paused_row f h)
  unfolding paused_row
  paused_row-IsSound h s = ground arith

  pub resumed_row-IsSound : (h : Heartbeat) (now : ℕ) → IsSound h → IsSound (resumed_row f h now)
  unfolding resumed_row
  resumed_row-IsSound h now s = ground arith

  replace-Rows :
      (o : Option Heartbeat) (h : Heartbeat) (m : Map Str Heartbeat)
      → IsSound h
      → Rows m
      → Rows (replace o h m)
  unfolding replace
  replace-Rows none h m s r = r
  replace-Rows (some old) h m s r = insert-Each IsRow h.id h m (refl, s) r

  pub written-Rows :
      (h : Heartbeat) (m : Map Str Heartbeat) → IsSound h → Rows m → Rows (written f h m)
  written-Rows h m s r =
      if_elim Rows (f update_state h.id) (λ e. r)
        (λ e. replace-Rows (lookup h.id m) (stored h) m (stored-IsSound h s) r)

  pub find_by_token-IsSound :
      (token : Str) (m : Map Str Heartbeat) (h : Heartbeat)
      → find_by_token token m ≡ some h
      → Rows m
      → IsSound h
  unfolding find_by_token
  find_by_token-IsSound token [] h e r = cc
  find_by_token-IsSound token ((i, v) ∷ m) h e r = elim (Bool-cases (str_eq v.ping_token token)) [
    | inl hit ↦ let same : v ≡ h = ground arith in subst IsSound same r.0.1
    | inr miss ↦ find_by_token-IsSound token m h (ground arith) r.1
  ]

  pub new_row-IsSound :
      (input : CreateInput) (id token : Str) (interval grace : ℕ)
      → IsWindow interval grace
      → IsSound (new_row f input id token interval grace)
  unfolding new_row
  new_row-IsSound input id token interval grace wd = ground arith

  pub updated_row-IsSound :
      (h : Heartbeat) (name : Option Str) (interval grace : ℕ)
      → IsSound h
      → IsWindow interval grace
      → IsSound (updated_row f h name interval grace)
  unfolding updated_row shifted_deadline
  updated_row-IsSound h name interval grace s wd = ground arith
