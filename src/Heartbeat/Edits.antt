-- ===== src/Heartbeat/Edits.antt =====
-- The calls of internal/heartbeat/service.go that change a heartbeat by id: create, update, delete, pause,
-- resume and the rotation of its token. The clock and the new ids are arguments.
use maintenant.Base.{
  ℕ, ◌+◌, ◌*◌, ◌-◌, Bool, true, not, ◌&&◌, ◌||◌, Option, none, some, [], Str, Str_eq, length, ltb,
  leb, ◌==◌, str_eq, keep, if◌then◌else◌,
}
use maintenant.Base.Map.{lookup, insert, erase}
use maintenant.Base.Int.{ℤ, in_range}
use maintenant.Heartbeat.Model.{
  new, up, paused, normal, Heartbeat, created, updated, deleted, status_changed, is_up, is_started,
  is_paused, deadline_from, second, min_interval_seconds, max_interval_seconds, max_name_length,
}
use maintenant.Heartbeat.Store.{
  Call, get_by_id, get_again, count, create, update, delete, pause, resume, rotate, Faults, World,
  emit, close_pause, stored_time,
}
use maintenant.Heartbeat.Pings.{
  Error, store_error, heartbeat_not_found, invalid_input, limit_reached, Result, ok, err, is_some,
}

-- CreateHeartbeatInput and UpdateHeartbeatInput.
pub record CreateInput : Type 0 where
  pub name : Str
  pub interval_seconds : ℤ
  pub grace_seconds : ℤ

pub record UpdateInput : Type 0 where
  pub name : Option Str
  pub interval_seconds : Option ℤ
  pub grace_seconds : Option ℤ

abbrev pub is_valid_name : Str → Bool
is_valid_name name = not (length name == 0) && leb (length name) max_name_length

-- A field of an update: the old value if it is absent, none if it is out of range.
unfoldable pub or_in_range : ℕ → ℕ → ℕ → Option ℤ → Option ℕ
unfolding in_range
or_in_range low high old none = some old
or_in_range low high old (some n) = in_range low high n

-- The interval and the grace that validateCreateInput lets through.
unfoldable pub valid_grace : Option ℕ → ℤ → Option (ℕ × ℕ)
unfolding in_range
valid_grace none grace = none
valid_grace (some interval) grace = elim (in_range 0 interval grace) [
  | none ↦ none
  | some g ↦ some (interval, g)
]

unfoldable pub validate_create_input : CreateInput → Option (ℕ × ℕ)
unfolding valid_grace
validate_create_input input =
    if is_valid_name input.name
    then valid_grace (in_range min_interval_seconds max_interval_seconds input.interval_seconds)
        input.grace_seconds
    else none

module _ (f : Faults) where
  -- A read by id: `get_by_id` for the one that begins a call, `get_again` for the one that ends it.
  abbrev pub by_id : Call → Str → World → (Heartbeat → World → World × Result) → World × Result
  by_id call id w act =
      if f call id
      then (w, err store_error)
      else elim (lookup id w.heartbeats) [ none ↦ (w, err heartbeat_not_found) | some h ↦ act h w ]

  -- The read that ends a call; its failure is the result, after the change.
  unfoldable pub reread : Str → World → World × Result
  reread id w = by_id get_again id w (λ h w'. (w', ok h))

  unfoldable pub paused_row : Heartbeat → Heartbeat
  paused_row h = record h { status = paused; alert_state = normal; next_deadline_at = none }

  unfoldable pub pause_known : Str → ℕ → Heartbeat → World → World × Result
  unfolding paused_row reread
  pause_known id now h w =
      if is_paused h.status
      then (w, err invalid_input)
      else (if f pause id
          then (w, err store_error)
          else reread id (
              emit (status_changed id h.status paused) (record w {
                heartbeats = insert id (paused_row h) w.heartbeats;
                open_pauses = insert id now w.open_pauses;
              })))

  unfoldable pub pause_heartbeat : Str → ℕ → World → World × Result
  unfolding pause_known
  pause_heartbeat id now w = by_id get_by_id id w (pause_known id now)

  unfoldable pub resumed_row : Heartbeat → ℕ → Heartbeat
  resumed_row h now = record h {
    status = up;
    next_deadline_at = some (stored_time (deadline_from now h));
  }

  unfoldable pub resume_known : Str → ℕ → Heartbeat → World → World × Result
  unfolding resumed_row close_pause reread
  resume_known id now h w =
      if not (is_paused h.status)
      then (w, err invalid_input)
      else (if f resume id
          then (w, err store_error)
          else reread id (
              emit (status_changed id paused up) (
                close_pause id
                  (record w { heartbeats = insert id (resumed_row h now) w.heartbeats }))))

  unfoldable pub resume_heartbeat : Str → ℕ → World → World × Result
  unfolding resume_known
  resume_heartbeat id now w = by_id get_by_id id w (resume_known id now)

  -- The pings, executions and pauses of the heartbeat go with it.
  unfoldable pub delete_heartbeat : Str → World → World × Option Error
  delete_heartbeat id w =
      if f get_by_id id then (w, some store_error) else elim (lookup id w.heartbeats) [
        | none ↦ (w, some heartbeat_not_found)
        | some h ↦ if f delete id then (w, some store_error) else (
          emit (deleted id) (record w {
            heartbeats = erase id w.heartbeats;
            open_pauses = erase id w.open_pauses;
            pings = keep (λ p. not (str_eq p.heartbeat_id id)) w.pings;
            executions = keep (λ e. not (str_eq e.heartbeat_id id)) w.executions;
          }),
          none,
        )
      ]

  -- The row of CreateHeartbeat, under a fresh id.
  unfoldable pub new_row : CreateInput → Str → Str → ℕ → ℕ → Heartbeat
  new_row input id token interval grace = record {
    id = id;
    ping_token = token;
    name = input.name;
    status = new;
    alert_state = normal;
    interval_seconds = interval;
    grace_seconds = grace;
    last_ping_at = none;
    next_deadline_at = none;
    current_run_started_at = none;
    last_exit_code = none;
    last_duration_ms = none;
    consecutive_failures = 0;
    consecutive_successes = 0;
  }

  unfoldable pub create_valid :
      (ℕ → Bool) → CreateInput → Str → Str → Option (ℕ × ℕ) → World → World × Result
  unfolding new_row
  create_valid allowed input id token none w = (w, err invalid_input)
  create_valid allowed input id token (some (interval, grace)) w =
      let w' = record w {
        heartbeats = insert id (new_row input id token interval grace) w.heartbeats;
      } in
      if f count []
      then (w, err store_error)
      else (if not (allowed (length w.heartbeats))
          then (w, err limit_reached)
          else (if f create id
              then (w, err store_error)
              else by_id get_again id w' (λ h v. (emit (created id) v, ok h))))

  -- `allowed` is CanCreateHeartbeat of the licence.
  unfoldable pub create_heartbeat : (ℕ → Bool) → CreateInput → Str → Str → World → World × Result
  unfolding create_valid validate_create_input
  create_heartbeat allowed input id token w =
      create_valid allowed input id token (validate_create_input input) w

  -- The checks of UpdateHeartbeat on the numbers: the interval and the grace that the row will have.
  -- With neither given, the row's own grace is not checked.
  unfoldable pub window_from : Heartbeat → UpdateInput → Option ℕ → Option (ℕ × ℕ)
  unfolding or_in_range
  window_from h input none = none
  window_from h input (some interval) =
      if is_some input.interval_seconds || is_some input.grace_seconds
      then (elim (or_in_range 0 interval h.grace_seconds input.grace_seconds) [
        | none ↦ none
        | some grace ↦ if ltb interval grace then none else some (interval, grace)
      ])
      else some (h.interval_seconds, h.grace_seconds)

  unfoldable pub new_window : Heartbeat → UpdateInput → Option (ℕ × ℕ)
  unfolding window_from
  new_window h input = window_from h input (
      or_in_range min_interval_seconds max_interval_seconds h.interval_seconds
        input.interval_seconds)

  -- The UPDATE: a running deadline, which is more than a window after the epoch, is moved from the old
  -- window to the new one.
  unfoldable pub shifted_deadline : Heartbeat → ℕ → ℕ → Option ℕ → Option ℕ
  shifted_deadline h interval grace none = none
  shifted_deadline h interval grace (some deadline) =
      if is_up h.status || is_started h.status
      then some
          (deadline + (interval + grace) * second - (h.interval_seconds + h.grace_seconds) * second)
      else some deadline

  unfoldable pub updated_row : Heartbeat → Option Str → ℕ → ℕ → Heartbeat
  unfolding shifted_deadline
  updated_row h name interval grace = record h {
    name = elim name [ none ↦ h.name | some n ↦ n ];
    interval_seconds = interval;
    grace_seconds = grace;
    next_deadline_at = shifted_deadline h interval grace h.next_deadline_at;
  }

  unfoldable pub update_valid :
      Str → Option Str → Heartbeat → Option (ℕ × ℕ) → World → World × Result
  unfolding updated_row
  update_valid id name h none w = (w, err invalid_input)
  update_valid id name h (some (interval, grace)) w =
      if f update id
      then (w, err store_error)
      else by_id get_again id
          (record w { heartbeats = insert id (updated_row h name interval grace) w.heartbeats })
          (λ h' v. (emit (updated id) v, ok h'))

  abbrev pub name_allowed : Option Str → Bool
  name_allowed none = true
  name_allowed (some n) = is_valid_name n

  unfoldable pub update_known : Str → UpdateInput → Heartbeat → World → World × Result
  unfolding update_valid new_window
  update_known id input h w =
      if name_allowed input.name
      then update_valid id input.name h (new_window h input) w
      else (w, err invalid_input)

  unfoldable pub update_heartbeat : Str → UpdateInput → World → World × Result
  unfolding update_known
  update_heartbeat id input w = by_id get_by_id id w (update_known id input)

  unfoldable pub rotated : Str → Str → Option Heartbeat → World → World × Result
  unfolding reread
  rotated id token none w = (w, err heartbeat_not_found)
  rotated id token (some h) w =
      reread id (record w { heartbeats = insert id (record h { ping_token = token }) w.heartbeats })

  unfoldable pub rotate_ping_token : Str → Str → World → World × Result
  unfolding rotated
  rotate_ping_token id token w =
      if f rotate id then (w, err store_error) else rotated id token (lookup id w.heartbeats) w
