-- ===== src/Heartbeat/Preserve/Edits.antt =====
-- Pause, resume, delete, create and update keep the rows sound.
use maintenant.Base.{
  ℕ, ◌≤◌, ◌≡◌, refl, ◌⊎◌, inl, inr, Bool, not, Option, none, some, [], length, arith, Str, Str_eq,
  if_elim, Bool-cases, Option-cases,
}
use maintenant.Base.Map.{lookup-Each, lookup, insert-Each, erase-Each}
use maintenant.Base.Int.{ℤ, in_range, in_range-bounds}
use maintenant.Heartbeat.Model.{
  Heartbeat, is_paused, created, updated, min_interval_seconds, max_interval_seconds,
}
use maintenant.Heartbeat.Store.{
  get_by_id, get_again, count, create, update, delete, pause, resume, rotate, Faults, World, emit,
}
use maintenant.Heartbeat.Pings.{Error, Result, ok}
use maintenant.Heartbeat.Service.{miss}
use maintenant.Heartbeat.Edits.{
  CreateInput, UpdateInput, reread, paused_row, pause_known, pause_heartbeat, resumed_row,
  resume_known, resume_heartbeat, delete_heartbeat, new_row, create_valid, create_heartbeat,
  updated_row, update_valid, update_known, update_heartbeat, rotated, rotate_ping_token,
  valid_grace, validate_create_input, is_valid_name, or_in_range, window_from, new_window,
  name_allowed,
}
use maintenant.Heartbeat.Invariant.{
  IsSound, IsWindow, IsRow, Rows, new_row-IsSound, updated_row-IsSound, paused_row-IsSound,
  resumed_row-IsSound,
}
use maintenant.Heartbeat.Preserve.{by_id-Rows}

module _ (f : Faults) where
  reread-Rows : (id : Str) (w : World) → Rows w.heartbeats → Rows (reread f id w).0.heartbeats
  unfolding reread
  reread-Rows id w r = by_id-Rows f get_again id w (λ h v. (v, ok h)) (λ h s. r) r

  pause_known-Rows :
      (id : Str) (now : ℕ) (h : Heartbeat) (w : World)
      → IsRow id h
      → Rows w.heartbeats
      → Rows (pause_known f id now h w).0.heartbeats
  unfolding pause_known
  pause_known-Rows id now h w s r =
      if_elim (λ (x : World × Result). Rows x.0.heartbeats) (is_paused h.status) (λ e. r)
        (λ e.
          if_elim (λ (x : World × Result). Rows x.0.heartbeats) (f pause id) (λ e'. r)
            (λ e'. reread-Rows id _ (
              insert-Each IsRow id (paused_row f h) w.heartbeats (s.0, paused_row-IsSound f h s.1)
                r)))

  pub pause_heartbeat-Rows :
      (id : Str) (now : ℕ) (w : World)
      → Rows w.heartbeats
      → Rows (pause_heartbeat f id now w).0.heartbeats
  unfolding pause_heartbeat
  pause_heartbeat-Rows id now w r =
      by_id-Rows f get_by_id id w (pause_known f id now) (λ h s. pause_known-Rows id now h w s r) r

  resume_known-Rows :
      (id : Str) (now : ℕ) (h : Heartbeat) (w : World)
      → IsRow id h
      → Rows w.heartbeats
      → Rows (resume_known f id now h w).0.heartbeats
  unfolding resume_known
  resume_known-Rows id now h w s r =
      if_elim (λ (x : World × Result). Rows x.0.heartbeats) (not (is_paused h.status)) (λ e. r)
        (λ e.
          if_elim (λ (x : World × Result). Rows x.0.heartbeats) (f resume id) (λ e'. r)
            (λ e'. reread-Rows id _ (
              insert-Each IsRow id (resumed_row f h now) w.heartbeats
                (s.0, resumed_row-IsSound f h now s.1) r)))

  pub resume_heartbeat-Rows :
      (id : Str) (now : ℕ) (w : World)
      → Rows w.heartbeats
      → Rows (resume_heartbeat f id now w).0.heartbeats
  unfolding resume_heartbeat
  resume_heartbeat-Rows id now w r =
      by_id-Rows f get_by_id id w (resume_known f id now) (λ h s. resume_known-Rows id now h w s r)
        r

  pub delete_heartbeat-Rows :
      (id : Str) (w : World) → Rows w.heartbeats → Rows (delete_heartbeat f id w).0.heartbeats
  unfolding delete_heartbeat
  delete_heartbeat-Rows id w r =
      if_elim (λ (x : World × Option Error). Rows x.0.heartbeats) (f get_by_id id) (λ e. r)
        (λ e. elim (Option-cases (lookup id w.heartbeats)) [
          | inl miss ↦ rw miss r
          | inr hit ↦ rw hit.1 (
              if_elim (λ (x : World × Option Error). Rows x.0.heartbeats) (f delete id) (λ e'. r)
                (λ e'. erase-Each IsRow id w.heartbeats r))
        ])

  -- A window that the service lets through.
  valid_grace-bounds :
      (interval : Option ℕ) (z : ℤ) (i g : ℕ)
      → valid_grace interval z ≡ some (i, g)
      → (interval ≡ some i) × (g ≤ i)
  unfolding valid_grace
  valid_grace-bounds none z i g e = cc
  valid_grace-bounds (some n) z i g e = elim (Option-cases (in_range 0 n z)) [
    | inl bad ↦ ground arith
    | inr (m, good) ↦ ground (arith, in_range-bounds 0 n z m good)
  ]

  create_valid-Rows :
      (allowed : ℕ → Bool) (input : CreateInput) (id token : Str) (o : Option (ℕ × ℕ)) (w : World)
      → ((i g : ℕ) → o ≡ some (i, g) → IsWindow i g)
      → Rows w.heartbeats
      → Rows (create_valid f allowed input id token o w).0.heartbeats
  unfolding create_valid
  create_valid-Rows allowed input id token none w ok_window r = r
  create_valid-Rows allowed input id token (some (i, g)) w ok_window r =
      let inserted =
        insert-Each IsRow id (new_row f input id token i g) w.heartbeats
          (refl, new_row-IsSound f input id token i g (ok_window i g refl)) r in
      if_elim (λ (x : World × Result). Rows x.0.heartbeats) (f count []) (λ e. r)
        (λ e.
          if_elim (λ (x : World × Result). Rows x.0.heartbeats)
            (not (allowed (length w.heartbeats))) (λ e'. r)
            (λ e'.
              if_elim (λ (x : World × Result). Rows x.0.heartbeats) (f create id) (λ e''. r)
                (λ e''.
                  by_id-Rows f get_again id _ (λ h v. (emit (created id) v, ok h)) (λ h s. inserted)
                    inserted)))

  validate_create_input-IsWindow :
      (input : CreateInput) (i g : ℕ) → validate_create_input input ≡ some (i, g) → IsWindow i g
  unfolding validate_create_input
  validate_create_input-IsWindow input i g e = elim (Bool-cases (is_valid_name input.name)) [
    | inr bad ↦ ground arith
    | inl good ↦
        let window =
          valid_grace-bounds
            (in_range min_interval_seconds max_interval_seconds input.interval_seconds)
            input.grace_seconds i g (ground arith) in
        let bounds =
          in_range-bounds min_interval_seconds max_interval_seconds input.interval_seconds i
            window.0 in
        (bounds.0, bounds.1, window.1)
  ]

  pub create_heartbeat-Rows :
      (allowed : ℕ → Bool) (input : CreateInput) (id token : Str) (w : World)
      → Rows w.heartbeats
      → Rows (create_heartbeat f allowed input id token w).0.heartbeats
  unfolding create_heartbeat
  create_heartbeat-Rows allowed input id token w r =
      create_valid-Rows allowed input id token (validate_create_input input) w
        (validate_create_input-IsWindow input) r

  or_in_range-bounds :
      (low high old n : ℕ) (o : Option ℤ)
      → or_in_range low high old o ≡ some n
      → (n ≡ old) ⊎ ((low ≤ n) × (n ≤ high))
  unfolding or_in_range
  or_in_range-bounds low high old n none e = inl (ground arith)
  or_in_range-bounds low high old n (some z) e = inr (in_range-bounds low high z n e)

  window_from-IsWindow :
      (h : Heartbeat) (input : UpdateInput) (interval : ℕ) (i g : ℕ)
      → IsSound h
      → min_interval_seconds ≤ interval
      → interval ≤ max_interval_seconds
      → window_from f h input (some interval) ≡ some (i, g)
      → IsWindow i g
  unfolding window_from
  window_from-IsWindow h input interval i g s low high e =
      elim (Option-cases (or_in_range 0 interval h.grace_seconds input.grace_seconds)) [
        | inl bad ↦ ground arith
        | inr (m, good) ↦ ground arith
      ]

  new_window-IsWindow :
      (h : Heartbeat) (input : UpdateInput) (i g : ℕ)
      → IsSound h
      → new_window f h input ≡ some (i, g)
      → IsWindow i g
  unfolding new_window window_from
  new_window-IsWindow h input i g s e =
      elim (Option-cases (
        or_in_range min_interval_seconds max_interval_seconds h.interval_seconds
          input.interval_seconds)) [
            | inl bad ↦ ground arith
            | inr (m, good) ↦ ground (
              arith,
              or_in_range-bounds min_interval_seconds max_interval_seconds h.interval_seconds m
                  input.interval_seconds good,
              window_from-IsWindow h input m i g s,
            )
          ]

  update_valid-Rows :
      (id : Str) (name : Option Str) (h : Heartbeat) (o : Option (ℕ × ℕ)) (w : World)
      → IsRow id h
      → ((i g : ℕ) → o ≡ some (i, g) → IsWindow i g)
      → Rows w.heartbeats
      → Rows (update_valid f id name h o w).0.heartbeats
  unfolding update_valid
  update_valid-Rows id name h none w s ok_window r = r
  update_valid-Rows id name h (some (i, g)) w s ok_window r =
      let inserted =
        insert-Each IsRow id (updated_row f h name i g) w.heartbeats
          (s.0, updated_row-IsSound f h name i g s.1 (ok_window i g refl)) r in
      if_elim (λ (x : World × Result). Rows x.0.heartbeats) (f update id) (λ e. r)
        (λ e.
          by_id-Rows f get_again id _ (λ h' v. (emit (updated id) v, ok h')) (λ h' s'. inserted)
            inserted)

  update_known-Rows :
      (id : Str) (input : UpdateInput) (h : Heartbeat) (w : World)
      → IsRow id h
      → Rows w.heartbeats
      → Rows (update_known f id input h w).0.heartbeats
  unfolding update_known
  update_known-Rows id input h w s r =
      if_elim (λ (x : World × Result). Rows x.0.heartbeats) (name_allowed f input.name)
        (λ e.
          update_valid-Rows id input.name h (new_window f h input) w s
            (λ i g. new_window-IsWindow h input i g s.1) r)
        (λ e. r)

  pub update_heartbeat-Rows :
      (id : Str) (input : UpdateInput) (w : World)
      → Rows w.heartbeats
      → Rows (update_heartbeat f id input w).0.heartbeats
  unfolding update_heartbeat
  update_heartbeat-Rows id input w r =
      by_id-Rows f get_by_id id w (update_known f id input)
        (λ h s. update_known-Rows id input h w s r) r

  rotated-Rows :
      (id token : Str) (o : Option Heartbeat) (w : World)
      → lookup id w.heartbeats ≡ o
      → Rows w.heartbeats
      → Rows (rotated f id token o w).0.heartbeats
  unfolding rotated
  rotated-Rows id token none w e r = r
  rotated-Rows id token (some h) w e r =
      let s = lookup-Each IsRow id h w.heartbeats e r in
      reread-Rows id _
        (insert-Each IsRow id (record h { ping_token = token }) w.heartbeats (s.0, ground arith) r)

  pub rotate_ping_token-Rows :
      (id token : Str) (w : World)
      → Rows w.heartbeats
      → Rows (rotate_ping_token f id token w).0.heartbeats
  unfolding rotate_ping_token
  rotate_ping_token-Rows id token w r =
      if_elim (λ (x : World × Result). Rows x.0.heartbeats) (f rotate id) (λ e. r)
        (λ e. rotated-Rows id token (lookup id w.heartbeats) w refl r)
