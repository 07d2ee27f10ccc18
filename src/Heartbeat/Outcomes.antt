-- ===== src/Heartbeat/Outcomes.antt =====
-- What a deadline check leaves behind, and what a pause and a resume do together.
use maintenant.Base.{
  ℕ, ◌≤◌, ◌/◌, ◌≡◌, refl, sym, ◌∙◌, ◌⊎◌, inl, inr, Bool, true, false, ◌&&◌, ◌||◌, Option, none,
  some, List, [], ◌∷◌, arith, Str, Str_eq, str_eq, str_eq_iff, any, if_elim, Bool-cases,
  Option-cases, ap,
}
use maintenant.Base.Map.{Map, lookup, insert, lookup-insert}
use maintenant.Heartbeat.Model.{
  HeartbeatStatus, new, up, down, started, paused, is_up, is_started, second, normal, Heartbeat,
  status_changed, deadline_from, is_paused,
}
use maintenant.Heartbeat.Store.{
  Call, close_pause, get_by_id, get_again, update_state, list_overdue, pause, resume, Faults, World,
  emit, replace, stored, past, overdue, overdue_rows, stored_time,
}
use maintenant.Heartbeat.Pings.{Result}
use maintenant.Heartbeat.Service.{missed, miss, miss_each, check_deadlines}
use maintenant.Heartbeat.Edits.{
  paused_row, pause_known, pause_heartbeat, resumed_row, resume_known, resume_heartbeat, reread,
}
use maintenant.Heartbeat.Rows.{rows-miss}
use maintenant.Heartbeat.Invariant.{Rows}

-- A heartbeat that waits for a ping has a deadline that is not before the second of `now`, or none.
abbrev pub InTime : ℕ → HeartbeatStatus → Option ℕ → Type 0
InTime now status none = Unit
InTime now up (some deadline) = now / second ≤ deadline / second
InTime now started (some deadline) = now / second ≤ deadline / second
InTime now new (some deadline) = Unit
InTime now down (some deadline) = Unit
InTime now paused (some deadline) = Unit

InTime-overdue :
    (now : ℕ) (status : HeartbeatStatus) (deadline : Option ℕ)
    → ((is_up status || is_started status) && past now deadline) ≡ false
    → InTime now status deadline
InTime-overdue now status none h = tt
InTime-overdue now up (some deadline) h = ground (arith, h)
InTime-overdue now started (some deadline) h = ground (arith, h)
InTime-overdue now new (some deadline) h = tt
InTime-overdue now down (some deadline) h = tt
InTime-overdue now paused (some deadline) h = tt

abbrev has_id : Str → Heartbeat → Bool
has_id id h = str_eq h.id id

overdue_rows-has :
    (now : ℕ) (m : Map Str Heartbeat) (id : Str) (h : Heartbeat)
    → Rows m
    → lookup id m ≡ some h
    → overdue now h ≡ true
    → any (has_id id) (overdue_rows now m) ≡ true
unfolding lookup overdue_rows any
overdue_rows-has now [] id h r e due = cc
overdue_rows-has now ((j, v) ∷ m) id h r e due = elim (Bool-cases (str_eq j id)) [
  | inl here ↦
      let same : v ≡ h = ground arith in
      let name : str_eq v.id id ≡ true = rw (r.0.0) here in
      let late : overdue now v ≡ true = rw same due in rw (late, overdue_rows, any, name) refl
  | inr later ↦ let found = overdue_rows-has now m id h r.1 (ground arith) due in ground arith
]

lookup-inserted :
    (id : Str) (v : Heartbeat) (m : Map Str Heartbeat) → lookup id (insert id v m) ≡ some v
lookup-inserted id v m = ground (arith, lookup-insert id id v m, str_eq_iff id id)

module _ (f : Faults) (now : ℕ) where
  lookup-miss :
      (x : Heartbeat) (w : World) (id : Str) (h : Heartbeat)
      → f update_state x.id ≡ false
      → lookup id (miss f now x w).heartbeats ≡ some h
      → (overdue now h ≡ false) ⊎ ((has_id id x ≡ false) × (lookup id w.heartbeats ≡ some h))
  unfolding replace missed
  lookup-miss x w id h works e = elim (Option-cases (lookup x.id w.heartbeats)) [
    | inl absent ↦
        let rows : (miss f now x w).heartbeats ≡ w.heartbeats =
          rows-miss f now x w ∙ rw (works, absent) refl in
        inr (ground (arith, str_eq_iff x.id id), rw (sym rows) e)
    | inr (old, there) ↦
        let rows : (miss f now x w).heartbeats ≡ insert x.id (stored (missed f x)) w.heartbeats =
          rows-miss f now x w ∙ rw (works, there) refl in
        let found : lookup id (insert x.id (stored (missed f x)) w.heartbeats) ≡ some h =
          rw (sym rows) e in
        elim (Bool-cases (str_eq x.id id)) [
          | inl hit ↦
              let same : stored (missed f x) ≡ h =
                ground (arith, lookup-insert x.id id (stored (missed f x)) w.heartbeats) in
              inl (rw (sym same) refl)
          | inr other ↦
              inr (other, ground (arith, lookup-insert x.id id (stored (missed f x)) w.heartbeats))
        ]
  ]

  -- Rows whose heartbeats are all in the list that is handled are not overdue at the end.
  settled :
      (hs : List Heartbeat) (w : World) (id : Str) (h : Heartbeat)
      → ((j : Str) → f update_state j ≡ false)
      → ((v : Heartbeat)
          → lookup id w.heartbeats ≡ some v
          → overdue now v ≡ true
          → any (has_id id) hs ≡ true)
      → lookup id (miss_each f now hs w).heartbeats ≡ some h
      → overdue now h ≡ false
  unfolding miss_each any
  settled [] w id h works listed e = elim (Bool-cases (overdue now h)) [
    | inl due ↦ let absurd = listed h e due in cc
    | inr fine ↦ fine
  ]
  settled (x ∷ hs) w id h works listed e =
      settled hs (miss f now x w) id h works
        (λ v found due. elim (lookup-miss x w id v (works x.id) found) [
          | inl fine ↦ (let wrong : true ≡ false = sym due ∙ fine in cc)
          | inr (other, before) ↦ let here = listed v before due in ground arith
        ])
        e

  check_deadlines_runs :
      (w : World)
      → f list_overdue [] ≡ false
      → check_deadlines f now w ≡ miss_each f now (overdue_rows now w.heartbeats) w
  unfolding check_deadlines
  check_deadlines_runs w lists = rw lists refl

  -- If every row stands under its own id and is sound, the list of the overdue heartbeats can be read and
  -- every state can be written, then after a deadline check at `now` no heartbeat is up or started with
  -- a deadline in an earlier second than that of `now`.
  pub check_deadlines_settles :
      (w : World) (id : Str) (h : Heartbeat)
      → ((j : Str) → f update_state j ≡ false)
      → f list_overdue [] ≡ false
      → Rows w.heartbeats
      → lookup id (check_deadlines f now w).heartbeats ≡ some h
      → InTime now h.status h.next_deadline_at
  check_deadlines_settles w id h works lists r e = InTime-overdue now h.status h.next_deadline_at (
      settled (overdue_rows now w.heartbeats) w id h works
        (λ v found due. overdue_rows-has now w.heartbeats id v r found due)
        (ap (λ (v : World). lookup id v.heartbeats) (sym (check_deadlines_runs w lists)) ∙ e))

  reread-world : (id : Str) (w : World) → (reread f id w).0 ≡ w
  unfolding reread
  reread-world id w =
      if_elim (λ (x : World × Result). x.0 ≡ w) (f get_again id) (λ e. refl)
        (λ e. elim (Option-cases (lookup id w.heartbeats)) [
          | inl absent ↦ rw absent refl
          | inr (h, there) ↦ rw there refl
        ])

  pause_known-world :
      (id : Str) (h : Heartbeat) (w : World)
      → f pause id ≡ false
      → is_paused h.status ≡ false
      → (pause_known f id now h w).0
        ≡ emit (status_changed id h.status paused) (record w {
          heartbeats = insert id (paused_row f h) w.heartbeats;
          open_pauses = insert id now w.open_pauses;
        })
  unfolding pause_known
  pause_known-world id h w works awake = rw (awake, works) (reread-world id _)

  resume_known-world :
      (id : Str) (h : Heartbeat) (w : World)
      → f resume id ≡ false
      → is_paused h.status ≡ true
      → (resume_known f id now h w).0
        ≡ emit (status_changed id paused up) (
            close_pause id (record w { heartbeats = insert id (resumed_row f h now) w.heartbeats }))
  unfolding resume_known
  resume_known-world id h w works asleep = rw (asleep, works) (reread-world id _)

  pause-world :
      (id : Str) (h : Heartbeat) (w : World)
      → f get_by_id id ≡ false
      → lookup id w.heartbeats ≡ some h
      → (pause_heartbeat f id now w).0 ≡ (pause_known f id now h w).0
  unfolding pause_heartbeat
  pause-world id h w works there = rw (works, there) refl

  resume-world :
      (id : Str) (h : Heartbeat) (w : World)
      → f get_by_id id ≡ false
      → lookup id w.heartbeats ≡ some h
      → (resume_heartbeat f id now w).0 ≡ (resume_known f id now h w).0
  unfolding resume_heartbeat
  resume-world id h w works there = rw (works, there) refl

-- If no call of the store fails, then to pause a heartbeat that is not paused and to resume it leaves
-- its row as it was, but up, out of its alert and with a new deadline, and tells the listeners of the
-- two changes of status only: no recovery is told, even of a heartbeat that was alerting.
pub pause_resume :
    (f : Faults) (id : Str) (now later : ℕ) (w : World) (h : Heartbeat)
    → ((c : Call) (j : Str) → f c j ≡ false)
    → lookup id w.heartbeats ≡ some h
    → is_paused h.status ≡ false
    → let w' = (resume_heartbeat f id later (pause_heartbeat f id now w).0).0 in
      (lookup id w'.heartbeats
        ≡ some (record h {
          status = up;
          alert_state = normal;
          next_deadline_at = some (stored_time (deadline_from later h));
        }))
      × (w'.out ≡ status_changed id paused up ∷ status_changed id h.status paused ∷ w.out)
unfolding paused_row resumed_row close_pause
pause_resume f id now later w h works there awake =
    let w' : World = emit (status_changed id h.status paused) (record w {
      heartbeats = insert id (paused_row f h) w.heartbeats;
      open_pauses = insert id now w.open_pauses;
    }) in
    let paused_world =
      pause-world f now id h w (works get_by_id id) there
      ∙ pause_known-world f now id h w (works pause id) awake in
    let resumed_world =
      ap (λ (v : World). (resume_heartbeat f id later v).0) paused_world
      ∙ resume-world f later id (paused_row f h) w' (works get_by_id id)
          (lookup-inserted id (paused_row f h) w.heartbeats)
      ∙ resume_known-world f later id (paused_row f h) w' (works resume id) refl in
    (
      ap (λ (v : World). lookup id v.heartbeats) resumed_world ∙ lookup-inserted id _ _,
      ap (λ (v : World). v.out) resumed_world,
    )
